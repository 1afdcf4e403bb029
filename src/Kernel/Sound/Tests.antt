-- ===== src/Kernel/Sound/Tests.antt =====
-- A card that is always ready, and a sound that plays.
use gyarad_os.Base.{arith, ℕ, ◌+◌, ◌*◌, ◌%◌, ◌≡◌, refl, some, [], ◌∷◌, if◌then◌else◌, bit_or}
use gyarad_os.Base.Int.{pos, negsuc}
use gyarad_os.Machine.Bus.{Log, got, inb}
use gyarad_os.Kernel.State.{Env}
use gyarad_os.Kernel.Sound.{
  Sound, is_8bit, is_mono, sound_blaster_play, sound_blaster_resume, sound_blaster_stop,
  init_sound_blaster, sound_blaster_reset, poll,
}
use gyarad_os.Kernel.Sound.Status.{Reaches, Plays, start, Reaches-refuses}
use gyarad_os.Kernel.Sound.Card.{Answers, sent, sound_blaster_play-sent}
use gyarad_os.Kernel.Tests.Data.{machine, running}

abbrev playing : Sound
playing = record { channel = 1; mode = 2; status = 1; file = pos 2; fd_b_current = 0x8000 }

ready-Answers : Answers 9 (λ l port. 0x20)
unfolding poll inb
ready-Answers l = (got 0x20 0x22c ∷ l, refl)

sound_blaster_play-sent_example :
    (l' : Log) × (c : ℕ) × (md : ℕ) × (low : ℕ) × (high : ℕ) × (sound_blaster_play 9
        (λ l port. 0x20)
        0
        0x8000
        playing
        []
      ≡ some l')
    × (sent 0x22c l' ≡ high ∷ low ∷ md ∷ c ∷ [])
    × (c ≡ bit_or 0 (if is_8bit playing then 0xc6 else 0xb6))
    × (md ≡ (if is_mono playing then 0 else 0x10))
    × ((high * 0x100 + low + 1) % 0x1_0000 ≡ 0x8000 % 0x1_0000)
unfolding sent
sound_blaster_play-sent_example =
    sound_blaster_play-sent 9 (λ l port. 0x20) ready-Answers 0 0x8000 playing [] (omega arith)

-- A card that has just been reset.
abbrev card : Env
card = record machine { dev = λ l port. 0xaa }

abbrev stopped : Sound
stopped = record playing { mode = 0; status = 0 }

stopped-Reaches : Reaches card 9 0x8000 0 stopped
unfolding init_sound_blaster sound_blaster_reset poll inb
stopped-Reaches = start 0 playing stopped running.console.screen _ refl refl

Reaches-refuses_example :
    Plays card 9 0x8000 0 stopped
    × (sound_blaster_resume 9 card.dev stopped [] ≡ some (negsuc 0, []))
    × (sound_blaster_stop 9 card.dev stopped [] ≡ some (negsuc 0, []))
Reaches-refuses_example = Reaches-refuses card 9 0x8000 0 stopped [] stopped-Reaches
