-- ===== src/Drivers/Speaker.antt =====
-- drivers/speaker.c: the PC speaker. The notes of include/drivers/speaker.h are `double`s, which the
-- calls cut down to whole numbers.
pub mod Gate
mod Tests
use gyarad_os.Base.{ℕ, zero, suc, ◌/◌, ◌%◌, ◌^◌, not, ◌==◌, if◌then◌else◌, bit_and, bit_or}
use gyarad_os.Machine.Bus.{Log, Device, outb, inb}

-- `E3`, `C3S` and `A3`, as `uint32_t`.
abbrev pub note_e3 : ℕ
note_e3 = 659

abbrev pub note_c3s : ℕ
note_c3s = 554

abbrev pub note_a3 : ℕ
note_a3 = 880

-- A `for` loop with `n` rounds left.
unfoldable pub rounds : (n : ℕ) → (Log → Log) → Log → Log
rounds zero body l = l
rounds (suc n) body l = rounds n body (body l)

module _ (dev : Device) where
  -- `frequency` is not 0.
  unfoldable pub speaker_play_sound : (frequency : ℕ) → Log → Log
  speaker_play_sound frequency l =
      let divider = 1193180 / frequency in
      let l1 = outb (divider / 2 ^ 8) 0x42 (outb (divider % 2 ^ 8) 0x42 (outb 0xb6 0x43 l)) in
      let (temp, l2) = inb dev 0x61 l1 in
      if not (temp == bit_or temp 3) then outb (bit_or temp 3) 0x61 l2 else l2

  unfoldable pub speaker_mute : Log → Log
  speaker_mute l = let (v, l') = inb dev 0x61 l in outb (bit_and v 0xfc) 0x61 l'

  unfoldable pub speaker_single_beep : Log → Log
  speaker_single_beep l = speaker_mute (rounds 100000 (speaker_play_sound 250) l)

  -- A note of `n` rounds, and the rest after it.
  abbrev pub note_and_rest : (n frequency : ℕ) → Log → Log
  note_and_rest n frequency l =
      rounds 450000 speaker_mute (rounds n (speaker_play_sound frequency) l)

  unfoldable pub sound_bootup : Log → Log
  sound_bootup l =
      let l1 = note_and_rest 900000 note_e3 l in
      let l2 = note_and_rest 900000 note_e3 l1 in
      let l3 = note_and_rest 450000 note_e3 l2 in
      let l4 = note_and_rest 450000 note_c3s l3 in
      speaker_mute (rounds 1800000 (speaker_play_sound note_a3) l4)
