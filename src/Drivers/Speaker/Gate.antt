-- ===== src/Drivers/Speaker/Gate.antt =====
-- The gate of the speaker: the low two bits of port 0x61, whose other bits belong to others.
use gyarad_os.Base.{
  ℕ, zero, suc, ◌+◌, ◌*◌, ◌/◌, ◌%◌, ◌^◌, ◌<◌, ◌≡◌, ◌≢◌, refl, ◌∙◌, true, Bool-cases, inl, inr,
  arith, ◌∷◌, ◌==◌, ==_iff, bit_and, bit_or,
}
use gyarad_os.Base.Bits.{all_below, all_below_sound}
use gyarad_os.Machine.Bus.{Log, Device, out, got, outb, inb}
use gyarad_os.Drivers.Speaker.{
  speaker_play_sound, speaker_mute, speaker_single_beep, sound_bootup, rounds, note_and_rest,
  note_e3, note_c3s, note_a3,
}

-- A port that keeps what was written to it last.
pub record IsLatch (dev : Device) (port : ℕ) : Type 0 where
  pub written : (v : ℕ) (l : Log) → dev (out v port ∷ l) port ≡ v
  pub elsewhere : (v other : ℕ) (l : Log) → other ≢ port → dev (out v other ∷ l) port ≡ dev l port
  pub read : (v other : ℕ) (l : Log) → dev (got v other ∷ l) port ≡ dev l port

-- The byte in the port.
abbrev pub gate : Device → Log → ℕ
gate dev l = dev l 0x61 % 256

on_table : all_below 256 (λ v. bit_or v 3 == v / 4 * 4 + 3) ≡ true
unfolding all_below
on_table = refl

off_table : all_below 256 (λ v. bit_and v 0xfc == v / 4 * 4) ≡ true
unfolding all_below
off_table = refl

on-bits : (v : ℕ) → v < 256 → bit_or v 3 ≡ v / 4 * 4 + 3
on-bits v h = (==_iff _ _).0 (all_below_sound 256 _ v on_table h)

off-bits : (v : ℕ) → v < 256 → bit_and v 0xfc ≡ v / 4 * 4
off-bits v h = (==_iff _ _).0 (all_below_sound 256 _ v off_table h)

module _ (dev : Device) (latch : IsLatch dev 0x61) where
  -- A frequency that is played sets both bits of the gate, and leaves the other six as they were.
  speaker_play_sound-opens :
      (frequency : ℕ) (l : Log)
      → gate dev (speaker_play_sound dev frequency l) ≡ gate dev l / 4 * 4 + 3
  unfolding speaker_play_sound inb outb
  speaker_play_sound-opens frequency l =
      let divider = 1193180 / frequency in
      let l1 =
        out (divider / 2 ^ 8 % 256) 0x42 ∷ out (divider % 2 ^ 8 % 256) 0x42 ∷ out 0xb6 0x43 ∷ l in
      let same : dev l1 0x61 ≡ dev l 0x61 =
        (latch.elsewhere _ 0x42 _ (omega arith) ∙ latch.elsewhere _ 0x42 _ (omega arith))
        ∙ latch.elsewhere _ 0x43 l (omega arith) in
      let temp = dev l1 0x61 % 256 in
      let bits = on-bits temp (omega arith) in
      elim (Bool-cases (temp == bit_or temp 3)) [
        | inl e ↦ rw e (ground (arith, latch.read temp 0x61 l1, same, bits, e))
        | inr e ↦
            rw e
              (ground (arith, latch.written (bit_or temp 3 % 256) (got temp 0x61 ∷ l1), same, bits))
      ]

  speaker_mute-closes : (l : Log) → gate dev (speaker_mute dev l) ≡ gate dev l / 4 * 4
  unfolding speaker_mute inb outb
  speaker_mute-closes l = ground (
    arith,
    off-bits (gate dev l) (omega arith),
    latch.written (bit_and (gate dev l) 0xfc % 256) (got (gate dev l) 0x61 ∷ l),
  )

  -- The upper six bits stay, round after round.
  rounds-keeps :
      (body : Log → Log)
      → ((l : Log) → gate dev (body l) / 4 ≡ gate dev l / 4)
      → (n : ℕ) (l : Log) → gate dev (rounds n body l) / 4 ≡ gate dev l / 4
  unfolding rounds
  rounds-keeps body keep zero l = refl
  rounds-keeps body keep (suc n) l = rounds-keeps body keep n (body l) ∙ keep l

  play-keeps :
      (n frequency : ℕ) (l : Log)
      → gate dev (rounds n (speaker_play_sound dev frequency) l) / 4 ≡ gate dev l / 4
  play-keeps n frequency l =
      rounds-keeps (speaker_play_sound dev frequency)
        (λ l'. (let e = speaker_play_sound-opens frequency l' in omega arith)) n l

  note-keeps :
      (n frequency : ℕ) (l : Log) → gate dev (note_and_rest dev n frequency l) / 4 ≡ gate dev l / 4
  note-keeps n frequency l =
      rounds-keeps (speaker_mute dev) (λ l'. (let e = speaker_mute-closes l' in omega arith)) 450000
        _
      ∙ play-keeps n frequency l

  silent :
      (x l : Log)
      → gate dev x / 4 ≡ gate dev l / 4
      → gate dev (speaker_mute dev x) ≡ gate dev l / 4 * 4
  silent x l keep = (let e = speaker_mute-closes x in omega arith)

  -- After the melody, and after a beep, the speaker is silent: both bits of its gate are clear, and
  -- the six bits of the port that belong to other devices are what they were before it, on a port
  -- that keeps what is written to it.
  pub sound_bootup-closes :
      (l : Log)
      → (gate dev (sound_bootup dev l) ≡ gate dev l / 4 * 4)
        × (gate dev (speaker_single_beep dev l) ≡ gate dev l / 4 * 4)
  unfolding sound_bootup speaker_single_beep
  sound_bootup-closes l =
      let l1 = note_and_rest dev 900000 note_e3 l in
      let l2 = note_and_rest dev 900000 note_e3 l1 in
      let l3 = note_and_rest dev 450000 note_e3 l2 in
      let l4 = note_and_rest dev 450000 note_c3s l3 in
      let notes : gate dev l4 / 4 ≡ gate dev l / 4 =
        ((note-keeps 450000 note_c3s l3 ∙ note-keeps 450000 note_e3 l2)
          ∙ note-keeps 900000 note_e3 l1)
        ∙ note-keeps 900000 note_e3 l in
      (silent _ l (play-keeps 1800000 note_a3 l4 ∙ notes), silent _ l (play-keeps 100000 250 l))
