-- ===== src/Kernel/Sound/Card.antt =====
-- What a card that answers gets from the driver.
use mathlib.Core.Path.{subst}
use gyarad_os.Base.Bits.{all_below, all_below_sound}
use gyarad_os.Base.{
  ==_iff, Bool, true, false, ◌==◌, if◌then◌else◌, ◌<◌, ℕ, zero, suc, ◌+◌, ◌-◌, ◌*◌, ◌/◌, ◌%◌, ◌^◌,
  ◌≡◌, refl, ap, ◌∙◌, Bool, Bool-cases, inl, inr, not, Option, none, some, List, [], ◌∷◌, arith,
  ◌==◌, if◌then◌else◌, bit_or,
}
use gyarad_os.Machine.Bus.{out, got, Log, Device, outb, inb}
use gyarad_os.Kernel.Sound.{
  Sound, is_8bit, is_mono, poll, dsp_write, dsp_write2, sound_blaster_play,
}

-- What has been written to a port, the last one first.
unfoldable pub sent : (port : ℕ) → Log → List ℕ
sent port [] = []
sent port (out v p ∷ l) = if p == port then v ∷ sent port l else sent port l
sent port (got v p ∷ l) = sent port l

-- A log with the same bytes sent.
abbrev Kept : (port : ℕ) → Log → Option Log → Type 0
Kept port l none = Unit
Kept port l (some l') = sent port l' ≡ sent port l

Kept-read : (port v p : ℕ) (l : Log) (o : Option Log) → Kept port (got v p ∷ l) o → Kept port l o
unfolding sent
Kept-read port v p l none h = tt
Kept-read port v p l (some l') h = h

poll-sent :
    (patience : ℕ) (dev : Device) (port at : ℕ) (ready : ℕ → Bool) (l : Log)
    → Kept at l (poll patience dev port ready l)
unfolding poll inb
poll-sent zero dev port at ready l = tt
poll-sent (suc n) dev port at ready l = elim (Bool-cases (ready (dev l port % 0x100))) [
  | inl r ↦
      rw r
        (Kept-read at (dev l port % 0x100) port l (some (got (dev l port % 0x100) port ∷ l)) refl)
  | inr r ↦ rw r (
      Kept-read at (dev l port % 0x100) port l _
        (poll-sent n dev port at ready (got (dev l port % 0x100) port ∷ l)))
]

-- The card takes a byte after a while, whatever has passed on the bus.
abbrev pub Answers : (patience : ℕ) → Device → Type 0
Answers patience dev =
    (l : Log) → (l' : Log) × (poll patience dev 0x22c (λ v. not (v / 0x80 % 2 == 1)) l ≡ some l')

command_ok : Bool → ℕ → Bool
command_ok eight cmd =
    bit_or (if eight then bit_or cmd 0xc0 else bit_or cmd 0xb0) 0x06 % 0x100
    == bit_or cmd (if eight then 0xc6 else 0xb6)

command_table : (eight : Bool) → all_below 256 (command_ok eight) ≡ true
unfolding all_below command_ok
command_table true = refl
command_table false = refl

command_byte :
    (eight : Bool) (cmd : ℕ)
    → cmd < 0x100
    → bit_or (if eight then bit_or cmd 0xc0 else bit_or cmd 0xb0) 0x06 % 0x100
      ≡ bit_or cmd (if eight then 0xc6 else 0xb6)
unfolding command_ok
command_byte eight cmd h =
    (==_iff _ _).0 (all_below_sound 256 (command_ok eight) cmd (command_table eight) h)

module _ (patience : ℕ) (dev : Device) (answers : Answers patience dev) where
  dsp_write-sent :
      (v : ℕ) (l : Log)
      → (l' : Log) × (dsp_write patience dev v l ≡ some l')
        × (sent 0x22c l' ≡ v % 0x100 ∷ sent 0x22c l)
  unfolding dsp_write outb sent
  dsp_write-sent v l =
      let (l1, e) = answers l in
      (
        outb v 0x22c l1,
        rw (dsp_write, e) refl,
        ap (λ r. v % 0x100 ∷ r) (subst (Kept 0x22c l) e (poll-sent patience dev 0x22c 0x22c _ l)),
      )

  dsp_write2-sent :
      (v w : ℕ) (l : Log)
      → (l' : Log) × (dsp_write2 patience dev v w l ≡ some l')
        × (sent 0x22c l' ≡ w % 0x100 ∷ v % 0x100 ∷ sent 0x22c l)
  unfolding dsp_write2
  dsp_write2-sent v w l =
      let (l1, e1, s1) = dsp_write-sent v l in
      let (l2, e2, s2) = dsp_write-sent w l1 in
      (l2, rw (dsp_write2, e1) e2, s2 ∙ ap (λ r. w % 0x100 ∷ r) s1)

  -- A card that answers after a while gets the four bytes of a command to play, and the driver comes
  -- back: the command 0xc6 for a mode of 8 bits and 0xb6 for one of 16, with the bits that the local
  -- byte `cmd`, which is not initialised, had besides; the mode of the samples; and the number of samples less one, its low byte first.
  pub sound_blaster_play-sent :
      (cmd size : ℕ) (sb : Sound) (l : Log)
      → cmd < 0x100
      → (l' : Log) × (c : ℕ) × (md : ℕ) × (low : ℕ) × (high : ℕ) × (sound_blaster_play patience dev
            cmd size sb l
          ≡ some l')
        × (sent 0x22c l' ≡ high ∷ low ∷ md ∷ c ∷ sent 0x22c l)
        × (c ≡ bit_or cmd (if is_8bit sb then 0xc6 else 0xb6))
        × (md ≡ (if is_mono sb then 0 else 0x10))
        × ((high * 0x100 + low + 1) % 0x1_0000 ≡ size % 0x1_0000)
  unfolding sound_blaster_play
  sound_blaster_play-sent cmd size sb l byte =
      let c = bit_or (if is_8bit sb then bit_or cmd 0xc0 else bit_or cmd 0xb0) 0x06 in
      let last = (size % 2 ^ 16 + (2 ^ 16 - 1)) % 2 ^ 16 in
      let count : (last / 2 ^ 8 % 0x100 * 0x100 + last % 2 ^ 8 % 0x100 + 1) % 0x1_0000
          ≡ size % 0x1_0000 =
        omega arith in
      let md = if is_mono sb then 0 else 0x10 in
      let (l1, e1, s1) = dsp_write2-sent c md l in
      let (l2, e2, s2) = dsp_write2-sent (last % 2 ^ 8) (last / 2 ^ 8) l1 in
      (
        l2,
        c % 0x100,
        md % 0x100,
        last % 2 ^ 8 % 0x100,
        last / 2 ^ 8 % 0x100,
        rw (sound_blaster_play, e1) e2,
        s2 ∙ ap (λ r. last / 2 ^ 8 % 0x100 ∷ last % 2 ^ 8 % 0x100 ∷ r) s1,
        command_byte (is_8bit sb) cmd byte,
        ground arith,
        count,
      )
