-- ===== src/Drivers/Pic/Masks.antt =====
-- `enable_irq` and `disable_irq` change one bit of one controller's mask.
use native.Mathlib.Nat.{mod-eq_of_lt}
use gyarad_os.Base.{
  ℕ, ◌-◌, ◌/◌, ◌%◌, ◌^◌, ◌<◌, ◌≡◌, ◌∙◌, ap, true, false, ◌∷◌, bit_and, bit_or, arith, ◌==◌,
  if◌then◌else◌, ltb, Bool-cases, inl, inr,
}
use gyarad_os.Base.Bits.{bit, bit-clear, bit-set}
use gyarad_os.Machine.Bus.{out, got, Log, Device, outb, inb}
use gyarad_os.Drivers.Pic.{is_slave, irq_bit, not32, and_port, or_port, enable_irq, disable_irq}

-- The mask port of the controller that has the line, and the line's bit there.
unfoldable pub mask_port : ℕ → ℕ
mask_port irq = if ltb irq 8 then 0x21 else 0xa1

-- The mask `v` with bit `i` set to `b`.
abbrev pub SetsBit : (v w i b : ℕ) → Type 0
SetsBit v w i b = (j : ℕ) → j < 8 → bit w j ≡ (if i == j then b else bit v j)

-- A read of the port followed by a write of it, with the bit changed.
pub record Updates (dev : Device) (l l' : Log) (port i b : ℕ) : Type 0 where
  pub value : ℕ
  pub byte : value < 0x100
  pub trace : l' ≡ out value port ∷ got (dev l port % 0x100) port ∷ l
  pub bits : SetsBit (dev l port % 0x100) value i b

and_port-Updates :
    (dev : Device) (l : Log) (port i : ℕ)
    → i < 8
    → port < 0x1_0000
    → Updates dev l (and_port dev port (not32 (irq_bit i)) l) port i 0
unfolding and_port not32 irq_bit inb outb
and_port-Updates dev l port i h hp = record {
  value = bit_and (dev l port % 0x100) (0xffff_ffff - 2 ^ i % 2 ^ 32) % 0x100;
  byte = omega arith;
  trace = cc (mod-eq_of_lt hp);
  bits = λ j hj. bit-clear (dev l port % 0x100) i j (omega arith) h hj;
}

or_port-Updates :
    (dev : Device) (l : Log) (port i : ℕ)
    → i < 8
    → port < 0x1_0000
    → Updates dev l (or_port dev port (irq_bit i) l) port i 1
unfolding or_port irq_bit inb outb
or_port-Updates dev l port i h hp = record {
  value = bit_or (dev l port % 0x100) (2 ^ i % 2 ^ 32) % 0x100;
  byte = omega arith;
  trace = cc (mod-eq_of_lt hp);
  bits = λ j hj. bit-set (dev l port % 0x100) i j (omega arith) h hj;
}

-- `enable_irq` of each of the 16 lines reads the mask of the line's controller, and writes it back
-- with the line's bit clear and the seven others as they were.
pub enable_irq-Updates :
    (dev : Device) (l : Log) (irq : ℕ)
    → irq < 16
    → Updates dev l (enable_irq dev irq l) (mask_port irq) (irq % 8) 0
unfolding enable_irq is_slave mask_port
enable_irq-Updates dev l irq h = elim (Bool-cases (ltb irq 8)) [
  | inl master ↦
      let m : (irq / 8 % 2 == 1) ≡ false = ground arith in
      let e : irq % 8 ≡ irq = ground arith in
      rw (master, m, e) (and_port-Updates dev l 0x21 irq (ground arith) (omega arith))
  | inr slave ↦
      let s : (irq / 8 % 2 == 1) ≡ true = ground arith in
      let e : irq % 8 ≡ irq - 8 = ground arith in
      rw (slave, s, e) (and_port-Updates dev l 0xa1 (irq - 8) (ground arith) (omega arith))
]

-- `disable_irq` of each of the 16 lines reads the mask of the line's controller, and writes it
-- back with the line's bit set and the seven others as they were.
pub disable_irq-Updates :
    (dev : Device) (l : Log) (irq : ℕ)
    → irq < 16
    → Updates dev l (disable_irq dev irq l) (mask_port irq) (irq % 8) 1
unfolding disable_irq is_slave mask_port
disable_irq-Updates dev l irq h = elim (Bool-cases (ltb irq 8)) [
  | inl master ↦
      let m : (irq / 8 % 2 == 1) ≡ false = ground arith in
      let e : irq % 8 ≡ irq = ground arith in
      rw (master, m, e) (or_port-Updates dev l 0x21 irq (ground arith) (omega arith))
  | inr slave ↦
      let s : (irq / 8 % 2 == 1) ≡ true = ground arith in
      let e : irq % 8 ≡ irq - 8 = ground arith in
      rw (slave, s, e) (or_port-Updates dev l 0xa1 (irq - 8) (ground arith) (omega arith))
]

-- The device keeps its mask: a read of the port gets what was last written there.
pub record IsLatch (dev : Device) (port : ℕ) : Type 0 where
  pub last : (value : ℕ) (l : Log) → dev (out value port ∷ l) port ≡ value

-- On controllers that keep their masks, disabling one of the 16 lines and enabling it again leaves
-- a mask with the line's bit clear and every other bit as it was before.
pub enable_irq-disable_irq :
    (dev : Device) (l : Log) (irq j : ℕ)
    → irq < 16
    → IsLatch dev (mask_port irq)
    → j < 8
    → bit (dev (enable_irq dev irq (disable_irq dev irq l)) (mask_port irq)) j
      ≡ (if irq % 8 == j then 0 else bit (dev l (mask_port irq) % 0x100) j)
enable_irq-disable_irq dev l irq j h latch hj =
    let port = mask_port irq in
    let l1 = disable_irq dev irq l in
    let d = disable_irq-Updates dev l irq h in
    let e = enable_irq-Updates dev l1 irq h in
    let seen : dev l1 port ≡ d.value = ap (λ t. dev t port) d.trace ∙ latch.last d.value _ in
    let kept : dev l1 port % 0x100 ≡ d.value = ap (λ v. v % 0x100) seen ∙ mod-eq_of_lt d.byte in
    let final : dev (enable_irq dev irq l1) port ≡ e.value =
      ap (λ t. dev t port) e.trace ∙ latch.last e.value _ in
    rw final (e.bits j hj ∙ rw (kept, d.bits j hj) (ground arith))
