-- ===== src/Base/Bits.antt =====
-- Facts about single bits of a byte, checked at every value.
use Prim.Native.Nat.{ℕ, zero, suc, ◌-◌, ◌/◌, ◌%◌, ◌^◌, ◌<◌, bit_and, bit_or}
use mathlib.Core.Path.{◌≡◌, refl}
use mathlib.Core.Bool.{Bool, true, false, ◌||◌}
use mathlib.Core.Logic.{inl, inr}
use native.Mathlib.Omega.{arith}
use gyarad_os.Base.Tests.{◌==◌, ==_iff, Bool-cases, if◌then◌else◌}

-- Bit `i` of a number.
abbrev pub bit : ℕ → ℕ → ℕ
bit v i = v / 2 ^ i % 2

-- A test that every number below the bound passes.
unfoldable pub all_below : (bound : ℕ) → (test : ℕ → Bool) → Bool
all_below zero test = true
all_below (suc last) test = if test last then all_below last test else false

pub all_below_sound :
    (bound : ℕ) (test : ℕ → Bool) (v : ℕ) → all_below bound test ≡ true → v < bound → test v ≡ true
unfolding all_below
all_below_sound zero test v passed small = absurd (omega arith)
all_below_sound (suc last) test v passed small = ground (arith, all_below_sound last test v)

clear_table :
    all_below 256 (λ v. all_below 8 (λ i. all_below 8 (λ j.
      bit (bit_and v (0xffff_ffff - 2 ^ i % 2 ^ 32) % 0x100) j == (if i == j then 0 else bit v j))))
    ≡ true
unfolding all_below
clear_table = refl

-- The low byte of `v & ~(1 << i)` in 32 bits: bit `i` is clear and the others are those of `v`.
pub bit-clear :
    (v i j : ℕ)
    → v < 256
    → i < 8
    → j < 8
    → bit (bit_and v (0xffff_ffff - 2 ^ i % 2 ^ 32) % 0x100) j ≡ (if i == j then 0 else bit v j)
bit-clear v i j hv hi hj =
    (==_iff _ _).0
      (all_below_sound 8 _ j (all_below_sound 8 _ i (all_below_sound 256 _ v clear_table hv) hi) hj)

set_table :
    all_below 256 (λ v. all_below 8 (λ i.
      all_below 8
        (λ j. bit (bit_or v (2 ^ i % 2 ^ 32) % 0x100) j == (if i == j then 1 else bit v j))))
    ≡ true
unfolding all_below
set_table = refl

-- The low byte of `v | (1 << i)`: bit `i` is set and the others are those of `v`.
pub bit-set :
    (v i j : ℕ)
    → v < 256
    → i < 8
    → j < 8
    → bit (bit_or v (2 ^ i % 2 ^ 32) % 0x100) j ≡ (if i == j then 1 else bit v j)
bit-set v i j hv hi hj =
    (==_iff _ _).0
      (all_below_sound 8 _ j (all_below_sound 8 _ i (all_below_sound 256 _ v set_table hv) hi) hj)

unfoldable pub any_below : ℕ → (ℕ → Bool) → Bool
any_below zero p = false
any_below (suc n) p = p n || any_below n p

pub any_below_sound :
    (n : ℕ) (p : ℕ → Bool) → any_below n p ≡ true → (x : ℕ) × (x < n) × (p x ≡ true)
unfolding any_below
any_below_sound zero p h = cc
any_below_sound (suc n) p h = elim (Bool-cases (p n)) [
  | inl here ↦ (n, omega arith, here)
  | inr there ↦ let (x, lt, e) = any_below_sound n p (ground arith) in (x, omega arith, e)
]

pub any_below_complete : (n : ℕ) (p : ℕ → Bool) (x : ℕ) → x < n → p x ≡ true → any_below n p ≡ true
unfolding any_below
any_below_complete zero p x h e = absurd (omega arith)
any_below_complete (suc n) p x h e = elim (Bool-cases (p n)) [
  | inl here ↦ rw here
  | inr there ↦ ground (arith, any_below_complete n p x)
]
