-- ===== src/Kernel/Process/Slots.antt =====
-- The search for a process slot in `execute`, and the mask that `halt` gives it back to.
use gyarad_os.Base.{
  ℕ, ◌/◌, ◌^◌, ◌<◌, ◌≡◌, ◌≢◌, ◌⊎◌, inl, inr, refl, sym, ap, ◌∙◌, Option, none, some, Bool, true,
  ◌&&◌, not, arith, ltb, ◌==◌, bit_and, bit_xor, Option-cases,
}
use gyarad_os.Base.Bits.{all_below, all_below_sound}
use gyarad_os.Kernel.Process.{find_slot}

-- The bit of slot `i`.
abbrev pub slot_bit : ℕ → ℕ
slot_bit i = 0x80 / 2 ^ i

-- What a found slot has to satisfy.
pub record Placed (mask i mask' : ℕ) : Type 0 where
  pub slot : i < 7
  pub free : bit_and mask (slot_bit i) ≡ 0
  pub before : (l : ℕ) → l < i → bit_and mask (slot_bit l) ≢ 0
  pub taken : bit_and mask' (slot_bit i) ≡ slot_bit i
  pub given_back : bit_xor mask' (slot_bit i) ≡ mask
  pub small : mask' < 256

unfoldable placed : ℕ → Option (ℕ × ℕ) → Bool
placed mask none = all_below 7 (λ l. not (bit_and mask (slot_bit l) == 0))
placed mask (some (i, mask')) =
    ltb i 7
    && bit_and mask (slot_bit i) == 0
    && all_below i (λ l. not (bit_and mask (slot_bit l) == 0))
    && bit_and mask' (slot_bit i) == slot_bit i
    && bit_xor mask' (slot_bit i) == mask
    && ltb mask' 256

all_placed : all_below 256 (λ mask. placed mask (find_slot 7 0x80 0 mask)) ≡ true
unfolding placed find_slot all_below
all_placed = refl

not_zero : (x : ℕ) → not (x == 0) ≡ true → x ≢ 0
not_zero x h e = ground arith

-- What the test says of a slot that was found.
placed_some : (mask i mask' : ℕ) → placed mask (some (i, mask')) ≡ true → Placed mask i mask'
unfolding placed
placed_some mask i mask' e =
    let c : all_below i (λ l. not (bit_and mask (slot_bit l) == 0)) ≡ true = ground arith in
    record {
      slot = ground arith;
      free = ground arith;
      before =
          λ l h. not_zero _ (all_below_sound i (λ l. not (bit_and mask (slot_bit l) == 0)) l c h);
      taken = ground arith;
      given_back = ground arith;
      small = ground arith;
    }

-- For a mask of 8 bits, the search finds the first of the seven slots whose bit is clear: the new
-- mask has the bit set, and an exclusive or with the bit, as in `halt`, gives the old mask back.
-- It fails only when all seven bits are set.
pub find_slot-Placed :
    (mask : ℕ)
    → mask < 256
    → ((i : ℕ) × (mask' : ℕ) × (find_slot 7 0x80 0 mask ≡ some (i, mask')) × Placed mask i mask')
      ⊎ ((find_slot 7 0x80 0 mask ≡ none) × ((l : ℕ) → l < 7 → bit_and mask (slot_bit l) ≢ 0))
unfolding placed
find_slot-Placed mask small =
    let ok = all_below_sound 256 (λ v. placed v (find_slot 7 0x80 0 v)) mask all_placed small in
    elim (Option-cases (find_slot 7 0x80 0 mask)) [
      | inl e ↦
          let all : placed mask none ≡ true = ap (placed mask) (sym e) ∙ ok in
          inr (
            e,
            λ l h.
                not_zero _ (all_below_sound 7 (λ l. not (bit_and mask (slot_bit l) == 0)) l all h),
          )
      | inr (r, e) ↦ inl (r.0, r.1, e, placed_some mask r.0 r.1 (ap (placed mask) (sym e) ∙ ok))
    ]
