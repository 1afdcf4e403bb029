-- ===== src/Kernel/System/Slots.antt =====
-- The mask of the slots: giving one slot back leaves the others.
use gyarad_os.Base.{
  ℕ, ◌<◌, ◌≡◌, ◌≢◌, refl, Bool, true, ◌&&◌, ◌||◌, not, arith, ltb, ◌==◌, if◌then◌else◌, bit_and,
  bit_xor,
}
use gyarad_os.Base.Bits.{all_below, all_below_sound}
use gyarad_os.Kernel.Process.Slots.{slot_bit}

-- The bit of slot `l` after that of slot `i` is flipped.
unfoldable flips : (mask i l : ℕ) → Bool
flips mask i l =
    let now = bit_and (bit_xor mask (slot_bit i)) (slot_bit l) in
    let before = bit_and mask (slot_bit l) in
    if l == i then before == 0 || now == 0 else now == before

unfoldable flips_all : (mask i : ℕ) → Bool
flips_all mask i = ltb (bit_xor mask (slot_bit i)) 256 && all_below 7 (flips mask i)

all_flips : all_below 256 (λ mask. all_below 7 (flips_all mask)) ≡ true
unfolding flips flips_all all_below
all_flips = refl

flips_lem : (mask i : ℕ) → mask < 256 → i < 7 → flips_all mask i ≡ true
flips_lem mask i small h =
    all_below_sound 7 (flips_all mask) i
      (all_below_sound 256 (λ m. all_below 7 (flips_all m)) mask all_flips small) h

pub flip-small : (mask i : ℕ) → mask < 256 → i < 7 → bit_xor mask (slot_bit i) < 256
unfolding flips_all
flip-small mask i small h = let e = flips_lem mask i small h in ground arith

flip_at : (mask i l : ℕ) → mask < 256 → i < 7 → l < 7 → flips mask i l ≡ true
unfolding flips_all
flip_at mask i l small h g =
    let e = flips_lem mask i small h in all_below_sound 7 (flips mask i) l (ground arith) g

pub flip-others :
    (mask i l : ℕ)
    → mask < 256
    → i < 7
    → l < 7
    → l ≢ i
    → bit_and (bit_xor mask (slot_bit i)) (slot_bit l) ≡ bit_and mask (slot_bit l)
unfolding flips
flip-others mask i l small h g ne = let e = flip_at mask i l small h g in ground arith

pub flip-clears :
    (mask i : ℕ)
    → mask < 256
    → i < 7
    → bit_and mask (slot_bit i) ≢ 0
    → bit_and (bit_xor mask (slot_bit i)) (slot_bit i) ≡ 0
unfolding flips
flip-clears mask i small h set = let e = flip_at mask i i small h h in ground arith

bits_set : all_below 7 (λ i. not (slot_bit i == 0)) ≡ true
unfolding all_below
bits_set = refl

pub slot_bit-nonzero : (i : ℕ) → i < 7 → slot_bit i ≢ 0
slot_bit-nonzero i h e =
    let s = all_below_sound 7 (λ i. not (slot_bit i == 0)) i bits_set h in ground (arith, s, e)

bits_clear : all_below 7 (λ i. bit_and 0 (slot_bit i) == 0) ≡ true
unfolding all_below
bits_clear = refl

pub no_slot : (i : ℕ) → i < 7 → bit_and 0 (slot_bit i) ≡ 0
no_slot i h =
    let s = all_below_sound 7 (λ i. bit_and 0 (slot_bit i) == 0) i bits_clear h in ground (arith, s)
