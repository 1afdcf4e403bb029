-- ===== src/Str/Compare.antt =====
-- `strncmp` compares up to `n` bytes or the NUL, whichever comes first.
use gyarad_os.Base.{
  ℕ, zero, suc, ◌+◌, ◌≤◌, ◌<◌, ◌≡◌, ◌↔◌, false, not, ◌||◌, arith, ◌==◌, Bool-cases, inl, inr,
  dec_lt,
}
use gyarad_os.Base.Int.{pos, ◌-ℤ◌}
use gyarad_os.Machine.Memory.{Addr, Mem}
use gyarad_os.Str.{signed8, strncmp_loop, strncmp}

-- The two places hold the same first `n` bytes, or the same string that ends within them: every
-- byte before the first NUL agrees, the NUL included.
abbrev pub SameText : Mem → (s1 s2 : Addr) → ℕ → Type 0
SameText m s1 s2 n =
    (i : ℕ) → i < n → ((j : ℕ) → j < i → (m (s1 + j) == 0) ≡ false) → m (s1 + i) ≡ m (s2 + i)

signed8_injective : (a b : ℕ) → a < 0x100 → b < 0x100 → signed8 a -ℤ signed8 b ≡ pos 0 → a ≡ b
unfolding signed8 ◌-ℤ◌
signed8_injective a b ha hb h = ground arith

signed8_self : (a : ℕ) → signed8 a -ℤ signed8 a ≡ pos 0
unfolding signed8 ◌-ℤ◌
signed8_self a = ground arith

-- The memory holds bytes.
abbrev pub IsBytes : Mem → Type 0
IsBytes m = (a : Addr) → m a < 0x100

module _ (m : Mem) (s1 s2 : Addr) (byte : IsBytes m) where
  equal_loop :
      (k i : ℕ)
      → strncmp_loop k m s1 s2 i ≡ pos 0
      → (j : ℕ) → i ≤ j
      → j < i + k
      → ((l : ℕ) → i ≤ l → l < j → (m (s1 + l) == 0) ≡ false)
      → m (s1 + j) ≡ m (s2 + j)
  unfolding strncmp_loop
  equal_loop zero i e j p q h = absurd (omega arith)
  equal_loop (suc k) i e j p q h =
      elim (Bool-cases (not (m (s1 + i) == m (s2 + i)) || m (s1 + i) == 0)) [
        | inl hit ↦
            let e' : signed8 (m (s1 + i)) -ℤ signed8 (m (s2 + i)) ≡ pos 0 = ground arith in
            let e'' =
              signed8_injective (m (s1 + i)) (m (s2 + i)) (byte (s1 + i)) (byte (s2 + i)) e' in
            ground (arith, h i)
        | inr miss ↦ elim (dec_lt i j) [
          | yes lt ↦
              equal_loop k (i + 1) (ground arith) j (omega arith) (omega arith)
                (λ l a b. h l (omega arith) b)
          | no ge ↦ ground arith
        ]
      ]

  loop_equal :
      (k i : ℕ)
      → ((j : ℕ)
          → i ≤ j
          → j < i + k
          → ((l : ℕ) → i ≤ l → l < j → (m (s1 + l) == 0) ≡ false)
          → m (s1 + j) ≡ m (s2 + j))
      → strncmp_loop k m s1 s2 i ≡ pos 0
  unfolding strncmp_loop
  loop_equal zero i h = ground arith
  loop_equal (suc k) i h =
      let e : m (s1 + i) ≡ m (s2 + i) =
        h i (omega arith) (omega arith) (λ l a b. absurd (omega arith)) in
      elim (Bool-cases (m (s1 + i) == 0)) [
        | inl hit ↦ ground (arith, signed8_self (m (s1 + i)))
        | inr miss ↦
            let rest = loop_equal k (i + 1) (λ j p q g. h j (omega arith) (omega arith) (λ l a b.
              elim (dec_lt i l) [ yes lt ↦ g l (omega arith) b | no ge ↦ ground arith ])) in
            ground arith
      ]

  -- Over bytes, `strncmp` returns 0 exactly when the two texts agree up to `n` bytes or their common
  -- NUL.
  pub strncmp_iff : (n : ℕ) → (strncmp m s1 s2 n ≡ pos 0) ↔ SameText m s1 s2 n
  unfolding strncmp
  strncmp_iff n = (
    (λ e i p h. equal_loop n 0 e i (omega arith) (omega arith) (λ l a b. h l b)),
    (λ h. loop_equal n 0 (λ j p q g. h j (omega arith) (λ l b. g l (omega arith) b))),
  )
