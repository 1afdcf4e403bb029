-- ===== src/Str/Number.antt =====
-- `itoa` prints a number, and reading the digits back gives that number.
use native.Mathlib.Nat.{div-add-mod, pow-suc}
use gyarad_os.Base.{
  ℕ, zero, suc, ◌+◌, ◌-◌, ◌*◌, ◌/◌, ◌%◌, ◌^◌, ◌≤◌, ◌<◌, ◌≡◌, ◌≢◌, ◌⊎◌, ◌∙◌, ap, refl, some, true,
  false, arith, ltb, ◌==◌, if◌then◌else◌, dec_lt, ℕ_discrete,
}
use gyarad_os.Machine.Memory.{Addr, Mem, poke, IsString, ◌≐◌}
use gyarad_os.Str.{digit_char, itoa_loop, itoa}
use gyarad_os.Str.Reverse.{strrev-mirror, mirror}

-- The number that a digit stands for.
unfoldable pub digit_value : ℕ → ℕ
digit_value c = if ltb c 58 then c - 48 else c - 55

-- The number that the `n` digits at `s` stand for, read from the left.
unfoldable pub read_number : (radix : ℕ) → Mem → Addr → ℕ → ℕ
read_number radix m s zero = 0
read_number radix m s (suc n) = read_number radix m s n * radix + digit_value (m (s + n))

-- The same digits, least significant first.
low : (radix : ℕ) → Mem → Addr → ℕ → ℕ
low radix m s zero = 0
low radix m s (suc n) = digit_value (m s) + radix * low radix m (s + 1) n

abbrev pub IsDigit : ℕ → Type 0
IsDigit c = (48 ≤ c) × (c ≤ 90)

digit_char-IsDigit : (d : ℕ) → d < 36 → IsDigit (digit_char d)
unfolding digit_char
digit_char-IsDigit d h = ground arith

digit_value-digit_char : (d : ℕ) → d < 36 → digit_value (digit_char d) ≡ d
unfolding digit_char digit_value
digit_value-digit_char d h = ground arith

record Wrote (radix v : ℕ) (m g : Mem) (buf : Addr) (n : ℕ) : Type 0 where
  value : low radix g buf n ≡ v
  digits : (i : ℕ) → i < n → IsDigit (g (buf + i))
  same : (x : Addr) → (x < buf) ⊎ (buf + n ≤ x) → g x ≡ m x
  no_digits : v ≡ 0 → n ≡ 0
  lead : 0 < v → (0 < n) × (digit_value (g (buf + (n - 1))) ≢ 0)

quotient_half : (v radix k : ℕ) → 2 ≤ radix → v < 2 ^ suc k → v / radix < 2 ^ k
quotient_half v radix k h lt =
    let q = v / radix in
    let twice : q * 2 ≤ q * radix = grind arith in omega (arith, div-add-mod v radix, pow-suc 2 k)

-- One more digit in front of those of the quotient.
Wrote-cons :
    {radix v : ℕ} {m g : Mem} {buf n : ℕ}
    → 2 ≤ radix
    → radix ≤ 36
    → v ≢ 0
    → Wrote radix (v / radix) (poke m buf (digit_char (v % radix))) g (buf + 1) n
    → Wrote radix v m g buf (suc n)
unfolding low
Wrote-cons {radix} {v} {m} {g} {buf} {n} lo hi ne w = record {
  value =
      rw at (
        rw (digit_value-digit_char (v % radix) small, w.value)
          (omega (arith, div-add-mod v radix)));
  digits = λ i h. ground (arith, at, digit_char-IsDigit (v % radix), w.digits (i - 1));
  same = λ x o. ground (arith, w.same x);
  lead = λ h. elim (dec_lt 0 (v / radix)) [
    | yes p ↦ (omega arith, λ z. (w.lead p).1 (ground (arith, (w.lead p).0)))
    | no p ↦
        let z : v / radix ≡ 0 = omega arith in
        let r : v % radix ≡ v = ground (arith, div-add-mod v radix) in
        let o : n ≡ 0 = w.no_digits z in
        (omega arith, ground (arith, at, digit_value-digit_char (v % radix)))
  ];
  no_digits = λ e. absurd (ne e);
}
  where
    small : v % radix < 36
    small = omega arith

    at : g buf ≡ digit_char (v % radix)
    at = ground (arith, w.same buf)

Wrote-none : (radix v : ℕ) (m : Mem) (buf : Addr) → v ≡ 0 → Wrote radix v m m buf 0
unfolding low
Wrote-none radix v m buf e = record {
  value = omega arith;
  digits = λ i h. absurd (omega arith);
  same = λ x o. refl;
  no_digits = λ _. refl;
  lead = λ h. absurd (omega arith);
}

itoa_loop-zero :
    (k : ℕ) (m : Mem) (buf v radix : ℕ)
    → v ≡ 0
    → itoa_loop (suc k) m buf v radix ≡ some (m, buf + 0)
unfolding itoa_loop
itoa_loop-zero k m buf v radix e = ground arith

itoa_loop-more :
    (k : ℕ) (m : Mem) (buf v radix : ℕ)
    → v ≢ 0
    → itoa_loop (suc k) m buf v radix
      ≡ itoa_loop k (poke m buf (digit_char (v % radix))) (buf + 1) (v / radix) radix
unfolding itoa_loop
itoa_loop-more k m buf v radix ne = ground arith

-- What the digit loop gives: the loop ends, with at most `k` digits for a number below `2 ^ k`.
abbrev Prints : (k : ℕ) (m : Mem) (buf v radix : ℕ) → Type 0
Prints k m buf v radix =
    (g : Mem) × (n : ℕ) × (itoa_loop (suc k) m buf v radix ≡ some (g, buf + n))
    × (n ≤ k)
    × Wrote radix v m g buf n

itoa_loop-Prints :
    (k : ℕ) (m : Mem) (buf v radix : ℕ)
    → 2 ≤ radix
    → radix ≤ 36
    → v < 2 ^ k
    → Prints k m buf v radix
itoa_loop-Prints zero m buf v radix lo hi lt =
    let e : v ≡ 0 = omega arith in
    (m, 0, itoa_loop-zero 0 m buf v radix e, omega arith, Wrote-none radix v m buf e)
itoa_loop-Prints (suc k) m buf v radix lo hi lt = elim (ℕ_discrete v 0) [
  | yes e ↦ (m, 0, itoa_loop-zero (suc k) m buf v radix e, omega arith, Wrote-none radix v m buf e)
  | no ne ↦
      let m' = poke m buf (digit_char (v % radix)) in
      let (g, n, e, le, w) =
        itoa_loop-Prints k m' (buf + 1) (v / radix) radix lo hi (quotient_half v radix k lo lt) in
      (
        g,
        suc n,
        itoa_loop-more (suc k) m buf v radix ne ∙ e ∙ ap (λ a. some (g, a)) (omega arith),
        omega arith,
        Wrote-cons lo hi ne w,
      )
]

-- Reading the reversed digits from the left gives the value of the digits from the right.
read-low :
    (radix : ℕ) (m g : Mem) (s n k : ℕ)
    → ((i : ℕ) → i < n → g (s + i) ≡ m (s + (n - 1 - i)))
    → k ≤ n
    → read_number radix g s k ≡ low radix m (s + (n - k)) k
unfolding read_number low
read-low radix m g s n zero h le = refl
read-low radix m g s n (suc k) h le =
    let e : s + (n - suc k) + 1 ≡ s + (n - k) = omega arith in
    let e' : n - 1 - k ≡ n - suc k = omega arith in
    rw (e, read-low radix m g s n k h (omega arith), h k le, e') (omega arith)

-- What `itoa` leaves at `buf`: the digits of the value in the radix, most significant first and
-- without a leading zero, closed by a NUL, and no other byte changed.
pub record Printed (radix v : ℕ) (m g : Mem) (buf : Addr) (n : ℕ) : Type 0 where
  pub text : IsString g buf n
  pub digits : (i : ℕ) → i < n → IsDigit (g (buf + i))
  pub value : read_number radix g buf n ≡ v
  pub same : (x : Addr) → (x < buf) ⊎ (buf + n < x) → g x ≡ m x
  pub lead : 0 < v → digit_value (g buf) ≢ 0

pub Printed-zero :
    (radix : ℕ) (m : Mem) (buf : Addr)
    → Printed radix 0 m (poke (poke m buf b'0') (buf + 1) 0) buf 1
unfolding read_number digit_value
Printed-zero radix m buf = record {
  text = record { bytes = λ i h. ground arith; stop = ground arith };
  digits = λ i h. ground arith;
  value = ground arith;
  same = λ x o. ground arith;
  lead = λ h. absurd (omega arith);
}

Printed-reverse :
    {radix v : ℕ} {m g r : Mem} {buf n : ℕ}
    → Wrote radix v m g buf n
    → 0 < v
    → r ≐ mirror (poke g (buf + n) 0) buf 0 n
    → Printed radix v m r buf n
Printed-reverse {radix} {v} {m} {g} {r} {buf} {n} w pos e = record {
  text = record {
    bytes = λ i h. ground (arith, at i h, w.digits (n - 1 - i));
    stop = ground (arith, e (buf + n));
  };
  digits = λ i h. ground (arith, at i h, w.digits (n - 1 - i));
  value =
      read-low radix g r buf n n at (omega arith)
      ∙ ap (λ a. low radix g a n) (omega arith)
      ∙ w.value;
  same = λ x o. ground (arith, e x, w.same x);
  lead = λ h z. (w.lead h).1 (ground (arith, at 0 (w.lead h).0));
}
  where
    at : (i : ℕ) → i < n → r (buf + i) ≡ g (buf + (n - 1 - i))
    at i h = ground (arith, e (buf + i))

itoa-pos :
    (m : Mem) (value : ℕ) (buf radix : ℕ)
    → 2 ≤ radix
    → radix ≤ 36
    → value < 2 ^ 32
    → 0 < value
    → (g : Mem) × (n : ℕ) × (itoa m value buf radix ≡ some g)
      × (n ≤ 32)
      × Printed radix value m g buf n
unfolding itoa
itoa-pos m value buf radix lo hi lt pos =
    let (g, n, e, le, w) = itoa_loop-Prints 32 m buf value radix lo hi lt in
    let is : IsString (poke g (buf + n) 0) buf n = record {
      bytes = λ i h. ground (arith, w.digits i);
      stop = ground arith;
    } in
    let (r, e', c) = strrev-mirror (poke g (buf + n) 0) buf n is (omega arith) in
    let ne : (value == 0) ≡ false = ground arith in
    (r, n, rw (ne, e) e', le, Printed-reverse w pos c)

-- For a 32-bit value and a radix from 2 to 36, `itoa` ends and leaves at `buf` the digits of the
-- value, at most 32 of them: reading them back gives the value, those of a positive value do not
-- lead with a zero, and nothing but the digits and their NUL is written.
pub itoa-Printed :
    (m : Mem) (value : ℕ) (buf radix : ℕ)
    → 2 ≤ radix
    → radix ≤ 36
    → value < 2 ^ 32
    → (g : Mem) × (n : ℕ) × (itoa m value buf radix ≡ some g)
      × (n ≤ 32)
      × Printed radix value m g buf n
unfolding itoa
itoa-Printed m value buf radix lo hi lt = elim (ℕ_discrete value 0) [
  | yes e ↦
      let is_zero : (value == 0) ≡ true = ground arith in
      (
        poke (poke m buf b'0') (buf + 1) 0,
        1,
        rw is_zero,
        omega arith,
        rw e (Printed-zero radix m buf),
      )
  | no ne ↦ itoa-pos m value buf radix lo hi lt (omega arith)
]
