-- ===== src/Screen/Printf/Hex.antt =====
-- `%#x`: the number in eight digits.
use native.Mathlib.Nat.{pow-suc}
use gyarad_os.Base.{
  ℕ, zero, suc, ◌+◌, ◌-◌, ◌^◌, ◌≤◌, ◌<◌, ◌≡◌, ◌≢◌, refl, sym, ap, ◌∙◌, inl, inr, some, ℕ_discrete,
  Bool-cases, arith, ltb, if◌then◌else◌,
}
use gyarad_os.Machine.Memory.{Mem, Addr, IsString, poke, within}
use gyarad_os.Str.{itoa}
use gyarad_os.Str.Length.{strlen_iff}
use gyarad_os.Str.Number.{read_number, digit_value, Printed-zero, itoa-Printed}
use gyarad_os.Screen.Printf.{hex8, zero_pad}

zero_pad-at :
    (k : ℕ) (m : Mem) (a i x : ℕ) → zero_pad k m a i x ≡ (if within (a + i) k x then b'0' else m x)
unfolding zero_pad
zero_pad-at zero m a i x = ground arith
zero_pad-at (suc k) m a i x = ground (arith, zero_pad-at k (poke m (a + i) b'0') a (i + 1) x)

-- Leading zeros do not count.
read-zeros :
    (radix : ℕ) (m : Mem) (a n : ℕ)
    → ((i : ℕ) → i < n → m (a + i) ≡ b'0')
    → read_number radix m a n ≡ 0
unfolding read_number digit_value
read-zeros radix m a zero z = refl
read-zeros radix m a (suc n) z =
    rw (read-zeros radix m a n (λ i h. z i (omega arith)), z n (omega arith)) (omega arith)

read-append :
    (radix : ℕ) (m : Mem) (a n k : ℕ)
    → read_number radix m a n ≡ 0
    → read_number radix m a (n + k) ≡ read_number radix m (a + n) k
unfolding read_number
read-append radix m a n zero z =
    let none_more : n + 0 ≡ n = omega arith in ap (read_number radix m a) none_more ∙ z
read-append radix m a n (suc k) z =
    let more : n + suc k ≡ suc (n + k) = omega arith in
    let there : a + (n + k) ≡ a + n + k = omega arith in
    ap (read_number radix m a) more ∙ rw (read-append radix m a n k z, there) refl

read-same :
    (radix : ℕ) (m g : Mem) (a n : ℕ)
    → ((i : ℕ) → i < n → g (a + i) ≡ m (a + i))
    → read_number radix g a n ≡ read_number radix m a n
unfolding read_number
read-same radix m g a zero same = refl
read-same radix m g a (suc n) same =
    rw (read-same radix m g a n (λ i h. same i (omega arith)), same n (omega arith)) refl

-- A number that does not lead with a zero is as large as its digits say.
read_number-large :
    (m : Mem) (a n : ℕ) → digit_value (m a) ≢ 0 → 16 ^ n ≤ read_number 16 m a (suc n)
unfolding read_number
read_number-large m a zero lead = let here : a + 0 ≡ a = omega arith in rw here (omega arith)
read_number-large m a (suc n) lead = omega (arith, read_number-large m a n lead, pow-suc 16 n)

pow-grows : (j : ℕ) → 2 ^ 32 ≤ 16 ^ (8 + j)
pow-grows zero = omega arith
pow-grows (suc j) =
    let more : 8 + suc j ≡ suc (8 + j) = omega arith in
    rw more (omega (arith, pow-grows j, pow-suc 16 (8 + j)))

-- A 32-bit number has at most eight digits.
few_digits : (m : Mem) (a n : ℕ) → digit_value (m a) ≢ 0 → read_number 16 m a n < 2 ^ 32 → n ≤ 8
few_digits m a zero lead h = omega arith
few_digits m a (suc n) lead h = elim (Bool-cases (ltb n 8)) [
  | inl e ↦ ground (arith, e)
  | inr e ↦
      let split : 8 + (n - 8) ≡ n = ground (arith, e) in
      absurd
        (omega (arith, read_number-large m a n lead, pow-grows (n - 8), ap (λ k. 16 ^ k) split))
]

-- The eight characters, when the number has `n` digits at `buf + 8`.
padded :
    (g : Mem) (buf n value : ℕ)
    → n ≤ 8
    → IsString g (buf + 8) n
    → read_number 16 g (buf + 8) n ≡ value
    → IsString (zero_pad (8 - n) g buf n) (buf + n) 8
      × (read_number 16 (zero_pad (8 - n) g buf n) (buf + n) 8 ≡ value)
padded g buf n value le is read =
    let p = zero_pad (8 - n) g buf n in
    let at = zero_pad-at (8 - n) g buf n in
    let zeros : (i : ℕ) → i < 8 - n → p (buf + n + i) ≡ b'0' =
      λ i h. ground (arith, at (buf + n + i)) in
    let rest : (i : ℕ) → i < n → p (buf + n + (8 - n) + i) ≡ g (buf + n + (8 - n) + i) =
      λ i h. ground (arith, at (buf + n + (8 - n) + i)) in
    let eight : 8 ≡ 8 - n + n = omega arith in
    let there : buf + n + (8 - n) ≡ buf + 8 = omega arith in
    (
      record {
        bytes = λ i h. elim (Bool-cases (ltb i (8 - n))) [
          | inl e ↦ ground (arith, zeros i (ground (arith, e)))
          | inr e ↦
              let j = i - (8 - n) in
              let small : j < n = ground (arith, e) in
              let where_at : buf + n + (8 - n) + j ≡ buf + n + i = ground (arith, e) in
              let origin : buf + n + (8 - n) + j ≡ buf + 8 + j = omega arith in
              let same : p (buf + n + i) ≡ g (buf + 8 + j) =
                (ap p (sym where_at) ∙ rest j small) ∙ ap g origin in
              rw same (is.bytes j small)
        ];
        stop =
            (let e : buf + n + 8 ≡ buf + 8 + n = omega arith in
              ground (arith, at (buf + n + 8), ap g e, is.stop));
      },
      ((ap (read_number 16 p (buf + n)) eight
              ∙ read-append 16 p (buf + n) (8 - n) n (read-zeros 16 p (buf + n) (8 - n) zeros))
            ∙ read-same 16 g p (buf + n + (8 - n)) n rest)
          ∙ (ap (λ b. read_number 16 g b n) there ∙ read),
    )

itoa-zero :
    (m : Mem) (value : ℕ) (buf : Addr)
    → value ≡ 0
    → itoa m value buf 16 ≡ some (poke (poke m buf b'0') (buf + 1) 0)
unfolding itoa
itoa-zero m value buf e = rw e refl

-- `itoa` to the base 16 writes at most eight digits.
short :
    (m : Mem) (value : ℕ) (buf : Addr)
    → value < 2 ^ 32
    → (g : Mem) × (n : ℕ) × (itoa m value buf 16 ≡ some g)
      × (n ≤ 8)
      × IsString g buf n
      × (read_number 16 g buf n ≡ value)
short m value buf h = elim (ℕ_discrete value 0) [
  | yes e ↦
      let w = Printed-zero 16 m buf in
      (
        poke (poke m buf b'0') (buf + 1) 0,
        1,
        itoa-zero m value buf e,
        omega arith,
        w.text,
        w.value ∙ sym e,
      )
  | no ne ↦
      let (g, n, e, le, w) = itoa-Printed m value buf 16 (omega arith) (omega arith) h in
      (g, n, e, few_digits g buf n (w.lead (omega arith)) (omega (arith, w.value)), w.text, w.value)
]

-- The text of `%#x` is exactly eight characters for every 32-bit value, whatever stands in the
-- buffer before: read as a number to the base 16 they are the value.
pub hex8-read_number :
    (m : Mem) (conv_buf : Addr) (value : ℕ)
    → value < 2 ^ 32
    → (g : Mem) × (a : Addr) × (hex8 m conv_buf value ≡ some (g, a))
      × IsString g a 8
      × (read_number 16 g a 8 ≡ value)
unfolding hex8
hex8-read_number m conv_buf value h =
    let (g, n, e, le, is, read) = short m value (conv_buf + 8) h in
    let (text, same) = padded g conv_buf n value le is read in
    let len = (strlen_iff g (conv_buf + 8) n).1 (is, omega arith) in
    (zero_pad (8 - n) g conv_buf n, conv_buf + n, rw (hex8, e, len) refl, text, same)
