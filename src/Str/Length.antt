-- ===== src/Str/Length.antt =====
-- `strlen` finds the first NUL, and nothing else.
use gyarad_os.Base.{
  ℕ, zero, suc, ◌+◌, ◌≤◌, ◌<◌, ◌^◌, ◌≡◌, ◌↔◌, false, some, arith, ◌==◌, Bool-cases, inl, inr,
}
use gyarad_os.Machine.Memory.{Addr, Mem, IsString}
use gyarad_os.Str.{strlen_loop, strlen, address_space, address_space_lem}

strlen_loop-finds :
    (f : ℕ) (m : Mem) (s : Addr) (n len : ℕ)
    → IsString m s n
    → len ≤ n
    → n < len + f
    → strlen_loop f m s len ≡ some n
unfolding strlen_loop
strlen_loop-finds zero m s n len is le lt = absurd (omega arith)
strlen_loop-finds (suc f) m s n len is le lt =
    ground (arith, is.bytes len, is.stop, strlen_loop-finds f m s n (len + 1) is)

record Found (f : ℕ) (m : Mem) (s : Addr) (n len : ℕ) : Type 0 where
  from : len ≤ n
  fuel : n < len + f
  bytes : (i : ℕ) → len ≤ i → i < n → (m (s + i) == 0) ≡ false
  stop : m (s + n) ≡ 0

strlen_loop-Found :
    (f : ℕ) (m : Mem) (s : Addr) (n len : ℕ) → strlen_loop f m s len ≡ some n → Found f m s n len
unfolding strlen_loop
strlen_loop-Found zero m s n len e = ground arith
strlen_loop-Found (suc f) m s n len e = elim (Bool-cases (m (s + len) == 0)) [
  | inl hit ↦
      let e' : len ≡ n = ground arith in
      record {
        from = omega arith;
        fuel = omega arith;
        bytes = λ i p q. absurd (omega arith);
        stop = ground arith;
      }
  | inr miss ↦
      let rest : Found f m s n (len + 1) = strlen_loop-Found f m s n (len + 1) (ground arith) in
      record {
        from = omega arith;
        fuel = omega arith;
        bytes = λ i p q. ground (arith, rest.bytes i);
        stop = rest.stop;
      }
]

-- `strlen` returns `n` exactly when the memory at `s` holds a string of `n` bytes that ends within
-- one turn of the address space.
pub strlen_iff :
    (m : Mem) (s : Addr) (n : ℕ) → (strlen m s ≡ some n) ↔ (IsString m s n × (n < 2 ^ 32))
unfolding strlen
strlen_iff m s n = (to, λ h. from h.0 h.1)
  where
    to : strlen m s ≡ some n → IsString m s n × (n < 2 ^ 32)
    to e =
        let found = strlen_loop-Found address_space m s n 0 e in
        (
          record { bytes = λ i p. found.bytes i (omega arith) p; stop = found.stop },
          omega (arith, address_space_lem),
        )

    from : IsString m s n → n < 2 ^ 32 → strlen m s ≡ some n
    from is lt =
        strlen_loop-finds address_space m s n 0 is (omega arith) (omega (arith, address_space_lem))
