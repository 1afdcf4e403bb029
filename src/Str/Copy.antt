-- ===== src/Str/Copy.antt =====
-- `strcpy` and `strncpy` against the reference copy.
use gyarad_os.Base.{
  ℕ, zero, suc, ◌+◌, ◌-◌, ◌≤◌, ◌<◌, ◌^◌, ◌≡◌, ◌∙◌, ◌⊎◌, false, some, arith, ltb, ◌==◌, Bool-cases,
  inl, inr, if◌then◌else◌,
}
use gyarad_os.Machine.Memory.{Addr, Mem, poke, blit, fill, within, Apart, IsString, ◌≐◌}
use gyarad_os.Str.{
  strcpy_loop, strcpy, strncpy_pad, strncpy_loop, strncpy, address_space, address_space_lem,
}

-- A string is untouched by a write outside it.
pub IsString-poke :
    {m : Mem} {s : Addr} {n : ℕ} (a : Addr) (v : ℕ)
    → IsString m s n
    → ((a < s) ⊎ (s + n < a))
    → IsString (poke m a v) s n
IsString-poke {s} {n} a v is out = record {
  bytes = λ i h. ground (arith, is.bytes i h);
  stop = ground (arith, is.stop);
}

-- One round of a copy loop, seen from the reference copy of what is left.
blit_step :
    (m : Mem) (dest src : Addr) (n i : ℕ)
    → Apart dest n src n
    → i < n
    → (x : Addr)
    → blit (poke m (dest + i) (m (src + i))) (dest + (i + 1)) (src + (i + 1)) (n - (i + 1)) x
      ≡ blit m (dest + i) (src + i) (n - i) x
blit_step m dest src n i apart h x = ground arith

strcpy_loop-blit :
    (f : ℕ) (m : Mem) (dest src : Addr) (n i : ℕ)
    → IsString m src n
    → Apart dest (n + 1) src (n + 1)
    → i ≤ n
    → n < i + f
    → (g : Mem) × (strcpy_loop f m dest src i ≡ some g)
      × (g ≐ blit m (dest + i) (src + i) (n + 1 - i))
unfolding strcpy_loop
strcpy_loop-blit zero m dest src n i is apart le lt = absurd (omega arith)
strcpy_loop-blit (suc f) m dest src n i is apart le lt = elim (Bool-cases (m (src + i) == 0)) [
  | inl hit ↦
      let e' : i ≡ n = ground (arith, is.bytes i) in
      (poke m (dest + i) 0, rw hit, λ x. ground arith)
  | inr miss ↦
      let lt' : i < n = ground (arith, is.stop) in
      let m' = poke m (dest + i) (m (src + i)) in
      let is' = IsString-poke (dest + i) (m (src + i)) is (omega arith) in
      let (g, e, c) =
        strcpy_loop-blit f m' dest src n (i + 1) is' apart (omega arith) (omega arith) in
      (g, rw miss e, λ x. c x ∙ blit_step m dest src (n + 1) i apart (omega arith) x)
]

-- `strcpy` of a string of `n` bytes, with `n` below 2 ^ 32, to a place apart from it ends, writes
-- those bytes and the NUL at `dest`, and leaves every other byte alone.
pub strcpy-blit :
    (m : Mem) (dest src : Addr) (n : ℕ)
    → IsString m src n
    → n < 2 ^ 32
    → Apart dest (n + 1) src (n + 1)
    → (g : Mem) × (strcpy m dest src ≡ some g) × (g ≐ blit m dest src (n + 1))
unfolding strcpy
strcpy-blit m dest src n is lt apart =
    let (g, e, c) =
      strcpy_loop-blit address_space m dest src n 0 is apart (omega arith)
        (omega (arith, address_space_lem)) in
    (g, e, λ x. c x ∙ ground arith)

-- The reference for `strncpy` of `n` bytes from a string of `len`: its bytes, and NULs behind them.
abbrev pub padded : Mem → (dest src : Addr) → (len n : ℕ) → Mem
padded m dest src len n =
    λ x. if within dest n x then (if ltb (x - dest) len then m (src + (x - dest)) else 0) else m x

strncpy_pad-fill :
    (k : ℕ) (m : Mem) (dest : Addr) (i : ℕ) → strncpy_pad k m dest i ≐ fill m (dest + i) k 0
unfolding strncpy_pad
strncpy_pad-fill zero m dest i x = ground arith
strncpy_pad-fill (suc k) m dest i x =
    strncpy_pad-fill k (poke m (dest + i) 0) dest (i + 1) x ∙ ground arith

-- The bytes that the loop looks at: none of the first `len` is NUL, and the next one is, if the
-- loop gets there.
pub record IsPrefix (m : Mem) (src : Addr) (len n : ℕ) : Type 0 where
  pub bytes : (i : ℕ) → i < len → (m (src + i) == 0) ≡ false
  pub stop : (n ≤ len) ⊎ (m (src + len) ≡ 0)

strncpy_loop-padded :
    (k : ℕ) (m : Mem) (dest src : Addr) (len n i : ℕ)
    → IsPrefix m src len n
    → Apart dest n src (len + 1)
    → i + k ≡ n
    → i ≤ len
    → strncpy_loop k m dest src i ≐ padded m (dest + i) (src + i) (len - i) k
unfolding strncpy_loop
strncpy_loop-padded zero m dest src len n i is apart e le x = ground arith
strncpy_loop-padded (suc k) m dest src len n i is apart e le x =
    elim (Bool-cases (m (src + i) == 0)) [
      | inl hit ↦
          let e' : i ≡ len = ground (arith, is.bytes i) in
          rw hit (strncpy_pad-fill (suc k) m dest i x ∙ ground arith)
      | inr miss ↦
          let lt : i < len = ground (arith, is.stop) in
          let m' = poke m (dest + i) (m (src + i)) in
          let is' : IsPrefix m' src len n = record {
            bytes = λ j h. ground (arith, is.bytes j);
            stop = ground (arith, is.stop);
          } in
          rw miss (
            strncpy_loop-padded k m' dest src len n (i + 1) is' apart (omega arith) (omega arith) x
            ∙ ground arith)
    ]

-- `strncpy` from a text of `len` bytes, or of at least `n`, to a place apart from it writes
-- exactly `n` bytes at `dest`: those of the source up to its NUL, then NULs. With `n` bytes or
-- more in the source it writes no NUL at all.
pub strncpy-padded :
    (m : Mem) (dest src : Addr) (len n : ℕ)
    → IsPrefix m src len n
    → Apart dest n src (len + 1)
    → strncpy m dest src n ≐ padded m dest src len n
unfolding strncpy
strncpy-padded m dest src len n is apart x =
    strncpy_loop-padded n m dest src len n 0 is apart (omega arith) (omega arith) x ∙ ground arith
