-- ===== src/Fs/Lookup.antt =====
-- The search of the directory by name, against the entries that hold the name.
use gyarad_os.Base.{
  ℕ, zero, suc, ◌+◌, ◌≤◌, ◌<◌, ◌^◌, ◌≡◌, ◌↔◌, ◌⊎◌, inl, inr, refl, sym, ◌∙◌, true, false, Option,
  none, some, arith, ◌==◌, if◌then◌else◌, Bool-cases, ℕ_discrete,
}
use gyarad_os.Base.Int.{ℤ, pos}
use gyarad_os.Machine.Memory.{Addr, Mem, IsString}
use gyarad_os.Str.{strlen, strncmp}
use gyarad_os.Str.Length.{strlen_iff}
use gyarad_os.Str.Compare.{IsBytes, SameText, strncmp_iff}
use gyarad_os.Fs.{Fs, is_zero, dentry_name, find_dentry, name_bytes}

true_ne_false : true ≡ false → ⊥
true_ne_false e = cc

is_zero_iff : (z : ℤ) → (is_zero z ≡ true) ↔ (z ≡ pos 0)
is_zero_iff z = ground arith

-- Entry `i` of the directory has the name of `n` bytes at `fname`: it has that length, and the same
-- first 31 bytes.
abbrev pub Named : Fs → Mem → (len : ℕ → ℕ) → (fname : Addr) → (n i : ℕ) → Type 0
Named fs m len fname n i =
    (len i ≡ n) × ((j : ℕ) → j < n → j < 31 → m (dentry_name fs i + j) ≡ m (fname + j))

-- The directory's names and the name looked for are strings, `len i` bytes long and `n`.
pub record IsNames (fs : Fs) (m : Mem) (len : ℕ → ℕ) (fname : Addr) (n : ℕ) : Type 0 where
  pub names : (i : ℕ) → i < fs.n_dentries → IsString m (dentry_name fs i) (len i)
  pub lens : (i : ℕ) → i < fs.n_dentries → len i < 2 ^ 32
  pub name : IsString m fname n
  pub bound : n < 2 ^ 32
  pub byte : IsBytes m

-- The search from `i` on for `k` entries: the first that has the name, or none has it.
abbrev pub Finds :
    Fs → Mem → (len : ℕ → ℕ) → (fname : Addr) → (n i k : ℕ) → Option (Option ℕ) → Type 0
Finds fs m len fname n i k r =
    ((j : ℕ) × (r ≡ some (some j))
      × (i ≤ j)
      × (j < i + k)
      × Named fs m len fname n j
      × ((l : ℕ) → i ≤ l → l < j → ¬ Named fs m len fname n l))
    ⊎ ((r ≡ some none) × ((l : ℕ) → i ≤ l → l < i + k → ¬ Named fs m len fname n l))

find_dentry-zero :
    (fs : Fs) (m : Mem) (fname : Addr) (b i : ℕ) → find_dentry 0 fs m fname b i ≡ some none
unfolding find_dentry
find_dentry-zero fs m fname b i = refl

module _ {fs : Fs} {m : Mem} {len : ℕ → ℕ} {fname : Addr} {n : ℕ}
    (is : IsNames fs m len fname n) where
  strlen-name : (i : ℕ) → i < fs.n_dentries → strlen m (dentry_name fs i) ≡ some (len i)
  strlen-name i h = (strlen_iff m _ _).1 (is.names i h, is.lens i h)

  pub strlen-fname : strlen m fname ≡ some n
  strlen-fname = (strlen_iff m fname n).1 (is.name, is.bound)

  pub name_bytes-le : name_bytes n ≤ n
  unfolding name_bytes
  name_bytes-le = ground arith

  pub name_bytes-lt : (j : ℕ) → j < n → j < 31 → j < name_bytes n
  unfolding name_bytes
  name_bytes-lt j h few = ground arith

  pub name_bytes-few : (j : ℕ) → j < name_bytes n → j < 31
  unfolding name_bytes
  name_bytes-few j h = ground arith

  -- Where the lengths agree, the code's comparison decides whether the entry has the name.
  compare_iff :
      (i : ℕ)
      → i < fs.n_dentries
      → len i ≡ n
      → (is_zero (strncmp m (dentry_name fs i) fname (name_bytes n)) ≡ true)
        ↔ Named fs m len fname n i
  compare_iff i h e = (to, from)
    where
      open is use {names, byte}

      law :
          (strncmp m (dentry_name fs i) fname (name_bytes n) ≡ pos 0)
          ↔ SameText m (dentry_name fs i) fname (name_bytes n)
      law = strncmp_iff m (dentry_name fs i) fname byte (name_bytes n)

      to :
          is_zero (strncmp m (dentry_name fs i) fname (name_bytes n)) ≡ true
          → Named fs m len fname n i
      to z = (
        e,
        λ j lt few.
            law.0 ((is_zero_iff _).0 z) j (name_bytes-lt j lt few)
              (λ l hl. (names i h).bytes l (omega (arith, name_bytes-le))),
      )

      from :
          Named fs m len fname n i
          → is_zero (strncmp m (dentry_name fs i) fname (name_bytes n)) ≡ true
      from named =
          (is_zero_iff _).1
            (law.1 (λ j lt _. named.1 j (omega (arith, name_bytes-le)) (name_bytes-few j lt)))

  Finds-skip :
      (k : ℕ) {i : ℕ} {r : Option (Option ℕ)}
      → ¬ Named fs m len fname n i
      → Finds fs m len fname n (i + 1) k r
      → Finds fs m len fname n i (suc k) r
  Finds-skip k {i} out (inl (j, e, lo, hi, named, first)) = inl (
    j,
    e,
    omega arith,
    omega arith,
    named,
    λ l p q named'. elim (ℕ_discrete i l) [
      | yes same ↦ out (rw same named')
      | no other ↦ first l (omega arith) q named'
    ],
  )
  Finds-skip k {i} out (inr (e, none_)) = inr (
    e,
    λ l p q named'. elim (ℕ_discrete i l) [
      | yes same ↦ out (rw same named')
      | no other ↦ none_ l (omega arith) (omega arith) named'
    ],
  )

  -- One round of the search, with the lengths known.
  find_dentry-suc :
      (k i : ℕ)
      → i < fs.n_dentries
      → find_dentry (suc k) fs m fname (name_bytes n) i ≡ (
          if n == len i
          then (if is_zero (strncmp m (dentry_name fs i) fname (name_bytes n))
              then some (some i)
              else find_dentry k fs m fname (name_bytes n) (i + 1))
          else find_dentry k fs m fname (name_bytes n) (i + 1))
  unfolding find_dentry
  find_dentry-suc k i h = ground (arith, strlen-fname, strlen-name i h)

  find_dentry-Finds :
      (k i : ℕ)
      → i + k ≤ fs.n_dentries
      → Finds fs m len fname n i k (find_dentry k fs m fname (name_bytes n) i)
  find_dentry-Finds zero i h =
      inr (find_dentry-zero fs m fname (name_bytes n) i, λ l p q. absurd (omega arith))
  find_dentry-Finds (suc k) i h =
      rw (find_dentry-suc k i (omega arith)) (elim (ℕ_discrete n (len i)) [
        | no ne ↦
            let differ : (n == len i) ≡ false = ground arith in
            rw differ
              (Finds-skip k (λ named. ne (sym named.0)) (find_dentry-Finds k (i + 1) (omega arith)))
        | yes e ↦
            let agree : (n == len i) ≡ true = ground arith in
            let law = compare_iff i (omega arith) (sym e) in
            elim (Bool-cases (is_zero (strncmp m (dentry_name fs i) fname (name_bytes n)))) [
              | inl hit ↦
                  rw (agree, hit)
                    (inl
                      (i, refl, omega arith, omega arith, law.0 hit, λ l p q. absurd (omega arith)))
              | inr miss ↦
                  rw (agree, miss)
                    (Finds-skip k (λ named. true_ne_false (sym (law.1 named) ∙ miss))
                      (find_dentry-Finds k (i + 1) (omega arith)))
            ]
      ])

  -- The search of the directory stops at the first entry that has the name, and finds none only if
  -- no entry has it.
  pub find_dentry-first :
      Finds fs m len fname n 0 fs.n_dentries (find_dentry fs.n_dentries fs m fname (name_bytes n) 0)
  find_dentry-first = find_dentry-Finds fs.n_dentries 0 (omega arith)
