-- ===== src/Kernel/Table.antt =====
-- The descriptor table of a process: `fds` of `pcb_t`.
use gyarad_os.Base.{
  ℕ, zero, suc, ◌+◌, ◌≤◌, ◌<◌, ◌≡◌, ◌≢◌, ◌⊎◌, inl, inr, refl, Option, none, some, arith, ◌==◌,
  if◌then◌else◌, Bool-cases, ℕ_discrete,
}
use gyarad_os.Kernel.State.{Ops, stdin_ops, stdout_ops, rtc_ops, dir_ops, files_ops, Descriptor}
use gyarad_os.Kernel.{free_fd}

-- The tables that `open` gives.
abbrev pub IsDevice : Ops → Type 0
IsDevice ops = (ops ≡ rtc_ops) ⊎ ((ops ≡ dir_ops) ⊎ (ops ≡ files_ops))

-- The descriptors of a process: the terminal's stand at 0 and 1, and one of the others that is in
-- use has a device's table.
pub record IsTable (fds : ℕ → Descriptor) : Type 0 where
  pub input : (fds 0).operations_pointer ≡ stdin_ops
  pub output : (fds 1).operations_pointer ≡ stdout_ops
  pub others : (i : ℕ) → 2 ≤ i → i ≤ 7 → (fds i).flags ≡ 1 → IsDevice (fds i).operations_pointer

-- A descriptor other than the terminal's can be exchanged for one that is a device's or not in use.
pub IsTable-set :
    (fds : ℕ → Descriptor) (i : ℕ) (d : Descriptor)
    → IsTable fds
    → 2 ≤ i
    → (d.flags ≡ 1 → IsDevice d.operations_pointer)
    → IsTable (λ j. if j == i then d else fds j)
IsTable-set fds i d is lo fit = record {
  input = ground (arith, is.input);
  output = ground (arith, is.output);
  others =
      λ j a b. elim (Bool-cases (j == i)) [ inl e ↦ rw e fit | inr e ↦ rw e (is.others j a b) ];
}

-- The first descriptor from `i` on, of `n`, that is not in use, or none.
abbrev pub FirstFree : (ℕ → Descriptor) → (i n : ℕ) → Option ℕ → Type 0
FirstFree fds i n r =
    ((j : ℕ) × (r ≡ some j)
      × (i ≤ j)
      × (j < i + n)
      × ((fds j).flags ≡ 0)
      × ((l : ℕ) → i ≤ l → l < j → (fds l).flags ≢ 0))
    ⊎ ((r ≡ none) × ((l : ℕ) → i ≤ l → l < i + n → (fds l).flags ≢ 0))

FirstFree-suc :
    (fds : ℕ → Descriptor) (i n : ℕ) (r : Option ℕ)
    → (fds i).flags ≢ 0
    → FirstFree fds (i + 1) n r
    → FirstFree fds i (suc n) r
FirstFree-suc fds i n r used (inl (j, e, lo, hi, free, before)) = inl (
  j,
  e,
  omega arith,
  omega arith,
  free,
  λ l a b. elim (ℕ_discrete l i) [ yes s ↦ rw s used | no ne ↦ before l (omega arith) b ],
)
FirstFree-suc fds i n r used (inr (e, before)) = inr (
  e,
  λ l a b. elim (ℕ_discrete l i) [
    | yes s ↦ rw s used
    | no ne ↦ before l (omega arith) (omega arith)
  ],
)

-- The search of `open` finds the lowest descriptor that is not in use, or says that there is none.
pub free_fd-first : (n : ℕ) (fds : ℕ → Descriptor) (i : ℕ) → FirstFree fds i n (free_fd n fds i)
unfolding free_fd
free_fd-first zero fds i = inr (refl, λ l a b. omega arith)
free_fd-first (suc n) fds i = elim (ℕ_discrete (fds i).flags 0) [
  | yes e ↦ inl (i, ground arith, omega arith, omega arith, e, λ l a b. omega arith)
  | no ne ↦
      let miss : free_fd (suc n) fds i ≡ free_fd n fds (i + 1) = ground arith in
      rw miss (FirstFree-suc fds i n _ ne (free_fd-first n fds (i + 1)))
]
