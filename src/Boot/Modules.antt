-- ===== src/Boot/Modules.antt =====
-- Which module of the boot loader becomes the file system.
use mathlib.Core.Path.{subst}
use gyarad_os.Base.{
  ℕ, zero, suc, ◌+◌, ◌*◌, ◌<◌, ◌≡◌, ◌≢◌, inl, inr, sym, ap, ◌∙◌, Bool-cases, arith, ◌==◌, ==_iff,
  if◌then◌else◌,
}
use gyarad_os.Machine.Memory.{Addr, Mem, load32}
use gyarad_os.Boot.{scan_modules, find_fs, check_flag, string, mod_start}

-- The last of `n` modules that is the file system's, or what there was before, when none is.
pub data LastModule (m : Mem) (first n before : ℕ) : ℕ → Type 0 where
  absent : ((i : ℕ) → i < n → string m (first + 16 * i) ≢ 8201) → LastModule m first n before before
  last :
      (i : ℕ)
      → i < n
      → string m (first + 16 * i) ≡ 8201
      → ((j : ℕ) → i < j → j < n → string m (first + 16 * j) ≢ 8201)
      → LastModule m first n before (mod_start m (first + 16 * i))

later : (first i : ℕ) → first + 16 * suc i ≡ first + 16 + 16 * i
later first i = omega arith

first_is : (first : ℕ) → first + 16 * 0 ≡ first
first_is first = omega arith

-- None of the modules after the first.
none_later :
    (m : Mem) (first n : ℕ)
    → ((i : ℕ) → i < n → string m (first + 16 + 16 * i) ≢ 8201)
    → (j : ℕ) → 0 < j
    → j < suc n
    → string m (first + 16 * j) ≢ 8201
none_later m first n non zero lo hi = absurd (omega arith)
none_later m first n non (suc j) lo hi = rw (later first j) (non j (omega arith))

all_not :
    (m : Mem) (first n : ℕ)
    → string m first ≢ 8201
    → ((i : ℕ) → i < n → string m (first + 16 + 16 * i) ≢ 8201)
    → (j : ℕ) → j < suc n
    → string m (first + 16 * j) ≢ 8201
all_not m first n head non zero h = λ e. head (ap (string m) (sym (first_is first)) ∙ e)
all_not m first n head non (suc j) h = none_later m first n non (suc j) (omega arith) h

after_not :
    (m : Mem) (first n i : ℕ)
    → ((j : ℕ) → i < j → j < n → string m (first + 16 + 16 * j) ≢ 8201)
    → (j : ℕ) → suc i < j
    → j < suc n
    → string m (first + 16 * j) ≢ 8201
after_not m first n i non zero lo hi = absurd (omega arith)
after_not m first n i non (suc j) lo hi = rw (later first j) (non j (omega arith) (omega arith))

step :
    (m : Mem) (first n before r : ℕ)
    → LastModule m (first + 16) n (if string m first == 8201 then mod_start m first else before) r
    → LastModule m first (suc n) before r
step m first n before r (absent non) = elim (Bool-cases (string m first == 8201)) [
  | inl e ↦ rw e (
      subst (λ a. LastModule m first (suc n) before (mod_start m a)) (first_is first)
        (last 0 (omega arith) (ap (string m) (first_is first) ∙ (==_iff _ _).0 e)
          (none_later m first n non)))
  | inr e ↦ rw e (absent (λ i h. all_not m first n (λ z. ground (arith, e, z)) non i h))
]
step m first n before r (last i h is non) =
    subst (λ a. LastModule m first (suc n) before (mod_start m a)) (later first i)
      (last (suc i) (omega arith) (ap (string m) (later first i) ∙ is)
        (λ j lo hi. after_not m first n i non j lo hi))

scan_modules-LastModule :
    (k : ℕ) (m : Mem) (first before : ℕ)
    → LastModule m first k before (scan_modules k m first before)
unfolding scan_modules
scan_modules-LastModule zero m first before = absent (λ i h. absurd (omega arith))
scan_modules-LastModule (suc k) m first before =
    step m first k before _ (scan_modules-LastModule k m (first + 16) _)

-- The file system is taken from the last module whose name stands at address 8201, and from address
-- 0 if no module's does; a boot loader without the flag for modules passes none.
pub find_fs-LastModule :
    (m : Mem) (mbi : Addr)
    → LastModule m
        (load32 m (mbi + 24))
        (if check_flag (load32 m mbi) 3 then load32 m (mbi + 20) else 0)
        0
        (find_fs m mbi)
unfolding find_fs
find_fs-LastModule m mbi = elim (Bool-cases (check_flag (load32 m mbi) 3)) [
  | inl e ↦ rw e (scan_modules-LastModule _ m _ 0)
  | inr e ↦ rw e (absent (λ i h. absurd (omega arith)))
]
