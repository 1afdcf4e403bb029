-- ===== src/Kernel/System/Idle.antt =====
-- System calls where no process runs in the active terminal: they are refused, or go through the
-- null pointer.
use gyarad_os.Base.{
  ◌≡◌, none, Bool, true, false, ltb, leb, ◌||◌, ◌==◌, if◌then◌else◌, Bool-cases, Option-cases, inl,
  inr,
}
use gyarad_os.Base.Int.{ℤ, pos, negsuc}
use gyarad_os.Machine.Memory.{Addr}
use gyarad_os.Str.{strlen}
use gyarad_os.Fs.{read_dentry_by_name}
use gyarad_os.Fs.Calls.{is_minus_one}
use gyarad_os.Kernel.{read, write, close, open_file, open_found, getargs}
use gyarad_os.Kernel.State.{
  Kernel, Env, Result, ret, enters, resumes, wait, overruns, fault, as_uint, mem, set_mem,
}
use gyarad_os.Kernel.System.Family.{Quiet, quiet, Settles}

-- A call that is quiet if it comes back.
abbrev pub Rests : Kernel → Result → Type 0
Rests k (ret n k') = Quiet k k'
Rests k (enters e k') = ⊥
Rests k (resumes s k') = ⊥
Rests k wait = Unit
Rests k overruns = Unit
Rests k fault = Unit

pub Rests-Settles : (k : Kernel) (r : Result) → Settles k r → Rests k r
Rests-Settles k (ret n k') q = q
Rests-Settles k (enters e k') q = q
Rests-Settles k (resumes s k') q = q
Rests-Settles k wait q = tt
Rests-Settles k overruns q = tt
Rests-Settles k fault q = tt

pub Rests-if :
    (k : Kernel) (b : Bool) (x y : Result) → Rests k x → Rests k y → Rests k (if b then x else y)
Rests-if k true x y p q = p
Rests-if k false x y p q = q

module _ (env : Env) (k : Kernel) (idle : k.curr_proc k.curr_active_term ≡ none) where
  refused : Quiet k (record k { irq = false })
  refused = quiet k k.console false k.intr_occ

  pub read-Rests : (fd : ℤ) (buf : Addr) (nbytes : ℤ) → Rests k (read env fd buf nbytes k)
  unfolding read
  read-Rests fd buf nbytes = elim (Bool-cases (buf == 0 || ltb 7 (as_uint fd) || as_uint fd == 1)) [
    | inl e ↦ rw (Rests, idle, e) refused
    | inr e ↦ rw (Rests, idle, e) tt
  ]

  pub write-Rests : (fd : ℤ) (buf : Addr) (nbytes : ℤ) → Rests k (write env fd buf nbytes k)
  unfolding write
  write-Rests fd buf nbytes =
      elim (Bool-cases (buf == 0 || ltb 7 (as_uint fd) || as_uint fd == 0)) [
        | inl e ↦ rw (Rests, idle, e) refused
        | inr e ↦ rw (Rests, idle, e) tt
      ]

  pub close-Rests : (fd : ℤ) → Rests k (close env fd k)
  unfolding close
  close-Rests (negsuc n) = quiet k k.console k.irq k.intr_occ
  close-Rests (pos i) =
      let stays = quiet k k.console k.irq k.intr_occ in
      elim (Bool-cases (leb 2 i)) [
        | inr e ↦ rw (Rests, e) stays
        | inl e ↦ elim (Bool-cases (leb i 7)) [
          | inr e' ↦ rw (Rests, e, e') stays
          | inl e' ↦ rw (Rests, e, e', idle) tt
        ]
      ]

  pub getargs-Rests : (buf : Addr) (nbytes : ℤ) → Rests k (getargs env buf nbytes k)
  unfolding getargs
  getargs-Rests buf (negsuc n) = refused
  getargs-Rests buf (pos n) = elim (Bool-cases (buf == 0)) [
    | inl e ↦ rw (Rests, e) refused
    | inr e ↦ rw (Rests, e, idle) tt
  ]

  pub open_file-Rests : (filename : Addr) → Rests k (open_file env filename k)
  unfolding open_file open_found
  open_file-Rests filename = elim (Bool-cases (filename == 0)) [
    | inl e ↦ rw (Rests, e) refused
    | inr e ↦ elim (Option-cases (strlen (mem k) filename)) [
      | inl e1 ↦ rw (Rests, e, e1) tt
      | inr (n, e1) ↦ elim (Bool-cases (n == 0)) [
        | inl e2 ↦ rw (Rests, e, e1, e2) refused
        | inr e2 ↦ elim (Option-cases (read_dentry_by_name env.fs (mem k) filename env.temp)) [
          | inl e3 ↦ rw (Rests, e, e1, e2, e3) tt
          | inr ((check, m), e3) ↦ elim (Bool-cases (is_minus_one check)) [
            | inl e4 ↦
                rw (Rests, e, e1, e2, e3, e4) (quiet k (set_mem k m).console false k.intr_occ)
            | inr e4 ↦ rw (Rests, e, e1, e2, e3, e4, idle) tt
          ]
        ]
      ]
    ]
  ]
