-- ===== src/Kernel/Open/Known.antt =====
-- `open` by the path of a file whose type is known.
use gyarad_os.Base.{
  ltb, ◌&&◌, not, true, ℕ, zero, suc, ◌≤◌, ◌≡◌, inl, inr, refl, none, some, false, arith, ◌==◌,
  Bool-cases, Option-cases, Bool, ◌+◌,
}
use gyarad_os.Base.Int.{ℤ}
use gyarad_os.Machine.Memory.{Addr, Mem, load32}
use gyarad_os.Str.{strcpy, strlen}
use gyarad_os.Fs.{read_dentry_by_name}
use gyarad_os.Fs.Calls.{is_minus_one}
use gyarad_os.Kernel.{free_fd, open_type, open_found, open_file, install}
use gyarad_os.Kernel.State.{Kernel, Env, overruns, fits, wait, mem, set_mem, fd_name}
use gyarad_os.Kernel.Table.{free_fd-first}
use gyarad_os.Kernel.Calls.{HasTable, HasTable-Quiet}
use gyarad_os.Kernel.System.Family.{quiet, Quiet-∙, Settles, Settles-∙}
use gyarad_os.Kernel.Open.{found-ret, full-ret, mark_used-Quiet, open_type-Installed}

module _ (env : Env) where
  no_copy :
      (k : Kernel) (p i file_type inode_num : ℕ) (filename : Addr)
      → file_type ≤ 2
      → strcpy (mem k) (fd_name p i) filename ≡ none
      → open_type env file_type inode_num p i filename k ≡ none
  unfolding open_type
  no_copy k p i zero inode_num filename le e = rw (open_type, install, e) refl
  no_copy k p i (suc zero) inode_num filename le e = rw (open_type, install, e) refl
  no_copy k p i (suc (suc zero)) inode_num filename le e = rw (open_type, install, e) refl
  no_copy k p i (suc (suc (suc n))) inode_num filename le e = absurd (omega arith)

  stuck-wait :
      (k : Kernel) (p i file_type inode_num : ℕ) (filename : Addr) (flags : Bool)
      → k.curr_proc k.curr_active_term ≡ some p
      → free_fd 6 (k.pcbs p).fds 2 ≡ some i
      → (ltb file_type 3 && not (fits 32 (mem k) filename)) ≡ false
      → open_type env file_type inode_num p i filename k ≡ none
      → open_found env flags file_type inode_num filename k ≡ wait
  unfolding open_found
  stuck-wait k p i file_type inode_num filename flags run e f e' =
      rw (open_found, run, e, f, e') refl

  long-overruns :
      (k : Kernel) (p i file_type inode_num : ℕ) (filename : Addr) (flags : Bool)
      → k.curr_proc k.curr_active_term ≡ some p
      → free_fd 6 (k.pcbs p).fds 2 ≡ some i
      → (ltb file_type 3 && not (fits 32 (mem k) filename)) ≡ true
      → open_found env flags file_type inode_num filename k ≡ overruns
  unfolding open_found
  long-overruns k p i file_type inode_num filename flags run e f = rw (open_found, run, e, f) refl

  open_found-Settles :
      {k : Kernel} {p : ℕ} (flags : Bool) (file_type inode_num : ℕ) (filename : Addr)
      → HasTable k p
      → file_type ≤ 2
      → Settles k (open_found env flags file_type inode_num filename k)
  open_found-Settles {k} {p} flags file_type inode_num filename has le =
      elim (free_fd-first 6 (k.pcbs p).fds 2) [
        | inl (i, e, lo, hi, free, before) ↦
            elim (Bool-cases (ltb file_type 3 && not (fits 32 (mem k) filename))) [
              | inl f ↦
                  rw (long-overruns k p i file_type inode_num filename flags has.running e f) tt
              | inr f ↦ elim (Option-cases (strcpy (mem k) (fd_name p i) filename)) [
                | inl c ↦
                    let stop = no_copy k p i file_type inode_num filename le c in
                    rw (stuck-wait k p i file_type inode_num filename flags has.running e f stop) tt
                | inr (m, c) ↦
                    let (k', e', is) =
                      open_type-Installed env file_type inode_num i filename m lo le c in
                    let marked = Quiet-∙ is.quiet_since (mark_used-Quiet env k' p i lo is.device) in
                    rw
                      (found-ret env k p i file_type inode_num filename flags k' has.running e f e')
                      (Quiet-∙ marked (quiet _ _ flags _))
              ]
            ]
        | inr (e, used) ↦
            rw (full-ret env k p file_type inode_num filename flags has.running e)
              (quiet k k.console flags k.intr_occ)
      ]

  -- The types of the files in the directory are those that `open` knows.
  abbrev pub IsKnown : Kernel → (filename : Addr) → Type 0
  IsKnown k filename =
      (check : ℤ) (m : Mem)
      → read_dentry_by_name env.fs (mem k) filename env.temp ≡ some (check, m)
      → is_minus_one check ≡ false
      → load32 m (env.temp + 32) ≤ 2

  pub open_file-Settles :
      {k : Kernel} {p : ℕ}
      → HasTable k p
      → (filename : Addr) → IsKnown k filename
      → Settles k (open_file env filename k)
  unfolding open_file
  open_file-Settles {k} {p} has filename known =
      let refused = quiet k k.console false k.intr_occ in
      elim (Bool-cases (filename == 0)) [
        | inl e ↦ rw (Settles, e) refused
        | inr e ↦ elim (Option-cases (strlen (mem k) filename)) [
          | inl e1 ↦ rw (Settles, e, e1) tt
          | inr (n, e1) ↦ elim (Bool-cases (n == 0)) [
            | inl e2 ↦ rw (Settles, e, e1, e2) refused
            | inr e2 ↦ elim (Option-cases (read_dentry_by_name env.fs (mem k) filename env.temp)) [
              | inl e3 ↦ rw (Settles, e, e1, e2, e3) tt
              | inr ((check, m), e3) ↦
                  let looked = quiet k (set_mem k m).console false k.intr_occ in
                  elim (Bool-cases (is_minus_one check)) [
                    | inl e4 ↦ rw (Settles, e, e1, e2, e3, e4) looked
                    | inr e4 ↦
                        rw (Settles, e, e1, e2, e3, e4)
                          (Settles-∙ looked _ (
                            open_found-Settles k.irq (load32 m (env.temp + 32)) _ filename
                              (HasTable-Quiet has looked) (known check m e3 e4)))
                  ]
            ]
          ]
        ]
      ]
