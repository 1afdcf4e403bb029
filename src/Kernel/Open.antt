-- ===== src/Kernel/Open.antt =====
-- `open` and `close` on the descriptors of the running process.
pub mod Known
use gyarad_os.Base.{
  ℕ, zero, suc, ◌≤◌, ◌<◌, ◌≡◌, ◌≢◌, ◌⊎◌, inl, inr, refl, ◌∙◌, none, some, true, false, arith, leb,
  ltb, ◌&&◌, not, ◌==◌, Bool-cases, Option-cases, Bool, ◌+◌,
}
use gyarad_os.Base.Int.{ℤ, pos, negsuc}
use gyarad_os.Machine.Memory.{Addr, Mem, load32}
use gyarad_os.Str.{strcpy, strlen}
use gyarad_os.Fs.{read_dentry_by_name}
use gyarad_os.Fs.Calls.{get_inode, is_minus_one}
use gyarad_os.Kernel.{
  close, close_fd, free_fd, open_type, open_found, open_file, install, mark_used, dispatch_close,
}
use gyarad_os.Kernel.State.{
  Ops, rtc_ops, dir_ops, files_ops, Kernel, Env, Result, ret, wait, mem, set_mem, set_fd, fd_name,
  restore, fits,
}
use gyarad_os.Kernel.Table.{IsDevice, free_fd-first}
use gyarad_os.Kernel.Calls.{HasTable, HasTable-Quiet}
use gyarad_os.Kernel.System.Family.{Quiet, quiet, Quiet-∙, Quiet-set_fd, Settles, Settles-∙}

module _ (env : Env) where
  dispatch_close-Settles :
      (k : Kernel) (ops : Ops) → IsDevice ops → Settles k (dispatch_close env ops k)
  unfolding dispatch_close
  dispatch_close-Settles k ops (inl e) = rw e (quiet k _ k.irq k.intr_occ)
  dispatch_close-Settles k ops (inr (inl e)) = rw e (quiet k k.console k.irq k.intr_occ)
  dispatch_close-Settles k ops (inr (inr e)) = rw e (quiet k k.console k.irq k.intr_occ)

  close_fd-Settles :
      {k : Kernel} {p : ℕ} → HasTable k p → (i : ℕ) → 2 ≤ i → i ≤ 7 → Settles k (close_fd env p i k)
  unfolding close_fd
  close_fd-Settles {k} {p} has i lo hi = elim (Bool-cases (((k.pcbs p).fds i).flags == 1)) [
    | inl e ↦
        let q =
          Quiet-set_fd k p i (record ((k.pcbs p).fds i) { flags = 0; file_position = 0 }) lo
            (λ u. absurd (ground arith)) in
        rw (Settles, e)
          (Settles-∙ q _ (dispatch_close-Settles _ _ (has.table.others i lo hi (ground arith))))
    | inr e ↦ rw (Settles, e) (quiet k k.console k.irq k.intr_occ)
  ]

  pub close-Settles : {k : Kernel} {p : ℕ} → HasTable k p → (fd : ℤ) → Settles k (close env fd k)
  unfolding close
  close-Settles {k} {p} has (negsuc n) = quiet k k.console k.irq k.intr_occ
  close-Settles {k} {p} has (pos i) = elim (Bool-cases (leb 2 i)) [
    | inr e ↦ rw (Settles, e) (quiet k k.console k.irq k.intr_occ)
    | inl e ↦ elim (Bool-cases (leb i 7)) [
      | inr e' ↦ rw (Settles, e, e') (quiet k k.console k.irq k.intr_occ)
      | inl e' ↦
          rw (Settles, e, e', has.running) (close_fd-Settles has i (ground arith) (ground arith))
    ]
  ]

  -- What the switch of `open` leaves when the file's type is one that it knows.
  pub record Installed (k : Kernel) (p i : ℕ) (k' : Kernel) : Type 0 where
    pub quiet_since : Quiet k k'
    pub device : IsDevice ((k'.pcbs p).fds i).operations_pointer
    pub position : ((k'.pcbs p).fds i).file_position ≡ 0
    pub others : (j : ℕ) → j ≢ i → (k'.pcbs p).fds j ≡ (k.pcbs p).fds j

  install-Installed :
      {k : Kernel} {p : ℕ} (i : ℕ) (ops : Ops) (inode : Addr) (m : Mem)
      → 2 ≤ i
      → IsDevice ops
      → Installed k p i (
          set_fd (set_mem k m) p i (record {
            operations_pointer = ops;
            inode = inode;
            file_position = 0;
            flags = ((k.pcbs p).fds i).flags;
          }))
  install-Installed {k} {p} i ops inode m lo dev =
      let e : (p == p) ≡ true = ground arith in
      let e' : (i == i) ≡ true = ground arith in
      record {
        quiet_since =
            Quiet-∙ (quiet k (set_mem k m).console k.irq k.intr_occ)
              (Quiet-set_fd (set_mem k m) p i _ lo (λ u. dev));
        device = rw (e, e') dev;
        position = rw (e, e') refl;
        others = λ j ne. (let f : (j == i) ≡ false = ground arith in rw (e, f) refl);
      }

  pub open_type-Installed :
      {k : Kernel} {p : ℕ} (file_type inode_num i : ℕ) (filename : Addr) (m : Mem)
      → 2 ≤ i
      → file_type ≤ 2
      → strcpy (mem k) (fd_name p i) filename ≡ some m
      → (k' : Kernel) × (open_type env file_type inode_num p i filename k ≡ some k')
        × Installed k p i k'
  unfolding open_type
  open_type-Installed {k} {p} zero inode_num i filename m lo le e =
      let r = install-Installed i rtc_ops 0 m lo (inl refl) in
      rw e (
        _,
        refl,
        record {
          quiet_since = Quiet-∙ r.quiet_since (quiet _ _ _ _);
          device = r.device;
          position = r.position;
          others = r.others;
        },
      )
  open_type-Installed {k} {p} (suc zero) inode_num i filename m lo le e =
      rw (open_type, install, e) (_, refl, install-Installed i dir_ops 0 m lo (inr (inl refl)))
  open_type-Installed {k} {p} (suc (suc zero)) inode_num i filename m lo le e =
      rw (open_type, install, e)
        (_, refl, install-Installed i files_ops (get_inode env.fs inode_num) m lo (inr (inr refl)))
  open_type-Installed {k} {p} (suc (suc (suc n))) inode_num i filename m lo le e =
      absurd (omega arith)

  -- What `open` of an existing file comes to, with `flags` the interrupt flag that it came with.
  abbrev pub Opened : Bool → Kernel → (p : ℕ) → Result → Type 0
  Opened flags k p r =
      ((i : ℕ) × (k' : Kernel) × (r ≡ ret (pos i) k')
        × (2 ≤ i)
        × (i ≤ 7)
        × (((k.pcbs p).fds i).flags ≡ 0)
        × ((l : ℕ) → 2 ≤ l → l < i → ((k.pcbs p).fds l).flags ≢ 0)
        × HasTable k' p
        × (((k'.pcbs p).fds i).flags ≡ 1)
        × ((j : ℕ) → j ≢ i → (k'.pcbs p).fds j ≡ (k.pcbs p).fds j)
        × (k'.irq ≡ flags))
      ⊎ ((r ≡ ret (negsuc 0) (restore flags k))
          × ((l : ℕ) → 2 ≤ l → l ≤ 7 → ((k.pcbs p).fds l).flags ≢ 0))

  pub found-ret :
      (k : Kernel) (p i file_type inode_num : ℕ) (filename : Addr) (flags : Bool) (k' : Kernel)
      → k.curr_proc k.curr_active_term ≡ some p
      → free_fd 6 (k.pcbs p).fds 2 ≡ some i
      → (ltb file_type 3 && not (fits 32 (mem k) filename)) ≡ false
      → open_type env file_type inode_num p i filename k ≡ some k'
      → open_found env flags file_type inode_num filename k
        ≡ ret (pos i) (restore flags (mark_used env p i k'))
  unfolding open_found
  found-ret k p i file_type inode_num filename flags k' run e f e' =
      rw (open_found, run, e, f, e') refl

  pub full-ret :
      (k : Kernel) (p file_type inode_num : ℕ) (filename : Addr) (flags : Bool)
      → k.curr_proc k.curr_active_term ≡ some p
      → free_fd 6 (k.pcbs p).fds 2 ≡ none
      → open_found env flags file_type inode_num filename k ≡ ret (negsuc 0) (restore flags k)
  unfolding open_found
  full-ret k p file_type inode_num filename flags run e = rw (open_found, run, e) refl

  pub mark_used-Quiet :
      (k : Kernel) (p i : ℕ)
      → 2 ≤ i
      → IsDevice ((k.pcbs p).fds i).operations_pointer
      → Quiet k (mark_used env p i k)
  mark_used-Quiet k p i lo dev =
      Quiet-set_fd k p i (record ((k.pcbs p).fds i) { flags = 1 }) lo (λ u. dev)

  mark_used-flags : (k : Kernel) (p i : ℕ) → (((mark_used env p i k).pcbs p).fds i).flags ≡ 1
  mark_used-flags k p i = ground arith

  mark_used-others :
      (k : Kernel) (p i j : ℕ) → j ≢ i → ((mark_used env p i k).pcbs p).fds j ≡ (k.pcbs p).fds j
  mark_used-others k p i j ne =
      let e : (p == p) ≡ true = ground arith in
      let f : (j == i) ≡ false = ground arith in rw (e, f) refl

  -- With a well-formed table, `open` of an existing file, whose type is one of the three and whose
  -- name, a string that can be copied, has less than 32 bytes, gives the lowest descriptor that is not in use, which is
  -- in use from then on; no other descriptor changes, the table stays well formed, and the
  -- interrupt flag is restored. When all are in use it returns -1 and changes nothing but the
  -- flag.
  pub open_found-Opened :
      {k : Kernel} {p : ℕ} (flags : Bool) (file_type inode_num : ℕ) (filename : Addr)
      → HasTable k p
      → file_type ≤ 2
      → fits 32 (mem k) filename ≡ true
      → ((i : ℕ) → i ≤ 7 → (m : Mem) × (strcpy (mem k) (fd_name p i) filename ≡ some m))
      → Opened flags k p (open_found env flags file_type inode_num filename k)
  open_found-Opened {k} {p} flags file_type inode_num filename has le short copied =
      elim (free_fd-first 6 (k.pcbs p).fds 2) [
        | inl (i, e, lo, hi, free, before) ↦
            let (m, c) = copied i (omega arith) in
            let (k', e', is) = open_type-Installed file_type inode_num i filename m lo le c in
            let marked =
              HasTable-Quiet has (Quiet-∙ is.quiet_since (mark_used-Quiet k' p i lo is.device)) in
            inl (
              i,
              restore flags (mark_used env p i k'),
              found-ret k p i file_type inode_num filename flags k' has.running e
                  (ground (arith, short)) e',
              lo,
              omega arith,
              free,
              before,
              record { running = marked.running; table = marked.table },
              mark_used-flags k' p i,
              (λ j ne. mark_used-others k' p i j ne ∙ is.others j ne),
              refl,
            )
        | inr (e, used) ↦ inr (
          full-ret k p file_type inode_num filename flags has.running e,
          λ l a b. used l a (omega arith),
        )
      ]
