-- ===== src/Kernel/Process/Closing.antt =====
-- `halt` closes the files of the process with `close`, one after the other.
use gyarad_os.Base.{
  ℕ, zero, suc, ◌+◌, ◌≤◌, ◌<◌, ◌≡◌, ◌≢◌, inl, inr, refl, sym, ap, ◌∙◌, some, true, false, arith,
  leb, ◌==◌, ℕ_discrete, Bool-cases,
}
use gyarad_os.Base.Int.{ℤ, pos}
use gyarad_os.Machine.Bus.{Log}
use gyarad_os.Kernel.{close, close_fd, dispatch_close}
use gyarad_os.Kernel.State.{Ops, Descriptor, Kernel, Env, ret, set_fd, mem, set_log}
use gyarad_os.Kernel.Table.{IsDevice}
use gyarad_os.Kernel.Process.{close_all}

-- The part of the kernel that closing a file of process `p` leaves alone.
pub record Frame (k k' : Kernel) (p : ℕ) : Type 0 where
  pub curr : k'.curr_proc ≡ k.curr_proc
  pub prev : k'.prev_proc ≡ k.prev_proc
  pub term : k'.curr_active_term ≡ k.curr_active_term
  pub mask : k'.curr_proc_id_mask ≡ k.curr_proc_id_mask
  pub status : k'.g_status ≡ k.g_status
  pub paging : k'.paging ≡ k.paging
  pub shown : mem k' ≡ mem k
  pub others : (r : ℕ) → r ≢ p → k'.pcbs r ≡ k.pcbs r
  pub second : k'.second_term_start ≡ k.second_term_start
  pub third : k'.third_term_start ≡ k.third_term_start

-- A descriptor that is in use has a device's table.
unfoldable pub AllDevices : (ℕ → Descriptor) → Type 0
AllDevices fds = (j : ℕ) → 2 ≤ j → j ≤ 7 → (fds j).flags ≡ 1 → IsDevice (fds j).operations_pointer

-- One closed descriptor.
pub record Closed (k k' : Kernel) (p i : ℕ) : Type 0 where
  pub frame : Frame k k' p
  pub free : ((k'.pcbs p).fds i).flags ≢ 1
  pub fds : (j : ℕ) → j ≢ i → (k'.pcbs p).fds j ≡ (k.pcbs p).fds j

-- The descriptors from `i` on are closed, and those below stay.
pub record AllClosed (k k' : Kernel) (p i : ℕ) : Type 0 where
  pub frame : Frame k k' p
  pub free : (j : ℕ) → i ≤ j → j ≤ 7 → ((k'.pcbs p).fds j).flags ≢ 1
  pub fds : (j : ℕ) → j < i → (k'.pcbs p).fds j ≡ (k.pcbs p).fds j

module _ (env : Env) where
  set_fd-Closed :
      (k : Kernel) (p i : ℕ)
      → Closed k (set_fd k p i (record ((k.pcbs p).fds i) { flags = 0; file_position = 0 })) p i
  set_fd-Closed k p i =
      let e : (p == p) ≡ true = ground arith in
      let e' : (i == i) ≡ true = ground arith in
      record {
        frame = record {
          curr = refl;
          prev = refl;
          term = refl;
          mask = refl;
          status = refl;
          paging = refl;
          shown = refl;
          second = refl;
          third = refl;
          others = λ r ne. (let f : (r == p) ≡ false = ground arith in rw f refl);
        };
        free = rw (e, e') (λ z. ground arith);
        fds = λ j ne. (let f : (j == i) ≡ false = ground arith in rw (e, f) refl);
      }

  relog : {k k' : Kernel} {p i : ℕ} → Closed k k' p i → (l : Log) → Closed k (set_log k' l) p i
  relog {k} {k'} {p} {i} done l = record {
    frame = record {
      curr = done.frame.curr;
      prev = done.frame.prev;
      term = done.frame.term;
      mask = done.frame.mask;
      status = done.frame.status;
      paging = done.frame.paging;
      shown = done.frame.shown;
      second = done.frame.second;
      third = done.frame.third;
      others = done.frame.others;
    };
    free = done.free;
    fds = done.fds;
  }

  dispatch_close-Closed :
      (ops : Ops) {k k' : Kernel} {p i : ℕ}
      → IsDevice ops
      → Closed k k' p i
      → (n : ℤ) × (k'' : Kernel) × (dispatch_close env ops k' ≡ ret n k'') × Closed k k'' p i
  unfolding dispatch_close
  dispatch_close-Closed ops (inl e) done = rw e (_, _, refl, relog done _)
  dispatch_close-Closed ops (inr (inl e)) done = rw e (_, _, refl, done)
  dispatch_close-Closed ops (inr (inr e)) done = rw e (_, _, refl, done)

  close_fd-Closed :
      (k : Kernel) (p i : ℕ)
      → (((k.pcbs p).fds i).flags ≡ 1 → IsDevice ((k.pcbs p).fds i).operations_pointer)
      → (n : ℤ) × (k' : Kernel) × (close_fd env p i k ≡ ret n k') × Closed k k' p i
  unfolding close_fd
  close_fd-Closed k p i dev = elim (Bool-cases (((k.pcbs p).fds i).flags == 1)) [
    | inl e ↦ rw (close_fd, e) (dispatch_close-Closed _ (dev (ground arith)) (set_fd-Closed k p i))
    | inr e ↦
        rw (close_fd, e)
          (
            _,
            _,
            refl,
            record {
              frame = record {
                curr = refl;
                prev = refl;
                term = refl;
                mask = refl;
                status = refl;
                paging = refl;
                shown = refl;
                second = refl;
                third = refl;
                others = λ r ne. refl;
              };
              free = λ u. ground arith;
              fds = λ j ne. refl;
            },
          )
  ]

  close-Closed :
      (k : Kernel) (p i : ℕ)
      → k.curr_proc k.curr_active_term ≡ some p
      → AllDevices (k.pcbs p).fds
      → 2 ≤ i
      → i ≤ 7
      → (n : ℤ) × (k' : Kernel) × (close env (pos i) k ≡ ret n k') × Closed k k' p i
  unfolding close AllDevices
  close-Closed k p i run dev lo hi =
      let e : leb 2 i ≡ true = ground arith in
      let e' : leb i 7 ≡ true = ground arith in
      rw (close, e, e', run) (close_fd-Closed k p i (dev i lo hi))

  Frame-∙ : (k k' k'' : Kernel) (p : ℕ) → Frame k k' p → Frame k' k'' p → Frame k k'' p
  Frame-∙ k k' k'' p a b = record {
    curr = b.curr ∙ a.curr;
    prev = b.prev ∙ a.prev;
    term = b.term ∙ a.term;
    mask = b.mask ∙ a.mask;
    status = b.status ∙ a.status;
    paging = b.paging ∙ a.paging;
    shown = b.shown ∙ a.shown;
    second = b.second ∙ a.second;
    third = b.third ∙ a.third;
    others = λ r ne. b.others r ne ∙ a.others r ne;
  }

  close_all-suc :
      (n i : ℕ) (k : Kernel) (r : ℤ) (k' : Kernel)
      → close env (pos i) k ≡ ret r k'
      → close_all env (suc n) i k ≡ close_all env n (i + 1) k'
  unfolding close_all
  close_all-suc n i k r k' e = rw (close_all, e) refl

  pub close_all-AllClosed :
      (n i : ℕ) (k : Kernel) (p : ℕ)
      → i + n ≡ 8
      → 2 ≤ i
      → k.curr_proc k.curr_active_term ≡ some p
      → AllDevices (k.pcbs p).fds
      → (k' : Kernel) × (close_all env n i k ≡ ret (pos 0) k') × AllClosed k k' p i
  unfolding AllDevices close_all
  close_all-AllClosed zero i k p all lo run dev = (
    k,
    refl,
    record {
      frame = record {
        curr = refl;
        prev = refl;
        term = refl;
        mask = refl;
        status = refl;
        paging = refl;
        shown = refl;
        second = refl;
        third = refl;
        others = λ r ne. refl;
      };
      free = λ j a b. absurd (omega arith);
      fds = λ j h. refl;
    },
  )
  close_all-AllClosed (suc n) i k p all lo run dev =
      let (r, k1, e, one) = close-Closed k p i run dev lo (omega arith) in
      let run1 : k1.curr_proc k1.curr_active_term ≡ some p =
        rw (one.frame.curr, one.frame.term) run in
      let dev1 : AllDevices (k1.pcbs p).fds = λ j a b u. elim (ℕ_discrete j i) [
        | yes same ↦ absurd (one.free (ap (λ l. ((k1.pcbs p).fds l).flags) (sym same) ∙ u))
        | no ne ↦ rw (one.fds j ne) (dev j a b (ap (λ d. d.flags) (sym (one.fds j ne)) ∙ u))
      ] in
      let (k', e', rest) =
        close_all-AllClosed n (i + 1) k1 p (omega arith) (omega arith) run1 dev1 in
      (
        k',
        close_all-suc n i k r k1 e ∙ e',
        record {
          frame = Frame-∙ k k1 k' p one.frame rest.frame;
          free = λ j a b. elim (ℕ_discrete j i) [
            | yes same ↦ rw (same, rest.fds i (omega arith)) one.free
            | no ne ↦ rest.free j (omega arith) b
          ];
          fds = λ j h. rest.fds j (omega arith) ∙ one.fds j (omega arith);
        },
      )
