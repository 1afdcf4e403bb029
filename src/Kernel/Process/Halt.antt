-- ===== src/Kernel/Process/Halt.antt =====
-- `halt`: what the process leaves behind, and what its parent comes back to.
use gyarad_os.Base.{
  ℕ, zero, suc, ◌/◌, ◌^◌, ◌≤◌, ◌≡◌, ◌≢◌, refl, sym, ap, ◌∙◌, some, true, false, arith, ◌==◌,
  bit_xor,
}
use gyarad_os.Base.Int.{ℤ}
use gyarad_os.Paging.{switch_pd}
use gyarad_os.Kernel.State.{Kernel, Env, ret, resumes, cli, mem}
use gyarad_os.Kernel.Calls.{HasTable}
use gyarad_os.Kernel.Process.{close_all, halt, left, release, stack_addr}
use gyarad_os.Kernel.Process.Closing.{AllDevices, AllClosed, close_all-AllClosed}

module _ (env : Env) where
  -- What `halt` of process `p` leaves for its parent `q`.
  pub record Halted (k k' : Kernel) (p q : ℕ) : Type 0 where
    pub curr : k'.curr_proc k.curr_active_term ≡ some q
    pub prev : k'.prev_proc k.curr_active_term ≡ (k.pcbs q).prev
    pub terminals :
        (t : ℕ)
        → t ≢ k.curr_active_term
        → (k'.curr_proc t ≡ k.curr_proc t) × (k'.prev_proc t ≡ k.prev_proc t)
    pub mask : k'.curr_proc_id_mask ≡ bit_xor k.curr_proc_id_mask (0x80 / 2 ^ (k.pcbs p).proc_num)
    pub paging : k'.paging ≡ switch_pd (k.pcbs q).proc_num (k.pcbs q).base k.paging
    pub esp0 : k'.esp0 ≡ stack_addr (k.pcbs q).proc_num
    pub free : (i : ℕ) → i ≤ 7 → ((k'.pcbs p).fds i).flags ≢ 1
    pub others : (r : ℕ) → r ≢ p → k'.pcbs r ≡ k.pcbs r
    pub esp : k'.halt_esp ≡ (k'.pcbs p).p_ksp
    pub ebp : k'.halt_ebp ≡ (k'.pcbs p).p_kbp
    pub irq : k'.irq ≡ env.stale_flags (k'.pcbs p).p_kbp (mem k')
    pub shown : mem k' ≡ mem k
    pub term : k'.curr_active_term ≡ k.curr_active_term
    pub second : k'.second_term_start ≡ k.second_term_start
    pub third : k'.third_term_start ≡ k.third_term_start

  halt-leave :
      (k : Kernel) (p q status : ℕ) (r : ℤ) (k' : Kernel)
      → k.curr_proc k.curr_active_term ≡ some p
      → k.prev_proc k.curr_active_term ≡ some q
      → close_all env 6 2 (release env status p (cli k)) ≡ ret r k'
      → halt env status k ≡ resumes k'.g_status (left env p q k')
  unfolding halt
  halt-leave k p q status r k' run prev e = rw (halt, run, prev, e) refl

  -- `release` gives the terminal's two descriptors up, and nothing else of the table.
  record Released (k k' : Kernel) (p : ℕ) : Type 0 where
    input : ((k'.pcbs p).fds 0).flags ≡ 0
    output : ((k'.pcbs p).fds 1).flags ≡ 0
    fds : (j : ℕ) → 2 ≤ j → (k'.pcbs p).fds j ≡ (k.pcbs p).fds j
    others : (r : ℕ) → r ≢ p → k'.pcbs r ≡ k.pcbs r

  release-Released : (k : Kernel) (p status : ℕ) → Released k (release env status p k) p
  release-Released k p status =
      let e : (p == p) ≡ true = ground arith in
      record {
        input = rw e refl;
        output = rw e refl;
        fds = λ j lo.
            (let f : (j == 0) ≡ false = ground arith in
              let g : (j == 1) ≡ false = ground arith in rw (e, f, g) refl);
        others = λ r ne. (let f : (r == p) ≡ false = ground arith in rw f refl);
      }

  not_one : (x y : ℕ) → x ≡ y → y ≡ 0 → x ≢ 1
  not_one x y e z one = omega arith

  left-free :
      (k k' : Kernel) (p : ℕ) (i : ℕ)
      → ((k.pcbs p).fds 0).flags ≡ 0
      → ((k.pcbs p).fds 1).flags ≡ 0
      → AllClosed k k' p 2
      → i ≤ 7
      → ((k'.pcbs p).fds i).flags ≢ 1
  left-free k k' p zero a b done h = not_one _ _ (ap (λ d. d.flags) (done.fds 0 (omega arith))) a
  left-free k k' p (suc zero) a b done h =
      not_one _ _ (ap (λ d. d.flags) (done.fds 1 (omega arith))) b
  left-free k k' p (suc (suc i)) a b done h = done.free (suc (suc i)) (omega arith) h

  left-Halted :
      (k : Kernel) (p q status : ℕ) (k' : Kernel)
      → q ≢ p
      → Released (cli k) (release env status p (cli k)) p
      → AllClosed (release env status p (cli k)) k' p 2
      → Halted k (left env p q k') p q
  left-Halted k p q status k' ne rel done =
      let f = done.frame in
      let t : k'.curr_active_term ≡ k.curr_active_term = f.term in
      let same : k'.pcbs q ≡ k.pcbs q = f.others q ne ∙ rel.others q ne in
      let hit : (k.curr_active_term == k.curr_active_term) ≡ true = ground arith in
      record {
        curr = rw (t, hit) refl;
        prev = rw (t, hit) (ap (λ b. b.prev) same);
        terminals = λ u n.
            (let miss : (u == k.curr_active_term) ≡ false = ground arith in
              rw (t, miss) (ap (λ g. g u) f.curr, ap (λ g. g u) f.prev));
        mask = f.mask;
        paging =
            ap (λ b. switch_pd b.proc_num b.base k'.paging) same
            ∙ ap (switch_pd (k.pcbs q).proc_num (k.pcbs q).base) f.paging;
        esp0 = ap (λ b. stack_addr b.proc_num) same;
        free = λ i h. left-free _ k' p i rel.input rel.output done h;
        others = λ r n. f.others r n ∙ rel.others r n;
        esp = refl;
        ebp = refl;
        irq = refl;
        shown = f.shown;
        term = t;
        second = f.second;
        third = f.third;
      }

  -- `halt` of a program that another one started, and whose table is well formed, closes all its
  -- files and goes back to the end of that `execute` with its status, on the stack that its PCB
  -- holds: the parent runs in the terminal again, with its page, the kernel stack of its calls and
  -- its own parent, the bit of the slot is flipped in the mask, and the memory and the other
  -- terminals and PCBs are as they were. The interrupt flag is what the frame of that `execute` holds
  -- in the place of the local `flags` of `halt`.
  pub halt-Halted :
      (k : Kernel) (p q status : ℕ)
      → HasTable k p
      → k.prev_proc k.curr_active_term ≡ some q
      → q ≢ p
      → (k' : Kernel) × (halt env status k ≡ resumes status k') × Halted k k' p q
  unfolding AllDevices
  halt-Halted k p q status has prev ne =
      let rel = release-Released (cli k) p status in
      let dev : AllDevices ((release env status p (cli k)).pcbs p).fds = λ j a b u.
        rw (rel.fds j a) (has.table.others j a b (ap (λ d. d.flags) (sym (rel.fds j a)) ∙ u)) in
      let (k', e, done) =
        close_all-AllClosed env 6 2 (release env status p (cli k)) p refl (omega arith) has.running
          dev in
      let same : k'.g_status ≡ status = done.frame.status in
      (
        left env p q k',
        halt-leave k p q status _ k' has.running prev e
            ∙ ap (λ s. resumes s (left env p q k')) same,
        left-Halted k p q status k' ne rel done,
      )
