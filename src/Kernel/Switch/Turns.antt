-- ===== src/Kernel/Switch/Turns.antt =====
-- The terminals in turn, by the timer.
use gyarad_os.Base.{ℕ, ◌<◌, ◌≡◌, ◌≢◌, refl, ◌∙◌, some, true, false, arith, ◌==◌}
use gyarad_os.Machine.Memory.{Addr}
use gyarad_os.Drivers.Pic.{send_eoi}
use gyarad_os.Kernel.{next_term}
use gyarad_os.Kernel.State.{Kernel, Env, log, set_log}
use gyarad_os.Kernel.Switch.{moves, moved, change_process, pit_handle_interrupt}

-- A process in each terminal, and the first program has run.
pub record AllRun (k : Kernel) (p q r : ℕ) : Type 0 where
  pub known : k.curr_active_term < 3
  pub ran : k.first_program_run ≡ 1
  pub first : k.curr_proc k.curr_active_term ≡ some p
  pub second : k.curr_proc (next_term k.curr_active_term) ≡ some q
  pub third : k.curr_proc (next_term (next_term k.curr_active_term)) ≡ some r
  pub pq : p ≢ q
  pub qr : q ≢ r
  pub rp : r ≢ p

-- What the timer leaves, before the change of process.
abbrev told : Kernel → Kernel
told k = set_log k (send_eoi 0 (log k))

next-other : (t : ℕ) → t < 3 → (t == next_term t) ≡ false
unfolding next_term
next-other t h = ground arith

module _ (env : Env) (cmd_len : ℕ) (shell : Addr) where
  tick :
      (k : Kernel) (esp ebp p q : ℕ)
      → k.curr_active_term < 3
      → k.first_program_run ≡ 1
      → k.curr_proc k.curr_active_term ≡ some p
      → k.curr_proc (next_term k.curr_active_term) ≡ some q
      → pit_handle_interrupt env cmd_len shell true esp ebp k
        ≡ change_process esp ebp p q (next_term k.curr_active_term) (told k)
  unfolding pit_handle_interrupt
  tick k esp ebp p q known ran e f =
      let on : (k.first_program_run == 0) ≡ false = ground (arith, ran) in
      let other = next-other k.curr_active_term known in
      rw (pit_handle_interrupt, on, other, e, f) refl

  third_next : (t : ℕ) → t < 3 → next_term (next_term (next_term t)) ≡ t
  unfolding next_term
  third_next t h = ground arith

  next-small : (t : ℕ) → t < 3 → next_term t < 3
  unfolding next_term
  next-small t h = ground arith

  -- With scheduling on and a process in each of the three terminals, three interrupts of the timer
  -- let the three processes run in turn: the second and the third go on with the registers of
  -- their last switch, and the first with those that it was interrupted with, in its own terminal.
  -- No terminal changes its process.
  pub pit_handle_interrupt-turns :
      (k : Kernel) (esp ebp esp1 ebp1 esp2 ebp2 p q r : ℕ)
      → AllRun k p q r
      → (k1 : Kernel) × (k2 : Kernel) × (k3 : Kernel) × (pit_handle_interrupt env cmd_len shell true
            esp ebp k
          ≡ moves (k.pcbs q).p_sched_ksp (k.pcbs q).p_sched_kbp k1)
        × (pit_handle_interrupt env cmd_len shell true esp1 ebp1 k1
            ≡ moves (k.pcbs r).p_sched_ksp (k.pcbs r).p_sched_kbp k2)
        × (pit_handle_interrupt env cmd_len shell true esp2 ebp2 k2 ≡ moves esp ebp k3)
        × (k3.curr_active_term ≡ k.curr_active_term)
        × (k3.curr_proc ≡ k.curr_proc)
  unfolding change_process
  pit_handle_interrupt-turns k esp ebp esp1 ebp1 esp2 ebp2 p q r is =
      let t = k.curr_active_term in
      let u = next_term t in
      let v = next_term u in
      let qp : (q == p) ≡ false = ground (arith, is.pq) in
      let pq : (p == q) ≡ false = ground (arith, is.pq) in
      let rq : (r == q) ≡ false = ground (arith, is.qr) in
      let rp : (r == p) ≡ false = ground (arith, is.rp) in
      let pr : (p == r) ≡ false = ground (arith, is.rp) in
      let pp : (p == p) ≡ true = ground arith in
      let k1 = moved esp ebp p q u (told k) in
      let k2 = moved esp1 ebp1 q r v (told k1) in
      let k3 = moved esp2 ebp2 r p (next_term v) (told k2) in
      let e1 = tick k esp ebp p q is.known is.ran is.first is.second in
      let e2 = tick k1 esp1 ebp1 q r (next-small t is.known) is.ran is.second is.third in
      let back = third_next t is.known in
      let home : k.curr_proc (next_term v) ≡ some p = rw back is.first in
      let e3 = tick k2 esp2 ebp2 r p (next-small u (next-small t is.known)) is.ran is.third home in
      (
        k1,
        k2,
        k3,
        e1 ∙ rw (change_process, qp) refl,
        e2 ∙ rw (change_process, rq, rp) refl,
        e3 ∙ rw (change_process, pr, pq, pp) refl,
        back,
        refl,
      )
