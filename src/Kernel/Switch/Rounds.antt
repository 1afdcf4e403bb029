-- ===== src/Kernel/Switch/Rounds.antt =====
-- A switch to another terminal and back.
use gyarad_os.Base.{ℕ, ◌≡◌, ◌≢◌, refl, ◌∙◌, some, true, false, ◌&&◌, arith, ◌==◌}
use gyarad_os.Machine.Memory.{Addr}
use gyarad_os.Paging.{switch_pd}
use gyarad_os.Kernel.State.{Kernel, Env}
use gyarad_os.Kernel.Process.{stack_addr}
use gyarad_os.Kernel.Switch.{moves, moved, change_process, context_switch}

-- Two terminals whose shells have started, with a process each.
pub record Running (k : Kernel) (a b p q : ℕ) : Type 0 where
  pub second : k.second_term_start ≡ 1
  pub third : k.third_term_start ≡ 1
  pub first : k.curr_proc a ≡ some p
  pub other : k.curr_proc b ≡ some q
  pub differ : p ≢ q

module _ (env : Env) (cmd_len : ℕ) (shell : Addr) where
  switch-change :
      (k : Kernel) (esp ebp a b p q : ℕ)
      → k.second_term_start ≡ 1
      → k.third_term_start ≡ 1
      → k.curr_proc a ≡ some p
      → k.curr_proc b ≡ some q
      → context_switch env cmd_len shell esp ebp a b k ≡ change_process esp ebp p q b k
  unfolding context_switch
  switch-change k esp ebp a b p q s t e f =
      let s' : (b == 1 && k.second_term_start == 0) ≡ false = ground arith in
      let t' : (b == 2 && k.third_term_start == 0) ≡ false = ground arith in
      rw (context_switch, s', t', e, f) refl

  -- Once the second and the third terminal have had their shells, and with different processes in
  -- the terminals `a` and `b`, a switch from `a` to `b` and back lets process `p` of `a` go on
  -- with the registers that it was left with, in terminal `a`, with its own page and its own
  -- kernel stack; in between, `q` goes on in `b` with the registers of its last switch and with
  -- its own page. No terminal changes its process.
  pub context_switch-context_switch :
      (k : Kernel) (esp ebp esp' ebp' a b p q : ℕ)
      → Running k a b p q
      → (k1 : Kernel) × (k2 : Kernel) × (context_switch env cmd_len shell esp ebp a b k
          ≡ moves (k.pcbs q).p_sched_ksp (k.pcbs q).p_sched_kbp k1)
        × (k1.curr_active_term ≡ b)
        × (k1.paging ≡ switch_pd (k.pcbs q).proc_num (k.pcbs q).base k.paging)
        × (context_switch env cmd_len shell esp' ebp' b a k1 ≡ moves esp ebp k2)
        × (k2.curr_active_term ≡ a)
        × (k2.paging ≡ switch_pd (k.pcbs p).proc_num (k.pcbs p).base k1.paging)
        × (k2.esp0 ≡ stack_addr (k.pcbs p).proc_num)
        × (k2.curr_proc ≡ k.curr_proc)
        × (k2.prev_proc ≡ k.prev_proc)
  unfolding change_process
  context_switch-context_switch k esp ebp esp' ebp' a b p q is =
      let pq : (p == q) ≡ false = ground (arith, is.differ) in
      let qp : (q == p) ≡ false = ground (arith, is.differ) in
      let pp : (p == p) ≡ true = ground arith in
      let there = switch-change k esp ebp a b p q is.second is.third is.first is.other in
      let k1 = moved esp ebp p q b k in
      let back = switch-change k1 esp' ebp' b a q p is.second is.third is.other is.first in
      (
        k1,
        moved esp' ebp' q p a k1,
        there ∙ rw (change_process, qp) refl,
        refl,
        rw qp refl,
        back ∙ rw (change_process, pq, pp) refl,
        refl,
        rw (pq, pp) refl,
        rw (pq, pp) refl,
        refl,
        refl,
      )
