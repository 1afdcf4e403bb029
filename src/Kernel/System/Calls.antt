-- ===== src/Kernel/System/Calls.antt =====
-- System calls and faults, whichever process runs, keep the system consistent.
use gyarad_os.Base.{
  ℕ, ◌+◌, ◌%◌, ◌≡◌, ◌≢◌, sym, ap, ◌∙◌, Option, none, some, Bool, true, false, arith, ltb, ◌||◌,
  ◌==◌, Bool-cases, Option-cases, inl, inr,
}
use gyarad_os.Machine.Memory.{Addr}
use gyarad_os.Fs.Calls.{is_minus_one}
use gyarad_os.Kernel.State.{
  Kernel, Env, Result, ret, enters, resumes, wait, overruns, fault, mem, set_mem, cli,
}
use gyarad_os.Kernel.Calls.{HasTable}
use gyarad_os.Kernel.Open.Known.{IsKnown}
use gyarad_os.Kernel.Dispatch.{
  Registers, in_kernel_page, iret, syscall_irq, syscall_jumptable, syscall_jumptable-Settles,
  vidmap-Settles,
}
use gyarad_os.Kernel.Process.{execute, halt, restart, read_header}
use gyarad_os.Kernel.Process.Start.{Refused, Executed, execute-Executed}
use gyarad_os.Kernel.Process.Halt.{halt-Halted}
use gyarad_os.Kernel.System.{outcome}
use gyarad_os.Kernel.System.Family.{Quiet, quiet, Settles, same_pcb}
use gyarad_os.Kernel.System.Idle.{
  Rests, Rests-Settles, Rests-if, read-Rests, write-Rests, close-Rests, getargs-Rests,
  open_file-Rests,
}
use gyarad_os.Paging.{Paging}
use gyarad_os.Kernel.System.Stacks.{Stacks}
use gyarad_os.Kernel.System.Memory.{
  IsConsistent, IsConsistent-Quiet, IsConsistent-Started, IsConsistent-Halted,
}

-- What holds of what an event leaves, if it leaves something.
abbrev pub Within : {A : Type 0} → (A → Type 0) → Option A → Type 0
Within P none = Unit
Within P (some a) = P a

pub IsConsistent-Settles :
    {rest : Paging} {from : Stacks} {k : Kernel} (r : Result)
    → IsConsistent rest from k
    → Settles k r
    → Within (IsConsistent rest from) (outcome r)
IsConsistent-Settles (ret n k') is q = IsConsistent-Quiet is q
IsConsistent-Settles (enters e k') is q = absurd q
IsConsistent-Settles (resumes s k') is q = absurd q
IsConsistent-Settles wait is q = tt
IsConsistent-Settles overruns is q = tt
IsConsistent-Settles fault is q = tt

refused-Quiet : {k k' : Kernel} → Refused k k' → Quiet k k'
refused-Quiet a = record {
  alike = record {
    mask = a.mask;
    curr = a.curr;
    prev = a.prev;
    pcb = λ r. same_pcb (ap (λ f. f r) a.pcbs);
  };
  term = a.term;
  paging = a.paging;
  second = a.second;
  third = a.third;
}

Executed-IsConsistent :
    {rest : Paging} {from : Stacks} {k : Kernel} (r : Result)
    → IsConsistent rest from k
    → Executed k r
    → Within (IsConsistent rest from) (outcome r)
Executed-IsConsistent (ret n k') is a = IsConsistent-Quiet is (refused-Quiet a)
Executed-IsConsistent (enters e k') is (id, new) = IsConsistent-Started is new
Executed-IsConsistent (resumes s k') is a = absurd a
Executed-IsConsistent wait is a = tt
Executed-IsConsistent overruns is a = tt
Executed-IsConsistent fault is a = tt

module _ (rest : Paging) (from : Stacks) (env : Env) where
  pub execute-IsConsistent :
      {k : Kernel}
      → IsConsistent rest from k
      → (cmd_len esp ebp : ℕ) (command : Addr)
      → Within (IsConsistent rest from) (outcome (execute env cmd_len esp ebp command k))
  execute-IsConsistent {k} is cmd_len esp ebp command =
      Executed-IsConsistent _ is (execute-Executed env k is.family.small cmd_len esp ebp command)

  restart-IsConsistent :
      {k : Kernel}
      → IsConsistent rest from k
      → (flags : Bool) → Within (IsConsistent rest from) (outcome (restart env flags (cli k)))
  unfolding restart
  restart-IsConsistent {k} is flags = elim (Option-cases (read_header env (mem k) env.shell)) [
    | inl e ↦ rw (Within, outcome, e) tt
    | inr ((n, m), e) ↦
        let keeps = IsConsistent-Quiet is (quiet k (set_mem k m).console flags k.intr_occ) in
        elim (Bool-cases (is_minus_one n)) [
          | inl e' ↦ rw (Within, outcome, e, e') keeps
          | inr e' ↦ rw (Within, outcome, e, e') keeps
        ]
  ]

  pub halt-IsConsistent :
      {k : Kernel}
      → IsConsistent rest from k
      → (status : ℕ) → Within (IsConsistent rest from) (outcome (halt env status k))
  unfolding halt
  halt-IsConsistent {k} is status = elim (Option-cases (k.curr_proc k.curr_active_term)) [
    | inl run ↦ rw (Within, outcome, run) tt
    | inr (p, run) ↦ elim (Option-cases (k.prev_proc k.curr_active_term)) [
      | inl first ↦ rw (Within, outcome, run, first) (restart-IsConsistent is k.irq)
      | inr (q, prev) ↦
          let mother = sym (is.family.prev _ p run) ∙ prev in
          let t = is.family.curr _ p run in
          let has : HasTable k p = record { running = run; table = is.family.table p t } in
          let (k', e, gone) =
            halt-Halted env k p q status has prev
              (λ s. is.family.leaf _ p p run t (mother ∙ ap some s)) in
          rw e (IsConsistent-Halted is run mother gone)
    ]
  ]

  after_iret :
      (flags : Bool) (r : Result)
      → Within (IsConsistent rest from) (outcome r)
      → Within (IsConsistent rest from) (outcome (iret flags r))
  after_iret flags (ret n k) is = IsConsistent-Quiet is (quiet k k.console flags k.intr_occ)
  after_iret flags (enters e k) is = is
  after_iret flags (resumes s k) is = is
  after_iret flags wait is = tt
  after_iret flags overruns is = tt
  after_iret flags fault is = tt

  pub IsConsistent-Rests :
      {k : Kernel} (r : Result)
      → IsConsistent rest from k
      → Rests k r
      → Within (IsConsistent rest from) (outcome r)
  IsConsistent-Rests (ret n k') is q = IsConsistent-Quiet is q
  IsConsistent-Rests (enters e k') is q = absurd q
  IsConsistent-Rests (resumes s k') is q = absurd q
  IsConsistent-Rests wait is q = tt
  IsConsistent-Rests overruns is q = tt
  IsConsistent-Rests fault is q = tt

  idle-Rests :
      (k : Kernel)
      → k.curr_proc k.curr_active_term ≡ none
      → (cmd_len esp ebp : ℕ) (r : Registers) → r.eax ≢ 1
      → r.eax ≢ 2
      → Rests k (syscall_jumptable env cmd_len esp ebp r k)
  unfolding syscall_jumptable
  idle-Rests k idle cmd_len esp ebp r halts executes =
      let e1 : (r.eax == 1) ≡ false = ground arith in
      let e2 : (r.eax == 2) ≡ false = ground arith in
      let stays = quiet k k.console k.irq k.intr_occ in
      rw (syscall_jumptable, e1, e2)
        (Rests-if k (r.eax == 3) _ _
          (Rests-if k (in_kernel_page r.ecx (r.edx + 1)) overruns _ tt
            (read-Rests env k idle _ _ _))
          (Rests-if k (r.eax == 4) _ _ (write-Rests env k idle _ _ _) (
            Rests-if k (r.eax == 5) _ _ (open_file-Rests env k idle _) (
              Rests-if k (r.eax == 6) _ _ (close-Rests env k idle _) (
                Rests-if k (r.eax == 7) _ _
                  (Rests-if k (in_kernel_page r.ebx r.ecx) overruns _ tt
                    (getargs-Rests env k idle _ _))
                  (Rests-if k (r.eax == 8) _ _ (Rests-Settles k _ (vidmap-Settles env k _))
                    (Rests-if k (r.eax == 9) _ _ stays stays)))))))

  jumptable-IsConsistent :
      {k : Kernel}
      → IsConsistent rest from k
      → (cmd_len esp ebp : ℕ) (r : Registers) → (r.eax ≡ 5 → IsKnown env k r.ebx)
      → Within (IsConsistent rest from) (outcome (syscall_jumptable env cmd_len esp ebp r k))
  unfolding syscall_jumptable
  jumptable-IsConsistent {k} is cmd_len esp ebp r opens = elim (Bool-cases (r.eax == 1)) [
    | inl e1 ↦ rw (syscall_jumptable, e1) (halt-IsConsistent is (r.ebx % 256))
    | inr e1 ↦ elim (Bool-cases (r.eax == 2)) [
      | inl e2 ↦ rw (syscall_jumptable, e1, e2) (execute-IsConsistent is cmd_len esp ebp r.ebx)
      | inr e2 ↦
          let halts : r.eax ≢ 1 = λ e. ground arith in
          let executes : r.eax ≢ 2 = λ e. ground arith in
          elim (Option-cases (k.curr_proc k.curr_active_term)) [
            | inl idle ↦
                IsConsistent-Rests _ is (idle-Rests k idle cmd_len esp ebp r halts executes)
            | inr (p, run) ↦
                let has : HasTable k p = record {
                  running = run;
                  table = is.family.table p (is.family.curr _ p run);
                } in
                IsConsistent-Settles _ is
                  (syscall_jumptable-Settles env has cmd_len esp ebp r halts executes opens)
          ]
    ]
  ]

  pub syscall_irq-IsConsistent :
      {k : Kernel}
      → IsConsistent rest from k
      → (flags : Bool) (cmd_len esp ebp : ℕ) (r : Registers) → (r.eax ≡ 5 → IsKnown env k r.ebx)
      → Within (IsConsistent rest from) (outcome (syscall_irq env flags cmd_len esp ebp r k))
  unfolding syscall_irq
  syscall_irq-IsConsistent {k} is flags cmd_len esp ebp r opens =
      elim (Bool-cases (ltb r.eax 1 || ltb 10 r.eax)) [
        | inl e ↦ rw (syscall_irq, e) (IsConsistent-Quiet is (quiet k k.console flags k.intr_occ))
        | inr e ↦
            rw (syscall_irq, e)
              (after_iret flags _ (
                jumptable-IsConsistent (IsConsistent-Quiet is (quiet k k.console true k.intr_occ))
                  cmd_len esp ebp r opens))
      ]
