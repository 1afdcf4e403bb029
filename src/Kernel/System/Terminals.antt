-- ===== src/Kernel/System/Terminals.antt =====
-- The switch between terminals, and the timer, keep the system consistent.
use gyarad_os.Base.{
  ℕ, ◌≡◌, ◌≢◌, refl, sym, ap, ◌∙◌, Option, none, some, Bool, true, false, ◌&&◌, ◌==◌, if◌then◌else◌,
  Bool-cases, inl, inr, arith,
}
use gyarad_os.Drivers.Pic.{send_eoi}
use gyarad_os.Paging.{Paging}
use gyarad_os.Kernel.State.{Kernel, Env, log, set_log}
use gyarad_os.Kernel.Switch.{
  Switched, stays, save_stack, start_shell, context_switch, change_process, pit_handle_interrupt,
}
use gyarad_os.Kernel.System.{switched}
use gyarad_os.Kernel.System.Family.{IsFamily-Alike, Alike, Quiet, same_pcb}
use gyarad_os.Kernel.System.Stacks.{Stacks, Shows-Alike}
use gyarad_os.Kernel.System.Memory.{
  IsConsistent, IsConsistent-Quiet, map_of, map_of-under, map_of-elsewhere, switched-map,
}
use gyarad_os.Kernel.System.Calls.{Within, execute-IsConsistent}
use gyarad_os.Kernel.System.Devices.{shown-IsConsistent}

module _ (rest : Paging) (from : Stacks) (env : Env) where
  -- What the timer and the keyboard do to the stacks.
  save_stack-Quiet : (k : Kernel) (esp ebp p : ℕ) → Quiet k (save_stack esp ebp p k)
  save_stack-Quiet k esp ebp p = record {
    alike = record {
      mask = refl;
      curr = refl;
      prev = refl;
      pcb = λ r. elim (Bool-cases (r == p)) [
        | inr e ↦ rw e (same_pcb refl)
        | inl e ↦
            let same : r ≡ p = ground (arith, e) in
            rw (e, same) (record { parent = refl; number = refl; base = refl; table = λ t. t })
      ];
    };
    term = refl;
    paging = refl;
    second = refl;
    third = refl;
  }

  -- A change of the terminal, the page directory, the stack and the flags of the terminals.
  turned :
      (k : Kernel) (t : ℕ) (paging : Paging) (esp0 second third : ℕ)
      → Alike k (record k {
        curr_active_term = t;
        paging = paging;
        esp0 = esp0;
        second_term_start = second;
        third_term_start = third;
      })
  turned k t paging esp0 second third = record {
    mask = refl;
    curr = refl;
    prev = refl;
    pcb = λ r. same_pcb refl;
  }

  change-IsConsistent :
      {k : Kernel}
      → IsConsistent rest from k
      → (esp ebp p q next : ℕ) → k.curr_proc next ≡ some q
      → (next ≡ 1 → k.second_term_start ≢ 0)
      → (next ≡ 2 → k.third_term_start ≢ 0)
      → Within (IsConsistent rest from) (switched (change_process esp ebp p q next k))
  unfolding change_process
  change-IsConsistent {k} old esp ebp p q next run shown2 shown3 =
      let is = IsConsistent-Quiet old (save_stack-Quiet k esp ebp p) in
      let taken = is.family.curr next q run in
      let same : (r : ℕ) → k.curr_proc next ≡ some r → r ≡ q = λ r e. ground (arith, e, run) in
      let at = λ (a : ℕ). switched-map is q a taken k.paging in
      record {
        family = IsFamily-Alike is.family (turned _ _ _ _ _ _);
        stacks = (is.stacks.0, Shows-Alike is.family is.stacks.0 is.stacks.1 (turned _ _ _ _ _ _));
        map = λ r a e.
            at a
            ∙ map_of-under rest k.paging q a (is.elsewhere a)
            ∙ ap (λ n. map_of n rest a) (sym (same r e));
        elsewhere = λ a out. map_of-elsewhere _ k.paging q a (at a) out ∙ is.elsewhere a out;
        second = λ e. ((is.second e).0, λ t. shown2 t e);
        third = λ e. ((is.third e).0, λ t. shown3 t e);
      }

  start_shell-IsConsistent :
      {k : Kernel}
      → IsConsistent rest from k
      → (cmd_len shell esp ebp : ℕ) (p : Option ℕ)
      → Within (IsConsistent rest from) (switched (start_shell env cmd_len shell esp ebp p k))
  unfolding start_shell
  start_shell-IsConsistent is cmd_len shell esp ebp none = tt
  start_shell-IsConsistent {k} is cmd_len shell esp ebp (some p) =
      execute-IsConsistent rest from env (IsConsistent-Quiet is (save_stack-Quiet k esp ebp p))
        cmd_len esp ebp shell

  -- The second and the third terminal come to the front for the first time.
  second-IsConsistent :
      {k : Kernel}
      → IsConsistent rest from k
      → k.second_term_start ≡ 0
      → IsConsistent rest from (record k { curr_active_term = 1; second_term_start = 1 })
  second-IsConsistent {k} is new = record {
    family = IsFamily-Alike is.family (turned _ _ _ _ _ _);
    stacks = (is.stacks.0, Shows-Alike is.family is.stacks.0 is.stacks.1 (turned _ _ _ _ _ _));
    map = λ p a e. absurd (ground (arith, e, (is.second new).0));
    elsewhere = is.elsewhere;
    second = λ e. absurd (omega arith);
    third = λ e. ((is.third e).0, λ t. omega arith);
  }

  third-IsConsistent :
      {k : Kernel}
      → IsConsistent rest from k
      → k.third_term_start ≡ 0
      → IsConsistent rest from (record k { curr_active_term = 2; third_term_start = 1 })
  third-IsConsistent {k} is new = record {
    family = IsFamily-Alike is.family (turned _ _ _ _ _ _);
    stacks = (is.stacks.0, Shows-Alike is.family is.stacks.0 is.stacks.1 (turned _ _ _ _ _ _));
    map = λ p a e. absurd (ground (arith, e, (is.third new).0));
    elsewhere = is.elsewhere;
    second = λ e. ((is.second e).0, λ t. omega arith);
    third = λ e. absurd (omega arith);
  }

  switch-IsConsistent :
      {k : Kernel}
      → IsConsistent rest from k
      → (esp ebp next : ℕ) (p q : Option ℕ) → k.curr_proc next ≡ q
      → (next ≡ 1 → k.second_term_start ≢ 0)
      → (next ≡ 2 → k.third_term_start ≢ 0)
      → Within (IsConsistent rest from) (
          switched (elim p [
            | none ↦ stays k
            | some p ↦ elim q [ none ↦ stays k | some q ↦ change_process esp ebp p q next k ]
          ]))
  switch-IsConsistent is esp ebp next none q e two three = is
  switch-IsConsistent is esp ebp next (some p) none e two three = is
  switch-IsConsistent is esp ebp next (some p) (some q) e two three =
      change-IsConsistent is esp ebp p q next e two three

  Within-switched :
      (b : Bool) (x y : Switched)
      → (b ≡ true → Within (IsConsistent rest from) (switched x))
      → (b ≡ false → Within (IsConsistent rest from) (switched y))
      → Within (IsConsistent rest from) (switched (if b then x else y))
  Within-switched true x y p q = p refl
  Within-switched false x y p q = q refl

  pub context_switch-IsConsistent :
      {k : Kernel}
      → IsConsistent rest from k
      → (cmd_len shell esp ebp curr next : ℕ)
      → Within
          (IsConsistent rest from)
          (switched (context_switch env cmd_len shell esp ebp curr next k))
  unfolding context_switch
  context_switch-IsConsistent {k} is cmd_len shell esp ebp curr next =
      Within-switched (next == 1 && k.second_term_start == 0) _ _
        (λ e.
          start_shell-IsConsistent (second-IsConsistent is (ground arith)) cmd_len shell esp ebp
            (k.curr_proc curr))
        (λ e.
          Within-switched (next == 2 && k.third_term_start == 0) _ _
            (λ f.
              start_shell-IsConsistent (third-IsConsistent is (ground arith)) cmd_len shell esp ebp
                (k.curr_proc curr))
            (λ f.
              switch-IsConsistent is esp ebp next (k.curr_proc curr) (k.curr_proc next) refl
                (λ s. ground arith) (λ s. ground arith)))

  -- As it is configured, the timer only acknowledges its interrupt.
  pub pit_handle_interrupt-IsConsistent :
      {k : Kernel}
      → IsConsistent rest from k
      → (cmd_len shell esp ebp : ℕ)
      → Within
          (IsConsistent rest from)
          (switched (pit_handle_interrupt env cmd_len shell false esp ebp k))
  unfolding pit_handle_interrupt
  pit_handle_interrupt-IsConsistent {k} is cmd_len shell esp ebp =
      shown-IsConsistent is (set_log k (send_eoi 0 (log k))).console k.irq k.intr_occ
