-- ===== src/Kernel/Assembly/Returns.antt =====
-- A device's interrupt or a fault, and the return from its wrapper.
use gyarad_os.Base.{
  ℕ, ◌%◌, ◌≡◌, ◌≢◌, refl, Bool, true, false, Option, none, some, List, [], ◌∷◌, ◌==◌, Option-cases,
  inl, inr, ap, ◌∙◌,
}
use gyarad_os.Kernel.Assembly.{
  Callee, divide_by_zero_except, debug_except, nmi_except, breakpoint_except, overflow_except,
  oob_except, opcode_except, no_coproc_except, double_fault_except, coproc_seg_overrun_except,
  tss_except, segment_except, stack_except, general_protec_except, page_fault_except,
  unknown_interr_except, coproc_except, align_except, machine_chk_except, pit_handle_interrupt,
  handle_keypress, rtc_handle_interrupt, mouse_handle_interrupt, sound_balster_irq_handler,
  general_interrupt, in_table, Cpu, interrupt, run, resumed, popl, eax, ecx, edx, iret,
}
use gyarad_os.Kernel.Assembly.Wrappers.{around, at_label, wrapper}
use gyarad_os.Kernel.Interrupts.Table.{
  Stub, divide_by_zero_irq, debug_irq, nmi_irq, breakpoint_irq, overflow_irq, oob_irq, opcode_irq,
  no_coproc_irq, double_fault_irq, coproc_seg_overrun_irq, tss_irq, segment_irq, stack_irq,
  general_protec_irq, page_fault_irq, unknown_interr_irq, coproc_irq, align_irq, machine_chk_irq,
  pit_irq, key_irq, rtc_irq, mouse_irq, sb_irq, general_irq, syscall_irq,
}

-- The registers that a function in C gives back, and the segments, which no function in C changes.
pub record Preserves (p p' : Cpu) : Type 0 where
  pub b : p'.b ≡ p.b
  pub si : p'.si ≡ p.si
  pub di : p'.di ≡ p.di
  pub bp : p'.bp ≡ p.bp
  pub seg : p'.seg ≡ p.seg

abbrev pub is_table : Callee → Bool
is_table (in_table n) = true
is_table g = false

-- The convention of calls in C: the caller's part of the stack is as it was, but for the words of the
-- three arguments of a system call, which belong to the function.
pub record IsCdecl (body : Callee → Cpu → Cpu) : Type 0 where
  pub preserves : (g : Callee) (p : Cpu) → Preserves p (body g p)
  pub stack : (g : Callee) (p : Cpu) → is_table g ≡ false → (body g p).stack ≡ p.stack
  pub table :
      (n x y z : ℕ) (rest : List ℕ) (p : Cpu)
      → p.stack ≡ x ∷ y ∷ z ∷ rest
      → (x' : ℕ) × (y' : ℕ) × (z' : ℕ) × ((body (in_table n) p).stack ≡ x' ∷ y' ∷ z' ∷ rest)

-- The selector of the code says whether a program runs.
abbrev pub in_kernel : Option (ℕ × ℕ) → Bool
in_kernel none = true
in_kernel (some w) = false

-- The state as a program or the kernel sees it, but for `eax`.
pub record Same (p p' : Cpu) : Type 0 where
  pub preserves : Preserves p p'
  pub c : p'.c ≡ p.c
  pub d : p'.d ≡ p.d
  pub eflags : p'.eflags ≡ p.eflags
  pub eip : p'.eip ≡ p.eip
  pub cs : p'.cs ≡ p.cs
  pub stack : p'.stack ≡ p.stack
  pub outer : p'.outer ≡ p.outer

-- `iret` to the kernel.
pub resumed-kernel :
    (p : Cpu) (eip cs eflags : ℕ) (s : List ℕ)
    → p.stack ≡ eip ∷ cs ∷ eflags ∷ s
    → (cs % 4 == 0) ≡ true
    → resumed p ≡ some (record p { eip = eip; cs = cs; eflags = eflags; stack = s; outer = none })
unfolding resumed
resumed-kernel p eip cs eflags s e m = rw (e, m) refl

-- `iret` to a program.
pub resumed-program :
    (p : Cpu) (eip cs eflags esp ss : ℕ) (s : List ℕ)
    → p.stack ≡ eip ∷ cs ∷ eflags ∷ esp ∷ ss ∷ s
    → (cs % 4 == 0) ≡ false
    → resumed p
      ≡ some (record p { eip = eip; cs = cs; eflags = eflags; stack = s; outer = some (esp, ss) })
unfolding resumed
resumed-program p eip cs eflags esp ss s e m = rw (e, m) refl

-- The state after the `iret` from the interrupt of `p`, where the wrapper left the registers of `q`.
abbrev pub back : Cpu → Cpu → Cpu
back p q = record q { eip = p.eip; cs = p.cs; eflags = p.eflags; stack = p.stack; outer = p.outer }

pub back-Same : (p q : Cpu) → Preserves p q → q.c ≡ p.c → q.d ≡ p.d → Same p (back p q)
back-Same p q kept c d = record {
  preserves = record { b = kept.b; si = kept.si; di = kept.di; bp = kept.bp; seg = kept.seg };
  c = c;
  d = d;
  eflags = refl;
  eip = refl;
  cs = refl;
  stack = refl;
  outer = refl;
}

pub resumed-back :
    (p q : Cpu)
    → (p.cs % 4 == 0) ≡ in_kernel p.outer
    → resumed (record q { stack = (interrupt none p).stack }) ≡ some (back p q)
resumed-back p q mode =
    let q' = record q { stack = (interrupt none p).stack } in
    elim (Option-cases p.outer) [
      | inl e ↦
          let st : q'.stack ≡ p.eip ∷ p.cs ∷ p.eflags ∷ p.stack = rw e refl in
          rw (resumed-kernel q' _ _ _ _ st (mode ∙ ap in_kernel e), e) refl
      | inr (w, e) ↦
          let st : q'.stack ≡ p.eip ∷ p.cs ∷ p.eflags ∷ w.0 ∷ w.1 ∷ p.stack = rw e refl in
          rw (resumed-program q' _ _ _ _ _ _ st (mode ∙ ap in_kernel e), e) refl
    ]

-- Every wrapper but one has the shared text.
wrapped :
    (s : Stub) → s ≢ syscall_irq → (g : Callee) × (wrapper s ≡ around g) × (is_table g ≡ false)
wrapped divide_by_zero_irq ne = (divide_by_zero_except, refl, refl)
wrapped debug_irq ne = (debug_except, refl, refl)
wrapped nmi_irq ne = (nmi_except, refl, refl)
wrapped breakpoint_irq ne = (breakpoint_except, refl, refl)
wrapped overflow_irq ne = (overflow_except, refl, refl)
wrapped oob_irq ne = (oob_except, refl, refl)
wrapped opcode_irq ne = (opcode_except, refl, refl)
wrapped no_coproc_irq ne = (no_coproc_except, refl, refl)
wrapped double_fault_irq ne = (double_fault_except, refl, refl)
wrapped coproc_seg_overrun_irq ne = (coproc_seg_overrun_except, refl, refl)
wrapped tss_irq ne = (tss_except, refl, refl)
wrapped segment_irq ne = (segment_except, refl, refl)
wrapped stack_irq ne = (stack_except, refl, refl)
wrapped general_protec_irq ne = (general_protec_except, refl, refl)
wrapped page_fault_irq ne = (page_fault_except, refl, refl)
wrapped unknown_interr_irq ne = (unknown_interr_except, refl, refl)
wrapped coproc_irq ne = (coproc_except, refl, refl)
wrapped align_irq ne = (align_except, refl, refl)
wrapped machine_chk_irq ne = (machine_chk_except, refl, refl)
wrapped pit_irq ne = (pit_handle_interrupt, refl, refl)
wrapped key_irq ne = (handle_keypress, refl, refl)
wrapped rtc_irq ne = (rtc_handle_interrupt, refl, refl)
wrapped mouse_irq ne = (mouse_handle_interrupt, refl, refl)
wrapped sb_irq ne = (sound_balster_irq_handler, refl, refl)
wrapped general_irq ne = (general_interrupt, refl, refl)
wrapped syscall_irq ne = absurd (ne refl)

module _ (body : Callee → Cpu → Cpu) (cdecl : IsCdecl body) where
  -- The state in which the wrapper calls.
  abbrev saved : Cpu → Cpu
  saved p = record p { stack = p.d ∷ p.c ∷ p.a ∷ p.stack }

  around-calls :
      (g : Callee) (p : Cpu)
      → run body at_label 8 (around g) p
        ≡ run body at_label 4 (popl edx ∷ popl ecx ∷ popl eax ∷ iret ∷ []) (body g (saved p))
  unfolding run
  around-calls g p = refl

  tail-resumed :
      (q : Cpu) (x y z : ℕ) (s : List ℕ)
      → q.stack ≡ x ∷ y ∷ z ∷ s
      → run body at_label 4 (popl edx ∷ popl ecx ∷ popl eax ∷ iret ∷ []) q
        ≡ resumed (record q { d = x; c = y; a = z; stack = s })
  unfolding run
  tail-resumed q x y z s e = rw e refl

  -- The state after the wrapper.
  abbrev after : Callee → Cpu → Cpu
  after g p = back p (record (body g (saved (interrupt none p))) { d = p.d; c = p.c; a = p.a })

  around-Same : (g : Callee) (p : Cpu) → Same p (after g p) × ((after g p).a ≡ p.a)
  around-Same g p =
      let kept = cdecl.preserves g (saved (interrupt none p)) in
      let q = record (body g (saved (interrupt none p))) { d = p.d; c = p.c; a = p.a } in
      let same : Preserves p q = record {
        b = kept.b;
        si = kept.si;
        di = kept.di;
        bp = kept.bp;
        seg = kept.seg;
      } in
      (back-Same p q same refl refl, refl)

  around-runs :
      (g : Callee) (p : Cpu)
      → is_table g ≡ false
      → (p.cs % 4 == 0) ≡ in_kernel p.outer
      → run body at_label 8 (around g) (interrupt none p) ≡ some (after g p)
  around-runs g p ne mode =
      let q = saved (interrupt none p) in
      around-calls g (interrupt none p)
      ∙ tail-resumed (body g q) _ _ _ _ (cdecl.stack g q ne)
      ∙ resumed-back p (record (body g q) { d = p.d; c = p.c; a = p.a }) mode

  -- A device's interrupt, or a fault without an error code, at any moment of a program or of the
  -- kernel: when the function that its wrapper calls has returned, the wrapper runs to its `iret`, and
  -- the registers, the flags, the segments, the stack and the place where the code goes on are those
  -- from before the interrupt. The functions keep to the convention of calls in C, and the selector of
  -- the code says whether a program runs.
  pub wrapper-Same :
      (s : Stub) (p : Cpu)
      → s ≢ syscall_irq
      → (p.cs % 4 == 0) ≡ in_kernel p.outer
      → (p' : Cpu) × (run body at_label 8 (wrapper s) (interrupt none p) ≡ some p')
        × Same p p'
        × (p'.a ≡ p.a)
  wrapper-Same s p ne mode =
      let (g, text, direct) = wrapped s ne in
      let (same, acc) = around-Same g p in
      (after g p, rw text (around-runs g p direct mode), same, acc)
