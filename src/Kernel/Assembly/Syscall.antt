-- ===== src/Kernel/Assembly/Syscall.antt =====
-- `syscall_irq` of kernel/irq.S, by its instructions.
use gyarad_os.Base.{
  ℕ, ◌%◌, ◌<◌, ◌≤◌, ◌≡◌, refl, true, false, none, some, List, [], ◌∷◌, ◌==◌, ◌∙◌, ap, ap₂, suc,
  arith, Bool-cases, inl, inr, ◌⊎◌,
}
use gyarad_os.Kernel.Assembly.{
  Callee, in_table, Cpu, Instr, pushl, sti, call_table, cmpl, jg, syscall_invalid, interrupt, run,
  resumed, drop_stack, popl, jmp, syscall_ret, eax, ebx, ecx, edx, esi, edi, ebp, with_flag,
  interrupt_flag, signed_ltb,
}
use gyarad_os.Kernel.Assembly.Wrappers.{at_label, wrapper}
use gyarad_os.Kernel.Assembly.Jumps.{run-jl, run-jg}
use gyarad_os.Kernel.Assembly.Returns.{IsCdecl, Same, in_kernel, back, back-Same, resumed-back}
use gyarad_os.Kernel.Interrupts.Table.{syscall_irq}

module _ (body : Callee → Cpu → Cpu) (cdecl : IsCdecl body) where
  -- The state in which the function is called.
  abbrev pub called : Cpu → Cpu
  called p = record p {
    stack = p.b ∷ p.c ∷ p.d ∷ p.si ∷ p.di ∷ p.d ∷ p.c ∷ p.b ∷ p.bp ∷ p.stack;
    eflags = with_flag p.eflags;
    left = p.a;
    right = 10;
  }

  -- The text after the call.
  abbrev ending : List Instr
  ending =
      drop_stack 3
      ∷ popl esi
      ∷ popl edi
      ∷ popl edx
      ∷ popl ecx
      ∷ popl ebx
      ∷ popl ebp
      ∷ jmp syscall_ret
      ∷ []

  -- The text between the tests and the call.
  abbrev saving : List Instr
  saving =
      pushl ebp
      ∷ pushl ebx
      ∷ pushl ecx
      ∷ pushl edx
      ∷ pushl edi
      ∷ pushl esi
      ∷ pushl edx
      ∷ pushl ecx
      ∷ pushl ebx
      ∷ sti
      ∷ call_table
      ∷ ending

  saving-calls :
      (p : Cpu)
      → p.left ≡ p.a
      → p.right ≡ 10
      → run body at_label 20 saving p ≡ run body at_label 9 ending (body (in_table p.a) (called p))
  unfolding run
  saving-calls p l r =
      ap₂
        (λ x y.
          run body at_label 9 ending
            (body (in_table p.a) (record (called p) { left = x; right = y })))
        l r

  wrapper-calls :
      (p : Cpu)
      → signed_ltb p.a 1 ≡ false
      → signed_ltb 10 p.a ≡ false
      → run body at_label 24 (wrapper syscall_irq) p
        ≡ run body at_label 9 ending (body (in_table p.a) (called p))
  unfolding run
  wrapper-calls p e1 e2 =
      let p1 = record p { left = p.a; right = 1 } in
      let p2 = record p { left = p.a; right = 10 } in
      run-jl body at_label 22 syscall_invalid (cmpl 10 eax ∷ jg syscall_invalid ∷ saving) p1 false
        e1
      ∙ run-jg body at_label 20 syscall_invalid saving p2 false e2
      ∙ saving-calls p2 refl refl

  ending-resumed :
      (q : Cpu) (x y z si di d c b bp : ℕ) (s : List ℕ)
      → q.stack ≡ x ∷ y ∷ z ∷ si ∷ di ∷ d ∷ c ∷ b ∷ bp ∷ s
      → run body at_label 9 ending q
        ≡ resumed (record q { si = si; di = di; d = d; c = c; b = b; bp = bp; stack = s })
  unfolding run
  ending-resumed q x y z si di d c b bp s e =
      ap (λ t. run body at_label 9 ending (record q { stack = t })) e

  -- The end of a call with a number that there is none of.
  abbrev refused : ℕ → Cpu → Cpu
  refused right p = record p { a = 0xffff_ffff; left = p.a; right = right }

  invalid-resumed :
      (f right : ℕ) (p : Cpu)
      → run body at_label
          (suc (suc (suc f)))
          (at_label syscall_invalid)
          (record p { left = p.a; right = right })
        ≡ resumed (refused right p)
  unfolding run
  invalid-resumed f right p = refl

  below-resumed :
      (p : Cpu)
      → signed_ltb p.a 1 ≡ true
      → run body at_label 24 (wrapper syscall_irq) p ≡ resumed (refused 1 p)
  unfolding run
  below-resumed p e =
      run-jl body at_label 22 syscall_invalid (cmpl 10 eax ∷ jg syscall_invalid ∷ saving)
        (record p { left = p.a; right = 1 }) true e
      ∙ invalid-resumed 19 1 p

  above-resumed :
      (p : Cpu)
      → signed_ltb p.a 1 ≡ false
      → signed_ltb 10 p.a ≡ true
      → run body at_label 24 (wrapper syscall_irq) p ≡ resumed (refused 10 p)
  unfolding run
  above-resumed p e1 e2 =
      run-jl body at_label 22 syscall_invalid (cmpl 10 eax ∷ jg syscall_invalid ∷ saving)
        (record p { left = p.a; right = 1 }) false e1
      ∙ run-jg body at_label 20 syscall_invalid saving (record p { left = p.a; right = 10 }) true e2
      ∙ invalid-resumed 17 10 p

  -- How a system call comes back: with the result of the function with its number, which was called
  -- with interrupts on and finds `ebx`, `ecx` and `edx` as its arguments, or with -1.
  abbrev pub Returned : Cpu → Cpu → Type 0
  Returned p p' =
      let at = called (interrupt none p) in
      ((1 ≤ p.a)
        × (p.a ≤ 10)
        × (p'.a ≡ (body (in_table p.a) at).a)
        × ((rest : List ℕ) × (at.stack ≡ p.b ∷ p.c ∷ p.d ∷ rest))
        × (interrupt_flag at.eflags ≡ 1))
      ⊎ (((p.a < 1) ⊎ (10 < p.a)) × (p'.a ≡ 0xffff_ffff))

  valid :
      (p : Cpu)
      → p.a < 0x1_0000_0000
      → signed_ltb p.a 1 ≡ false
      → signed_ltb 10 p.a ≡ false
      → (p.a ≤ 10) × (1 ≤ p.a)
  valid p w e1 e2 = (ground arith, ground arith)

  invalid :
      (p : Cpu)
      → p.a < 0x1_0000_0000
      → (signed_ltb p.a 1 ≡ true) ⊎ (signed_ltb 10 p.a ≡ true)
      → (p.a < 1) ⊎ (10 < p.a)
  invalid p w e = ground arith

  flag-on : (n : ℕ) → interrupt_flag (with_flag n) ≡ 1
  flag-on n = omega arith

  refused-Same : (p : Cpu) (right : ℕ) → Same p (back p (refused right (interrupt none p)))
  refused-Same p right =
      back-Same p (refused right (interrupt none p))
        (record { b = refl; si = refl; di = refl; bp = refl; seg = refl }) refl refl

  -- The registers that the wrapper gives back, where the function left `q`.
  abbrev restored : Cpu → Cpu → Cpu
  restored p q = record q { si = p.si; di = p.di; d = p.d; c = p.c; b = p.b; bp = p.bp }

  called-returns :
      (p : Cpu)
      → signed_ltb p.a 1 ≡ false
      → signed_ltb 10 p.a ≡ false
      → (p.cs % 4 == 0) ≡ in_kernel p.outer
      → run body at_label 24 (wrapper syscall_irq) (interrupt none p)
        ≡ some (back p (restored p (body (in_table p.a) (called (interrupt none p)))))
  called-returns p e1 e2 mode =
      let at = called (interrupt none p) in
      let (x, y, z, st) = cdecl.table p.a p.b p.c p.d _ at refl in
      wrapper-calls (interrupt none p) e1 e2
      ∙ ending-resumed (body (in_table p.a) at) x y z _ _ _ _ _ _ _ st
      ∙ resumed-back p (restored p (body (in_table p.a) at)) mode

  -- The call `int 0x80` with any number in `eax`, from a program or from the kernel: when the function
  -- has returned, the wrapper runs to its `iret`. All but `eax` is then as it was before the call. For
  -- a number from 1 to 10, `eax` holds the result of the function with that number in the table, which
  -- was called with interrupts on and with `ebx`, `ecx` and `edx` as its arguments; for another
  -- number, also one that is negative, `eax` holds -1. The functions keep to the convention of calls
  -- in C, and the selector of the code says whether a program runs.
  pub syscall_wrapper-Returned :
      (p : Cpu)
      → p.a < 0x1_0000_0000
      → (p.cs % 4 == 0) ≡ in_kernel p.outer
      → (p' : Cpu) × (run body at_label 24 (wrapper syscall_irq) (interrupt none p) ≡ some p')
        × Same p p'
        × Returned p p'
  syscall_wrapper-Returned p w mode = elim (Bool-cases (signed_ltb p.a 1)) [
    | inl e1 ↦ (
      back p (refused 1 (interrupt none p)),
      below-resumed (interrupt none p) e1 ∙ resumed-back p (refused 1 (interrupt none p)) mode,
      refused-Same p 1,
      inr (invalid p w (inl e1), refl),
    )
    | inr e1 ↦ elim (Bool-cases (signed_ltb 10 p.a)) [
      | inl e2 ↦ (
        back p (refused 10 (interrupt none p)),
        above-resumed (interrupt none p) e1 e2
            ∙ resumed-back p (refused 10 (interrupt none p)) mode,
        refused-Same p 10,
        inr (invalid p w (inr e2), refl),
      )
      | inr e2 ↦
          let (le, ge) = valid p w e1 e2 in
          let kept = cdecl.preserves (in_table p.a) (called (interrupt none p)) in
          (
            back p (restored p (body (in_table p.a) (called (interrupt none p)))),
            called-returns p e1 e2 mode,
            back-Same p (restored p (body (in_table p.a) (called (interrupt none p))))
                (record { b = refl; si = refl; di = refl; bp = refl; seg = kept.seg }) refl refl,
            inl (ge, le, refl, (_, refl), flag-on p.eflags),
          )
    ]
  ]
