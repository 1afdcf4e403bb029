-- ===== src/Kernel/Interrupts/Faults.antt =====
-- A fault of a program ends the program: the wrappers of kernel/irq.S and the handlers they call.
use gyarad_os.Base.{
  codes, ℕ, ◌≡◌, ◌≢◌, refl, Bool, true, Bool-cases, inl, inr, not, Option, none, some, arith, List,
  [], ◌∷◌, ◌==◌, ◌&&◌,
}
use gyarad_os.Machine.Memory.{Addr}
use gyarad_os.Screen.{puts}
use gyarad_os.Screen.Printf.{printf, printf_from, literal}
use gyarad_os.Kernel.State.{Kernel, Env, Result, resumes, cli, set_screen, mem}
use gyarad_os.Kernel.Calls.{HasTable}
use gyarad_os.Kernel.Process.Halt.{Halted, halt-Halted}
use gyarad_os.Kernel.Interrupts.{
  print, exception, divide_by_zero_except, debug_except, nmi_except, breakpoint_except,
  overflow_except, oob_except, opcode_except, no_coproc_except, double_fault_except,
  coproc_seg_overrun_except, tss_except, segment_except, stack_except, general_protec_except,
  page_fault_except, unknown_interr_except, coproc_except, align_except, machine_chk_except,
}
use gyarad_os.Kernel.Interrupts.Table.{
  Stub, divide_by_zero_irq, debug_irq, nmi_irq, breakpoint_irq, overflow_irq, oob_irq, opcode_irq,
  no_coproc_irq, double_fault_irq, coproc_seg_overrun_irq, tss_irq, segment_irq, stack_irq,
  general_protec_irq, page_fault_irq, unknown_interr_irq, coproc_irq, align_irq, machine_chk_irq,
  pit_irq, key_irq, rtc_irq, mouse_irq, general_irq, syscall_irq, sb_irq,
}

-- The handler that the wrapper of an exception calls, if the wrapper is one.
unfoldable pub serve :
    (env : Env) (conv_buf : Addr) (args : ℕ → ℕ) (fault_addr : ℕ) → Stub → Kernel → Option Result
serve env conv_buf args fault_addr divide_by_zero_irq k =
    some (divide_by_zero_except env conv_buf args k)
serve env conv_buf args fault_addr debug_irq k = some (debug_except env conv_buf args k)
serve env conv_buf args fault_addr nmi_irq k = some (nmi_except env conv_buf args k)
serve env conv_buf args fault_addr breakpoint_irq k = some (breakpoint_except env conv_buf args k)
serve env conv_buf args fault_addr overflow_irq k = some (overflow_except env conv_buf args k)
serve env conv_buf args fault_addr oob_irq k = some (oob_except env conv_buf args k)
serve env conv_buf args fault_addr opcode_irq k = some (opcode_except env conv_buf args k)
serve env conv_buf args fault_addr no_coproc_irq k = some (no_coproc_except env conv_buf args k)
serve env conv_buf args fault_addr double_fault_irq k =
    some (double_fault_except env conv_buf args k)
serve env conv_buf args fault_addr coproc_seg_overrun_irq k =
    some (coproc_seg_overrun_except env conv_buf args k)
serve env conv_buf args fault_addr tss_irq k = some (tss_except env conv_buf args k)
serve env conv_buf args fault_addr segment_irq k = some (segment_except env conv_buf args k)
serve env conv_buf args fault_addr stack_irq k = some (stack_except env conv_buf args k)
serve env conv_buf args fault_addr general_protec_irq k =
    some (general_protec_except env conv_buf args k)
serve env conv_buf args fault_addr page_fault_irq k =
    some (page_fault_except env conv_buf args fault_addr k)
serve env conv_buf args fault_addr unknown_interr_irq k =
    some (unknown_interr_except env conv_buf args k)
serve env conv_buf args fault_addr coproc_irq k = some (coproc_except env conv_buf args k)
serve env conv_buf args fault_addr align_irq k = some (align_except env conv_buf args k)
serve env conv_buf args fault_addr machine_chk_irq k = some (machine_chk_except env conv_buf args k)
serve env conv_buf args fault_addr pit_irq k = none
serve env conv_buf args fault_addr key_irq k = none
serve env conv_buf args fault_addr rtc_irq k = none
serve env conv_buf args fault_addr mouse_irq k = none
serve env conv_buf args fault_addr general_irq k = none
serve env conv_buf args fault_addr syscall_irq k = none
serve env conv_buf args fault_addr sb_irq k = none

-- What the program's terminal says of an exception; the page fault adds the address.
abbrev pub text : Stub → List ℕ
text divide_by_zero_irq = codes "\nEXCEPTION: Divide by zero!\n"
text debug_irq = codes "\nEXCEPTION: Debug!\n"
text nmi_irq = codes "\nEXCEPTION: Non-maskable interrupt!\n"
text breakpoint_irq = codes "\nEXCEPTION: Breakpoint!\n"
text overflow_irq = codes "\nEXCEPTION: Into detected overflow!\n"
text oob_irq = codes "\nEXCEPTION: Out of bounds!\n"
text opcode_irq = codes "\nEXCEPTION: Invalid opcode!\n"
text no_coproc_irq = codes "\nEXCEPTION: No coprocessor!\n"
text double_fault_irq = codes "\nEXCEPTION: Double fault!\n"
text coproc_seg_overrun_irq = codes "\nEXCEPTION: Coprocessor segment overrun!\n"
text tss_irq = codes "\nEXCEPTION: Bad TSS!\n"
text segment_irq = codes "\nEXCEPTION: Segment not present!\n"
text stack_irq = codes "\nEXCEPTION: Stack fault!\n"
text general_protec_irq = codes "\nEXCEPTION: General protection fault!\n"
text unknown_interr_irq = codes "\nEXCEPTION: Unknown interrupt!\n"
text coproc_irq = codes "\nEXCEPTION: Coprocessor fault!\n"
text align_irq = codes "\nEXCEPTION: Alignment check!\n"
text machine_chk_irq = codes "\nEXCEPTION: Machine check!\n"
text s = []

-- A format without conversions.
abbrev pub plain : List ℕ → Bool
plain [] = true
plain (c ∷ r) = not (c == b'%') && plain r

printf_from-plain :
    (terminal conv_buf : ℕ) (args : ℕ → ℕ) (format : List ℕ) (esp : ℕ) (s : gyarad_os.Screen.Screen)
    → plain format ≡ true
    → printf_from terminal conv_buf args literal format esp s ≡ some (puts terminal format s)
unfolding printf_from puts
printf_from-plain terminal conv_buf args [] esp s h = refl
printf_from-plain terminal conv_buf args (c ∷ r) esp s h = elim (Bool-cases (c == b'%')) [
  | inl e ↦ absurd (ground (arith, h, e))
  | inr e ↦ rw e (printf_from-plain terminal conv_buf args r esp _ (ground (arith, h, e)))
]

module _ (env : Env) (conv_buf : Addr) (args : ℕ → ℕ) where
  -- Where a fault leaves the kernel: after its message, which stays on the screen, the program has
  -- been halted.
  pub record Killed (message : List ℕ) (k : Kernel) (p q : ℕ) (r : Option Result) : Type 0 where
    pub parent : Kernel
    pub ends : r ≡ some (resumes 254 parent)
    pub shown : mem parent ≡ (puts k.console.active_terminal message k.console.screen).mem
    pub halted :
        Halted env
          (cli (set_screen k (puts k.console.active_terminal message k.console.screen)))
          parent
          p
          q

  pub exception-prints :
      (k : Kernel) (message : List ℕ)
      → plain message ≡ true
      → print conv_buf args message k
        ≡ some (set_screen k (puts k.console.active_terminal message k.console.screen))
  unfolding print printf
  exception-prints k message h =
      let e =
        printf_from-plain k.console.active_terminal conv_buf args message 0 k.console.screen h in
      rw (print, printf, e) refl

  exception-Killed :
      (k : Kernel) (p q : ℕ) (message : List ℕ)
      → HasTable k p
      → k.prev_proc k.curr_active_term ≡ some q
      → q ≢ p
      → plain message ≡ true
      → Killed message k p q (some (exception env conv_buf args message k))
  unfolding exception
  exception-Killed k p q message has prev ne h =
      let k1 = cli (set_screen k (puts k.console.active_terminal message k.console.screen)) in
      let has1 : HasTable k1 p = record { running = has.running; table = has.table } in
      let (k', e, done) = halt-Halted env k1 p q 254 has1 prev ne in
      record {
        parent = k';
        ends = rw (exception, exception-prints (cli k) message h, e) refl;
        shown = done.shown;
        halted = done;
      }

  by_message :
      (k : Kernel) (p q : ℕ) (message : List ℕ) (r : Result)
      → HasTable k p
      → k.prev_proc k.curr_active_term ≡ some q
      → q ≢ p
      → plain message ≡ true
      → some (exception env conv_buf args message k) ≡ some r
      → Killed message k p q (some r)
  by_message k p q message r has prev ne h e = rw⁻¹ e (exception-Killed k p q message has prev ne h)

  -- Every exception but the page fault ends the program that caused it: the wrapper's handler puts
  -- the message of the exception on the screen and halts the program with status 254 (-2 as a byte),
  -- so that its parent runs again, as after a `halt` of its own, with the message on the screen. The
  -- program has a parent, and its table is well formed.
  pub serve-Killed :
      (fault_addr : ℕ) (s : Stub) (k : Kernel) (p q : ℕ) (r : Result)
      → HasTable k p
      → k.prev_proc k.curr_active_term ≡ some q
      → q ≢ p
      → s ≢ page_fault_irq
      → serve env conv_buf args fault_addr s k ≡ some r
      → Killed (text s) k p q (some r)
  unfolding serve divide_by_zero_except debug_except nmi_except breakpoint_except overflow_except
      oob_except opcode_except no_coproc_except double_fault_except coproc_seg_overrun_except
      tss_except segment_except stack_except general_protec_except unknown_interr_except
      coproc_except align_except machine_chk_except
  serve-Killed fault_addr divide_by_zero_irq k p q r has prev ne nf e =
      by_message k p q _ r has prev ne refl e
  serve-Killed fault_addr debug_irq k p q r has prev ne nf e =
      by_message k p q _ r has prev ne refl e
  serve-Killed fault_addr nmi_irq k p q r has prev ne nf e = by_message k p q _ r has prev ne refl e
  serve-Killed fault_addr breakpoint_irq k p q r has prev ne nf e =
      by_message k p q _ r has prev ne refl e
  serve-Killed fault_addr overflow_irq k p q r has prev ne nf e =
      by_message k p q _ r has prev ne refl e
  serve-Killed fault_addr oob_irq k p q r has prev ne nf e = by_message k p q _ r has prev ne refl e
  serve-Killed fault_addr opcode_irq k p q r has prev ne nf e =
      by_message k p q _ r has prev ne refl e
  serve-Killed fault_addr no_coproc_irq k p q r has prev ne nf e =
      by_message k p q _ r has prev ne refl e
  serve-Killed fault_addr double_fault_irq k p q r has prev ne nf e =
      by_message k p q _ r has prev ne refl e
  serve-Killed fault_addr coproc_seg_overrun_irq k p q r has prev ne nf e =
      by_message k p q _ r has prev ne refl e
  serve-Killed fault_addr tss_irq k p q r has prev ne nf e = by_message k p q _ r has prev ne refl e
  serve-Killed fault_addr segment_irq k p q r has prev ne nf e =
      by_message k p q _ r has prev ne refl e
  serve-Killed fault_addr stack_irq k p q r has prev ne nf e =
      by_message k p q _ r has prev ne refl e
  serve-Killed fault_addr general_protec_irq k p q r has prev ne nf e =
      by_message k p q _ r has prev ne refl e
  serve-Killed fault_addr page_fault_irq k p q r has prev ne nf e = absurd (nf refl)
  serve-Killed fault_addr unknown_interr_irq k p q r has prev ne nf e =
      by_message k p q _ r has prev ne refl e
  serve-Killed fault_addr coproc_irq k p q r has prev ne nf e =
      by_message k p q _ r has prev ne refl e
  serve-Killed fault_addr align_irq k p q r has prev ne nf e =
      by_message k p q _ r has prev ne refl e
  serve-Killed fault_addr machine_chk_irq k p q r has prev ne nf e =
      by_message k p q _ r has prev ne refl e
  serve-Killed fault_addr pit_irq k p q r has prev ne nf e = absurd (ground (arith, e))
  serve-Killed fault_addr key_irq k p q r has prev ne nf e = absurd (ground (arith, e))
  serve-Killed fault_addr rtc_irq k p q r has prev ne nf e = absurd (ground (arith, e))
  serve-Killed fault_addr mouse_irq k p q r has prev ne nf e = absurd (ground (arith, e))
  serve-Killed fault_addr general_irq k p q r has prev ne nf e = absurd (ground (arith, e))
  serve-Killed fault_addr syscall_irq k p q r has prev ne nf e = absurd (ground (arith, e))
  serve-Killed fault_addr sb_irq k p q r has prev ne nf e = absurd (ground (arith, e))
