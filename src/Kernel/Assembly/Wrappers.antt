-- ===== src/Kernel/Assembly/Wrappers.antt =====
-- The wrappers of kernel/irq.S.
use gyarad_os.Base.{List, [], ◌∷◌}
use gyarad_os.Kernel.Interrupts.Table.{
  Stub, divide_by_zero_irq, debug_irq, nmi_irq, breakpoint_irq, overflow_irq, oob_irq, opcode_irq,
  no_coproc_irq, double_fault_irq, coproc_seg_overrun_irq, tss_irq, segment_irq, stack_irq,
  general_protec_irq, page_fault_irq, unknown_interr_irq, coproc_irq, align_irq, machine_chk_irq,
  pit_irq, key_irq, rtc_irq, mouse_irq, sb_irq, general_irq, syscall_irq,
}
use gyarad_os.Kernel.Assembly.{
  Callee, divide_by_zero_except, debug_except, nmi_except, breakpoint_except, overflow_except,
  oob_except, opcode_except, no_coproc_except, double_fault_except, coproc_seg_overrun_except,
  tss_except, segment_except, stack_except, general_protec_except, page_fault_except,
  unknown_interr_except, coproc_except, align_except, machine_chk_except, pit_handle_interrupt,
  handle_keypress, rtc_handle_interrupt, mouse_handle_interrupt, sound_balster_irq_handler,
  general_interrupt, Label, syscall_invalid, syscall_ret, Instr, pushl, popl, movl, drop_stack, sti,
  call, call_table, cmpl, jl, jg, jmp, iret, eax, ebx, ecx, edx, esi, edi, ebp,
}

-- The text that all the wrappers but one share.
abbrev pub around : Callee → List Instr
around g = pushl eax ∷ pushl ecx ∷ pushl edx ∷ call g ∷ popl edx ∷ popl ecx ∷ popl eax ∷ iret ∷ []

abbrev divide_by_zero_wrapper : List Instr
divide_by_zero_wrapper = around divide_by_zero_except

abbrev debug_wrapper : List Instr
debug_wrapper = around debug_except

abbrev nmi_wrapper : List Instr
nmi_wrapper = around nmi_except

abbrev breakpoint_wrapper : List Instr
breakpoint_wrapper = around breakpoint_except

abbrev overflow_wrapper : List Instr
overflow_wrapper = around overflow_except

abbrev oob_wrapper : List Instr
oob_wrapper = around oob_except

abbrev opcode_wrapper : List Instr
opcode_wrapper = around opcode_except

abbrev no_coproc_wrapper : List Instr
no_coproc_wrapper = around no_coproc_except

abbrev double_fault_wrapper : List Instr
double_fault_wrapper = around double_fault_except

abbrev coproc_seg_overrun_wrapper : List Instr
coproc_seg_overrun_wrapper = around coproc_seg_overrun_except

abbrev tss_wrapper : List Instr
tss_wrapper = around tss_except

abbrev segment_wrapper : List Instr
segment_wrapper = around segment_except

abbrev stack_wrapper : List Instr
stack_wrapper = around stack_except

abbrev general_protec_wrapper : List Instr
general_protec_wrapper = around general_protec_except

abbrev page_fault_wrapper : List Instr
page_fault_wrapper = around page_fault_except

abbrev unknown_interr_wrapper : List Instr
unknown_interr_wrapper = around unknown_interr_except

abbrev coproc_wrapper : List Instr
coproc_wrapper = around coproc_except

abbrev align_wrapper : List Instr
align_wrapper = around align_except

abbrev machine_chk_wrapper : List Instr
machine_chk_wrapper = around machine_chk_except

abbrev pit_wrapper : List Instr
pit_wrapper = around pit_handle_interrupt

abbrev key_wrapper : List Instr
key_wrapper = around handle_keypress

abbrev rtc_wrapper : List Instr
rtc_wrapper = around rtc_handle_interrupt

abbrev mouse_wrapper : List Instr
mouse_wrapper = around mouse_handle_interrupt

abbrev sb_wrapper : List Instr
sb_wrapper = around sound_balster_irq_handler

abbrev general_wrapper : List Instr
general_wrapper = around general_interrupt

abbrev pub syscall_wrapper : List Instr
syscall_wrapper =
    cmpl 1 eax
    ∷ jl syscall_invalid
    ∷ cmpl 10 eax
    ∷ jg syscall_invalid
    ∷ pushl ebp
    ∷ pushl ebx
    ∷ pushl ecx
    ∷ pushl edx
    ∷ pushl edi
    ∷ pushl esi
    ∷ pushl edx
    ∷ pushl ecx
    ∷ pushl ebx
    ∷ sti
    ∷ call_table
    ∷ drop_stack 3
    ∷ popl esi
    ∷ popl edi
    ∷ popl edx
    ∷ popl ecx
    ∷ popl ebx
    ∷ popl ebp
    ∷ jmp syscall_ret
    ∷ []

-- The labels in `syscall_irq`.
abbrev pub at_label : Label → List Instr
at_label syscall_invalid = movl 0xffff_ffff eax ∷ jmp syscall_ret ∷ []
at_label syscall_ret = iret ∷ []

abbrev pub wrapper : Stub → List Instr
wrapper divide_by_zero_irq = divide_by_zero_wrapper
wrapper debug_irq = debug_wrapper
wrapper nmi_irq = nmi_wrapper
wrapper breakpoint_irq = breakpoint_wrapper
wrapper overflow_irq = overflow_wrapper
wrapper oob_irq = oob_wrapper
wrapper opcode_irq = opcode_wrapper
wrapper no_coproc_irq = no_coproc_wrapper
wrapper double_fault_irq = double_fault_wrapper
wrapper coproc_seg_overrun_irq = coproc_seg_overrun_wrapper
wrapper tss_irq = tss_wrapper
wrapper segment_irq = segment_wrapper
wrapper stack_irq = stack_wrapper
wrapper general_protec_irq = general_protec_wrapper
wrapper page_fault_irq = page_fault_wrapper
wrapper unknown_interr_irq = unknown_interr_wrapper
wrapper coproc_irq = coproc_wrapper
wrapper align_irq = align_wrapper
wrapper machine_chk_irq = machine_chk_wrapper
wrapper pit_irq = pit_wrapper
wrapper key_irq = key_wrapper
wrapper rtc_irq = rtc_wrapper
wrapper mouse_irq = mouse_wrapper
wrapper sb_irq = sb_wrapper
wrapper general_irq = general_wrapper
wrapper syscall_irq = syscall_wrapper
