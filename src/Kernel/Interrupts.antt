-- ===== src/Kernel/Interrupts.antt =====
-- kernel/idt.c: what the processor's exceptions and the interrupts that no device owns do.
-- Each handler of an exception is a function of its own in the code; their common body, which the
-- code repeats, is `exception`.
pub mod Table
pub mod Faults
mod Tests
use gyarad_os.Base.{ℕ, ◌-◌, ◌%◌, ◌^◌, Bool, Option, none, some, List, codes, ◌==◌, if◌then◌else◌}
use gyarad_os.Machine.Memory.{Addr}
use gyarad_os.Drivers.Pic.{send_eoi}
use gyarad_os.Screen.Printf.{printf}
use gyarad_os.Kernel.State.{
  Kernel, Env, Result, ret, enters, resumes, wait, overruns, fault, log, set_log, set_screen, cli,
  restore,
}
use gyarad_os.Kernel.Process.{halt}

-- `printf` in the kernel, which prints where the active terminal is.
unfoldable pub print :
    (conv_buf : Addr) → (args : ℕ → ℕ) → (format : List ℕ) → Kernel → Option Kernel
print conv_buf args format k =
    elim (printf k.console.active_terminal conv_buf args format k.console.screen) [
      | none ↦ none
      | some s ↦ some (set_screen k s)
    ]

-- `restore_flags(flags)`, where the call before it comes back.
abbrev pub then_restore : (flags : Bool) → Result → Result
then_restore flags (ret n k) = ret n (restore flags k)
then_restore flags (enters e k) = enters e k
then_restore flags (resumes s k) = resumes s k
then_restore flags wait = wait
then_restore flags overruns = overruns
then_restore flags fault = fault

-- `conv_buf` is the address of the local of `printf`, and `args` what stands on the stack above its
-- format.
module _ (env : Env) (conv_buf : Addr) (args : ℕ → ℕ) where
  -- `halt(-2)` past what is printed; the status is a `uint8_t`.
  abbrev pub halt_fault : (flags : Bool) → Option Kernel → Result
  halt_fault flags none = wait
  halt_fault flags (some k) = then_restore flags (halt env ((2 ^ 32 - 2) % 0x100) k)

  unfoldable pub exception : (message : List ℕ) → Kernel → Result
  exception message k = halt_fault k.irq (print conv_buf args message (cli k))

  unfoldable pub divide_by_zero_except : Kernel → Result
  divide_by_zero_except k = exception (codes "\nEXCEPTION: Divide by zero!\n") k

  unfoldable pub debug_except : Kernel → Result
  debug_except k = exception (codes "\nEXCEPTION: Debug!\n") k

  unfoldable pub nmi_except : Kernel → Result
  nmi_except k = exception (codes "\nEXCEPTION: Non-maskable interrupt!\n") k

  unfoldable pub breakpoint_except : Kernel → Result
  breakpoint_except k = exception (codes "\nEXCEPTION: Breakpoint!\n") k

  unfoldable pub overflow_except : Kernel → Result
  overflow_except k = exception (codes "\nEXCEPTION: Into detected overflow!\n") k

  unfoldable pub oob_except : Kernel → Result
  oob_except k = exception (codes "\nEXCEPTION: Out of bounds!\n") k

  unfoldable pub opcode_except : Kernel → Result
  opcode_except k = exception (codes "\nEXCEPTION: Invalid opcode!\n") k

  unfoldable pub no_coproc_except : Kernel → Result
  no_coproc_except k = exception (codes "\nEXCEPTION: No coprocessor!\n") k

  unfoldable pub double_fault_except : Kernel → Result
  double_fault_except k = exception (codes "\nEXCEPTION: Double fault!\n") k

  unfoldable pub coproc_seg_overrun_except : Kernel → Result
  coproc_seg_overrun_except k = exception (codes "\nEXCEPTION: Coprocessor segment overrun!\n") k

  unfoldable pub tss_except : Kernel → Result
  tss_except k = exception (codes "\nEXCEPTION: Bad TSS!\n") k

  unfoldable pub segment_except : Kernel → Result
  segment_except k = exception (codes "\nEXCEPTION: Segment not present!\n") k

  unfoldable pub stack_except : Kernel → Result
  stack_except k = exception (codes "\nEXCEPTION: Stack fault!\n") k

  unfoldable pub general_protec_except : Kernel → Result
  general_protec_except k = exception (codes "\nEXCEPTION: General protection fault!\n") k

  -- `fault_addr` is what the register cr2 holds.
  unfoldable pub page_fault_except : (fault_addr : ℕ) → Kernel → Result
  page_fault_except fault_addr k =
      elim (print conv_buf args (codes "\nEXCEPTION: Page fault!\n") (cli k)) [
        | none ↦ wait
        | some k' ↦ halt_fault k.irq (
            print conv_buf (λ i. if i == 0 then fault_addr else args i)
              (codes "Tried to access memory at 0x%#x\n") k')
      ]

  unfoldable pub unknown_interr_except : Kernel → Result
  unknown_interr_except k = exception (codes "\nEXCEPTION: Unknown interrupt!\n") k

  unfoldable pub coproc_except : Kernel → Result
  coproc_except k = exception (codes "\nEXCEPTION: Coprocessor fault!\n") k

  unfoldable pub align_except : Kernel → Result
  align_except k = exception (codes "\nEXCEPTION: Alignment check!\n") k

  unfoldable pub machine_chk_except : Kernel → Result
  machine_chk_except k = exception (codes "\nEXCEPTION: Machine check!\n") k

  unfoldable pub general_interrupt : Kernel → Option Kernel
  general_interrupt k = elim (print conv_buf args (codes "General interrupt recieved!\n") (cli k)) [
    | none ↦ none
    | some k' ↦ some (restore k.irq (set_log k' (send_eoi 0 (log k'))))
  ]
