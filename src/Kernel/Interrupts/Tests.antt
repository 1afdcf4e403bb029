-- ===== src/Kernel/Interrupts/Tests.antt =====
-- A division by zero in a program that the shell started, and a table whose wrappers stand 16 bytes
-- apart.
use gyarad_os.Base.{ℕ, ◌≡◌, ◌≢◌, refl, some, arith}
use gyarad_os.Kernel.Interrupts.{divide_by_zero_except}
use gyarad_os.Kernel.Interrupts.Faults.{text, Killed, serve, serve-Killed}
use gyarad_os.Kernel.Interrupts.Table.{Gate, Stub, divide_by_zero_irq, page_fault_irq, init_idt}
use gyarad_os.Kernel.Interrupts.Table.Gates.{IsGate, init_idt-IsGate}
use gyarad_os.Kernel.Tests.Data.{machine, running, running-HasTable}

differ : divide_by_zero_irq ≢ page_fault_irq
differ e = ground (arith, e)

served :
    serve machine 0x70_0000 (λ i. 0) 0 divide_by_zero_irq running
    ≡ some (divide_by_zero_except machine 0x70_0000 (λ i. 0) running)
unfolding serve
served = refl

serve-Killed_example :
    Killed machine 0x70_0000
      (λ i. 0)
      (text divide_by_zero_irq)
      running
      1
      0
      (some (divide_by_zero_except machine 0x70_0000 (λ i. 0) running))
serve-Killed_example =
    serve-Killed machine 0x70_0000 (λ i. 0) 0 divide_by_zero_irq running 1 0 _ running-HasTable refl
      (λ e. omega arith) differ served

abbrev wrappers : Stub → ℕ
wrappers s = 0x40_1230

abbrev empty : Gate
empty = record {
  offset_15_00 = 0;
  seg_selector = 0;
  reserved4 = 0;
  reserved3 = 0;
  reserved2 = 0;
  reserved1 = 0;
  size = 0;
  reserved0 = 0;
  dpl = 0;
  present = 0;
  offset_31_16 = 0;
}

init_idt-IsGate_example : IsGate wrappers 0x80 empty (init_idt wrappers (λ i. empty) 0x80)
init_idt-IsGate_example =
    init_idt-IsGate wrappers (λ i. empty) 0x80 (λ s. omega arith) (omega arith)
