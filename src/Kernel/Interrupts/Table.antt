-- ===== src/Kernel/Interrupts/Table.antt =====
-- `init_idt` of kernel/idt.c, with the descriptor and `SET_IDT_ENTRY` of include/boot/x86_desc.h.
pub mod Gates
use gyarad_os.Base.{ℕ, zero, suc, ◌+◌, ◌-◌, ◌/◌, ◌%◌, ◌^◌, List, [], ◌∷◌, ◌==◌, if◌then◌else◌}

-- `idt_desc_t`.
pub record Gate : Type 0 where
  pub offset_15_00 : ℕ
  pub seg_selector : ℕ
  pub reserved4 : ℕ
  pub reserved3 : ℕ
  pub reserved2 : ℕ
  pub reserved1 : ℕ
  pub size : ℕ
  pub reserved0 : ℕ
  pub dpl : ℕ
  pub present : ℕ
  pub offset_31_16 : ℕ

-- The wrappers of kernel/irq.S, by name.
pub data Stub : Type 0 where
  divide_by_zero_irq debug_irq nmi_irq breakpoint_irq overflow_irq oob_irq opcode_irq no_coproc_irq
        double_fault_irq coproc_seg_overrun_irq tss_irq segment_irq stack_irq general_protec_irq
        page_fault_irq unknown_interr_irq coproc_irq align_irq machine_chk_irq :
      Stub
  pit_irq key_irq rtc_irq mouse_irq general_irq syscall_irq sb_irq : Stub

-- `SET_IDT_ENTRY`; the address is a `uint32_t`.
unfoldable pub set_idt_entry : (handler : ℕ) → Gate → Gate
set_idt_entry handler g = record g {
  offset_31_16 = handler / 2 ^ 16 % 2 ^ 16;
  offset_15_00 = handler % 2 ^ 16;
}

abbrev pub put_gate : (ℕ → Gate) → ℕ → Gate → ℕ → Gate
put_gate idt i g = λ j. if j == i then g else idt j

-- The body of the first loop.
unfoldable pub exception_gate : Gate → Gate
exception_gate g = record g {
  present = 1;
  dpl = 0;
  seg_selector = 0x10;
  size = 1;
  reserved4 = 0;
  reserved3 = 1;
  reserved2 = 1;
  reserved1 = 1;
  reserved0 = 0;
}

-- The wrappers of the first vectors, in their order.
abbrev pub exceptions : List Stub
exceptions =
    divide_by_zero_irq ∷ debug_irq ∷ nmi_irq ∷ breakpoint_irq ∷ overflow_irq ∷ oob_irq ∷ opcode_irq
    ∷ no_coproc_irq ∷ double_fault_irq ∷ coproc_seg_overrun_irq ∷ tss_irq ∷ segment_irq ∷ stack_irq
    ∷ general_protec_irq ∷ page_fault_irq ∷ unknown_interr_irq ∷ coproc_irq ∷ align_irq
    ∷ machine_chk_irq ∷ []

-- The choice of the second loop.
unfoldable pub interrupt_stub : (i : ℕ) → Stub
interrupt_stub i =
    if i == 0x20
    then pit_irq
    else if i == 0x21
    then key_irq
    else if i == 0x28
    then rtc_irq
    else if i == 0x2c
    then mouse_irq
    else if i == 0x25
    then sb_irq
    else if i == 0x80
    then syscall_irq
    else general_irq

-- A `for` loop over the vectors from `i` on, with `k` left.
unfoldable pub each_vector : (k i : ℕ) → (ℕ → Gate → Gate) → (ℕ → Gate) → ℕ → Gate
each_vector zero i body idt = idt
each_vector (suc k) i body idt = each_vector k (i + 1) body (put_gate idt i (body i (idt i)))

-- `irq` says where the wrappers stand.
module _ (irq : Stub → ℕ) where
  -- The body of the second loop.
  unfoldable pub interrupt_gate : (i : ℕ) → Gate → Gate
  interrupt_gate i g = set_idt_entry (irq (interrupt_stub i)) (record g {
    present = 1;
    dpl = if i == 0x80 then 3 else 0;
    seg_selector = 0x10;
    size = 1;
    reserved4 = 0;
    reserved3 = 0;
    reserved2 = 1;
    reserved1 = 1;
    reserved0 = 0;
  })

  -- The run of `SET_IDT_ENTRY` from vector `i` on.
  unfoldable pub set_handlers : List Stub → (i : ℕ) → (ℕ → Gate) → ℕ → Gate
  set_handlers [] i idt = idt
  set_handlers (s ∷ r) i idt =
      set_handlers r (i + 1) (put_gate idt i (set_idt_entry (irq s) (idt i)))

  unfoldable pub init_idt : (ℕ → Gate) → ℕ → Gate
  init_idt idt =
      let idt1 = each_vector 0x20 0 (λ i. exception_gate) idt in
      let idt2 = set_handlers exceptions 0 idt1 in
      each_vector (0x100 - 0x20) 0x20 interrupt_gate idt2
