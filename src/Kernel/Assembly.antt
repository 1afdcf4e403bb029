-- ===== src/Kernel/Assembly.antt =====
-- The instructions that kernel/irq.S and kernel/user.S use, and what they do.
pub mod Wrappers
pub mod Jumps
pub mod Returns
pub mod Syscall
pub mod User
mod Tests
use gyarad_os.Base.{
  ℕ, zero, suc, ◌+◌, ◌-◌, ◌*◌, ◌/◌, ◌%◌, Bool, Option, none, some, List, [], ◌∷◌, ltb, ◌==◌,
  if◌then◌else◌,
}

pub data Reg : Type 0 where
  eax ebx ecx edx esi edi ebp : Reg

pub data SegmentReg : Type 0 where
  ds es fs gs : SegmentReg

-- The functions in C that the wrappers call. The last is the one with its number in the table.
pub data Callee : Type 0 where
  divide_by_zero_except debug_except nmi_except breakpoint_except overflow_except oob_except
        opcode_except no_coproc_except double_fault_except coproc_seg_overrun_except tss_except
        segment_except stack_except general_protec_except page_fault_except unknown_interr_except
        coproc_except align_except machine_chk_except :
      Callee
  pit_handle_interrupt handle_keypress rtc_handle_interrupt mouse_handle_interrupt
        sound_balster_irq_handler general_interrupt :
      Callee
  in_table : (number : ℕ) → Callee

pub data Label : Type 0 where
  syscall_invalid syscall_ret : Label

pub data Instr : Type 0 where
  pushl popl : Reg → Instr
  push_word : (w : ℕ) → Instr
  pushfl : Instr
  -- `movl $w, r`
  movl : (w : ℕ) → Reg → Instr
  -- `movl 4*n(%esp), r`
  load_stack : (n : ℕ) → Reg → Instr
  movw : Reg → SegmentReg → Instr
  -- `xorl r, r`
  clear : Reg → Instr
  -- `addl $4*n, %esp`
  drop_stack : (n : ℕ) → Instr
  sti cli : Instr
  call : Callee → Instr
  -- `call *syscall_jumptable(,%eax,4)`
  call_table : Instr
  cmpl : (w : ℕ) → Reg → Instr
  jl jg jmp : Label → Instr
  iret : Instr

-- The processor in the kernel: `stack` is what the kernel's stack holds from `esp` up, `outer` the
-- stack pointer and the stack segment of a program that runs, and `left` and `right` the operands of
-- the last `cmpl`, in place of the flags that it sets.
pub record Cpu : Type 0 where
  pub a : ℕ
  pub b : ℕ
  pub c : ℕ
  pub d : ℕ
  pub si : ℕ
  pub di : ℕ
  pub bp : ℕ
  pub seg : SegmentReg → ℕ
  pub eflags : ℕ
  pub eip : ℕ
  pub cs : ℕ
  pub stack : List ℕ
  pub outer : Option (ℕ × ℕ)
  pub left : ℕ
  pub right : ℕ

abbrev pub get : Reg → Cpu → ℕ
get eax p = p.a
get ebx p = p.b
get ecx p = p.c
get edx p = p.d
get esi p = p.si
get edi p = p.di
get ebp p = p.bp

abbrev pub set : Reg → ℕ → Cpu → Cpu
set eax w p = record p { a = w }
set ebx w p = record p { b = w }
set ecx w p = record p { c = w }
set edx w p = record p { d = w }
set esi w p = record p { si = w }
set edi w p = record p { di = w }
set ebp w p = record p { bp = w }

abbrev pub is_segment : SegmentReg → SegmentReg → Bool
is_segment ds ds = Bool.true
is_segment es es = Bool.true
is_segment fs fs = Bool.true
is_segment gs gs = Bool.true
is_segment s t = Bool.false

abbrev pub set_segment : SegmentReg → ℕ → Cpu → Cpu
set_segment s w p = record p { seg = λ t. if is_segment t s then w else p.seg t }

-- The interrupt flag is bit 9.
abbrev pub interrupt_flag : ℕ → ℕ
interrupt_flag eflags = eflags / 0x200 % 2

abbrev pub with_flag : ℕ → ℕ
with_flag eflags = eflags + 0x200 * (1 - interrupt_flag eflags)

abbrev pub without_flag : ℕ → ℕ
without_flag eflags = eflags - 0x200 * interrupt_flag eflags

-- The order of words with a sign.
abbrev pub signed_ltb : ℕ → ℕ → Bool
signed_ltb x y = ltb ((x + 0x8000_0000) % 0x1_0000_0000) ((y + 0x8000_0000) % 0x1_0000_0000)

abbrev pub push : ℕ → Cpu → Cpu
push w p = record p { stack = w ∷ p.stack }

abbrev pub popped : List ℕ → (ℕ → List ℕ → Option Cpu) → Option Cpu
popped [] f = none
popped (w ∷ r) f = f w r

abbrev pub drop : ℕ → List ℕ → List ℕ
drop zero s = s
drop (suc n) [] = []
drop (suc n) (w ∷ s) = drop n s

abbrev pub nth : ℕ → List ℕ → Option ℕ
nth n [] = none
nth zero (w ∷ s) = some w
nth (suc n) (w ∷ s) = nth n s

-- `iret` in the kernel: to the kernel, or to a program, whose stack it also takes.
unfoldable pub resumed : Cpu → Option Cpu
resumed p = popped p.stack (λ eip r. popped r (λ cs r. popped r (λ eflags r.
    let here = record p { eip = eip; cs = cs; eflags = eflags; stack = r; outer = none } in
    let there =
      popped r
        (λ esp r. popped r (λ ss r. some (record here { stack = r; outer = some (esp, ss) }))) in
    if cs % 4 == 0 then some here else there)))

-- An interrupt, with the error code that some of the exceptions have. The selector is that of the
-- gates. A gate that turns interrupts off does so after the flags are saved, which is left out.
abbrev pub interrupt : (error : Option ℕ) → Cpu → Cpu
interrupt error p =
    let below : List ℕ = elim p.outer [ none ↦ p.stack | some (esp, ss) ↦ esp ∷ ss ∷ p.stack ] in
    let frame = p.eip ∷ p.cs ∷ p.eflags ∷ below in
    let all : List ℕ = elim error [ none ↦ frame | some e ↦ e ∷ frame ] in
    record p { stack = all; cs = 0x10; outer = none }

-- `body` is what the functions in C do, from their call to their return, and `code` where the labels
-- stand.
module _ (body : Callee → Cpu → Cpu) (code : Label → List Instr) where
  -- The run of a code to its `iret`, with `f` instructions left.
  unfoldable pub run : (f : ℕ) → List Instr → Cpu → Option Cpu
  run zero i p = none
  run (suc f) [] p = none
  run (suc f) (pushl r ∷ i) p = run f i (push (get r p) p)
  run (suc f) (popl r ∷ i) p = popped p.stack (λ w s. run f i (set r w (record p { stack = s })))
  run (suc f) (push_word w ∷ i) p = run f i (push w p)
  run (suc f) (pushfl ∷ i) p = run f i (push p.eflags p)
  run (suc f) (movl w r ∷ i) p = run f i (set r w p)
  run (suc f) (load_stack n r ∷ i) p = elim (nth n p.stack) [
    | none ↦ none
    | some w ↦ run f i (set r w p)
  ]
  run (suc f) (movw r s ∷ i) p = run f i (set_segment s (get r p % 0x1_0000) p)
  run (suc f) (clear r ∷ i) p = run f i (set r 0 p)
  run (suc f) (drop_stack n ∷ i) p = run f i (record p { stack = drop n p.stack })
  run (suc f) (sti ∷ i) p = run f i (record p { eflags = with_flag p.eflags })
  run (suc f) (cli ∷ i) p = run f i (record p { eflags = without_flag p.eflags })
  run (suc f) (call g ∷ i) p = run f i (body g p)
  run (suc f) (call_table ∷ i) p = run f i (body (in_table p.a) p)
  run (suc f) (cmpl w r ∷ i) p = run f i (record p { left = get r p; right = w })
  run (suc f) (jl l ∷ i) p =
      let there = run f (code l) p in
      let on = run f i p in if signed_ltb p.left p.right then there else on
  run (suc f) (jg l ∷ i) p =
      let there = run f (code l) p in
      let on = run f i p in if signed_ltb p.right p.left then there else on
  run (suc f) (jmp l ∷ i) p = run f (code l) p
  run (suc f) (iret ∷ i) p = resumed p
