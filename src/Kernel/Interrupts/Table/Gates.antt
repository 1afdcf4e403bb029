-- ===== src/Kernel/Interrupts/Table/Gates.antt =====
-- What stands in the interrupt table after `init_idt`.
use gyarad_os.Base.{
  ℕ, zero, suc, ◌-◌, ◌+◌, ◌*◌, ◌/◌, ◌%◌, ◌^◌, ◌≤◌, ◌<◌, ◌≡◌, refl, sym, ap, ◌∙◌, inl, inr, true,
  false, ◌&&◌, Bool-cases, Option, none, some, List, [], ◌∷◌, length, get_elem?, arith, ltb, leb,
  ◌==◌, if◌then◌else◌,
}
use gyarad_os.Kernel.Interrupts.Table.{
  Gate, Stub, divide_by_zero_irq, debug_irq, nmi_irq, breakpoint_irq, overflow_irq, oob_irq,
  opcode_irq, no_coproc_irq, double_fault_irq, coproc_seg_overrun_irq, tss_irq, segment_irq,
  stack_irq, general_protec_irq, page_fault_irq, unknown_interr_irq, coproc_irq, align_irq,
  machine_chk_irq, pit_irq, key_irq, rtc_irq, mouse_irq, sb_irq, general_irq, syscall_irq,
  exceptions, interrupt_stub, exception_gate, interrupt_gate, set_idt_entry, each_vector, put_gate,
  set_handlers, init_idt,
}

each_vector-at :
    (k i : ℕ) (body : ℕ → Gate → Gate) (idt : ℕ → Gate) (j : ℕ)
    → each_vector k i body idt j ≡ (if leb i j && ltb j (i + k) then body j (idt j) else idt j)
unfolding each_vector
each_vector-at zero i body idt j = ground arith
each_vector-at (suc k) i body idt j = elim (Bool-cases (j == i)) [
  | inl e ↦
      let same : j ≡ i = ground (arith, e) in
      let a : (leb (i + 1) j && ltb j (i + 1 + k)) ≡ false = ground (arith, same) in
      let b : (leb i j && ltb j (i + suc k)) ≡ true = ground (arith, same) in
      each_vector-at k (i + 1) body _ j ∙ rw (a, b, e) (ap (λ x. body x (idt x)) (sym same))
  | inr e ↦
      let a : (leb (i + 1) j && ltb j (i + 1 + k)) ≡ (leb i j && ltb j (i + suc k)) =
        ground (arith, e) in
      each_vector-at k (i + 1) body _ j ∙ rw (a, e) refl
]

-- The wrapper that a list gives to the vector `j`, when its first is for vector `i`.
abbrev set_from : Option Stub → (Stub → ℕ) → Gate → Gate
set_from none irq g = g
set_from (some s) irq g = set_idt_entry (irq s) g

set_handlers-below :
    (irq : Stub → ℕ) (stubs : List Stub) (i : ℕ) (idt : ℕ → Gate) (j : ℕ)
    → j < i
    → set_handlers irq stubs i idt j ≡ idt j
unfolding set_handlers
set_handlers-below irq [] i idt j h = refl
set_handlers-below irq (s ∷ r) i idt j h =
    let ne : (j == i) ≡ false = ground arith in
    set_handlers-below irq r (i + 1) _ j (omega arith) ∙ rw ne refl

set_handlers-at :
    (irq : Stub → ℕ) (stubs : List Stub) (i : ℕ) (idt : ℕ → Gate) (k : ℕ)
    → set_handlers irq stubs i idt (i + k) ≡ set_from (get_elem? stubs k) irq (idt (i + k))
unfolding set_handlers
set_handlers-at irq [] i idt k = refl
set_handlers-at irq (s ∷ r) i idt zero =
    let e : (i + 0 == i) ≡ true = ground arith in
    let same : i ≡ i + 0 = omega arith in
    (set_handlers-below irq r (i + 1) _ (i + 0) (omega arith) ∙ rw e refl)
    ∙ ap (λ x. set_idt_entry (irq s) (idt x)) same
set_handlers-at irq (s ∷ r) i idt (suc k) =
    let idt' = put_gate idt i (set_idt_entry (irq s) (idt i)) in
    let step : i + suc k ≡ i + 1 + k = omega arith in
    let ne : (i + suc k == i) ≡ false = ground arith in
    let other : idt' (i + suc k) ≡ idt (i + suc k) = rw ne refl in
    (ap (set_handlers irq r (i + 1) idt') step ∙ set_handlers-at irq r (i + 1) idt' k)
    ∙ ap (set_from (get_elem? r k) irq) (ap idt' (sym step) ∙ other)

-- The address that the processor jumps to.
unfoldable pub offset : Gate → ℕ
offset g = g.offset_31_16 * 2 ^ 16 + g.offset_15_00

-- The wrappers of the processor's exceptions, from vector 0 on.
abbrev named : List Stub
named =
    divide_by_zero_irq ∷ debug_irq ∷ nmi_irq ∷ breakpoint_irq ∷ overflow_irq ∷ oob_irq ∷ opcode_irq
    ∷ no_coproc_irq ∷ double_fault_irq ∷ coproc_seg_overrun_irq ∷ tss_irq ∷ segment_irq ∷ stack_irq
    ∷ general_protec_irq ∷ page_fault_irq ∷ unknown_interr_irq ∷ coproc_irq ∷ align_irq
    ∷ machine_chk_irq ∷ []

-- The wrapper of a line of the first controller (vectors 0x20 to 0x27) or of the second (0x28 to
-- 0x2f): the timer has line 0, the keyboard 1, the sound card 5, the clock 8, and the mouse 12.
abbrev of_line : ℕ → Stub
of_line line =
    if line == 0
    then pit_irq
    else if line == 1
    then key_irq
    else if line == 5
    then sb_irq
    else if line == 8
    then rtc_irq
    else if line == 12
    then mouse_irq
    else general_irq

-- The wrapper that a vector has to have: the first nineteen that of their exception, the other vectors
-- below 32 none, and the rest that of their line, or of the calls.
unfoldable pub stub : ℕ → Option Stub
stub i =
    if ltb i 32
    then get_elem? named i
    else if i == 0x80
    then some syscall_irq
    else some (of_line (i - 0x20))

-- The address for a vector; one that has no wrapper keeps what it had.
unfoldable pub target : (Stub → ℕ) → Gate → Option Stub → ℕ
target irq g none = offset g
target irq g (some s) = irq s

-- A gate of the table, for vector `i`.
pub record IsGate (irq : Stub → ℕ) (i : ℕ) (before g : Gate) : Type 0 where
  pub address : offset g ≡ target irq before (stub i)
  pub privilege : g.dpl ≡ (if i == 0x80 then 3 else 0)
  pub present : g.present ≡ 1
  pub segment : g.seg_selector ≡ 0x10
  -- the type, 15 for a trap and 14 for an interrupt, of 32 bits, and the bits that are 0
  pub kind :
      g.size * 8 + g.reserved1 * 4 + g.reserved2 * 2 + g.reserved3 ≡ (if ltb i 32 then 15 else 14)
  pub system : g.reserved0 ≡ 0
  pub zero_bits : g.reserved4 ≡ 0

halves : (a : ℕ) → a < 2 ^ 32 → a / 2 ^ 16 % 2 ^ 16 * 2 ^ 16 + a % 2 ^ 16 ≡ a
halves a h = omega arith

set_from-IsGate :
    (irq : Stub → ℕ) (i : ℕ) (before : Gate)
    → ((s : Stub) → irq s < 2 ^ 32)
    → i < 32
    → (o : Option Stub) → stub i ≡ o
    → IsGate irq i before (set_from o irq (exception_gate before))
unfolding exception_gate set_idt_entry target offset
set_from-IsGate irq i before lt h none e = record {
  address = rw e refl;
  privilege = ground arith;
  present = refl;
  segment = refl;
  kind = ground arith;
  system = refl;
  zero_bits = refl;
}
set_from-IsGate irq i before lt h (some s) e = record {
  address = rw e (halves (irq s) (lt s));
  privilege = ground arith;
  present = refl;
  segment = refl;
  kind = ground arith;
  system = refl;
  zero_bits = refl;
}

stub-high : (i : ℕ) → ltb i 32 ≡ false → stub i ≡ some (interrupt_stub i)
unfolding stub interrupt_stub
stub-high i e = ground (arith, e)

interrupt_gate-IsGate :
    (irq : Stub → ℕ) (i : ℕ) (before : Gate)
    → ((s : Stub) → irq s < 2 ^ 32)
    → 32 ≤ i
    → IsGate irq i before (interrupt_gate irq i before)
unfolding interrupt_gate set_idt_entry target offset
interrupt_gate-IsGate irq i before lt h =
    let e : ltb i 32 ≡ false = ground arith in
    record {
      address = rw (stub-high i e) (halves (irq (interrupt_stub i)) (lt (interrupt_stub i)));
      privilege = refl;
      present = refl;
      segment = refl;
      kind = rw e refl;
      system = refl;
      zero_bits = refl;
    }

stub-low : (i : ℕ) → ltb i 32 ≡ true → stub i ≡ get_elem? exceptions i
unfolding stub
stub-low i e = rw e refl

past : (stubs : List Stub) (i : ℕ) → length stubs ≤ i → get_elem? stubs i ≡ none
past [] i h = refl
past (s ∷ r) zero h = absurd (omega arith)
past (s ∷ r) (suc i) h = past r i (omega arith)

-- Each of the 256 vectors has a present gate of the kernel's segment, which a user's program may
-- only call at 0x80; the exceptions are traps and the others interrupts, all of 32 bits; the two
-- halves of a gate make up the address of the wrapper of its exception, of its device's line, of the
-- calls, or of no device, if that is below 2 ^ 32. The vectors from 19 to 31 are present without a
-- wrapper.
pub init_idt-IsGate :
    (irq : Stub → ℕ) (idt : ℕ → Gate) (i : ℕ)
    → ((s : Stub) → irq s < 2 ^ 32)
    → i < 256
    → IsGate irq i (idt i) (init_idt irq idt i)
unfolding init_idt
init_idt-IsGate irq idt i lt h =
    let idt1 = each_vector 32 0 (λ v. exception_gate) idt in
    let idt2 = set_handlers irq exceptions 0 idt1 in
    let all = each_vector-at 224 32 (interrupt_gate irq) idt2 i in
    let first = each_vector-at 32 0 (λ v. exception_gate) idt i in
    let stubs : idt2 i ≡ set_from (get_elem? exceptions i) irq (idt1 i) =
      (let zero_on : 0 + i ≡ i = omega arith in
        let at = set_handlers-at irq exceptions 0 idt1 i in
        (ap idt2 (sym zero_on) ∙ at)
        ∙ ap (λ v. set_from (get_elem? exceptions i) irq (idt1 v)) zero_on) in
    elim (Bool-cases (ltb i 32)) [
      | inl e ↦
          let out : (leb 32 i && ltb i 256) ≡ false = ground arith in
          let last : init_idt irq idt i ≡ idt2 i = all ∙ rw out refl in
          let low : idt1 i ≡ exception_gate (idt i) =
            (let inside : (leb 0 i && ltb i 32) ≡ true = ground (arith, e) in
              first ∙ rw inside refl) in
          rw (last ∙ stubs, low) (set_from-IsGate irq i (idt i) lt (ground arith) _ (stub-low i e))
      | inr e ↦
          let in_range : (leb 32 i && ltb i 256) ≡ true = ground arith in
          let outside : (leb 0 i && ltb i 32) ≡ false = ground arith in
          let low : idt1 i ≡ idt i = first ∙ rw outside refl in
          let kept : idt2 i ≡ idt i =
            stubs
            ∙ (ap (set_from (get_elem? exceptions i) irq) low
                ∙ ap (λ o. set_from o irq (idt i)) (past exceptions i (ground (arith, e)))) in
          let last : init_idt irq idt i ≡ interrupt_gate irq i (idt i) =
            all ∙ rw (in_range, kept) refl in
          rw last (interrupt_gate-IsGate irq i (idt i) lt (ground (arith, e)))
    ]
