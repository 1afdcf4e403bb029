-- ===== src/Kernel/System/Family.antt =====
-- The processes as a whole: who runs where, whose parent is whose, and which slots they have.
use gyarad_os.Base.{
  ℕ, ◌+◌, ◌*◌, ◌/◌, ◌%◌, ◌^◌, ◌≤◌, ◌<◌, ◌≡◌, ◌≢◌, inl, inr, refl, sym, ap, ◌∙◌, some, arith,
  bit_and, Bool, Bool-cases, ◌==◌,
}
use gyarad_os.Kernel.State.{
  Kernel, Descriptor, Pcb, Result, ret, enters, resumes, wait, overruns, fault, set_fd,
}
use gyarad_os.Kernel.Table.{IsTable, IsTable-set, IsDevice}
use gyarad_os.Console.{Console}
use gyarad_os.Kernel.Process.Slots.{slot_bit}

-- A slot that is in use.
abbrev pub Taken : Kernel → (p : ℕ) → Type 0
Taken k p = (p < 7) × (bit_and k.curr_proc_id_mask (slot_bit p) ≢ 0)

-- What the field `base` of a process says: where its 4 MB begin, in pages.
abbrev pub base_of : ℕ → ℕ
base_of p = (0x80_0000 + p * 0x40_0000) % 2 ^ 32 / 4096 % 2 ^ 20

-- The processes of the terminals and their parents. A process that runs in a terminal is nobody's
-- parent, and a parent has one child: the programs of a terminal are a stack.
pub record IsFamily (k : Kernel) : Type 0 where
  pub small : k.curr_proc_id_mask < 256
  pub curr : (t p : ℕ) → k.curr_proc t ≡ some p → Taken k p
  pub prev : (t p : ℕ) → k.curr_proc t ≡ some p → k.prev_proc t ≡ (k.pcbs p).prev
  pub own : (t u p : ℕ) → k.curr_proc t ≡ some p → k.curr_proc u ≡ some p → t ≡ u
  pub parent : (p q : ℕ) → Taken k p → (k.pcbs p).prev ≡ some q → Taken k q
  pub leaf : (t p r : ℕ) → k.curr_proc t ≡ some p → Taken k r → (k.pcbs r).prev ≢ some p
  pub single :
      (q r s : ℕ)
      → Taken k r
      → Taken k s
      → (k.pcbs r).prev ≡ some q
      → (k.pcbs s).prev ≡ some q
      → r ≡ s
  pub number : (p : ℕ) → Taken k p → (k.pcbs p).proc_num ≡ p
  pub base : (p : ℕ) → Taken k p → (k.pcbs p).base ≡ base_of p
  pub table : (p : ℕ) → Taken k p → IsTable (k.pcbs p).fds

-- A PCB that stands in the same place, with a table that is no worse.
pub record SamePcb (b b' : Pcb) : Type 0 where
  pub parent : b'.prev ≡ b.prev
  pub number : b'.proc_num ≡ b.proc_num
  pub base : b'.base ≡ b.base
  pub table : IsTable b.fds → IsTable b'.fds

-- A step that neither starts nor ends a process.
pub record Alike (k k' : Kernel) : Type 0 where
  pub mask : k'.curr_proc_id_mask ≡ k.curr_proc_id_mask
  pub curr : k'.curr_proc ≡ k.curr_proc
  pub prev : k'.prev_proc ≡ k.prev_proc
  pub pcb : (r : ℕ) → SamePcb (k.pcbs r) (k'.pcbs r)

pub same_pcb : {b b' : Pcb} → b' ≡ b → SamePcb b b'
same_pcb e = record {
  parent = ap (λ c. c.prev) e;
  number = ap (λ c. c.proc_num) e;
  base = ap (λ c. c.base) e;
  table = λ t. rw e t;
}

pub Alike-∙ : {k k' k'' : Kernel} → Alike k k' → Alike k' k'' → Alike k k''
Alike-∙ a b = record {
  mask = b.mask ∙ a.mask;
  curr = b.curr ∙ a.curr;
  prev = b.prev ∙ a.prev;
  pcb = λ r. record {
    parent = (b.pcb r).parent ∙ (a.pcb r).parent;
    number = (b.pcb r).number ∙ (a.pcb r).number;
    base = (b.pcb r).base ∙ (a.pcb r).base;
    table = λ t. (b.pcb r).table ((a.pcb r).table t);
  };
}

-- A step in the process that runs, which goes on running.
pub record Quiet (k k' : Kernel) : Type 0 where
  pub alike : Alike k k'
  pub term : k'.curr_active_term ≡ k.curr_active_term
  pub paging : k'.paging ≡ k.paging
  pub second : k'.second_term_start ≡ k.second_term_start
  pub third : k'.third_term_start ≡ k.third_term_start

-- A step that changes neither a process nor the terminal.
pub quiet :
    (k : Kernel) (c : Console) (irq intr_occ : Bool)
    → Quiet k (record k { console = c; irq = irq; intr_occ = intr_occ })
quiet k c irq intr_occ = record {
  alike = record { mask = refl; curr = refl; prev = refl; pcb = λ r. same_pcb refl };
  term = refl;
  paging = refl;
  second = refl;
  third = refl;
}

pub Quiet-∙ : {k k' k'' : Kernel} → Quiet k k' → Quiet k' k'' → Quiet k k''
Quiet-∙ a b = record {
  alike = Alike-∙ a.alike b.alike;
  term = b.term ∙ a.term;
  paging = b.paging ∙ a.paging;
  second = b.second ∙ a.second;
  third = b.third ∙ a.third;
}

-- A change of a descriptor beyond the terminal's.
pub Quiet-set_fd :
    (k : Kernel) (p i : ℕ) (d : Descriptor)
    → 2 ≤ i
    → (d.flags ≡ 1 → IsDevice d.operations_pointer)
    → Quiet k (set_fd k p i d)
Quiet-set_fd k p i d lo fit = record {
  alike = record {
    mask = refl;
    curr = refl;
    prev = refl;
    pcb = λ r. elim (Bool-cases (r == p)) [
      | inr e ↦ rw e (same_pcb refl)
      | inl e ↦
          let same : r ≡ p = ground (arith, e) in
          rw (e, same)
            (record {
              parent = refl;
              number = refl;
              base = refl;
              table = λ t. IsTable-set (k.pcbs p).fds i d t lo fit;
            })
    ];
  };
  term = refl;
  paging = refl;
  second = refl;
  third = refl;
}

-- A call that went through no null pointer, and if it came back, was quiet.
abbrev pub Settles : Kernel → Result → Type 0
Settles k (ret n k') = Quiet k k'
Settles k (enters e k') = ⊥
Settles k (resumes s k') = ⊥
Settles k wait = Unit
Settles k overruns = Unit
Settles k fault = ⊥

pub Settles-∙ : {k k' : Kernel} → Quiet k k' → (r : Result) → Settles k' r → Settles k r
Settles-∙ a (ret n k'') b = Quiet-∙ a b
Settles-∙ a (enters e k'') b = absurd b
Settles-∙ a (resumes s k'') b = absurd b
Settles-∙ a wait b = tt
Settles-∙ a overruns b = tt
Settles-∙ a fault b = absurd b

-- It leaves the family as it is.
pub IsFamily-Alike : {k k' : Kernel} → IsFamily k → Alike k k' → IsFamily k'
IsFamily-Alike {k} {k'} is a =
    let back : (p : ℕ) → Taken k' p → Taken k p =
      λ p t. (t.0, λ z. t.1 (ap (λ m. bit_and m (slot_bit p)) a.mask ∙ z)) in
    let forth : (p : ℕ) → Taken k p → Taken k' p =
      λ p t. (t.0, λ z. t.1 (ap (λ m. bit_and m (slot_bit p)) (sym a.mask) ∙ z)) in
    let curr : (t : ℕ) → k.curr_proc t ≡ k'.curr_proc t = λ t. ap (λ f. f t) (sym a.curr) in
    let up : (r : ℕ) → (k.pcbs r).prev ≡ (k'.pcbs r).prev = λ r. sym (a.pcb r).parent in
    record {
      small = rw a.mask is.small;
      curr = λ t p e. forth p (is.curr t p (curr t ∙ e));
      prev = λ t p e. ap (λ f. f t) a.prev ∙ is.prev t p (curr t ∙ e) ∙ up p;
      own = λ t u p e f. is.own t u p (curr t ∙ e) (curr u ∙ f);
      parent = λ p q t e. forth q (is.parent p q (back p t) (up p ∙ e));
      leaf = λ t p r e g z. is.leaf t p r (curr t ∙ e) (back r g) (up r ∙ z);
      single = λ q r s g h e f. is.single q r s (back r g) (back s h) (up r ∙ e) (up s ∙ f);
      number = λ p t. (a.pcb p).number ∙ is.number p (back p t);
      base = λ p t. (a.pcb p).base ∙ is.base p (back p t);
      table = λ p t. (a.pcb p).table (is.table p (back p t));
    }
