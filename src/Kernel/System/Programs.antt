-- ===== src/Kernel/System/Programs.antt =====
-- A program that starts is a new leaf of the family.
use gyarad_os.Base.{
  ℕ, ◌<◌, ◌≡◌, ◌≢◌, ◌⊎◌, inl, inr, sym, ap, ◌∙◌, Option, some, arith, bit_and, ℕ_discrete,
}
use gyarad_os.Paging.{init_new_process}
use gyarad_os.Kernel.State.{Kernel, Pcb}
use gyarad_os.Kernel.Table.{IsTable}
use gyarad_os.Kernel.Process.Slots.{slot_bit}
use gyarad_os.Kernel.Process.Start.{Started}
use gyarad_os.Kernel.System.Slots.{flip-others, slot_bit-nonzero}
use gyarad_os.Kernel.System.Family.{IsFamily, Taken, base_of}

pub some-same : (p q : ℕ) (o : Option ℕ) → o ≡ some p → o ≡ some q → p ≡ q
some-same p q o e f = ground (arith, e, f)

module _ {k k' : Kernel} {id : ℕ} (is : IsFamily k) (new : Started k k' id) where
  free_slot : (r : ℕ) → Taken k r → r ≢ id
  free_slot r t e = t.1 (rw e new.placed.free)

  mask_elsewhere :
      (r : ℕ)
      → r < 7
      → r ≢ id
      → bit_and k'.curr_proc_id_mask (slot_bit r) ≡ bit_and k.curr_proc_id_mask (slot_bit r)
  mask_elsewhere r h ne =
      sym (flip-others k'.curr_proc_id_mask id r new.placed.small new.placed.slot h ne)
      ∙ ap (λ m. bit_and m (slot_bit r)) new.placed.given_back

  grows : (r : ℕ) → Taken k r → Taken k' r
  grows r t = (t.0, λ z. t.1 (sym (mask_elsewhere r t.0 (free_slot r t)) ∙ z))

  shrinks : (r : ℕ) → r ≢ id → Taken k' r → Taken k r
  shrinks r ne t = (t.0, λ z. t.1 (mask_elsewhere r t.0 ne ∙ z))

  taken_new : Taken k' id
  taken_new = (new.placed.slot, λ z. slot_bit-nonzero id new.placed.slot (sym new.placed.taken ∙ z))

  here : k'.curr_proc k.curr_active_term ≡ some id
  here = ap k'.curr_proc (sym new.term) ∙ new.has.running

  -- Where a process runs now: the new one in the active terminal, the others where they were.
  ran :
      (t p : ℕ)
      → k'.curr_proc t ≡ some p
      → ((t ≡ k.curr_active_term) × (p ≡ id))
        ⊎ ((t ≢ k.curr_active_term) × (k.curr_proc t ≡ some p))
  ran t p e = elim (ℕ_discrete t k.curr_active_term) [
    | yes s ↦ inl (s, some-same p id _ e (ap k'.curr_proc s ∙ here))
    | no ne ↦ inr (ne, sym (new.terminals t ne).0 ∙ e)
  ]

  up : (r : ℕ) → r ≢ id → (k.pcbs r).prev ≡ (k'.pcbs r).prev
  up r ne = ap (λ b. b.prev) (sym (new.others r ne))

  start-leaf : (t p r : ℕ) → k'.curr_proc t ≡ some p → Taken k' r → (k'.pcbs r).prev ≢ some p
  start-leaf t p r e g z = elim (ℕ_discrete r id) [
    | yes s ↦
        let mother = sym new.parent ∙ ap (λ q. (k'.pcbs q).prev) (sym s) ∙ z in
        elim (ran t p e) [
          | inl (_, same) ↦ free_slot p (is.curr _ p mother) same
          | inr (ne, run) ↦ ne (is.own t _ p run mother)
        ]
    | no ne ↦
        let mother = up r ne ∙ z in
        let g' = shrinks r ne g in
        elim (ran t p e) [
          | inl (_, same) ↦ free_slot p (is.parent r p g' mother) same
          | inr (_, run) ↦ is.leaf t p r run g' mother
        ]
  ]

  start-single :
      (q r s : ℕ)
      → Taken k' r
      → Taken k' s
      → (k'.pcbs r).prev ≡ some q
      → (k'.pcbs s).prev ≡ some q
      → r ≡ s
  start-single q r s g h e f = elim (ℕ_discrete r id) [
    | yes x ↦ elim (ℕ_discrete s id) [
      | yes y ↦ x ∙ sym y
      | no ny ↦ absurd (
          is.leaf _ q s (sym new.parent ∙ ap (λ q. (k'.pcbs q).prev) (sym x) ∙ e) (shrinks s ny h)
            (up s ny ∙ f))
    ]
    | no nx ↦ elim (ℕ_discrete s id) [
      | yes y ↦ absurd (
          is.leaf _ q r (sym new.parent ∙ ap (λ q. (k'.pcbs q).prev) (sym y) ∙ f) (shrinks r nx g)
            (up r nx ∙ e))
      | no ny ↦ is.single q r s (shrinks r nx g) (shrinks s ny h) (up r nx ∙ e) (up s ny ∙ f)
    ]
  ]

  new_base : (k'.pcbs id).base ≡ base_of id
  unfolding init_new_process
  new_base = ap (λ r. r.0) new.page

  start-prev : (t p : ℕ) → k'.curr_proc t ≡ some p → k'.prev_proc t ≡ (k'.pcbs p).prev
  start-prev t p e = elim (ran t p e) [
    | inl (s, same) ↦
        ap k'.prev_proc s ∙ new.prev ∙ sym new.parent ∙ ap (λ q. (k'.pcbs q).prev) (sym same)
    | inr (ne, run) ↦
        (new.terminals t ne).1 ∙ is.prev t p run ∙ up p (free_slot p (is.curr t p run))
  ]

  start-own : (t u p : ℕ) → k'.curr_proc t ≡ some p → k'.curr_proc u ≡ some p → t ≡ u
  start-own t u p e f = elim (ran t p e) [
    | inl (s, same) ↦ elim (ran u p f) [
      | inl (s', _) ↦ s ∙ sym s'
      | inr (_, run) ↦ absurd (free_slot p (is.curr u p run) same)
    ]
    | inr (_, run) ↦ elim (ran u p f) [
      | inl (_, same) ↦ absurd (free_slot p (is.curr t p run) same)
      | inr (_, run') ↦ is.own t u p run run'
    ]
  ]

  start-parent : (p q : ℕ) → Taken k' p → (k'.pcbs p).prev ≡ some q → Taken k' q
  start-parent p q g e = elim (ℕ_discrete p id) [
    | yes s ↦ grows q (is.curr _ q (sym new.parent ∙ ap (λ q. (k'.pcbs q).prev) (sym s) ∙ e))
    | no ne ↦ grows q (is.parent p q (shrinks p ne g) (up p ne ∙ e))
  ]

  start-curr : (t p : ℕ) → k'.curr_proc t ≡ some p → Taken k' p
  start-curr t p e = elim (ran t p e) [
    | inl (_, same) ↦ rw same taken_new
    | inr (_, run) ↦ grows p (is.curr t p run)
  ]

  -- A property of the PCBs that are taken, where the new one has it.
  start_each :
      (P : ℕ → Pcb → Type 0)
      → P id (k'.pcbs id)
      → ((p : ℕ) → Taken k p → P p (k.pcbs p))
      → (p : ℕ) → Taken k' p
      → P p (k'.pcbs p)
  start_each P first rest p g = elim (ℕ_discrete p id) [
    | yes s ↦ rw s first
    | no ne ↦ rw (new.others p ne) (rest p (shrinks p ne g))
  ]

  -- A program that starts becomes the leaf of its terminal.
  pub IsFamily-Started : IsFamily k'
  IsFamily-Started = record {
    small = new.placed.small;
    curr = start-curr;
    prev = start-prev;
    own = start-own;
    parent = start-parent;
    leaf = start-leaf;
    single = start-single;
    number = start_each (λ p b. b.proc_num ≡ p) new.number is.number;
    base = start_each (λ p b. b.base ≡ base_of p) new_base is.base;
    table = start_each (λ p b. IsTable b.fds) new.has.table is.table;
  }
