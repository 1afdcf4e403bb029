-- ===== src/Kernel/System/Parents.antt =====
-- A program that halts leaves its parent as a leaf of the family.
use gyarad_os.Base.{
  ℕ, ◌<◌, ◌≡◌, ◌≢◌, ◌⊎◌, inl, inr, sym, ap, ◌∙◌, some, bit_and, bit_xor, ℕ_discrete,
}
use gyarad_os.Kernel.State.{Kernel, Env, Pcb}
use gyarad_os.Kernel.Table.{IsTable}
use gyarad_os.Kernel.Process.Slots.{slot_bit}
use gyarad_os.Kernel.Process.Halt.{Halted}
use gyarad_os.Kernel.System.Slots.{flip-small, flip-others, flip-clears}
use gyarad_os.Kernel.System.Family.{IsFamily, Taken, base_of}
use gyarad_os.Kernel.System.Programs.{some-same}

module _ {env : Env} {k k' : Kernel} {p q : ℕ} (is : IsFamily k)
    (run : k.curr_proc k.curr_active_term ≡ some p) (mother : (k.pcbs p).prev ≡ some q)
    (gone : Halted env k k' p q) where
  taken_old : Taken k p
  taken_old = is.curr _ p run

  mask_now : k'.curr_proc_id_mask ≡ bit_xor k.curr_proc_id_mask (slot_bit p)
  mask_now = gone.mask ∙ ap (λ n. bit_xor k.curr_proc_id_mask (slot_bit n)) (is.number p taken_old)

  bit_now :
      (r : ℕ)
      → r < 7
      → r ≢ p
      → bit_and k'.curr_proc_id_mask (slot_bit r) ≡ bit_and k.curr_proc_id_mask (slot_bit r)
  bit_now r h ne =
      ap (λ m. bit_and m (slot_bit r)) mask_now
      ∙ flip-others k.curr_proc_id_mask p r is.small taken_old.0 h ne

  stays : (r : ℕ) → r ≢ p → Taken k r → Taken k' r
  stays r ne t = (t.0, λ z. t.1 (sym (bit_now r t.0 ne) ∙ z))

  not_gone : (r : ℕ) → Taken k' r → r ≢ p
  not_gone r t e = t.1 (
      rw e (
        ap (λ m. bit_and m (slot_bit p)) mask_now
        ∙ flip-clears k.curr_proc_id_mask p is.small taken_old.0 taken_old.1))

  was : (r : ℕ) → Taken k' r → Taken k r
  was r t = (t.0, λ z. t.1 (bit_now r t.0 (not_gone r t) ∙ z))

  mother-other : q ≢ p
  mother-other e = is.leaf _ p p run taken_old (mother ∙ ap some e)

  taken_mother : Taken k q
  taken_mother = is.parent p q taken_old mother

  -- Where a process runs now: the parent in the active terminal, the others where they were.
  runs :
      (t r : ℕ)
      → k'.curr_proc t ≡ some r
      → ((t ≡ k.curr_active_term) × (r ≡ q))
        ⊎ ((t ≢ k.curr_active_term) × (k.curr_proc t ≡ some r) × (r ≢ p))
  runs t r e = elim (ℕ_discrete t k.curr_active_term) [
    | yes s ↦ inl (s, some-same r q _ e (ap k'.curr_proc s ∙ gone.curr))
    | no ne ↦
        let old = sym (gone.terminals t ne).0 ∙ e in
        inr (ne, old, λ same. ne (is.own t _ p (old ∙ ap some same) run))
  ]

  same_prev : (r : ℕ) → r ≢ p → (k.pcbs r).prev ≡ (k'.pcbs r).prev
  same_prev r ne = ap (λ b. b.prev) (sym (gone.others r ne))

  halt-leaf : (t s r : ℕ) → k'.curr_proc t ≡ some s → Taken k' r → (k'.pcbs r).prev ≢ some s
  halt-leaf t s r e g z =
      let ne = not_gone r g in
      let up = same_prev r ne ∙ z in
      elim (runs t s e) [
        | inl (_, same) ↦ ne (is.single q r p (was r g) taken_old (up ∙ ap some same) mother)
        | inr (_, run', _) ↦ is.leaf t s r run' (was r g) up
      ]

  halt-own : (t u r : ℕ) → k'.curr_proc t ≡ some r → k'.curr_proc u ≡ some r → t ≡ u
  halt-own t u r e f = elim (runs t r e) [
    | inl (s, same) ↦ elim (runs u r f) [
      | inl (s', _) ↦ s ∙ sym s'
      | inr (_, run', _) ↦ absurd (is.leaf u q p (run' ∙ ap some same) taken_old mother)
    ]
    | inr (_, run', _) ↦ elim (runs u r f) [
      | inl (_, same) ↦ absurd (is.leaf t q p (run' ∙ ap some same) taken_old mother)
      | inr (_, run'', _) ↦ is.own t u r run' run''
    ]
  ]

  halt-curr : (t r : ℕ) → k'.curr_proc t ≡ some r → Taken k' r
  halt-curr t r e = elim (runs t r e) [
    | inl (_, same) ↦ rw same (stays q mother-other taken_mother)
    | inr (_, run', ne) ↦ stays r ne (is.curr t r run')
  ]

  halt-prev : (t r : ℕ) → k'.curr_proc t ≡ some r → k'.prev_proc t ≡ (k'.pcbs r).prev
  halt-prev t r e = elim (runs t r e) [
    | inl (s, same) ↦
        ap k'.prev_proc s
        ∙ gone.prev
        ∙ same_prev q mother-other
        ∙ ap (λ b. (k'.pcbs b).prev) (sym same)
    | inr (ne, run', other) ↦ (gone.terminals t ne).1 ∙ is.prev t r run' ∙ same_prev r other
  ]

  halt-parent : (r s : ℕ) → Taken k' r → (k'.pcbs r).prev ≡ some s → Taken k' s
  halt-parent r s g e =
      let up = same_prev r (not_gone r g) ∙ e in
      stays s (λ same. is.leaf _ p r run (was r g) (up ∙ ap some same)) (is.parent r s (was r g) up)

  halt_each :
      (P : ℕ → Pcb → Type 0)
      → ((r : ℕ) → Taken k r → P r (k.pcbs r))
      → (r : ℕ) → Taken k' r
      → P r (k'.pcbs r)
  halt_each P all r g = rw (gone.others r (not_gone r g)) (all r (was r g))

  -- A program that halts leaves its parent as the leaf of its terminal.
  pub IsFamily-Halted : IsFamily k'
  IsFamily-Halted = record {
    small = rw mask_now (flip-small k.curr_proc_id_mask p is.small taken_old.0);
    curr = halt-curr;
    prev = halt-prev;
    own = halt-own;
    parent = halt-parent;
    leaf = halt-leaf;
    single = λ q' r s g h e f.
        is.single q' r s (was r g) (was s h) (same_prev r (not_gone r g) ∙ e)
          (same_prev s (not_gone s h) ∙ f);
    number = halt_each (λ r b. b.proc_num ≡ r) is.number;
    base = halt_each (λ r b. b.base ≡ base_of r) is.base;
    table = halt_each (λ r b. IsTable b.fds) is.table;
  }
