-- ===== src/Kernel/System/Stacks.antt =====
-- The programs of the terminals as an abstract machine: each terminal has a stack of programs, a
-- program that starts is pushed onto one, and one that halts is popped, but for a terminal's first.
use mathlib.Core.Path.{subst}
use gyarad_os.Base.{
  ℕ, ◌<◌, ◌≡◌, ◌≢◌, refl, sym, ap, ◌∙◌, Option, none, some, true, false, arith, List, [], ◌∷◌, ◌==◌,
  if◌then◌else◌, ℕ_discrete,
}
use gyarad_os.Kernel.State.{Kernel, Env, Pcb}
use gyarad_os.Kernel.Process.Start.{Started}
use gyarad_os.Kernel.Process.Halt.{Halted}
use gyarad_os.Kernel.System.Family.{IsFamily, Alike, Taken}

abbrev pub Stacks : Type 0
Stacks = ℕ → List ℕ

abbrev pub All : (ℕ → Type 0) → List ℕ → Type 0
All P [] = Unit
All P (p ∷ l) = P p × All P l

abbrev pub put_stack : Stacks → (t : ℕ) → List ℕ → Stacks
put_stack st t l u = if u == t then l else st u

-- The abstract machine, from the stacks `from` on. A program has a number of its own, below 7.
pub data Made (from : Stacks) : Stacks → Type 0 where
  begin : (st : Stacks) → ((t : ℕ) → st t ≡ from t) → Made from st
  push :
      (st : Stacks) (t p : ℕ)
      → Made from st
      → p < 7
      → ((u : ℕ) → All (λ r. r ≢ p) (st u))
      → Made from (put_stack st t (p ∷ st t))
  pop :
      (st : Stacks) (t p q : ℕ) (l : List ℕ)
      → Made from st
      → st t ≡ p ∷ q ∷ l
      → Made from (put_stack st t (q ∷ l))

-- The chain of parents from a process on.
abbrev pub Chain : (pcbs : ℕ → Pcb) → Option ℕ → List ℕ → Type 0
Chain pcbs o [] = o ≡ none
Chain pcbs o (p ∷ l) = (o ≡ some p) × Chain pcbs (pcbs p).prev l

-- The kernel's processes are those of a state of the abstract machine.
pub record Shows (from : Stacks) (k : Kernel) (st : Stacks) : Type 0 where
  pub made : Made from st
  pub chain : (t : ℕ) → Chain k.pcbs (k.curr_proc t) (st t)

Chain-same :
    (pcbs pcbs' : ℕ → Pcb) (o o' : Option ℕ) (l : List ℕ)
    → All (λ p. (pcbs' p).prev ≡ (pcbs p).prev) l
    → o' ≡ o
    → Chain pcbs o l
    → Chain pcbs' o' l
Chain-same pcbs pcbs' o o' [] a e c = e ∙ c
Chain-same pcbs pcbs' o o' (p ∷ l) a e c = (e ∙ c.0, Chain-same pcbs pcbs' _ _ l a.1 a.0 c.1)

All-map : (P Q : ℕ → Type 0) (l : List ℕ) → ((p : ℕ) → P p → Q p) → All P l → All Q l
All-map P Q [] f a = tt
All-map P Q (p ∷ l) f a = (f p a.0, All-map P Q l f a.1)

module _ {k : Kernel} (is : IsFamily k) where
  Chain-Taken :
      (o : Option ℕ) (l : List ℕ)
      → ((p : ℕ) → o ≡ some p → Taken k p)
      → Chain k.pcbs o l
      → All (Taken k) l
  Chain-Taken o [] t c = tt
  Chain-Taken o (p ∷ l) t c =
      (t p c.0, Chain-Taken (k.pcbs p).prev l (λ q e. is.parent p q (t p c.0) e) c.1)

  -- A process that runs is in no chain but its own.
  Chain-avoids :
      (u x : ℕ) (o : Option ℕ) (l : List ℕ)
      → k.curr_proc u ≡ some x
      → ((p : ℕ) → o ≡ some p → Taken k p)
      → o ≢ some x
      → Chain k.pcbs o l
      → All (λ p. p ≢ x) l
  Chain-avoids u x o [] run t ne c = tt
  Chain-avoids u x o (p ∷ l) run t ne c = (
    (λ e. ne (c.0 ∙ ap some e)),
    Chain-avoids u x (k.pcbs p).prev l run (λ q e. is.parent p q (t p c.0) e)
        (is.leaf u x p run (t p c.0)) c.1,
  )

  pub Shows-Alike :
      {k' : Kernel} {from : Stacks} (st : Stacks) → Shows from k st → Alike k k' → Shows from k' st
  Shows-Alike {k'} st sh a = record {
    made = sh.made;
    chain = λ t.
        Chain-same k.pcbs k'.pcbs (k.curr_proc t) (k'.curr_proc t) (st t)
          (All-map (Taken k) (λ p. (k'.pcbs p).prev ≡ (k.pcbs p).prev) (st t)
            (λ p g. (a.pcb p).parent) (Chain-Taken (k.curr_proc t) (st t) (is.curr t) (sh.chain t)))
          (ap (λ f. f t) a.curr) (sh.chain t);
  }

  -- A program that starts is pushed onto the stack of the active terminal.
  pub Shows-Started :
      {k' : Kernel} {id : ℕ} {from : Stacks} (st : Stacks)
      → Shows from k st
      → Started k k' id
      → Shows from k' (put_stack st k.curr_active_term (id ∷ st k.curr_active_term))
  Shows-Started {k'} {id} st sh new =
      let t0 = k.curr_active_term in
      let other : (p : ℕ) → Taken k p → p ≢ id = λ p g e. g.1 (rw e new.placed.free) in
      let taken = λ (t : ℕ). Chain-Taken (k.curr_proc t) (st t) (is.curr t) (sh.chain t) in
      let kept = λ (t : ℕ).
        All-map (Taken k) (λ p. (k'.pcbs p).prev ≡ (k.pcbs p).prev) (st t)
          (λ p g. ap (λ b. b.prev) (new.others p (other p g))) (taken t) in
      record {
        made =
            push st t0 id sh.made new.placed.slot
              (λ u. All-map (Taken k) (λ r. r ≢ id) (st u) other (taken u));
        chain = λ t. elim (ℕ_discrete t t0) [
          | yes s ↦
              let hit : (t == t0) ≡ true = ground (arith, s) in
              rw hit (
                ap k'.curr_proc (s ∙ sym new.term) ∙ new.has.running,
                Chain-same k.pcbs k'.pcbs _ _ (st t0) (kept t0) new.parent (sh.chain t0),
              )
          | no ne ↦
              let miss : (t == t0) ≡ false = ground (arith, ne) in
              rw miss
                (Chain-same k.pcbs k'.pcbs _ _ (st t) (kept t) (new.terminals t ne).0 (sh.chain t))
        ];
      }

  -- The stack of a program that another one started.
  two_at :
      (p q : ℕ) (o : Option ℕ) (l : List ℕ)
      → o ≡ some p
      → (k.pcbs p).prev ≡ some q
      → Chain k.pcbs o l
      → (l' : List ℕ) × (l ≡ p ∷ q ∷ l') × Chain k.pcbs (k.pcbs q).prev l'
  two_at p q o [] e f c = absurd (ground (arith, e, c))
  two_at p q o (x ∷ []) e f c =
      let same : x ≡ p = ground (arith, e, c.0) in
      absurd (ground (arith, sym (ap (λ y. (k.pcbs y).prev) same) ∙ c.1, f))
  two_at p q o (x ∷ y ∷ l) e f c =
      let same : x ≡ p = ground (arith, e, c.0) in
      let above : (k.pcbs p).prev ≡ some y = sym (ap (λ y. (k.pcbs y).prev) same) ∙ c.1.0 in
      let under : y ≡ q = ground (arith, above, f) in
      (
        l,
        ap (λ n. n ∷ y ∷ l) same ∙ ap (λ n. p ∷ n ∷ l) under,
        subst (λ n. Chain k.pcbs (k.pcbs n).prev l) under c.1.1,
      )

  -- A program that halts is popped from the stack of the active terminal.
  pub Shows-Halted :
      {env : Env} {k' : Kernel} {p q : ℕ} {from : Stacks} (st : Stacks)
      → Shows from k st
      → k.curr_proc k.curr_active_term ≡ some p
      → (k.pcbs p).prev ≡ some q
      → Halted env k k' p q
      → (l : List ℕ) × (st k.curr_active_term ≡ p ∷ q ∷ l)
        × Shows from k' (put_stack st k.curr_active_term (q ∷ l))
  Shows-Halted {env} {k'} {p} {q} st sh run mother gone =
      let t0 = k.curr_active_term in
      let (l, two, rest) = two_at p q (k.curr_proc t0) (st t0) run mother (sh.chain t0) in
      let taken = is.curr t0 p run in
      let kept =
        λ (o : Option ℕ) (m : List ℕ) (g : (r : ℕ) → o ≡ some r → Taken k r) (ne : o ≢ some p)
            (c : Chain k.pcbs o m).
          All-map (λ r. r ≢ p) (λ r. (k'.pcbs r).prev ≡ (k.pcbs r).prev) m
            (λ r n. ap (λ b. b.prev) (gone.others r n)) (Chain-avoids t0 p o m run g ne c) in
      let under =
        kept (some q) (q ∷ l) (λ r e. is.parent p r taken (mother ∙ e))
          (λ e. is.leaf t0 p p run taken (mother ∙ e)) (refl, rest) in
      (
        l,
        two,
        record {
          made = pop st t0 p q l sh.made two;
          chain = λ t. elim (ℕ_discrete t t0) [
            | yes s ↦
                let hit : (t == t0) ≡ true = ground (arith, s) in
                rw hit (
                  Chain-same k.pcbs k'.pcbs (some q) _ (q ∷ l) under (ap k'.curr_proc s ∙ gone.curr)
                    (refl, rest))
            | no ne ↦
                let miss : (t == t0) ≡ false = ground (arith, ne) in
                rw miss (
                  Chain-same k.pcbs k'.pcbs _ _ (st t)
                    (kept (k.curr_proc t) (st t) (is.curr t) (λ e. ne (is.own t t0 p e run))
                      (sh.chain t))
                    (gone.terminals t ne).0 (sh.chain t))
          ];
        },
      )
