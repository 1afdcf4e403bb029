-- ===== src/Kernel/System/Memory.antt =====
-- The memory that the running program sees, with the processes in order.
use gyarad_os.Base.{
  ℕ, ◌+◌, ◌/◌, ◌%◌, ◌<◌, ◌≡◌, ◌≢◌, refl, sym, ap, ◌∙◌, Option, none, some, false, arith, ◌==◌,
  if◌then◌else◌, inl, inr, Bool-cases,
}
use gyarad_os.Paging.{Paging, init_new_process, switch_pd, process_index}
use gyarad_os.Paging.Frames.{
  translate, frame, init_new_process-translate, switch_pd-init_new_process,
}
use gyarad_os.Kernel.State.{Kernel, Env}
use gyarad_os.Kernel.Process.Start.{Started}
use gyarad_os.Kernel.Process.Halt.{Halted}
use gyarad_os.Kernel.System.Family.{IsFamily, IsFamily-Alike, Quiet, Taken, base_of}
use gyarad_os.Kernel.System.Stacks.{Stacks, Shows, Shows-Alike, Shows-Started, Shows-Halted}
use gyarad_os.Kernel.System.Programs.{IsFamily-Started}
use gyarad_os.Kernel.System.Parents.{IsFamily-Halted}

-- The memory map of process `p` over the map `rest`: the 4 MB of its slot at its window.
abbrev pub map_of : (p : ℕ) → (rest : Paging) → (a : ℕ) → Option ℕ
map_of p rest a =
    if a / 0x40_0000 == process_index then some (frame p + a % 0x40_0000) else translate rest a

-- The map of the switch to a process with the base that `execute` gave it.
switch_pd-map_of :
    (rest : Paging) (p base a : ℕ)
    → p < 7
    → base ≡ base_of p
    → translate (switch_pd p base rest) a ≡ map_of p rest a
unfolding init_new_process
switch_pd-map_of rest p base a h e =
    ap (λ b. translate (switch_pd p b rest) a) e
    ∙ switch_pd-init_new_process rest rest p a (omega arith)
    ∙ init_new_process-translate rest p a (omega arith)

-- The processes are in order, and the process that runs in the active terminal has its own map. A
-- terminal that has not had its shell has no process, and is not active.
pub record IsConsistent (rest : Paging) (from : Stacks) (k : Kernel) : Type 0 where
  pub family : IsFamily k
  pub stacks : (st : Stacks) × Shows from k st
  pub map :
      (p a : ℕ) → k.curr_proc k.curr_active_term ≡ some p → translate k.paging a ≡ map_of p rest a
  pub elsewhere :
      (a : ℕ) → (a / 0x40_0000 == process_index) ≡ false → translate k.paging a ≡ translate rest a
  pub second : k.second_term_start ≡ 0 → (k.curr_proc 1 ≡ none) × (k.curr_active_term ≢ 1)
  pub third : k.third_term_start ≡ 0 → (k.curr_proc 2 ≡ none) × (k.curr_active_term ≢ 2)

-- A map that has its process's window in place is right elsewhere too.
pub map_of-elsewhere :
    (m under : Paging) (p a : ℕ)
    → translate m a ≡ map_of p under a
    → (a / 0x40_0000 == process_index) ≡ false
    → translate m a ≡ translate under a
map_of-elsewhere m under p a e out = e ∙ rw out refl

pub map_of-under :
    (rest under : Paging) (p a : ℕ)
    → ((a / 0x40_0000 == process_index) ≡ false → translate under a ≡ translate rest a)
    → map_of p under a ≡ map_of p rest a
map_of-under rest under p a same = elim (Bool-cases (a / 0x40_0000 == process_index)) [
  | inl e ↦ rw e refl
  | inr e ↦ rw e (same e)
]

module _ {rest : Paging} {from : Stacks} where
  pub IsConsistent-Quiet :
      {k k' : Kernel} → IsConsistent rest from k → Quiet k k' → IsConsistent rest from k'
  IsConsistent-Quiet {k} {k'} is q =
      let curr : (t : ℕ) → k.curr_proc t ≡ k'.curr_proc t = λ t. ap (λ f. f t) (sym q.alike.curr) in
      record {
        family = IsFamily-Alike is.family q.alike;
        stacks = (is.stacks.0, Shows-Alike is.family is.stacks.0 is.stacks.1 q.alike);
        map = λ p a e.
            ap (λ m. translate m a) q.paging
            ∙ is.map p a (curr k.curr_active_term ∙ ap k'.curr_proc (sym q.term) ∙ e);
        elsewhere = λ a e. ap (λ m. translate m a) q.paging ∙ is.elsewhere a e;
        second = λ e.
            (let (idle, ne) = is.second (sym q.second ∙ e) in
              (sym (curr 1) ∙ idle, λ t. ne (sym q.term ∙ t)));
        third = λ e.
            (let (idle, ne) = is.third (sym q.third ∙ e) in
              (sym (curr 2) ∙ idle, λ t. ne (sym q.term ∙ t)));
      }

  pub IsConsistent-Started :
      {k k' : Kernel} {id : ℕ}
      → IsConsistent rest from k
      → Started k k' id
      → IsConsistent rest from k'
  IsConsistent-Started {k} {k'} {id} is new =
      let at : (a : ℕ) → translate k'.paging a ≡ map_of id k.paging a = λ a.
        ap (λ r. translate r.1 a) new.page
        ∙ init_new_process-translate k.paging id a (omega (arith, new.placed.slot)) in
      let same : (p : ℕ) → k'.curr_proc k'.curr_active_term ≡ some p → p ≡ id =
        λ p e. ground (arith, e, new.has.running) in
      record {
        family = IsFamily-Started is.family new;
        stacks = (_, Shows-Started is.family is.stacks.0 is.stacks.1 new);
        map = λ p a e.
            at a
            ∙ map_of-under rest k.paging id a (is.elsewhere a)
            ∙ ap (λ n. map_of n rest a) (sym (same p e));
        elsewhere =
            λ a out. map_of-elsewhere k'.paging k.paging id a (at a) out ∙ is.elsewhere a out;
        second = λ e.
            (let (idle, ne) = is.second (sym new.second ∙ e) in
              ((new.terminals 1 (λ s. ne (sym s))).0 ∙ idle, λ t. ne (sym new.term ∙ t)));
        third = λ e.
            (let (idle, ne) = is.third (sym new.third ∙ e) in
              ((new.terminals 2 (λ s. ne (sym s))).0 ∙ idle, λ t. ne (sym new.term ∙ t)));
      }

  -- The map of a process with a taken slot.
  pub switched-map :
      {k : Kernel}
      → IsConsistent rest from k
      → (q a : ℕ) → Taken k q
      → (under : Paging)
      → translate (switch_pd (k.pcbs q).proc_num (k.pcbs q).base under) a ≡ map_of q under a
  switched-map {k} is q a t under =
      ap (λ n. translate (switch_pd n (k.pcbs q).base under) a) (is.family.number q t)
      ∙ switch_pd-map_of under q _ a t.0 (is.family.base q t)

  pub IsConsistent-Halted :
      {env : Env} {k k' : Kernel} {p q : ℕ}
      → IsConsistent rest from k
      → k.curr_proc k.curr_active_term ≡ some p
      → (k.pcbs p).prev ≡ some q
      → Halted env k k' p q
      → IsConsistent rest from k'
  IsConsistent-Halted {env} {k} {k'} {p} {q} is run mother gone =
      let taken = is.family.parent p q (is.family.curr _ p run) mother in
      let at : (a : ℕ) → translate k'.paging a ≡ map_of q k.paging a =
        λ a. ap (λ r. translate r a) gone.paging ∙ switched-map is q a taken k.paging in
      let here : k'.curr_proc k'.curr_active_term ≡ some q =
        ap k'.curr_proc gone.term ∙ gone.curr in
      let same : (r : ℕ) → k'.curr_proc k'.curr_active_term ≡ some r → r ≡ q =
        λ r e. ground (arith, e, here) in
      record {
        family = IsFamily-Halted is.family run mother gone;
        stacks = (_, (Shows-Halted is.family is.stacks.0 is.stacks.1 run mother gone).2);
        map = λ r a e.
            at a
            ∙ map_of-under rest k.paging q a (is.elsewhere a)
            ∙ ap (λ n. map_of n rest a) (sym (same r e));
        elsewhere =
            λ a out. map_of-elsewhere k'.paging k.paging q a (at a) out ∙ is.elsewhere a out;
        second = λ e.
            (let (idle, ne) = is.second (sym gone.second ∙ e) in
              ((gone.terminals 1 (λ s. ne (sym s))).0 ∙ idle, λ t. ne (sym gone.term ∙ t)));
        third = λ e.
            (let (idle, ne) = is.third (sym gone.third ∙ e) in
              ((gone.terminals 2 (λ s. ne (sym s))).0 ∙ idle, λ t. ne (sym gone.term ∙ t)));
      }
