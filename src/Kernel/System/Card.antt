-- ===== src/Kernel/System/Card.antt =====
-- The interrupt of the sound card, which reads its file through the system calls, keeps the system consistent.
use gyarad_os.Base.{
  ℕ, ◌≡◌, Option, none, some, Bool, true, false, not, ltb, ◌==◌, if◌then◌else◌, Option-cases, inl,
  inr,
}
use gyarad_os.Base.Int.{ℤ, pos}
use gyarad_os.Machine.Memory.{Addr}
use gyarad_os.Machine.Bus.{Log}
use gyarad_os.Kernel.{read, close}
use gyarad_os.Kernel.State.{
  Kernel, Env, Result, ret, enters, resumes, wait, overruns, fault, set_log, set_mem, mem, as_uint,
  cli,
}
use gyarad_os.Kernel.Calls.{HasTable, read-Settles}
use gyarad_os.Kernel.Open.{close-Settles}
use gyarad_os.Kernel.Sound.{
  Sound, Played, done, ends, then_call, then_do, on_bus, clear_bytes, swap_half,
  sound_blaster_clear_mem, play_block, play_next, sound_balster_irq_handler,
}
use gyarad_os.Kernel.System.{outcome, played}
use gyarad_os.Paging.{Paging}
use gyarad_os.Kernel.System.Stacks.{Stacks}
use gyarad_os.Kernel.System.Memory.{IsConsistent}
use gyarad_os.Kernel.System.Idle.{read-Rests, close-Rests}
use gyarad_os.Kernel.System.Calls.{Within, IsConsistent-Settles, IsConsistent-Rests}
use gyarad_os.Kernel.System.Devices.{shown-IsConsistent}

abbrev pub Sounds : Paging → Stacks → Played → Type 0
Sounds rest from x = Within (λ r. IsConsistent rest from r.1) (played x)

module _ (rest : Paging) (from : Stacks) (env : Env) where
  Sounds-if :
      (b : Bool) (x y : Played)
      → Sounds rest from x
      → Sounds rest from y
      → Sounds rest from (if b then x else y)
  Sounds-if true x y p q = p
  Sounds-if false x y p q = q

  call-Sounds :
      (r : Result) (f : ℤ → Kernel → Played)
      → Within (IsConsistent rest from) (outcome r)
      → ((n : ℤ) (k : Kernel) → IsConsistent rest from k → Sounds rest from (f n k))
      → Sounds rest from (then_call r f)
  unfolding then_call
  call-Sounds (ret n k) f is g = g n k is
  call-Sounds (enters e k) f is g = tt
  call-Sounds (resumes s k) f is g = tt
  call-Sounds wait f is g = tt
  call-Sounds overruns f is g = tt
  call-Sounds fault f is g = tt

  do-Sounds :
      (x : Played) (f : Sound → Kernel → Played)
      → Sounds rest from x
      → ((sb : Sound) (k : Kernel) → IsConsistent rest from k → Sounds rest from (f sb k))
      → Sounds rest from (then_do x f)
  unfolding then_do
  do-Sounds (done sb k) f is g = g sb k is
  do-Sounds (ends r) f is g = tt

  bus-Sounds :
      (sb : Sound) {k : Kernel} (o : Option Log)
      → IsConsistent rest from k
      → Sounds rest from (on_bus sb k o)
  unfolding on_bus
  bus-Sounds sb none is = tt
  bus-Sounds sb {k} (some l) is = shown-IsConsistent is (set_log k l).console k.irq k.intr_occ

  HasTable-IsConsistent :
      {k : Kernel} (p : ℕ)
      → IsConsistent rest from k
      → k.curr_proc k.curr_active_term ≡ some p
      → HasTable k p
  HasTable-IsConsistent p is run = record {
    running = run;
    table = is.family.table p (is.family.curr _ p run);
  }

  read-IsConsistent :
      {k : Kernel}
      → IsConsistent rest from k
      → (fd : ℤ) (buf : Addr) (nbytes : ℤ)
      → Within (IsConsistent rest from) (outcome (read env fd buf nbytes k))
  read-IsConsistent {k} is fd buf nbytes = elim (Option-cases (k.curr_proc k.curr_active_term)) [
    | inl idle ↦ IsConsistent-Rests rest from env _ is (read-Rests env k idle fd buf nbytes)
    | inr (p, run) ↦
        IsConsistent-Settles _ is (read-Settles env (HasTable-IsConsistent p is run) fd buf nbytes)
  ]

  close-IsConsistent :
      {k : Kernel}
      → IsConsistent rest from k
      → (fd : ℤ) → Within (IsConsistent rest from) (outcome (close env fd k))
  close-IsConsistent {k} is fd = elim (Option-cases (k.curr_proc k.curr_active_term)) [
    | inl idle ↦ IsConsistent-Rests rest from env _ is (close-Rests env k idle fd)
    | inr (p, run) ↦
        IsConsistent-Settles _ is (close-Settles env (HasTable-IsConsistent p is run) fd)
  ]

  module _ (patience : ℕ) (d_buf : Addr) (cmd : ℕ) where
    clear_mem-Sounds :
        (sb : Sound) (k : Kernel)
        → IsConsistent rest from k
        → Sounds rest from (sound_blaster_clear_mem env patience d_buf cmd sb k)
    unfolding sound_blaster_clear_mem
    clear_mem-Sounds sb k is =
        let m = clear_bytes 0x1_0000 (mem k) d_buf 0 in
        call-Sounds _ _
          (close-IsConsistent (shown-IsConsistent is (set_mem k m).console k.irq k.intr_occ)
            sb.file)
          (λ n k' is'. is')

    block-Sounds :
        (n : ℕ) (sb : Sound) (k : Kernel)
        → IsConsistent rest from k
        → Sounds rest from (play_block env patience d_buf cmd n sb k)
    unfolding play_block
    block-Sounds n sb k is =
        do-Sounds _ _
          (Sounds-if (ltb n 0x8000) _ _ (do-Sounds _ _ (bus-Sounds sb _ is) clear_mem-Sounds) is)
          (λ sb1 k1 is1. bus-Sounds (swap_half d_buf sb1) _ is1)

    next-Sounds :
        (sb : Sound) (k : Kernel)
        → IsConsistent rest from k
        → Sounds rest from (play_next env patience d_buf cmd sb k)
    unfolding play_next
    next-Sounds sb k is =
        call-Sounds _ _ (read-IsConsistent is sb.file sb.fd_b_current (pos 0x8000)) (λ n k' is'.
          Sounds-if (as_uint n == 0) _ _
            (do-Sounds _ _ (clear_mem-Sounds sb k' is') (λ sb1 k1 is1. bus-Sounds sb1 _ is1))
            (block-Sounds (as_uint n) sb k' is'))

    pub card-Sounds :
        (sb : Sound) {k : Kernel}
        → IsConsistent rest from k
        → Sounds rest from (sound_balster_irq_handler env patience d_buf cmd sb k)
    unfolding sound_balster_irq_handler
    card-Sounds sb {k} is =
        let off = shown-IsConsistent is k.console false k.intr_occ in
        do-Sounds _ _ (Sounds-if (not (sb.status == 0)) _ _ (next-Sounds sb (cli k) off) off)
          (λ sb1 k1 is1. shown-IsConsistent is1 _ k.irq k1.intr_occ)
