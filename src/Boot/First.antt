-- ===== src/Boot/First.antt =====
-- What `entry` hands to the first program.
use mathlib.Core.Path.{subst}
use gyarad_os.Base.{
  ℕ, ◌≡◌, refl, ap, ◌∙◌, Option, none, some, true, ◌&&◌, not, [], ◌∷◌, codes, ◌==◌, Bool-cases,
  Option-cases, inl, inr,
}
use gyarad_os.Machine.Memory.{load32}
use gyarad_os.Machine.Bus.{Log}
use gyarad_os.Paging.{Paging, init_paging}
use gyarad_os.Screen.{clear, clear_screen}
use gyarad_os.Drivers.Pic.{enable_irq}
use gyarad_os.Drivers.Mouse.{mouse_init}
use gyarad_os.Kernel.State.{Kernel, Env, mem, log, set_log, set_screen}
use gyarad_os.Kernel.Process.{execute}
use gyarad_os.Kernel.Sound.{
  Sound, Played, done, ends, on_bus, then_do, init_sound_blaster, sound_blaster_play_test,
}
use gyarad_os.Kernel.System.{IsFresh, played}
use gyarad_os.Kernel.System.Family.{Quiet, quiet, Quiet-∙, same_pcb}
use gyarad_os.Kernel.System.Calls.{Within}
use gyarad_os.Boot.{find_fs, check_flag}
use gyarad_os.Boot.Entry.{
  Start, Booted, Image, stops, hangs, runs, say, report_memory, report_elf, start_devices,
  start_segments, start_first, after_test, start_rest, entry,
}
use gyarad_os.Boot.Calm.{Calm, shown, report_memory-Calm, report_elf-Calm, start_devices-Calm}

module _ (image : Image) where
  -- A part of the sound card's driver that only uses the screen, the memory and the bus.
  on_bus-Quiet :
      (k0 k : Kernel) (sb : Sound) (o : Option Log)
      → Quiet k0 k
      → Within (λ r. Quiet k0 r.1) (played (on_bus sb k o))
  unfolding on_bus
  on_bus-Quiet k0 k sb none q = tt
  on_bus-Quiet k0 k sb (some l) q = Quiet-∙ q (quiet k (set_log k l).console k.irq k.intr_occ)

  then_do-Quiet :
      (k0 : Kernel) (x : Played) (f : Sound → Kernel → Played)
      → Within (λ r. Quiet k0 r.1) (played x)
      → ((sb : Sound) (k : Kernel) → Quiet k0 k → Within (λ r. Quiet k0 r.1) (played (f sb k)))
      → Within (λ r. Quiet k0 r.1) (played (then_do x f))
  unfolding then_do
  then_do-Quiet k0 (done sb k) f q g = g sb k q
  then_do-Quiet k0 (ends r) f q g = tt

  play_test-Quiet :
      (env : Env) (patience lfsr : ℕ) (sb : Sound) (k : Kernel)
      → Within
          (λ r. Quiet k r.1)
          (played (sound_blaster_play_test env patience image.d_buf image.sb_cmd lfsr sb k).1)
  unfolding sound_blaster_play_test
  play_test-Quiet env patience lfsr sb k =
      then_do-Quiet k _ _ (on_bus-Quiet k k _ _ (quiet k k.console k.irq k.intr_occ))
        (λ sb1 k1 q. on_bus-Quiet k _ _ _ (Quiet-∙ q (quiet k1 _ k1.irq k1.intr_occ)))

  -- What the first `execute` is called with.
  abbrev pub Begins : Paging → Booted → Type 0
  Begins rest (stops k) = Unit
  Begins rest hangs = Unit
  Begins rest (runs env' b r) =
      (k : Kernel) × IsFresh rest k
      × (r ≡ execute env' image.cmd_len image.esp image.ebp env'.shell k)

  IsFresh-Quiet : (rest : Paging) (k k' : Kernel) → IsFresh rest k → Quiet k k' → IsFresh rest k'
  IsFresh-Quiet rest k k' is q = record {
    mask = q.alike.mask ∙ is.mask;
    idle = λ t. ap (λ f. f t) q.alike.curr ∙ is.idle t;
    term = q.term ∙ is.term;
    paging = q.paging ∙ is.paging;
  }

  start_first-Begins :
      (rest : Paging) (env : Env) (fs_start : ℕ) (b : Start)
      → IsFresh rest b.kernel
      → Begins rest (start_first image env fs_start b)
  unfolding start_first
  start_first-Begins rest env fs_start b is = (
    _,
    IsFresh-Quiet rest b.kernel _ is (shown b.kernel (clear_screen b.kernel.console.screen)),
    refl,
  )

  after_test-Begins :
      (rest : Paging) (env : Env) (fs_start : ℕ) (b : Start) (k : Kernel) (r : ℕ × Played)
      → IsFresh rest k
      → Within (λ r. Quiet k r.1) (played r.1)
      → Begins rest (after_test image env fs_start b r)
  after_test-Begins rest env fs_start b k (lfsr, done sb k') is q =
      start_first-Begins rest env fs_start _ (IsFresh-Quiet rest k k' is q)
  after_test-Begins rest env fs_start b k (lfsr, ends r) is q = tt

  start_rest-Begins :
      (env : Env) (patience fs_start : ℕ) (b : Start) (k : Kernel)
      → IsFresh k.paging k
      → Begins (init_paging image.page_table k.paging) (start_rest image env patience fs_start b k)
  unfolding start_rest
  start_rest-Begins env patience fs_start b k is =
      let rest = init_paging image.page_table k.paging in
      let k1 = record k { irq = true; paging = rest } in
      let first : IsFresh rest k1 = record {
        mask = is.mask;
        idle = is.idle;
        term = is.term;
        paging = refl;
      } in
      let k2 = set_log k1 (enable_irq env.dev 5 (mouse_init env.dev b.mouse (log k1)).1) in
      elim (Option-cases (
        init_sound_blaster patience env.dev k2.console.active_terminal b.sound k2.console.screen)) [
          | inl e ↦ rw (Begins, start_rest, e) tt
          | inr ((sb, s), e) ↦
              let k3 = set_screen k2 s in
              let ready = IsFresh-Quiet rest k1 k3 first (quiet k1 k3.console true k.intr_occ) in
              rw (Begins, start_rest, e)
                (after_test-Begins rest env fs_start
                  (record b { mouse = (mouse_init env.dev b.mouse (log k1)).0 }) k3 _ ready
                  (play_test-Quiet env patience b.lfsr sb k3))
        ]

  -- The value of `tss.esp0`.
  raised : (k : Kernel) (esp0 : ℕ) → Quiet k (record k { esp0 = esp0 })
  raised k esp0 = record {
    alike = record { mask = refl; curr = refl; prev = refl; pcb = λ r. same_pcb refl };
    term = refl;
    paging = refl;
    second = refl;
    third = refl;
  }

  -- `entry` past its tests, from the kernel `k2` on.
  from_segments :
      (env : Env) (patience fs_start : ℕ) (b : Start) (k2 : Kernel)
      → IsFresh b.kernel.paging b.kernel
      → Quiet b.kernel k2
      → Begins (init_paging image.page_table b.kernel.paging) (
          let b' = start_segments image (record b { kernel = k2 }) in
          elim (start_devices image env b'.kernel) [
            | none ↦ hangs
            | some k3 ↦ start_rest image env patience fs_start b' k3
          ])
  unfolding start_segments
  from_segments env patience fs_start b k2 is q =
      let b' = start_segments image (record b { kernel = k2 }) in
      elim (Option-cases (start_devices image env b'.kernel)) [
        | inl e ↦ rw (Begins, e) tt
        | inr (k3, e) ↦
            let worked : Quiet b'.kernel k3 =
              subst (Calm b'.kernel) e (start_devices-Calm image env b'.kernel) in
            let since = Quiet-∙ (Quiet-∙ q (raised k2 0x80_0000)) worked in
            let at = IsFresh-Quiet b.kernel.paging b.kernel k3 is since in
            let first : IsFresh k3.paging k3 = record {
              mask = at.mask;
              idle = at.idle;
              term = at.term;
              paging = refl;
            } in
            rw (Begins, e)
              (subst
                (λ p.
                  Begins (init_paging image.page_table p)
                    (start_rest image env patience fs_start b' k3))
                since.paging (start_rest-Begins env patience fs_start b' k3 first))
      ]

  stops-Begins :
      (rest : Paging) (o : Option Kernel) → Begins rest (elim o [ none ↦ hangs | some k ↦ stops k ])
  stops-Begins rest none = tt
  stops-Begins rest (some k) = tt

  -- When `entry` gets as far as the first program, after a start at which no process ran and no slot
  -- was taken, the `execute` of that program is called in a kernel where this still holds, and where
  -- the page directory is that of `init_paging`.
  pub entry-Begins :
      (env : Env) (patience magic addr : ℕ) (b : Start)
      → IsFresh b.kernel.paging b.kernel
      → Begins
          (init_paging image.page_table b.kernel.paging)
          (entry image env patience magic addr b)
  unfolding entry
  entry-Begins env patience magic addr b is =
      let rest = init_paging image.page_table b.kernel.paging in
      let k = set_screen b.kernel (clear b.kernel.console.screen) in
      elim (Bool-cases (not (magic == 0x2bad_b002))) [
        | inl e ↦
            rw (entry, e)
              (stops-Begins rest (say image (codes "Invalid magic number: 0x%#x\n") (magic ∷ []) k))
        | inr e ↦ elim (Option-cases (report_memory image addr k)) [
          | inl e1 ↦ rw (Begins, entry, e, e1) tt
          | inr (k1, e1) ↦
              let q1 = subst (Calm k) e1 (report_memory-Calm image addr k) in
              let flags = load32 (mem k1) addr in
              elim (Bool-cases (check_flag flags 4 && check_flag flags 5)) [
                | inl e2 ↦
                    rw (entry, e, e1, e2)
                      (stops-Begins rest (say image (codes "Both bits 4 and 5 are set.\n") [] k1))
                | inr e2 ↦ elim (Option-cases (report_elf image addr k1)) [
                  | inl e3 ↦ rw (Begins, entry, e, e1, e2, e3) tt
                  | inr (k2, e3) ↦
                      let q2 = subst (Calm k1) e3 (report_elf-Calm image addr k1) in
                      let q0 = shown b.kernel (clear b.kernel.console.screen) in
                      rw (entry, e, e1, e2, e3)
                        (from_segments env patience (find_fs (mem k1) addr) b k2 is
                          (Quiet-∙ q0 (Quiet-∙ q1 q2)))
                ]
              ]
        ]
      ]
