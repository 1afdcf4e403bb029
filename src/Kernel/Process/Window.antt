-- ===== src/Kernel/Process/Window.antt =====
-- The memory that `execute` gives to a program, and that `halt` gives back to its parent.
use gyarad_os.Base.{
  ℕ, ◌+◌, ◌/◌, ◌%◌, ◌<◌, ◌≡◌, ◌≢◌, ap, ◌∙◌, some, true, refl, arith, ◌==◌, bit_and,
}
use gyarad_os.Paging.{init_new_process, switch_pd, process_index}
use gyarad_os.Paging.Frames.{
  translate, frame, IsProcess, init_new_process-translate, switch_pd-init_new_process,
}
use gyarad_os.Kernel.State.{Kernel, Env, resumes}
use gyarad_os.Kernel.Process.{halt}
use gyarad_os.Kernel.Process.Slots.{slot_bit}
use gyarad_os.Kernel.Process.Halt.{halt-Halted}
use gyarad_os.Kernel.Process.Start.{Started}

module _ (env : Env) (k k' : Kernel) (id : ℕ) (is : Started k k' id) where
  frame_of :
      (n a : ℕ) (p : _)
      → n < 1022
      → IsProcess a
      → translate (init_new_process n p).1 a ≡ some (frame n + a % 0x40_0000)
  frame_of n a p small window =
      let e : (a / 0x40_0000 == process_index) ≡ true = ground arith in
      init_new_process-translate p n a small ∙ rw e refl

  -- A program that is started has the 4 MB of its slot at its window. When it halts, and the
  -- program under it has a taken slot, of number `q` below 7, with the page that it was given when
  -- it was started itself, the window shows the 4 MB of slot `q` again, which share no byte with
  -- those of the program that halted.
  pub halt-window :
      (q status a : ℕ)
      → k.curr_proc k.curr_active_term ≡ some q
      → bit_and k.curr_proc_id_mask (slot_bit q) ≢ 0
      → q < 7
      → (k.pcbs q).proc_num ≡ q
      → (k.pcbs q).base ≡ (init_new_process q k.paging).0
      → IsProcess a
      → (k'' : Kernel) × (translate k'.paging a ≡ some (frame id + a % 0x40_0000))
        × (halt env status k' ≡ resumes status k'')
        × (translate k''.paging a ≡ some (frame q + a % 0x40_0000))
        × ((b : ℕ) → IsProcess b → frame id + a % 0x40_0000 ≢ frame q + b % 0x40_0000)
  halt-window q status a run taken small number base window =
      let differ : q ≢ id =
        λ e. taken (ap (λ r. bit_and k.curr_proc_id_mask (slot_bit r)) e ∙ is.placed.free) in
      let prev : k'.prev_proc k'.curr_active_term ≡ some q = rw is.term (is.prev ∙ run) in
      let (k'', e, done) = halt-Halted env k' id q status is.has prev differ in
      let own : k'.pcbs q ≡ k.pcbs q = is.others q differ in
      let page : k''.paging ≡ switch_pd q (init_new_process q k.paging).0 k'.paging =
        done.paging
        ∙ ap (λ b. switch_pd b.proc_num b.base k'.paging) own
        ∙ ap (λ n. switch_pd n (k.pcbs q).base k'.paging) number
        ∙ ap (λ b. switch_pd q b k'.paging) base in
      (
        k'',
        ap (λ r. translate r.1 a) is.page
            ∙ frame_of id a k.paging (omega (arith, is.placed.slot)) window,
        e,
        ap (λ r. translate r a) page
            ∙ switch_pd-init_new_process k.paging k'.paging q a (omega arith)
            ∙ frame_of q a k'.paging (omega arith) window,
        λ b w s. differ (omega arith),
      )
