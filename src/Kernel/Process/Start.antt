-- ===== src/Kernel/Process/Start.antt =====
-- `execute`: what every outcome leaves of the kernel.
use gyarad_os.Base.{
  ℕ, ◌+◌, ◌-◌, ◌%◌, leb, ◌/◌, ◌^◌, ◌<◌, ◌≡◌, ◌≢◌, inl, inr, refl, sym, ap, ◌∙◌, none, some, List,
  true, false, arith, not, ◌==◌, bit_and, bit_xor, Bool-cases, Option-cases, ℕ_discrete,
}
use gyarad_os.Machine.Memory.{Addr}
use gyarad_os.Str.{address_space, strlen, strcpy, strncmp}
use gyarad_os.Str.Token.{strtok}
use gyarad_os.Fs.{is_zero}
use gyarad_os.Fs.Calls.{copy_file_to_addr, is_minus_one}
use gyarad_os.Paging.{init_new_process}
use gyarad_os.Screen.Printf.{printf}
use gyarad_os.Console.{Console}
use gyarad_os.Kernel.State.{
  Kernel, Env, Result, ret, enters, resumes, wait, overruns, fault, mem, args_addr, restore, fits,
}
use gyarad_os.Kernel.Table.{IsTable}
use gyarad_os.Kernel.Calls.{HasTable}
use gyarad_os.Kernel.Process.{
  report, fresh_fds, start_process, place, launch, execute, halt, args_loop, read_header,
  is_runnable, stack_addr,
}
use gyarad_os.Kernel.Process.Slots.{Placed, find_slot-Placed, slot_bit}
use gyarad_os.Kernel.Process.Halt.{halt-Halted}

-- A command that does not start a program leaves the processes, the pages and the interrupt flag.
pub record Refused (k k' : Kernel) : Type 0 where
  pub pcbs : k'.pcbs ≡ k.pcbs
  pub curr : k'.curr_proc ≡ k.curr_proc
  pub prev : k'.prev_proc ≡ k.prev_proc
  pub mask : k'.curr_proc_id_mask ≡ k.curr_proc_id_mask
  pub paging : k'.paging ≡ k.paging
  pub irq : k'.irq ≡ k.irq
  pub term : k'.curr_active_term ≡ k.curr_active_term
  pub second : k'.second_term_start ≡ k.second_term_start
  pub third : k'.third_term_start ≡ k.third_term_start

-- A program that starts in the terminal `t`.
pub record Started (k k' : Kernel) (id : ℕ) : Type 0 where
  pub has : HasTable k' id
  pub term : k'.curr_active_term ≡ k.curr_active_term
  pub prev : k'.prev_proc k.curr_active_term ≡ k.curr_proc k.curr_active_term
  pub parent : (k'.pcbs id).prev ≡ k.curr_proc k.curr_active_term
  pub terminals :
      (t : ℕ)
      → t ≢ k.curr_active_term
      → (k'.curr_proc t ≡ k.curr_proc t) × (k'.prev_proc t ≡ k.prev_proc t)
  pub placed : Placed k.curr_proc_id_mask id k'.curr_proc_id_mask
  pub number : (k'.pcbs id).proc_num ≡ id
  pub page : (((k'.pcbs id).base, k'.paging)) ≡ init_new_process id k.paging
  pub esp0 : k'.esp0 ≡ stack_addr id
  pub others : (r : ℕ) → r ≢ id → k'.pcbs r ≡ k.pcbs r
  pub irq : k'.irq ≡ k.irq
  pub second : k'.second_term_start ≡ k.second_term_start
  pub third : k'.third_term_start ≡ k.third_term_start

-- The outcomes of `execute`.
abbrev pub Executed : Kernel → Result → Type 0
Executed k (ret n k') = Refused k k'
Executed k (enters e k') = (id : ℕ) × Started k k' id
Executed k (resumes e k') = ⊥
Executed k wait = Unit
Executed k overruns = Unit
Executed k fault = Unit

fresh_fds-IsTable : IsTable fresh_fds
unfolding fresh_fds
fresh_fds-IsTable = record {
  input = refl;
  output = refl;
  others = λ i lo hi used. absurd (ground arith);
}

start_process-Started :
    (k : Kernel) (esp ebp id entry mask : ℕ) (c : Console)
    → Placed k.curr_proc_id_mask id mask
    → Executed k (
        start_process k.irq esp ebp id (init_new_process id k.paging).0 entry (record k {
          console = c;
          irq = false;
          curr_proc_id_mask = mask;
          paging = (init_new_process id k.paging).1;
        }))
unfolding start_process
start_process-Started k esp ebp id entry mask c placed =
    let t = k.curr_active_term in
    let hit : (t == t) ≡ true = ground arith in
    let own : (id == id) ≡ true = ground arith in
    (
      id,
      record {
        has = record { running = rw hit refl; table = rw own fresh_fds-IsTable };
        term = refl;
        prev = rw hit refl;
        parent = rw own refl;
        terminals = λ u n. (let miss : (u == t) ≡ false = ground arith in rw miss (refl, refl));
        placed = placed;
        number = rw own refl;
        page = rw own refl;
        esp0 = refl;
        others = λ r n. (let miss : (r == id) ≡ false = ground arith in rw miss refl);
        irq = refl;
        second = refl;
        third = refl;
      },
    )

-- A kernel with interrupts off, and with the memory or the screen changed.
abbrev masked : Kernel → Console → Kernel
masked k c = record k { console = c; irq = false }

refused : (k : Kernel) (c : Console) → Refused k (restore k.irq (masked k c))
refused k c = record {
  pcbs = refl;
  curr = refl;
  prev = refl;
  mask = refl;
  paging = refl;
  irq = refl;
  term = refl;
  second = refl;
  third = refl;
}

module _ (env : Env) (k : Kernel) (small : k.curr_proc_id_mask < 256) where
  report-Executed :
      (message : List ℕ) (c : Console) → Executed k (report env message k.irq (masked k c))
  unfolding report
  report-Executed message c =
      elim (Option-cases (printf c.active_terminal env.conv_buf env.stack message c.screen)) [
        | inl e ↦ rw (Executed, e) tt
        | inr (s, e) ↦ rw (Executed, e) (refused k _)
      ]

  place-Executed :
      (esp ebp : ℕ) (f_name : Addr) (entry : ℕ) (c : Console)
      → Executed k (place env k.irq esp ebp f_name entry (masked k c))
  unfolding place
  place-Executed esp ebp f_name entry c = elim (find_slot-Placed k.curr_proc_id_mask small) [
    | inr (e, full) ↦ rw (Executed, e) (report-Executed _ c)
    | inl (id, mask, e, placed) ↦
        elim (Option-cases (copy_file_to_addr env.fs c.screen.mem env.temp f_name 0x804_8000)) [
          | inl e1 ↦ rw (Executed, e, e1) tt
          | inr (r, e1) ↦ elim (Option-cases (strcpy r.1 (args_addr id) env.temp_arg)) [
            | inl e2 ↦ rw (Executed, e, e1, e2) tt
            | inr (m, e2) ↦ elim (Bool-cases (not (fits 64 r.1 env.temp_arg))) [
              | inl e3 ↦ rw (Executed, e, e1, e2, e3) tt
              | inr e3 ↦
                  rw (Executed, e, e1, e2, e3)
                    (start_process-Started k esp ebp id entry mask _ placed)
            ]
          ]
        ]
  ]

  launch-Executed :
      (esp ebp : ℕ) (command : Addr) (c : Console)
      → Executed k (launch env k.irq esp ebp command (masked k c))
  unfolding launch
  launch-Executed esp ebp command c =
      elim (Option-cases (strtok c.screen.mem env.placeholder command)) [
        | inl e ↦ rw (Executed, e) tt
        | inr ((none, m), e) ↦ rw (Executed, e) tt
        | inr ((some f_name, m), e) ↦ elim (Bool-cases (is_zero (strncmp m f_name env.clear 5))) [
          | inl e1 ↦ rw (Executed, e, e1) (refused k _)
          | inr e1 ↦ elim (Bool-cases (not (fits 32 m f_name))) [
            | inl e0 ↦ rw (Executed, e, e1, e0) tt
            | inr e0 ↦ elim (Option-cases (read_header env m f_name)) [
              | inl e2 ↦ rw (Executed, e, e1, e0, e2) tt
              | inr ((n, m'), e2) ↦ elim (Bool-cases (is_minus_one n)) [
                | inl e3 ↦ rw (Executed, e, e1, e0, e2, e3) (refused k _)
                | inr e3 ↦ elim (Bool-cases (not (is_runnable m' env.f_init_data))) [
                  | inl e4 ↦ rw (Executed, e, e1, e0, e2, e3, e4) (report-Executed _ _)
                  | inr e4 ↦
                      rw (Executed, e, e1, e0, e2, e3, e4) (place-Executed esp ebp f_name _ _)
                ]
              ]
            ]
          ]
        ]
      ]

  -- With a mask of 8 bits, `execute` of any command either returns with the processes, the slots,
  -- the pages and the interrupt flag as they were, or starts a program in the first free slot: its
  -- PCB, page, stack and descriptors are its own, the program that ran in the terminal is its
  -- parent, no other PCB or terminal changes, and the interrupt flag is restored. A string that
  -- never ends, a first word that is NULL, and a command that overruns an array are outcomes too:
  -- one whose arguments, or the place where their NUL goes, are not within 64 bytes, or with a first
  -- word of 32 bytes or more.
  pub execute-Executed :
      (cmd_len esp ebp : ℕ) (command : Addr) → Executed k (execute env cmd_len esp ebp command k)
  unfolding execute
  execute-Executed cmd_len esp ebp command =
      let stays = refused k k.console in
      elim (Bool-cases (command == 0)) [
        | inl e ↦ rw (Executed, e) stays
        | inr e ↦ elim (Option-cases (strlen (mem k) command)) [
          | inl e1 ↦ rw (Executed, e, e1) tt
          | inr (n, e1) ↦ elim (Bool-cases (n == 0)) [
            | inl e2 ↦ rw (Executed, e, e1, e2) stays
            | inr e2 ↦
                elim (Option-cases
                  (args_loop address_space (mem k) env.temp_arg command false cmd_len 0)) [
                    | inl e3 ↦ rw (Executed, e, e1, e2, e3) tt
                    | inr (none, e3) ↦ rw (Executed, e, e1, e2, e3) stays
                    | inr (some (len, i, m), e3) ↦
                        elim (Bool-cases (leb 64 ((i + 2 ^ 32 - len - 1) % 2 ^ 32))) [
                          | inl e4 ↦ rw (Executed, e, e1, e2, e3, e4) tt
                          | inr e4 ↦
                              rw (Executed, e, e1, e2, e3, e4) (launch-Executed esp ebp command _)
                        ]
                  ]
          ]
        ]
      ]

  -- A program that is started over another one, whose slot is taken, and then halts, gives
  -- everything back, if the terminal's previous process was the parent of its process: the terminal
  -- runs this process again, with its own parent, the slots in use are those of before, and so are
  -- the other terminals and PCBs, and the kernel stack of its calls is its own. The mask has 8 bits.
  pub halt-Started :
      (q id status : ℕ) (k' : Kernel)
      → Started k k' id
      → k.curr_proc k.curr_active_term ≡ some q
      → k.prev_proc k.curr_active_term ≡ (k.pcbs q).prev
      → bit_and k.curr_proc_id_mask (slot_bit q) ≢ 0
      → (k'' : Kernel) × (halt env status k' ≡ resumes status k'')
        × ((t : ℕ) → (k''.curr_proc t ≡ k.curr_proc t) × (k''.prev_proc t ≡ k.prev_proc t))
        × (k''.curr_proc_id_mask ≡ k.curr_proc_id_mask)
        × ((r : ℕ) → r ≢ id → k''.pcbs r ≡ k.pcbs r)
        × (k''.esp0 ≡ stack_addr (k.pcbs q).proc_num)
  halt-Started q id status k' is run parent taken =
      let differ : q ≢ id =
        λ e. taken (ap (λ r. bit_and k.curr_proc_id_mask (slot_bit r)) e ∙ is.placed.free) in
      let prev : k'.prev_proc k'.curr_active_term ≡ some q = rw is.term (is.prev ∙ run) in
      let (k'', e, done) = halt-Halted env k' id q status is.has prev differ in
      let t : k'.curr_active_term ≡ k.curr_active_term = is.term in
      let own : k'.pcbs q ≡ k.pcbs q = is.others q differ in
      (
        k'',
        e,
        (λ u. elim (ℕ_discrete u k.curr_active_term) [
          | yes same ↦ rw same (
            ap k''.curr_proc (sym t) ∙ done.curr ∙ sym run,
            ap k''.prev_proc (sym t) ∙ done.prev ∙ ap (λ b. b.prev) own ∙ sym parent,
          )
          | no ne ↦
              let out = done.terminals u (λ e. ne (e ∙ t)) in
              (out.0 ∙ (is.terminals u ne).0, out.1 ∙ (is.terminals u ne).1)
        ]),
        done.mask
            ∙ ap (λ n. bit_xor k'.curr_proc_id_mask (0x80 / 2 ^ n)) is.number
            ∙ is.placed.given_back,
        (λ r n. done.others r n ∙ is.others r n),
        done.esp0 ∙ ap (λ b. stack_addr b.proc_num) own,
      )
