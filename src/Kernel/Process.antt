-- ===== src/Kernel/Process.antt =====
-- `execute` and `halt` of kernel/syscall.c.
-- A program that starts is a call that does not come back (`enters`), and `halt` leaves through the
-- end of the `execute` that started the program (`resumes`).
pub mod Slots
pub mod Start
pub mod Window
pub mod Closing
pub mod Halt
use gyarad_os.Base.{
  ℕ, zero, suc, ◌+◌, ◌-◌, ◌*◌, ◌/◌, ◌%◌, ◌^◌, Bool, true, false, ◌||◌, ◌&&◌, not, Option, none,
  some, List, codes, leb, ltb, ◌==◌, if◌then◌else◌, bit_and, bit_or, bit_xor,
}
use gyarad_os.Base.Int.{ℤ, pos, negsuc}
use gyarad_os.Machine.Memory.{Addr, Mem, poke}
use gyarad_os.Str.{address_space, strlen, strcpy, strncmp}
use gyarad_os.Str.Token.{strtok}
use gyarad_os.Fs.{is_zero}
use gyarad_os.Fs.Calls.{fs_read, is_minus_one, copy_file_to_addr}
use gyarad_os.Paging.{init_new_process, switch_pd}
use gyarad_os.Screen.{clear_screen}
use gyarad_os.Screen.Printf.{printf}
use gyarad_os.Kernel.{close}
use gyarad_os.Kernel.State.{
  Ops, null, stdin_ops, stdout_ops, Descriptor, Pcb, Kernel, Env, Result, ret, enters, resumes,
  wait, overruns, fault, mem, set_mem, set_screen, cli, restore, args_addr, set_pcb, set_fd, fits,
}

-- The loop of `execute` over the command, with `f` rounds left: -1 for a name of more than 32
-- characters, or the last values of `cmd_len` and `i`.
unfoldable pub args_loop :
    ℕ
    → Mem
    → (temp_arg command : Addr) → (space : Bool) → (cmd_len i : ℕ) → Option (Option (ℕ × ℕ × Mem))
args_loop zero m temp_arg command space cmd_len i = none
args_loop (suc f) m temp_arg command space cmd_len i =
    let c = m (command + i) in
    let at_space = args_loop f m temp_arg command true (i % 256) (i + 1) in
    let in_args =
      args_loop f (poke m ((temp_arg + (i + 2 ^ 32 - cmd_len - 1)) % 2 ^ 32) c) temp_arg command
        space cmd_len (i + 1) in
    let in_name = args_loop f m temp_arg command space cmd_len (i + 1) in
    if c == 0
    then some (some (cmd_len, i, m))
    else if c == b' ' && not space
    then at_space
    else if space
    then in_args
    else if leb 32 i
    then some none
    else in_name

-- The search for an open spot, with `k` of the seven left: the spot and the new mask.
unfoldable pub find_slot : ℕ → (temp_process_mask i mask : ℕ) → Option (ℕ × ℕ)
find_slot zero temp_process_mask i mask = none
find_slot (suc k) temp_process_mask i mask =
    let rest = find_slot k (temp_process_mask / 2) (i + 1) mask in
    if bit_and temp_process_mask mask == 0 then some (i, bit_or mask temp_process_mask) else rest

-- The magic number of an executable.
abbrev pub is_runnable : Mem → Addr → Bool
is_runnable m d = m d == 0x7f && m (d + 1) == 0x45 && m (d + 2) == 0x4c && m (d + 3) == 0x46

abbrev pub entry_point : Mem → Addr → ℕ
entry_point m d =
    (m (d + 27) * 2 ^ 24 + m (d + 26) * 2 ^ 16 + m (d + 25) * 2 ^ 8 + m (d + 24)) % 2 ^ 32

-- `_8MB - _8KB * n - 4`.
abbrev pub stack_addr : ℕ → ℕ
stack_addr n = 0x80_0000 - 0x2000 * n - 4

-- A PCB's descriptors at the start of its process.
unfoldable pub fresh_fds : ℕ → Descriptor
fresh_fds i = record {
  operations_pointer = if i == 0 then stdin_ops else if i == 1 then stdout_ops else null;
  inode = 0;
  file_position = 0;
  flags = if i == 0 || i == 1 then 1 else 0;
}

abbrev pub put_proc : (ℕ → Option ℕ) → ℕ → Option ℕ → ℕ → Option ℕ
put_proc procs t p u = if u == t then p else procs u

-- `execute` from the page directory on: the PCB of process `id`, with the registers as they are.
unfoldable pub start_process : (flags : Bool) → (esp ebp id base entry : ℕ) → Kernel → Result
start_process flags esp ebp id base entry k =
    let t = k.curr_active_term in
    enters entry (record k {
      pcbs = λ q.
          if q == id
          then record {
            fds = fresh_fds;
            proc_num = id;
            base = base;
            p_ksp = esp;
            p_kbp = ebp;
            p_sched_ksp = esp;
            p_sched_kbp = ebp;
            prev = k.curr_proc t;
          }
          else k.pcbs q;
      esp0 = stack_addr id;
      prev_proc = put_proc k.prev_proc t (k.curr_proc t);
      curr_proc = put_proc k.curr_proc t (some id);
      first_program_run = 1;
      irq = flags;
    })

module _ (env : Env) where
  open env use {fs, temp, f_init_data, exec_name, temp_arg, shell, clear, placeholder}

  -- An error of `execute` that is printed.
  unfoldable pub report : (message : List ℕ) → (flags : Bool) → Kernel → Result
  report message flags k =
      elim (printf k.console.active_terminal env.conv_buf env.stack message k.console.screen) [
        | none ↦ wait
        | some s ↦ ret (negsuc 0) (restore flags (set_screen k s))
      ]

  -- `execute` from the search on, for the program `f_name` that is runnable. Arguments of 64 bytes or
  -- more would go over the number, the page and the registers of the new PCB.
  unfoldable pub place :
      (flags : Bool) → (esp ebp : ℕ) → (f_name : Addr) → (entry : ℕ) → Kernel → Result
  place flags esp ebp f_name entry k = elim (find_slot 7 0x80 0 k.curr_proc_id_mask) [
    | none ↦ report (codes "ERROR: Out of runnable program slots!\n") flags k
    | some (id, mask) ↦
        let (base, paging) = init_new_process id k.paging in
        elim (copy_file_to_addr fs (mem k) temp f_name 0x804_8000) [
          | none ↦ wait
          | some (copied, m) ↦ elim (strcpy m (args_addr id) temp_arg) [
            | none ↦ wait
            | some m' ↦
                if not (fits 64 m temp_arg)
                then overruns
                else start_process flags esp ebp id base entry
                    (record (set_mem k m') { curr_proc_id_mask = mask; paging = paging })
          ]
        ]
  ]

  -- The first 32 bytes of the program `f_name`, whose name goes to the local descriptor.
  abbrev pub read_header : Mem → (f_name : Addr) → Option (ℤ × Mem)
  read_header m f_name = elim (strcpy m exec_name f_name) [
    | none ↦ none
    | some m' ↦
        elim (fs_read fs m' temp (record { file_position = 0; file_name = exec_name }) f_init_data
          32) [ none ↦ none | some (n, m'', file) ↦ some (n, m'') ]
  ]

  -- `execute` from `strtok` on.
  unfoldable pub launch : (flags : Bool) → (esp ebp : ℕ) → (command : Addr) → Kernel → Result
  launch flags esp ebp command k = elim (strtok (mem k) placeholder command) [
    | none ↦ wait
    | some (none, m) ↦ fault
    | some (some f_name, m) ↦
        if is_zero (strncmp m f_name clear 5)
        then (let k' = set_mem k m in
            ret (pos 0) (restore flags (set_screen k' (clear_screen k'.console.screen))))
        else if not (fits 32 m f_name)
        then overruns
        else elim (read_header m f_name) [
          | none ↦ wait
          | some (n, m') ↦
              let k' = set_mem k m' in
              if is_minus_one n
              then ret (negsuc 0) (restore flags k')
              else if not (is_runnable m' f_init_data)
              then report (codes "ERROR: Non-Runnable file!\n") flags k'
              else place flags esp ebp f_name (entry_point m' f_init_data) k'
        ]
  ]

  -- `cmd_len` is what the local that is not initialised holds.
  unfoldable pub execute : (cmd_len esp ebp : ℕ) → (command : Addr) → Kernel → Result
  execute cmd_len esp ebp command k =
      if command == 0 then ret (negsuc 0) k else elim (strlen (mem k) command) [
        | none ↦ wait
        | some n ↦
            if n == 0
            then ret (negsuc 0) k
            else elim (args_loop address_space (mem k) temp_arg command false cmd_len 0) [
              | none ↦ wait
              | some none ↦ ret (negsuc 0) k
              | some (some (len, i, m)) ↦
                  let last = (i + 2 ^ 32 - len - 1) % 2 ^ 32 in
                  if leb 64 last
                  then overruns
                  else launch k.irq esp ebp command
                      (set_mem (cli k) (poke m ((temp_arg + last) % 2 ^ 32) 0))
            ]
      ]

  -- The first program of a terminal starts again.
  unfoldable pub restart : (flags : Bool) → Kernel → Result
  restart flags k = elim (read_header (mem k) shell) [
    | none ↦ wait
    | some (n, m) ↦
        let k' = restore flags (set_mem k m) in
        if is_minus_one n then ret (negsuc 0) k' else enters (entry_point m f_init_data) k'
  ]

  -- `close(i)` for the `n` descriptors from `i` on.
  unfoldable pub close_all : (n i : ℕ) → Kernel → Result
  close_all zero i k = ret (pos 0) k
  close_all (suc n) i k = elim (close env (pos i) k) [
    | ret r k' ↦ close_all n (i + 1) k'
    | enters e k' ↦ enters e k'
    | resumes e k' ↦ resumes e k'
    | wait ↦ wait
    | overruns ↦ overruns
    | fault ↦ fault
  ]

  -- The last part of `halt` of the process `p`: back to the PCB `q`, on the stack on which the
  -- `execute` of `p` ran. Its locals are then read from the frame of that `execute`.
  abbrev pub left : (p q : ℕ) → Kernel → Kernel
  left p q k =
      let t = k.curr_active_term in
      record k {
        paging = switch_pd (k.pcbs q).proc_num (k.pcbs q).base k.paging;
        esp0 = stack_addr (k.pcbs q).proc_num;
        curr_proc = put_proc k.curr_proc t (some q);
        prev_proc = put_proc k.prev_proc t (k.pcbs q).prev;
        halt_esp = (k.pcbs p).p_ksp;
        halt_ebp = (k.pcbs p).p_kbp;
        irq = env.stale_flags (k.pcbs p).p_kbp (mem k);
      }

  -- `halt` of the process `p` before it closes its files.
  abbrev pub release : (status p : ℕ) → Kernel → Kernel
  release status p k =
      let k1 = record k {
        g_status = status;
        curr_proc_id_mask = bit_xor k.curr_proc_id_mask (0x80 / 2 ^ (k.pcbs p).proc_num);
      } in
      let k2 =
        set_fd k1 p 0 (record ((k1.pcbs p).fds 0) { operations_pointer = null; flags = 0 }) in
      set_fd k2 p 1 (record ((k2.pcbs p).fds 1) { operations_pointer = null; inode = 0; flags = 0 })

  unfoldable pub halt : (status : ℕ) → Kernel → Result
  halt status k = elim (k.curr_proc k.curr_active_term) [
    | none ↦ fault
    | some p ↦ elim (k.prev_proc k.curr_active_term) [
      | none ↦ restart k.irq (cli k)
      | some q ↦ elim (close_all 6 2 (release status p (cli k))) [
        | ret r k' ↦ resumes k'.g_status (left p q k')
        | enters e k' ↦ enters e k'
        | resumes e k' ↦ resumes e k'
        | wait ↦ wait
        | overruns ↦ overruns
        | fault ↦ fault
      ]
    ]
  ]
