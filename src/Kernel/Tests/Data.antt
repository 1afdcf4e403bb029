-- ===== src/Kernel/Tests/Data.antt =====
-- A machine with an empty disk, a shell in slot 0 and a program that the shell started in slot 1,
-- whose descriptor 2 is a file.
use gyarad_os.Base.{
  ℕ, ◌≡◌, inr, refl, sym, ap, ◌∙◌, none, some, arith, true, false, [], bit_and, ◌==◌, ◌||◌,
  if◌then◌else◌,
}
use gyarad_os.Base.Int.{pos}
use gyarad_os.Machine.Memory.{Mem, IsString}
use gyarad_os.Paging.{fresh_page, fresh_directory, init_new_process}
use gyarad_os.Console.{Console}
use gyarad_os.Kernel.State.{Env, Kernel, Pcb, Descriptor, stdin_ops, stdout_ops, files_ops}
use gyarad_os.Kernel.Calls.{HasTable}
use gyarad_os.Kernel.Process.{stack_addr}
use gyarad_os.Kernel.Process.Slots.{slot_bit}
use gyarad_os.Kernel.Process.Start.{Started}
use gyarad_os.Kernel.Switch.Rounds.{Running}

abbrev pub machine : Env
machine = record {
  fs = record {
    n_dentries = 0;
    n_inodes = 0;
    n_data_blocks = 0;
    dentries = 0x1_0040;
    inodes = 0x1_1000;
    data_blocks = 0x1_1000;
  };
  dev = λ l port. 0x20;
  floats = record {
    of_int = λ n. 0;
    of_uint = λ n. 0;
    literal = λ m d. 0;
    add = λ a b. 0;
    sub = λ a b. 0;
    mul = λ a b. 0;
    div = λ a b. 0;
    lt_zero = λ a. false;
    ge_zero = λ a. true;
    trunc = λ a. pos 0;
  };
  temp = 0x100;
  f_init_data = 0x140;
  exec_name = 0x180;
  temp_arg = 0x1c0;
  shell = 0x40;
  clear = 0x48;
  placeholder = 0x60;
  conv_buf = 0x200;
  stack = λ i. 0;
  stale_flags = λ ebp m. true;
}

-- The name "ab" stands at 0x20.
abbrev pub bytes : Mem
bytes a = if a == 0x20 then b'a' else if a == 0x21 then b'b' else 0

pub name-IsString : IsString bytes 0x20 2
name-IsString = record { bytes = λ i h. ground arith; stop = refl }

abbrev console : Console
console = record {
  screen = record { mem = bytes; log = []; x = λ t. 0; y = λ t. 0; active = 0; text_color = 2 };
  kb = 0x10_0000;
  num_chars = λ t. 0;
  ready = λ t. 0;
  active_terminal = 0;
  prev_terminal = 0;
}

abbrev shell_table : ℕ → Descriptor
shell_table i = record {
  operations_pointer = if i == 0 then stdin_ops else if i == 1 then stdout_ops else files_ops;
  inode = 0;
  file_position = 0;
  flags = if (i == 0) || (i == 1) then 1 else 0;
}

abbrev program_table : ℕ → Descriptor
program_table i = record {
  operations_pointer = if i == 0 then stdin_ops else if i == 1 then stdout_ops else files_ops;
  inode = 0;
  file_position = 0;
  flags = if (i == 0) || (i == 1) || (i == 2) then 1 else 0;
}

abbrev shell_pcb : Pcb
shell_pcb = record {
  fds = shell_table;
  proc_num = 0;
  base = 0x800;
  p_ksp = 0x7f_ff00;
  p_kbp = 0x7f_ff10;
  p_sched_ksp = 0x7f_ff00;
  p_sched_kbp = 0x7f_ff10;
  prev = none;
}

abbrev pub shell_only : Kernel
shell_only = record {
  console = console;
  paging = record { directory = λ i. fresh_directory; table = fresh_page };
  irq = true;
  intr_occ = false;
  pcbs = λ i. shell_pcb;
  curr_proc = λ t. if t == 0 then some 0 else none;
  prev_proc = λ t. none;
  curr_active_term = 0;
  curr_proc_id_mask = 0x80;
  first_program_run = 1;
  g_status = 0;
  second_term_start = 1;
  third_term_start = 1;
  halt_esp = 0;
  halt_ebp = 0;
  esp0 = stack_addr 0;
}

abbrev pub running : Kernel
running = record shell_only {
  pcbs = λ i.
      if i == 1
      then record shell_pcb {
        fds = program_table;
        proc_num = 1;
        base = (init_new_process 1 shell_only.paging).0;
        prev = some 0;
      }
      else shell_pcb;
  paging = (init_new_process 1 shell_only.paging).1;
  curr_proc = λ t. if t == 0 then some 1 else none;
  prev_proc = λ t. if t == 0 then some 0 else none;
  curr_proc_id_mask = 0xc0;
  halt_esp = 0;
  halt_ebp = 0;
  esp0 = stack_addr 1;
}

pub running-HasTable : HasTable running 1
running-HasTable = record {
  running = refl;
  table = record { input = refl; output = refl; others = λ i lo hi used. inr (inr (ground arith)) };
}

pub running-Started : Started shell_only running 1
running-Started = record {
  has = running-HasTable;
  term = refl;
  prev = refl;
  parent = refl;
  terminals = λ t n. (ground arith, ground arith);
  placed = record {
    slot = omega arith;
    free = refl;
    before = λ l h e.
        (let z : l ≡ 0 = omega arith in
          let w : 0x80 ≡ 0 = ap (λ x. bit_and 0x80 (slot_bit x)) (sym z) ∙ e in omega arith);
    taken = refl;
    given_back = refl;
    small = omega arith;
  };
  number = refl;
  page = refl;
  esp0 = refl;
  others = λ r n. ground arith;
  irq = refl;
  second = refl;
  third = refl;
}

-- Two terminals with a process each.
abbrev pub two : Kernel
two = record running { curr_proc = λ t. if t == 0 then some 1 else some 0 }

pub two-Running : Running two 0 1 1 0
two-Running = record {
  second = refl;
  third = refl;
  first = refl;
  other = refl;
  differ = λ e. omega arith;
}
