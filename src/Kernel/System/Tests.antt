-- ===== src/Kernel/System/Tests.antt =====
-- A system that boots from an image with one program, and what it comes to.
use gyarad_os.Base.{
  ℕ, ◌-◌, ◌≡◌, refl, Option, none, some, arith, ltb, leb, ◌&&◌, ◌==◌, if◌then◌else◌, List, [], ◌∷◌,
}
use gyarad_os.Base.Int.{pos, ◌-ℤ◌}
use gyarad_os.Machine.Memory.{Mem, load32, store32}
use gyarad_os.Str.{
  address_space, strlen, strlen_loop, strncmp, strncmp_loop, signed8, strcpy, strcpy_loop, strncpy,
  strncpy_loop, strncpy_pad,
}
use gyarad_os.Str.Token.{strtok, strtok_loop}
use gyarad_os.Paging.{Paging, fresh_page, fresh_directory, init_paging, init_new_process}
use gyarad_os.Fs.{
  read_dentry_by_name, find_dentry, name_bytes, copy_dentry, read_data, read_loop, read_pos,
}
use gyarad_os.Fs.Calls.{fs_read, advance, copy_file_to_addr, is_minus_one}
use gyarad_os.Kernel.State.{Kernel, Env}
use gyarad_os.Kernel.Process.{
  execute, args_loop, launch, find_slot, fresh_fds, place, start_process,
}
use gyarad_os.Kernel.Tests.Data.{machine, shell_only}
use gyarad_os.Kernel.Dispatch.{Registers}
use gyarad_os.Kernel.System.{outcome, Fixed, Stack, System}
use gyarad_os.Kernel.Process.Start.{Executed, execute-Executed}

-- The image: the directory entry and the 32 bytes of the program "shell", whose name also stands at
-- 0x40 as a constant, and "clear" at 0x48.
abbrev text_at : List ℕ → ℕ → ℕ
text_at [] i = 0
text_at (c ∷ r) i = if i == 0 then c else text_at r (i - 1)

abbrev shell_text : List ℕ
shell_text = b's' ∷ b'h' ∷ b'e' ∷ b'l' ∷ b'l' ∷ []

abbrev clear_text : List ℕ
clear_text = b'c' ∷ b'l' ∷ b'e' ∷ b'a' ∷ b'r' ∷ []

abbrev magic_text : List ℕ
magic_text = 0x7f ∷ 0x45 ∷ 0x4c ∷ 0x46 ∷ []

abbrev image : Mem
image a =
    if leb 0x40 a && ltb a 0x46
    then text_at shell_text (a - 0x40)
    else if leb 0x48 a && ltb a 0x4e
    then text_at clear_text (a - 0x48)
    else if leb 0x1_0040 a && ltb a 0x1_0046
    then text_at shell_text (a - 0x1_0040)
    else if a == 0x1_0060
    then 2
    else if a == 0x1_1000
    then 32
    else if leb 0x1_2000 a && ltb a 0x1_2004
    then text_at magic_text (a - 0x1_2000)
    else 0

abbrev env : Env
env = record machine {
  fs = record {
    n_dentries = 1;
    n_inodes = 1;
    n_data_blocks = 1;
    dentries = 0x1_0040;
    inodes = 0x1_1000;
    data_blocks = 0x1_2000;
  };
}

abbrev before : Paging
before = record { directory = λ i. fresh_directory; table = fresh_page }

abbrev first : Kernel
first = record shell_only {
  console = record (shell_only.console) {
    screen = record (shell_only.console.screen) { mem = image };
  };
  paging = init_paging 0x403 before;
  curr_proc = λ t. none;
  prev_proc = λ t. none;
  curr_active_term = 0;
  curr_proc_id_mask = 0;
}

-- The process that runs in the active terminal of what is left.
abbrev running : Option Kernel → Option ℕ
running none = none
running (some k) = k.curr_proc k.curr_active_term

abbrev shell_call : Option Kernel
shell_call = outcome (execute env 0 0x7f_ff00 0x7f_ff10 0x40 first)

boots_shell : running shell_call ≡ some 0
unfolding execute strlen strlen_loop address_space args_loop launch strtok strncmp strncmp_loop
    strtok_loop ◌-ℤ◌ signed8 strcpy strcpy_loop fs_read read_dentry_by_name find_dentry name_bytes
    advance copy_file_to_addr is_minus_one copy_dentry read_data read_loop read_pos find_slot
    fresh_fds place start_process load32 store32 init_new_process strncpy strncpy_loop strncpy_pad
boots_shell = refl

-- The shell enters.
execute-Executed_example : Executed first (execute env 0 0x7f_ff00 0x7f_ff10 0x40 first)
execute-Executed_example = execute-Executed env first (omega arith) 0 0x7f_ff00 0x7f_ff10 0x40

found :
    (o : Option Kernel) (p : ℕ)
    → running o ≡ some p
    → (k : Kernel) × (o ≡ some k) × (k.curr_proc k.curr_active_term ≡ some p)
found none p e = absurd (ground (arith, e))
found (some k) p e = (k, refl, e)

abbrev fixed : Fixed
fixed = record {
  env = env;
  patience = 10;
  d_buf = 0x8000;
  sb_cmd = 0;
  conv_buf = 0x200;
  args = λ i. 0;
}

abbrev at_start : System
at_start = record {
  kernel = first;
  keys = record {
    special_key_enabled = 0;
    cntrl_l_on = 0;
    cntrl_r_on = 0;
    caps_on = 0;
    shift_l_on = 0;
    shift_r_on = 0;
    alt_l_on = 0;
    alt_r_on = 0;
  };
  mouse = record { mouse_x = 0; mouse_y = 0; prev_char = 32; flags = 0; mouse_byte_1 = 0 };
  sound = record { channel = 1; mode = 0; status = 0; file = pos 0; fd_b_current = 0x8000 };
}

shell : (k : Kernel) × (shell_call ≡ some k) × (k.curr_proc k.curr_active_term ≡ some 0)
shell = found shell_call 0 boots_shell

abbrev in_shell : System
in_shell = record at_start { kernel = shell.0 }

abbrev stack : Stack
stack = record { cmd_len = 0; esp = 0x7f_ff00; ebp = 0x7f_ff10 }

-- The shell halts.
abbrev halt_call : Registers
halt_call = record { eax = 1; ebx = 0; ecx = 0; edx = 0 }
