-- ===== src/Kernel/State.antt =====
-- The state of the kernel, and how its parts are reached.
use gyarad_os.Base.{
  ℕ, zero, suc, ◌||◌, ◌+◌, ◌-◌, ◌*◌, ◌^◌, Bool, false, Option, ltb, ◌==◌, if◌then◌else◌,
}
use gyarad_os.Base.Int.{ℤ, pos, negsuc}
use gyarad_os.Machine.Memory.{Addr, Mem}
use gyarad_os.Machine.Bus.{Log, Device}
use gyarad_os.Fs.{Fs}
use gyarad_os.Drivers.Rtc.{Floats}
use gyarad_os.Paging.{Paging}
use gyarad_os.Screen.{Screen}
use gyarad_os.Console.{Console}

-- What `operations_pointer` points at: NULL, or one of the five tables of syscall.c.
pub data Ops : Type 0 where
  null stdin_ops stdout_ops rtc_ops dir_ops files_ops : Ops

-- `file_array` without its name.
pub record Descriptor : Type 0 where
  pub operations_pointer : Ops
  pub inode : Addr
  pub file_position : ℕ
  pub flags : ℕ

-- `pcb_t` without `args`, and without the fields that nothing reads (`ksp`, `kbp`, `proc_name`).
pub record Pcb : Type 0 where
  pub fds : ℕ → Descriptor
  pub proc_num : ℕ
  pub base : ℕ
  pub p_ksp : ℕ
  pub p_kbp : ℕ
  pub p_sched_ksp : ℕ
  pub p_sched_kbp : ℕ
  pub prev : Option ℕ

pub record Kernel : Type 0 where
  pub console : Console
  pub paging : Paging
  -- the interrupt flag of the processor
  pub irq : Bool
  -- `intr_occ` of rtc.c
  pub intr_occ : Bool
  pub pcbs : ℕ → Pcb
  -- `curr_proc` and `prev_proc`, by terminal
  pub curr_proc : ℕ → Option ℕ
  pub prev_proc : ℕ → Option ℕ
  pub curr_active_term : ℕ
  pub curr_proc_id_mask : ℕ
  pub first_program_run : ℕ
  pub g_status : ℕ
  -- of keyboard.c: whether the second and the third terminal have had their shell
  pub second_term_start : ℕ
  pub third_term_start : ℕ
  -- the stack registers that the last `halt` took from the PCB of its process
  pub halt_esp : ℕ
  pub halt_ebp : ℕ
  -- `tss.esp0`
  pub esp0 : ℕ

-- What does not change while the kernel runs: the file system's tables, the devices, the machine's
-- floats, and the addresses of the locals and of the string constants that have one.
pub record Env : Type 0 where
  pub fs : Fs
  pub dev : Device
  pub floats : Floats
  -- `dentry_t temp`, `temp_dentry` and `file_info`
  pub temp : Addr
  -- `f_init_data[32]`, `exec_read.file_name[32]` and `temp_arg[64]` of `execute` and `halt`
  pub f_init_data : Addr
  pub exec_name : Addr
  pub temp_arg : Addr
  -- "shell", "clear", and the constant that `strtok` writes to
  pub shell : Addr
  pub clear : Addr
  pub placeholder : Addr
  -- `printf` in a system call: the local `conv_buf`, and the stack above the format
  pub conv_buf : Addr
  pub stack : ℕ → ℕ
  -- the flag that the place of the local `flags` of `halt` holds when `ebp` is that of an `execute`;
  -- where a local stands is the compiler's choice
  pub stale_flags : (ebp : ℕ) → Mem → Bool

-- How a call ends: it returns; it enters a program at its entry point; it leaves through the end of
-- the `execute` that started the program; it waits in a loop that an interrupt has to end, or for
-- ever; it goes through a null pointer. When it `overruns`, it writes past an array, or to an address
-- in the kernel's page that a program chose, and so over numbers that the model does not keep in
-- memory: what the code then does is not modelled.
pub data Result : Type 0 where
  ret : ℤ → Kernel → Result
  enters : ℕ → Kernel → Result
  resumes : ℕ → Kernel → Result
  wait : Result
  overruns : Result
  fault : Result

abbrev pub mem : Kernel → Mem
mem k = k.console.screen.mem

abbrev pub set_screen : Kernel → Screen → Kernel
set_screen k s = record k { console = record (k.console) { screen = s } }

abbrev pub set_mem : Kernel → Mem → Kernel
set_mem k m = set_screen k (record (k.console.screen) { mem = m })

abbrev pub log : Kernel → Log
log k = k.console.screen.log

abbrev pub set_log : Kernel → Log → Kernel
set_log k l = set_screen k (record (k.console.screen) { log = l })

-- `cli_and_save(flags)` and `restore_flags(flags)`, for the flag that they are used for.
abbrev pub cli : Kernel → Kernel
cli k = record k { irq = false }

abbrev pub restore : Bool → Kernel → Kernel
restore flags k = record k { irq = flags }

-- `_8MB - _8KB * (n + 1)`.
abbrev pub pcb_addr : ℕ → Addr
pcb_addr n = 0x80_0000 - 0x2000 * (n + 1)

-- `fds[i].file_name`: a `file_array` has 48 bytes, the name from the 16th on.
abbrev pub fd_name : (p i : ℕ) → Addr
fd_name p i = pcb_addr p + 48 * i + 16

abbrev pub args_addr : ℕ → Addr
args_addr p = pcb_addr p + 384

abbrev pub set_pcb : Kernel → ℕ → Pcb → Kernel
set_pcb k p b = record k { pcbs = λ q. if q == p then b else k.pcbs q }

abbrev pub set_fd : Kernel → (p i : ℕ) → Descriptor → Kernel
set_fd k p i d =
    set_pcb k p (record (k.pcbs p) { fds = λ j. if j == i then d else (k.pcbs p).fds j })

-- Whether the string at `a`, with its NUL, has at most `n` bytes.
abbrev pub fits : ℕ → Mem → Addr → Bool
fits zero m a = false
fits (suc n) m a = m a == 0 || fits n m (a + 1)

-- An `int32_t` as `uint32_t`, and back.
abbrev pub as_uint : ℤ → ℕ
as_uint (pos n) = n
as_uint (negsuc n) = 2 ^ 32 - 1 - n

abbrev pub as_int : ℕ → ℤ
as_int w = if ltb w (2 ^ 31) then pos w else negsuc (2 ^ 32 - 1 - w)
