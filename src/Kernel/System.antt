-- ===== src/Kernel/System.antt =====
-- The kernel as a whole, from one event to the next: a program runs, makes a system call or a fault,
-- or a device interrupts it.
pub mod Slots
pub mod Family
pub mod Stacks
pub mod Programs
pub mod Parents
pub mod Memory
pub mod Idle
pub mod Calls
pub mod Devices
pub mod Terminals
pub mod Keypress
pub mod Card
pub mod Invariant
pub mod Isolation
mod Tests
use gyarad_os.Base.{ℕ, Bool, false, ◌≡◌, Option, none, some}
use gyarad_os.Machine.Memory.{Addr, Mem}
use gyarad_os.Machine.Bus.{Log}
use gyarad_os.Screen.{Screen}
use gyarad_os.Paging.{Paging}
use gyarad_os.Drivers.Rtc.{rtc_handle_interrupt}
use gyarad_os.Drivers.Mouse.{Mouse, mouse_handle_interrupt}
use gyarad_os.Kernel.State.{
  Kernel, Env, Result, ret, enters, resumes, wait, overruns, fault, log, set_log, set_mem,
  set_screen,
}
use gyarad_os.Kernel.Open.Known.{IsKnown}
use gyarad_os.Kernel.Dispatch.{Registers, syscall_irq}
use gyarad_os.Kernel.Process.{execute}
use gyarad_os.Kernel.Switch.{Switched, stays, starts, moves, breaks, pit_handle_interrupt}
use gyarad_os.Kernel.Keyboard.{Keys, Pressed, done, leaves, stuck, handle_keypress}
use gyarad_os.Kernel.Sound.{Sound, Played, ends, sound_balster_irq_handler}
use gyarad_os.Kernel.Sound
use gyarad_os.Kernel.Interrupts.{general_interrupt}
use gyarad_os.Kernel.Interrupts.Table.{Stub}
use gyarad_os.Kernel.Interrupts.Faults.{serve}

-- The kernel with the drivers that keep a state of their own.
pub record System : Type 0 where
  pub kernel : Kernel
  pub keys : Keys
  pub mouse : Mouse
  pub sound : Sound

-- The kernel that a program or the kernel itself goes on with; none after a wait for ever or a null
-- pointer.
abbrev pub outcome : Result → Option Kernel
outcome (ret n k) = some k
outcome (enters e k) = some k
outcome (resumes s k) = some k
outcome wait = none
outcome overruns = none
outcome fault = none

abbrev pub switched : Switched → Option Kernel
switched (stays k) = some k
switched (starts r) = outcome r
switched (moves esp ebp k) = some k
switched breaks = none

abbrev pub with_keys : Keys → Option Kernel → Option (Keys × Kernel)
with_keys s none = none
with_keys s (some k) = some (s, k)

abbrev pub pressed : Pressed → Option (Keys × Kernel)
pressed (done s k) = some (s, k)
pressed (leaves s w) = with_keys s (switched w)
pressed stuck = none

abbrev pub played : Played → Option (Sound × Kernel)
played (Sound.done sb k) = some (sb, k)
played (ends r) = none

-- What does not change while the system runs: the waits of the drivers, and the addresses of buffers,
-- locals and strings.
pub record Fixed : Type 0 where
  pub env : Env
  pub patience : ℕ
  pub d_buf : Addr
  pub sb_cmd : ℕ
  pub conv_buf : Addr
  pub args : ℕ → ℕ

-- The registers of the kernel's stack, and what `cmd_len` of `execute` holds.
pub record Stack : Type 0 where
  pub cmd_len : ℕ
  pub esp : ℕ
  pub ebp : ℕ

module _ (fixed : Fixed) where
  open fixed use {env, patience, d_buf, sb_cmd, conv_buf, args}

  -- One event. A program that opens a file finds it with one of the three types.
  pub data Step (s : System) : System → Type 0 where
    -- the end of `entry`
    boots :
        (at : Stack) (k : Kernel)
        → outcome (execute env at.cmd_len at.esp at.ebp env.shell s.kernel) ≡ some k
        → Step s (record s { kernel = k })
    -- a program writes to memory, and has interrupts on or off
    runs :
        (m : Mem) (irq : Bool)
        → Step s (record s { kernel = record (set_mem s.kernel m) { irq = irq } })
    calls :
        (at : Stack) (flags : Bool) (r : Registers) (k : Kernel)
        → (r.eax ≡ 5 → IsKnown env s.kernel r.ebx)
        → outcome (syscall_irq env flags at.cmd_len at.esp at.ebp r s.kernel) ≡ some k
        → Step s (record s { kernel = k })
    faults :
        (stub : Stub) (fault_addr : ℕ) (r : Result) (k : Kernel)
        → serve env conv_buf args fault_addr stub s.kernel ≡ some r
        → outcome r ≡ some k
        → Step s (record s { kernel = k })
    general :
        (k : Kernel)
        → general_interrupt env conv_buf args s.kernel ≡ some k
        → Step s (record s { kernel = k })
    -- with SCHED_ENABLED as include/lib/lib.h has it
    timer :
        (at : Stack) (k : Kernel)
        → switched (pit_handle_interrupt env at.cmd_len env.shell false at.esp at.ebp s.kernel)
          ≡ some k
        → Step s (record s { kernel = k })
    keyboard :
        (at : Stack) (keys : Keys) (k : Kernel)
        → pressed (handle_keypress env patience at.cmd_len env.shell at.esp at.ebp s.keys s.kernel)
          ≡ some (keys, k)
        → Step s (record s { keys = keys; kernel = k })
    clock :
        (mode : Log → Log) (occ : Bool) (l : Log)
        → rtc_handle_interrupt env.dev mode (log s.kernel) ≡ (occ, l)
        → Step s (record s { kernel = record (set_log s.kernel l) { intr_occ = occ } })
    mouse :
        (mouse' : Mouse) (screen : Screen)
        → mouse_handle_interrupt env.dev s.mouse s.kernel.console.screen ≡ (mouse', screen)
        → Step s (record s { mouse = mouse'; kernel = set_screen s.kernel screen })
    sound :
        (sb : Sound) (k : Kernel)
        → played (sound_balster_irq_handler env patience d_buf sb_cmd s.sound s.kernel)
          ≡ some (sb, k)
        → Step s (record s { sound = sb; kernel = k })

-- No process runs, no slot is taken, and the page directory is `rest`.
pub record IsFresh (rest : Paging) (k : Kernel) : Type 0 where
  pub mask : k.curr_proc_id_mask ≡ 0
  pub idle : (t : ℕ) → k.curr_proc t ≡ none
  pub term : k.curr_active_term ≡ 0
  pub paging : k.paging ≡ rest

-- The states that the system comes to from a fresh one.
pub data Reaches (fixed : Fixed) (rest : Paging) : System → Type 0 where
  fresh : (s : System) → IsFresh rest s.kernel → Reaches fixed rest s
  next : (s s' : System) → Reaches fixed rest s → Step fixed s s' → Reaches fixed rest s'
