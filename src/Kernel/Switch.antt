-- ===== src/Kernel/Switch.antt =====
-- `context_switch` of drivers/pit.c: the keyboard changes the terminal whose process runs.
-- `pit_handle_interrupt` lets the terminals take turns, if SCHED_ENABLED is set.
pub mod Rounds
pub mod Turns
use gyarad_os.Base.{
  ℕ, zero, ◌/◌, ◌^◌, Bool, true, false, ◌&&◌, ◌||◌, not, Option, none, some, ◌==◌, if◌then◌else◌,
}
use gyarad_os.Machine.Memory.{Addr}
use gyarad_os.Machine.Bus.{Log, outbs}
use gyarad_os.Base.{List, [], ◌∷◌, bit_and}
use gyarad_os.Paging.{switch_pd}
use gyarad_os.Screen.Pages.{update_screen}
use gyarad_os.Kernel.{next_term}
use gyarad_os.Drivers.Pic.{send_eoi}
use gyarad_os.Kernel.State.{Pcb, Kernel, Env, Result, set_pcb, log, set_log}
use gyarad_os.Kernel.Process.{execute, stack_addr}

-- How a switch ends: on the stack it came with; in the call of `execute` that starts a shell; on
-- the stack of another process, with its registers; or through a null pointer.
pub data Switched : Type 0 where
  stays : Kernel → Switched
  starts : Result → Switched
  moves : (esp ebp : ℕ) → Kernel → Switched
  breaks : Switched

unfoldable pub calc_divider : (msec : ℕ) → ℕ
calc_divider msec = 1193180 / msec

unfoldable pub pit_init : Log → Log
pit_init l =
    let divider = calc_divider 30 in
    outbs ((0x36, 0x43) ∷ (bit_and divider 0xff, 0x40) ∷ (divider / 2 ^ 8, 0x40) ∷ []) l

-- `p_sched_ksp` and `p_sched_kbp` of process `p`.
abbrev pub save_stack : (esp ebp p : ℕ) → Kernel → Kernel
save_stack esp ebp p k = set_pcb k p (record (k.pcbs p) { p_sched_ksp = esp; p_sched_kbp = ebp })

-- The kernel past the switch from process `p` to process `q`, which runs in the terminal `next`.
abbrev pub moved : (esp ebp : ℕ) → (p q next : ℕ) → Kernel → Kernel
moved esp ebp p q next k =
    let k1 = save_stack esp ebp p k in
    record k1 {
      curr_active_term = next;
      paging = switch_pd (k1.pcbs q).proc_num (k1.pcbs q).base k1.paging;
      esp0 = stack_addr (k1.pcbs q).proc_num;
    }

unfoldable pub change_process : (esp ebp : ℕ) → (p q next : ℕ) → Kernel → Switched
change_process esp ebp p q next k =
    let b = (save_stack esp ebp p k).pcbs q in
    moves b.p_sched_ksp b.p_sched_kbp (moved esp ebp p q next k)

module _ (env : Env) (cmd_len : ℕ) (shell : Addr) where
  -- A terminal's first shell, in front of the process of the one that is left.
  unfoldable pub start_shell : (esp ebp : ℕ) → Option ℕ → Kernel → Switched
  start_shell esp ebp none k = breaks
  start_shell esp ebp (some p) k =
      starts (execute env cmd_len esp ebp shell (save_stack esp ebp p k))

  -- `shell` is the address of the constant, and `cmd_len` what the local of `execute` holds.
  unfoldable pub context_switch : (esp ebp : ℕ) → (curr next : ℕ) → Kernel → Switched
  context_switch esp ebp curr next k =
      if next == 1 && k.second_term_start == 0
      then start_shell esp ebp (k.curr_proc curr)
          (record k { curr_active_term = 1; second_term_start = 1 })
      else if next == 2 && k.third_term_start == 0
      then start_shell esp ebp (k.curr_proc curr)
          (record k { curr_active_term = 2; third_term_start = 1 })
      else elim (k.curr_proc curr) [
        | none ↦ stays k
        | some p ↦ elim (k.curr_proc next) [
          | none ↦ stays k
          | some q ↦ change_process esp ebp p q next k
        ]
      ]

  -- The next terminal has no process yet: it is shown, and gets a shell.
  abbrev pub first_shell : (esp ebp : ℕ) → (p curr next : ℕ) → Kernel → Switched
  first_shell esp ebp p curr next k =
      let c = k.console in
      let shown = record c { active_terminal = next; screen = update_screen next curr c.screen } in
      starts (
        execute env cmd_len esp ebp shell
          (save_stack esp ebp p (record k { console = shown; curr_active_term = next })))

  -- `sched_enabled` is SCHED_ENABLED, which is 0 in include/lib/lib.h.
  unfoldable pub pit_handle_interrupt : (sched_enabled : Bool) → (esp ebp : ℕ) → Kernel → Switched
  pit_handle_interrupt sched_enabled esp ebp k =
      let k' = set_log k (send_eoi 0 (log k)) in
      let curr = k.curr_active_term in
      let next = next_term curr in
      if not sched_enabled || k.first_program_run == 0
      then stays k'
      else if curr == next
      then stays k'
      else elim (k.curr_proc curr) [
        | none ↦ stays k'
        | some p ↦ elim (k.curr_proc next) [
          | none ↦ first_shell esp ebp p curr next k'
          | some q ↦ change_process esp ebp p q next k'
        ]
      ]
