-- ===== src/Kernel/Tests.antt =====
-- The system calls of kernel/syscall.c, and the switch of drivers/pit.c, with a shell in slot 0 and
-- a program that it started in slot 1, on an empty disk.
pub mod Data
use gyarad_os.Base.{
  ◌%◌, ℕ, zero, suc, ◌+◌, ◌-◌, ◌*◌, ◌/◌, ◌≤◌, ◌<◌, ◌≡◌, ◌≢◌, ◌⊎◌, inl, inr, refl, Option, none,
  some, arith, Bool, true, false, bit_and, bit_xor, ◌==◌, if◌then◌else◌,
}
use gyarad_os.Base.Int.{ℤ, pos, negsuc}
use gyarad_os.Machine.Memory.{Mem, blit, ◌≐◌}
use gyarad_os.Str.{strcpy}
use gyarad_os.Str.Copy.{strcpy-blit}
use gyarad_os.Paging.{switch_pd}
use gyarad_os.Kernel.{read, close, open_found, next_term}
use gyarad_os.Kernel.State.{Result, ret, resumes, Kernel, fd_name}
use gyarad_os.Kernel.Calls.{HasTable}
use gyarad_os.Kernel.Open.{Opened, open_found-Opened}
use gyarad_os.Kernel.Process.{execute, halt, find_slot, stack_addr}
use gyarad_os.Kernel.Process.Slots.{Placed, slot_bit, find_slot-Placed}
use gyarad_os.Kernel.Process.Start.{Started, halt-Started}
use gyarad_os.Kernel.Process.Halt.{Halted, halt-Halted}
use gyarad_os.Kernel.Switch.{moves, context_switch, pit_handle_interrupt}
use gyarad_os.Kernel.Switch.Turns.{AllRun, pit_handle_interrupt-turns}
use gyarad_os.Kernel.Switch.Rounds.{Running, context_switch-context_switch}
use gyarad_os.Paging.{init_new_process}
use gyarad_os.Paging.Frames.{translate, frame, IsProcess}
use Data.{
  machine, running, shell_only, running-HasTable, running-Started, name-IsString, two, two-Running,
}

name-copied :
    (i : ℕ) → i ≤ 7 → (m : Mem) × (strcpy running.console.screen.mem (fd_name 1 i) 0x20 ≡ some m)
name-copied i h =
    let (g, e, c) =
      strcpy-blit running.console.screen.mem (fd_name 1 i) 0x20 2 name-IsString (omega arith)
        (omega arith) in
    (g, e)

open_found-Opened_example : Opened machine true running 1 (open_found machine true 2 0 0x20 running)
open_found-Opened_example =
    open_found-Opened machine true 2 0 0x20 running-HasTable (omega arith) refl name-copied

halt-Halted_example :
    (k' : Kernel) × (halt machine 3 running ≡ resumes 3 k') × Halted machine running k' 1 0
halt-Halted_example = halt-Halted machine running 1 0 3 running-HasTable refl (λ e. omega arith)

halt-Started_example :
    (k'' : Kernel) × (halt machine 3 running ≡ resumes 3 k'')
    × ((t : ℕ)
        → (k''.curr_proc t ≡ shell_only.curr_proc t) × (k''.prev_proc t ≡ shell_only.prev_proc t))
    × (k''.curr_proc_id_mask ≡ shell_only.curr_proc_id_mask)
    × ((r : ℕ) → r ≢ 1 → k''.pcbs r ≡ shell_only.pcbs r)
    × (k''.esp0 ≡ stack_addr (shell_only.pcbs 0).proc_num)
halt-Started_example =
    halt-Started machine shell_only (omega arith) 0 1 3 running running-Started refl refl
      (λ e. omega arith)

context_switch-context_switch_example :
    (k1 : Kernel) × (k2 : Kernel) × (context_switch machine 0 0x40 0x70_0000 0x70_0010 0 1 two
      ≡ moves 0x7f_ff00 0x7f_ff10 k1)
    × (k1.curr_active_term ≡ 1)
    × (k1.paging ≡ switch_pd 0 0x800 two.paging)
    × (context_switch machine 0 0x40 0x70_0100 0x70_0110 1 0 k1 ≡ moves 0x70_0000 0x70_0010 k2)
    × (k2.curr_active_term ≡ 0)
    × (k2.paging ≡ switch_pd 1 (two.pcbs 1).base k1.paging)
    × (k2.esp0 ≡ stack_addr 1)
    × (k2.curr_proc ≡ two.curr_proc)
    × (k2.prev_proc ≡ two.prev_proc)
context_switch-context_switch_example =
    context_switch-context_switch machine 0 0x40 two 0x70_0000 0x70_0010 0x70_0100 0x70_0110 0 1 1 0
      two-Running

shell-base : (shell_only.pcbs 0).base ≡ (init_new_process 0 shell_only.paging).0
unfolding init_new_process
shell-base = refl

-- A process in each of the three terminals.
abbrev three : Kernel
three = record running {
  curr_proc = λ t. if t == 0 then some 1 else if t == 1 then some 0 else some 2;
}

three-AllRun : AllRun three 1 0 2
unfolding next_term
three-AllRun = record {
  known = omega arith;
  ran = refl;
  first = refl;
  second = refl;
  third = refl;
  pq = λ e. omega arith;
  qr = λ e. omega arith;
  rp = λ e. omega arith;
}

pit_handle_interrupt-turns_example :
    (k1 : Kernel) × (k2 : Kernel) × (k3 : Kernel) × (pit_handle_interrupt machine 0 0x40 true
        0x70_0000 0x70_0010 three
      ≡ moves (three.pcbs 0).p_sched_ksp (three.pcbs 0).p_sched_kbp k1)
    × (pit_handle_interrupt machine 0 0x40 true 0x70_0100 0x70_0110 k1
        ≡ moves (three.pcbs 2).p_sched_ksp (three.pcbs 2).p_sched_kbp k2)
    × (pit_handle_interrupt machine 0 0x40 true 0x70_0200 0x70_0210 k2
        ≡ moves 0x70_0000 0x70_0010 k3)
    × (k3.curr_active_term ≡ 0)
    × (k3.curr_proc ≡ three.curr_proc)
pit_handle_interrupt-turns_example =
    pit_handle_interrupt-turns machine 0 0x40 three 0x70_0000 0x70_0010 0x70_0100 0x70_0110
      0x70_0200 0x70_0210 1 0 2 three-AllRun
