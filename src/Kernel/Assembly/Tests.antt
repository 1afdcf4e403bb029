-- ===== src/Kernel/Assembly/Tests.antt =====
-- The wrappers on concrete inputs.
use gyarad_os.Base.{ℕ, ◌+◌, ◌≡◌, refl, Option, none, some, List, [], ◌∷◌, arith, ap, if◌then◌else◌}
use gyarad_os.Kernel.Assembly.{Callee, in_table, Cpu, interrupt, run, resumed}
use gyarad_os.Kernel.Assembly.Wrappers.{at_label, wrapper}
use gyarad_os.Kernel.Assembly.Returns.{IsCdecl, Same, is_table, wrapper-Same}
use gyarad_os.Kernel.Assembly.Syscall.{Returned, syscall_wrapper-Returned}
use gyarad_os.Kernel.Assembly.User.{IsEntered, jmp_usr_exec, jmp_usr_exec-IsEntered}
use gyarad_os.Kernel.Interrupts.Table.{pit_irq, syscall_irq, general_protec_irq}

abbrev answer : Callee → ℕ
answer (in_table n) = n + 100
answer g = 77

abbrev overwritten : List ℕ → List ℕ
overwritten (x ∷ y ∷ z ∷ s) = 8 ∷ 9 ∷ z ∷ s
overwritten s = s

-- A function that changes what it may change.
abbrev busy : Callee → Cpu → Cpu
busy g p = record p {
  a = answer g;
  c = 11;
  d = 12;
  eflags = 0x46;
  eip = 13;
  stack = if is_table g then overwritten p.stack else p.stack;
}

busy-IsCdecl : IsCdecl busy
busy-IsCdecl = record {
  preserves = λ g p. record { b = refl; si = refl; di = refl; bp = refl; seg = refl };
  stack = λ g p e. ap (λ t. if t then overwritten p.stack else p.stack) e;
  table = λ n x y z rest p e. (8, 9, z, ap overwritten e);
}

-- A program at 0x8048000 that calls `read` on descriptor 0.
abbrev program : Cpu
program = record {
  a = 3;
  b = 0;
  c = 0x830_0000;
  d = 5;
  si = 6;
  di = 7;
  bp = 0x83f_ff00;
  seg = λ s. 0x2b;
  eflags = 0x246;
  eip = 0x804_8000;
  cs = 0x23;
  stack = [];
  outer = some (0x83f_fef0, 0x2b);
  left = 1;
  right = 2;
}

abbrev other : Cpu
other = record program { stack = 5 ∷ 0x804_8000 ∷ [] }

wrapper-Same_example :
    (p' : Cpu) × (run busy at_label 8 (wrapper pit_irq) (interrupt none program) ≡ some p')
    × Same program p'
    × (p'.a ≡ 3)
wrapper-Same_example = wrapper-Same busy busy-IsCdecl pit_irq program (λ e. absurd (cc e)) refl

syscall_wrapper-Returned_example :
    (p' : Cpu) × (run busy at_label 24 (wrapper syscall_irq) (interrupt none program) ≡ some p')
    × Same program p'
    × Returned busy busy-IsCdecl program p'
syscall_wrapper-Returned_example =
    syscall_wrapper-Returned busy busy-IsCdecl program (omega arith) refl

jmp_usr_exec-IsEntered_example :
    (p' : Cpu) × (run busy at_label 18 jmp_usr_exec other ≡ some p') × IsEntered 0x804_8000 other p'
jmp_usr_exec-IsEntered_example = jmp_usr_exec-IsEntered busy 0x804_8000 5 [] other refl

abbrev place : Option Cpu → Option ℕ
place none = none
place (some p) = some p.eip

-- With an error code, a wrapper whose function comes back takes the code for the address to go on at.
error-resumed :
    place (run busy at_label 8 (wrapper general_protec_irq) (interrupt (some 24) program)) ≡ some 24
unfolding run resumed
error-resumed = refl
