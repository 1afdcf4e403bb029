-- ===== src/Kernel/Assembly/User.antt =====
-- `jmp_usr_exec` of kernel/user.S, which starts a program.
use gyarad_os.Base.{
  ℕ, ◌+◌, ◌/◌, ◌%◌, ◌^◌, ◌≡◌, refl, arith, Option, some, List, [], ◌∷◌, ◌∙◌, Bool, true, false,
  if◌then◌else◌, ◌*◌, ◌-◌, ap, sym,
}
use gyarad_os.Kernel.Assembly.{
  Callee, Cpu, SegmentReg, ds, es, fs, gs, Instr, pushl, push_word, pushfl, movl, load_stack, movw,
  clear, sti, cli, iret, ebx, esi, edi, run, resumed, nth, set_segment, interrupt_flag, with_flag,
  without_flag,
}
use gyarad_os.Kernel.Assembly.Wrappers.{at_label}

-- The selectors of include/boot/x86_desc.h.
abbrev pub user_cs : ℕ
user_cs = 0x23

abbrev pub user_ds : ℕ
user_ds = 0x2b

abbrev pub jmp_usr_exec : List Instr
jmp_usr_exec =
    cli
    ∷ clear ebx
    ∷ clear edi
    ∷ clear esi
    ∷ load_stack 1 ebx
    ∷ movl user_cs esi
    ∷ movl user_ds edi
    ∷ movw edi ds
    ∷ movw edi es
    ∷ movw edi fs
    ∷ movw edi gs
    ∷ pushl edi
    ∷ push_word 0x83f_fffc
    ∷ sti
    ∷ pushfl
    ∷ pushl esi
    ∷ pushl ebx
    ∷ iret
    ∷ []

-- The table of x86_desc.S, by the number of the descriptor.
abbrev pub gdt : List ℕ
gdt =
    0 ∷ 0 ∷ 0x00cf_9a00_0000_ffff ∷ 0x00cf_9200_0000_ffff ∷ 0x00cf_fa00_0000_ffff
    ∷ 0x00cf_f200_0000_ffff ∷ 0 ∷ 0 ∷ []

-- The descriptor of a selector.
abbrev pub descriptor : (selector : ℕ) → Option ℕ
descriptor selector = nth (selector / 8) gdt

-- A present segment of all the memory, of the code or of the data of a program.
pub record IsFlat (code : Bool) (d : Option ℕ) : Type 0 where
  pub bits : ℕ
  pub found : d ≡ some bits
  pub base : bits / 2 ^ 56 * 2 ^ 24 + bits / 2 ^ 16 % 2 ^ 24 ≡ 0
  pub limit : bits / 2 ^ 48 % 2 ^ 4 * 2 ^ 16 + bits % 2 ^ 16 ≡ 2 ^ 20 - 1
  -- in pages
  pub granularity : bits / 2 ^ 55 % 2 ≡ 1
  pub present : bits / 2 ^ 47 % 2 ≡ 1
  pub dpl : bits / 2 ^ 45 % 4 ≡ 3
  pub kind : bits / 2 ^ 43 % 2 ≡ (if code then 1 else 0)

-- A program at its entry point, with the kernel's stack as it was.
pub record IsEntered (entry : ℕ) (p p' : Cpu) : Type 0 where
  pub eip : p'.eip ≡ entry
  pub stack : p'.stack ≡ p.stack
  pub esp : p'.outer ≡ some (0x83f_fffc, p'.seg ds)
  pub flag : interrupt_flag p'.eflags ≡ 1
  pub code_level : p'.cs % 4 ≡ 3
  pub program_code : IsFlat true (descriptor p'.cs)
  pub data_level : p'.seg ds % 4 ≡ 3
  pub program_data : IsFlat false (descriptor (p'.seg ds))
  pub segments : (s : SegmentReg) → p'.seg s ≡ p'.seg ds

module _ (body : Callee → Cpu → Cpu) where
  -- The state of the program.
  abbrev entered : ℕ → Cpu → Cpu
  entered entry p = record p {
    b = entry;
    si = user_cs;
    di = user_ds;
    seg =
        (set_segment gs user_ds
          (set_segment fs user_ds (set_segment es user_ds (set_segment ds user_ds p)))).seg;
    eip = entry;
    cs = user_cs;
    eflags = with_flag (without_flag p.eflags);
    outer = some (0x83f_fffc, user_ds);
  }

  user-runs :
      (entry ret : ℕ) (rest : List ℕ) (p : Cpu)
      → run body at_label 18 jmp_usr_exec (record p { stack = ret ∷ entry ∷ rest })
        ≡ some (record (entered entry p) { stack = ret ∷ entry ∷ rest })
  unfolding run resumed
  user-runs entry ret rest p = refl

  code-IsFlat : IsFlat true (descriptor user_cs)
  code-IsFlat = record {
    bits = 0x00cf_fa00_0000_ffff;
    found = refl;
    base = refl;
    limit = refl;
    granularity = refl;
    present = refl;
    dpl = refl;
    kind = refl;
  }

  data-IsFlat : IsFlat false (descriptor user_ds)
  data-IsFlat = record {
    bits = 0x00cf_f200_0000_ffff;
    found = refl;
    base = refl;
    limit = refl;
    granularity = refl;
    present = refl;
    dpl = refl;
    kind = refl;
  }

  entered-segments : (entry : ℕ) (p : Cpu) (s : SegmentReg) → (entered entry p).seg s ≡ user_ds
  entered-segments entry p ds = refl
  entered-segments entry p es = refl
  entered-segments entry p fs = refl
  entered-segments entry p gs = refl

  entered-flag : (n : ℕ) → interrupt_flag (with_flag (without_flag n)) ≡ 1
  entered-flag n = omega arith

  -- The jump to a program's entry point, called in the kernel with the entry point as its argument,
  -- runs to its `iret`. The program then starts at the entry point, at the lowest privilege, on the
  -- stack at the end of its page, with interrupts on; its code and data segments are the table's
  -- segments of all the memory with that privilege, all four data segments are the stack's, and the
  -- kernel's stack is as it was.
  pub jmp_usr_exec-IsEntered :
      (entry ret : ℕ) (rest : List ℕ) (p : Cpu)
      → p.stack ≡ ret ∷ entry ∷ rest
      → (p' : Cpu) × (run body at_label 18 jmp_usr_exec p ≡ some p') × IsEntered entry p p'
  jmp_usr_exec-IsEntered entry ret rest p st = (
    entered entry p,
    ap (λ s. run body at_label 18 jmp_usr_exec (record p { stack = s })) st
        ∙ user-runs entry ret rest p
        ∙ ap (λ s. some (record (entered entry p) { stack = s })) (sym st),
    record {
      eip = refl;
      stack = refl;
      esp = refl;
      flag = entered-flag p.eflags;
      code_level = refl;
      program_code = code-IsFlat;
      data_level = refl;
      program_data = data-IsFlat;
      segments = entered-segments entry p;
    },
  )
