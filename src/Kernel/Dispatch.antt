-- ===== src/Kernel/Dispatch.antt =====
-- `syscall_irq` of kernel/irq.S, the entry of every system call, with its jump table.
use gyarad_os.Base.{
  ℕ, ◌%◌, ◌≡◌, ◌≢◌, Bool, true, false, arith, ltb, ◌||◌, ◌&&◌, ◌+◌, ◌==◌, if◌then◌else◌, Bool-cases,
  inl, inr,
}
use gyarad_os.Base.Int.{ℤ, pos, negsuc}
use gyarad_os.Machine.Memory.{Addr, store32}
use gyarad_os.Str.{strncpy}
use gyarad_os.Kernel.{read, write, close, open_file, getargs, vidmap}
use gyarad_os.Kernel.State.{
  Kernel, Env, Result, ret, enters, resumes, wait, overruns, fault, restore, as_int, mem, set_mem,
  args_addr,
}
use gyarad_os.Kernel.Calls.{
  HasTable, HasTable-Quiet, Served, Served-Settles, Settles-if, read-Settles, write-Settles,
}
use gyarad_os.Kernel.Open.{close-Settles}
use gyarad_os.Kernel.Open.Known.{open_file-Settles, IsKnown}
use gyarad_os.Kernel.System.Family.{quiet, Quiet-∙, Settles, Settles-∙}
use gyarad_os.Kernel.Process.{halt, execute}

-- Signals are not handled.
abbrev pub set_handler : (signum : ℤ) → (handler_address : Addr) → Kernel → Result
set_handler signum handler_address k = ret (pos 0) k

abbrev pub sigreturn : Kernel → Result
sigreturn k = ret (pos 0) k

-- The registers that carry a call's number and its arguments.
pub record Registers : Type 0 where
  pub eax : ℕ
  pub ebx : ℕ
  pub ecx : ℕ
  pub edx : ℕ

-- `iret` of a call that comes back, to a program with interrupt flag `flags`. The `iret` of a call
-- that leaves through an `execute` is the one of that `execute`.
abbrev pub iret : (flags : Bool) → Result → Result
iret flags (ret n k) = ret n (restore flags k)
iret flags (enters e k) = enters e k
iret flags (resumes s k) = resumes s k
iret flags wait = wait
iret flags overruns = overruns
iret flags fault = fault

-- The code does not check where a buffer lies. In the kernel's page, from 4 to 8 MB, it is over the
-- PCBs and the page tables.
abbrev pub in_kernel_page : (buf : Addr) → (n : ℕ) → Bool
in_kernel_page buf n = ltb buf 0x80_0000 && ltb 0x40_0000 (buf + n)

abbrev pub user_buffer : (buf : Addr) → (n : ℕ) → Result → Result
user_buffer buf n r = if in_kernel_page buf n then overruns else r

module _ (env : Env) where
  -- The call with the number in `eax`, from 1 to 10. `execute` also reads the registers of the stack
  -- and a local that is not initialised.
  unfoldable pub syscall_jumptable : (cmd_len esp ebp : ℕ) → Registers → Kernel → Result
  syscall_jumptable cmd_len esp ebp r k =
      if r.eax == 1
      then halt env (r.ebx % 256) k
      else if r.eax == 2
      then execute env cmd_len esp ebp r.ebx k
      else if r.eax == 3
      then user_buffer r.ecx (r.edx + 1) (read env (as_int r.ebx) r.ecx (as_int r.edx) k)
      else if r.eax == 4
      then write env (as_int r.ebx) r.ecx (as_int r.edx) k
      else if r.eax == 5
      then open_file env r.ebx k
      else if r.eax == 6
      then close env (as_int r.ebx) k
      else if r.eax == 7
      then user_buffer r.ebx r.ecx (getargs env r.ebx (as_int r.ecx) k)
      else if r.eax == 8
      then vidmap r.ebx k
      else if r.eax == 9
      then set_handler (as_int r.ebx) r.ecx k
      else sigreturn k

  -- The number is compared as a signed one, and a negative number is above 10 without the sign.
  unfoldable pub syscall_irq : (flags : Bool) → (cmd_len esp ebp : ℕ) → Registers → Kernel → Result
  syscall_irq flags cmd_len esp ebp r k =
      if ltb r.eax 1 || ltb 10 r.eax
      then iret flags (ret (negsuc 0) k)
      else iret flags (syscall_jumptable cmd_len esp ebp r (record k { irq = true }))

  iret-Settles : (k : Kernel) (flags : Bool) (r : Result) → Settles k r → Settles k (iret flags r)
  iret-Settles k flags (ret n k') q = Quiet-∙ q (quiet k' k'.console flags k'.intr_occ)
  iret-Settles k flags (enters e k') q = absurd q
  iret-Settles k flags (resumes s k') q = absurd q
  iret-Settles k flags wait q = tt
  iret-Settles k flags overruns q = tt
  iret-Settles k flags fault q = absurd q

  pub vidmap-Settles : (k : Kernel) (screen_start : Addr) → Settles k (vidmap screen_start k)
  unfolding vidmap
  vidmap-Settles k screen_start =
      elim (Bool-cases (ltb screen_start 0x0800_0000 || ltb 0x0840_0000 screen_start)) [
        | inl e ↦ rw (Settles, e) (quiet k k.console false k.intr_occ)
        | inr e ↦
            let m = store32 (mem k) screen_start 0xb8000 in
            rw (Settles, e) (quiet k (set_mem k m).console k.irq k.intr_occ)
      ]

  module _ {k : Kernel} {p : ℕ} (has : HasTable k p) where
    getargs-Settles : (buf : Addr) (nbytes : ℤ) → Settles k (getargs env buf nbytes k)
    unfolding getargs
    getargs-Settles buf (negsuc n) = quiet k k.console false k.intr_occ
    getargs-Settles buf (pos n) = elim (Bool-cases (buf == 0)) [
      | inl e ↦ rw (Settles, e) (quiet k k.console false k.intr_occ)
      | inr e ↦
          let m = strncpy (mem k) buf (args_addr p) n in
          rw (Settles, e, has.running) (quiet k (set_mem k m).console k.irq k.intr_occ)
    ]

    pub syscall_jumptable-Settles :
        (cmd_len esp ebp : ℕ) (r : Registers)
        → r.eax ≢ 1
        → r.eax ≢ 2
        → (r.eax ≡ 5 → IsKnown env k r.ebx)
        → Settles k (syscall_jumptable cmd_len esp ebp r k)
    unfolding syscall_jumptable
    syscall_jumptable-Settles cmd_len esp ebp r halts executes opens =
        let e1 : (r.eax == 1) ≡ false = ground arith in
        let e2 : (r.eax == 2) ≡ false = ground arith in
        rw (e1, e2)
          (Settles-if env has (r.eax == 3)
            (user_buffer r.ecx (r.edx + 1) (read env (as_int r.ebx) r.ecx (as_int r.edx) k)) _
            (Settles-if env has (in_kernel_page r.ecx (r.edx + 1)) overruns _ tt
              (λ e. read-Settles env has (as_int r.ebx) r.ecx (as_int r.edx)))
            (λ e.
              Settles-if env has (r.eax == 4) (write env (as_int r.ebx) r.ecx (as_int r.edx) k) _
                (write-Settles env has (as_int r.ebx) r.ecx (as_int r.edx))
                (λ e. elim (Bool-cases (r.eax == 5)) [
                  | inl five ↦ rw five (open_file-Settles env has r.ebx (opens (ground arith)))
                  | inr not_five ↦ rw not_five (after_open cmd_len esp ebp r)
                ])))
      where
        after_open :
            (cmd_len esp ebp : ℕ) (r : Registers)
            → Settles k (
                if r.eax == 6
                then close env (as_int r.ebx) k
                else if r.eax == 7
                then user_buffer r.ebx r.ecx (getargs env r.ebx (as_int r.ecx) k)
                else if r.eax == 8
                then vidmap r.ebx k
                else if r.eax == 9
                then set_handler (as_int r.ebx) r.ecx k
                else sigreturn k)
        after_open cmd_len esp ebp r =
            Settles-if env has (r.eax == 6) (close env (as_int r.ebx) k) _
              (close-Settles env has (as_int r.ebx))
              (λ e.
                Settles-if env has (r.eax == 7)
                  (user_buffer r.ebx r.ecx (getargs env r.ebx (as_int r.ecx) k)) _
                  (Settles-if env has (in_kernel_page r.ebx r.ecx) overruns _ tt
                    (λ e. getargs-Settles r.ebx (as_int r.ecx)))
                  (λ e.
                    Settles-if env has (r.eax == 8) (vidmap r.ebx k) _ (vidmap-Settles k r.ebx)
                      (λ e.
                        Settles-if env has (r.eax == 9) (set_handler (as_int r.ebx) r.ecx k) _
                          (quiet k k.console k.irq k.intr_occ)
                          (λ e. quiet k k.console k.irq k.intr_occ))))

  pub syscall_irq-Settles :
      {k : Kernel} {p : ℕ}
      → HasTable k p
      → (flags : Bool) (cmd_len esp ebp : ℕ) (r : Registers) → r.eax ≢ 1
      → r.eax ≢ 2
      → (r.eax ≡ 5 → IsKnown env k r.ebx)
      → Settles k (syscall_irq flags cmd_len esp ebp r k)
  unfolding syscall_irq
  syscall_irq-Settles {k} {p} has flags cmd_len esp ebp r halts executes opens =
      let on = quiet k k.console true k.intr_occ in
      Settles-if env has (ltb r.eax 1 || ltb 10 r.eax) (iret flags (ret (negsuc 0) k)) _
        (quiet k k.console flags k.intr_occ)
        (λ e. Settles-∙ on _ (
          iret-Settles _ flags _ (
            syscall_jumptable-Settles (HasTable-Quiet has on) cmd_len esp ebp r halts executes
              opens)))

  -- A system call with any registers by a process with a well-formed table, with any number but
  -- those of `halt` and `execute`, goes through no null pointer, and leaves the table well formed
  -- when it comes back. A file that is opened has one of the three types. A number that is no system
  -- call's is one of these.
  pub syscall_irq-Served :
      {k : Kernel} {p : ℕ}
      → HasTable k p
      → (flags : Bool) (cmd_len esp ebp : ℕ) (r : Registers) → r.eax ≢ 1
      → r.eax ≢ 2
      → (r.eax ≡ 5 → IsKnown env k r.ebx)
      → Served p (syscall_irq flags cmd_len esp ebp r k)
  syscall_irq-Served has flags cmd_len esp ebp r halts executes opens =
      Served-Settles _ has (syscall_irq-Settles has flags cmd_len esp ebp r halts executes opens)
