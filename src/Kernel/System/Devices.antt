-- ===== src/Kernel/System/Devices.antt =====
-- Faults and interrupts without a handler keep the system consistent.
use gyarad_os.Base.{
  ℕ, Option, none, some, Bool, false, List, ◌==◌, if◌then◌else◌, Option-cases, inl, inr, codes,
}
use mathlib.Core.Path.{subst}
use gyarad_os.Machine.Memory.{Addr}
use gyarad_os.Drivers.Pic.{send_eoi}
use gyarad_os.Console.{Console}
use gyarad_os.Paging.{Paging}
use gyarad_os.Screen.Printf.{printf}
use gyarad_os.Kernel.State.{
  Kernel, Env, Result, ret, enters, resumes, wait, overruns, fault, log, set_log, set_screen, cli,
}
use gyarad_os.Kernel.Interrupts.{
  print, then_restore, halt_fault, exception, page_fault_except, general_interrupt,
}
use gyarad_os.Kernel.System.{outcome}
use gyarad_os.Kernel.System.Family.{quiet}
use gyarad_os.Kernel.System.Stacks.{Stacks}
use gyarad_os.Kernel.System.Memory.{IsConsistent, IsConsistent-Quiet}
use gyarad_os.Kernel.System.Calls.{Within, halt-IsConsistent}

pub shown-IsConsistent :
    {rest : Paging} {from : Stacks} {k : Kernel}
    → IsConsistent rest from k
    → (c : Console) (irq occ : Bool)
    → IsConsistent rest from (record k { console = c; irq = irq; intr_occ = occ })
shown-IsConsistent {k} is c irq occ = IsConsistent-Quiet is (quiet k c irq occ)

module _ (rest : Paging) (from : Stacks) (env : Env) where
  print-IsConsistent :
      {k : Kernel}
      → IsConsistent rest from k
      → (conv_buf : Addr) (args : ℕ → ℕ) (format : List ℕ)
      → Within (IsConsistent rest from) (print conv_buf args format k)
  unfolding print
  print-IsConsistent {k} is conv_buf args format =
      elim (Option-cases (printf k.console.active_terminal conv_buf args format k.console.screen)) [
        | inl e ↦ rw (Within, e) tt
        | inr (s, e) ↦
            rw (Within, e) (shown-IsConsistent is (set_screen k s).console k.irq k.intr_occ)
      ]

  module _ (conv_buf : Addr) (args : ℕ → ℕ) where
    then-IsConsistent :
        (o : Option Kernel) (f : Kernel → Result)
        → Within (IsConsistent rest from) o
        → ((k : Kernel)
            → IsConsistent rest from k
            → Within (IsConsistent rest from) (outcome (f k)))
        → Within (IsConsistent rest from) (outcome (elim o [ none ↦ wait | some k' ↦ f k' ]))
    then-IsConsistent none f is g = tt
    then-IsConsistent (some k) f is g = g k is

    restored :
        (flags : Bool) (r : Result)
        → Within (IsConsistent rest from) (outcome r)
        → Within (IsConsistent rest from) (outcome (then_restore flags r))
    restored flags (ret n k) is = shown-IsConsistent is k.console flags k.intr_occ
    restored flags (enters e k) is = is
    restored flags (resumes s k) is = is
    restored flags wait is = tt
    restored flags overruns is = tt
    restored flags fault is = tt

    halt_fault-IsConsistent :
        (flags : Bool) (o : Option Kernel)
        → Within (IsConsistent rest from) o
        → Within (IsConsistent rest from) (outcome (halt_fault env conv_buf args flags o))
    halt_fault-IsConsistent flags none is = tt
    halt_fault-IsConsistent flags (some k) is =
        restored flags _ (halt-IsConsistent rest from env is 254)

    pub exception-IsConsistent :
        {k : Kernel}
        → IsConsistent rest from k
        → (message : List ℕ)
        → Within (IsConsistent rest from) (outcome (exception env conv_buf args message k))
    unfolding exception
    exception-IsConsistent {k} is message = halt_fault-IsConsistent k.irq _ (
        print-IsConsistent (shown-IsConsistent is k.console false k.intr_occ) conv_buf args message)

    pub page_fault-IsConsistent :
        {k : Kernel}
        → IsConsistent rest from k
        → (fault_addr : ℕ)
        → Within
            (IsConsistent rest from)
            (outcome (page_fault_except env conv_buf args fault_addr k))
    unfolding page_fault_except
    page_fault-IsConsistent {k} is fault_addr =
        then-IsConsistent (print conv_buf args (codes "\nEXCEPTION: Page fault!\n") (cli k)) _
          (print-IsConsistent (shown-IsConsistent is k.console false k.intr_occ) conv_buf args _)
          (λ k' is'.
            halt_fault-IsConsistent k.irq _
              (print-IsConsistent is' conv_buf (λ i. if i == 0 then fault_addr else args i) _))

    pub general_interrupt-IsConsistent :
        {k : Kernel}
        → IsConsistent rest from k
        → Within (IsConsistent rest from) (general_interrupt env conv_buf args k)
    unfolding general_interrupt
    general_interrupt-IsConsistent {k} is =
        elim (Option-cases (print conv_buf args (codes "General interrupt recieved!\n") (cli k))) [
          | inl e ↦ rw (Within, e) tt
          | inr (k', e) ↦
              let is' : IsConsistent rest from k' = subst (Within (IsConsistent rest from)) e (
                print-IsConsistent (shown-IsConsistent is k.console false k.intr_occ) conv_buf args
                  _) in
              rw (Within, e)
                (shown-IsConsistent is' (set_log k' (send_eoi 0 (log k'))).console k.irq
                  k'.intr_occ)
        ]
