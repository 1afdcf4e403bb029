-- ===== src/Kernel/System/Keypress.antt =====
-- The keyboard's interrupt keeps the system consistent.
use gyarad_os.Base.{
  ℕ, Bool, true, false, not, ◌&&◌, ltb, ◌==◌, if◌then◌else◌, Option-cases, inl, inr,
}
use gyarad_os.Machine.Bus.{inb}
use gyarad_os.Drivers.Pic.{send_eoi}
use gyarad_os.Console.{Console, handle_tab}
use gyarad_os.Kernel.State.{
  Kernel, Env, Result, ret, enters, resumes, wait, overruns, fault, log, set_log, restore,
}
use gyarad_os.Kernel.Switch.{Switched, stays, starts, moves, breaks}
use gyarad_os.Kernel.Keyboard.{
  Keys, Pressed, is_on, cntrl_on, after_halt, after_switch, switch_terminal, print_key, make_key,
  caps_key, tab_key, kbd_led_handling, handle_keypress,
}
use gyarad_os.Kernel.Keyboard.Tables.{code_to_ascii, entry}
use gyarad_os.Kernel.System.{outcome, switched, pressed}
use gyarad_os.Paging.{Paging}
use gyarad_os.Kernel.System.Stacks.{Stacks}
use gyarad_os.Kernel.System.Memory.{IsConsistent}
use gyarad_os.Kernel.System.Calls.{Within, halt-IsConsistent}
use gyarad_os.Kernel.System.Devices.{shown-IsConsistent}
use gyarad_os.Kernel.System.Terminals.{context_switch-IsConsistent}

-- The kernel of a key press that goes on.
abbrev pub Keeps : Paging → Stacks → Pressed → Type 0
Keeps rest from x = Within (λ r. IsConsistent rest from r.1) (pressed x)

module _ (rest : Paging) (from : Stacks) (env : Env) (patience cmd_len shell esp ebp : ℕ) where
  Keeps-if :
      (b : Bool) (x y : Pressed)
      → Keeps rest from x
      → Keeps rest from y
      → Keeps rest from (if b then x else y)
  Keeps-if true x y p q = p
  Keeps-if false x y p q = q

  acknowledged :
      {k : Kernel}
      → IsConsistent rest from k
      → (flags : Bool) (c : Console)
      → IsConsistent rest from
          (restore flags (set_log (record k { console = c }) (send_eoi 1 c.screen.log)))
  acknowledged {k} is flags c =
      shown-IsConsistent is
        (record c { screen = record (c.screen) { log = send_eoi 1 c.screen.log } }) flags k.intr_occ

  after_halt-Keeps :
      (flags : Bool) (s : Keys) (r : Result)
      → Within (IsConsistent rest from) (outcome r)
      → Keeps rest from (after_halt env patience cmd_len shell esp ebp flags s r)
  unfolding after_halt
  after_halt-Keeps flags s (ret n k) is = acknowledged is flags k.console
  after_halt-Keeps flags s (enters e k) is = is
  after_halt-Keeps flags s (resumes e k) is = is
  after_halt-Keeps flags s wait is = tt
  after_halt-Keeps flags s overruns is = tt
  after_halt-Keeps flags s fault is = tt

  after_switch-Keeps :
      (flags : Bool) (s : Keys) (w : Switched)
      → Within (IsConsistent rest from) (switched w)
      → Keeps rest from (after_switch env patience cmd_len shell esp ebp flags s w)
  unfolding after_switch
  after_switch-Keeps flags s (stays k) is = acknowledged is flags k.console
  after_switch-Keeps flags s (starts r) is = after_halt-Keeps flags s r is
  after_switch-Keeps flags s (moves p b k) is = is
  after_switch-Keeps flags s breaks is = tt

  module _ {k : Kernel} (is : IsConsistent rest from k) (flags : Bool) where
    switch_terminal-Keeps :
        (s : Keys) (next : ℕ)
        → Keeps rest from (switch_terminal env patience cmd_len shell esp ebp flags s next k)
    unfolding switch_terminal
    switch_terminal-Keeps s next = after_switch-Keeps flags s _ (
        context_switch-IsConsistent rest from env (acknowledged is flags _) cmd_len shell esp ebp
          k.console.active_terminal next)

    print_key-Keeps :
        (s : Keys) (code : ℕ)
        → Keeps rest from (print_key env patience cmd_len shell esp ebp flags s code k)
    unfolding print_key
    print_key-Keeps s code =
        Keeps-if (cntrl_on s) _ _
          (Keeps-if (code == 0x26) _ _ (acknowledged is flags _) (
            Keeps-if (code == 0x2e) _ _
              (after_halt-Keeps flags s _
                (halt-IsConsistent rest from env (acknowledged is flags _) 254))
              (acknowledged is flags _)))
          (acknowledged is flags _)

    caps_key-Keeps :
        (s : Keys) → Keeps rest from (caps_key env patience cmd_len shell esp ebp flags s k)
    unfolding caps_key
    caps_key-Keeps s =
        elim (Option-cases
          (kbd_led_handling patience env.dev (if is_on s.caps_on then 0 else 1) 0 0 (log k))) [
            | inl e ↦ rw (Within, e) tt
            | inr (l, e) ↦ rw (Within, e) (acknowledged is flags (set_log k l).console)
          ]

    tab_key-Keeps :
        (s : Keys) → Keeps rest from (tab_key env patience cmd_len shell esp ebp flags s k)
    unfolding tab_key
    tab_key-Keeps s = elim (Option-cases (handle_tab env.fs k.console)) [
      | inl e ↦ rw (Within, e) tt
      | inr (c, e) ↦ rw (Within, e) (acknowledged is flags c)
    ]

    make_key-Keeps :
        (s : Keys) (code : ℕ)
        → Keeps rest from (make_key env patience cmd_len shell esp ebp flags s code k)
    unfolding make_key
    make_key-Keeps s code =
        let plain = acknowledged is flags k.console in
        Keeps-if (code == 0x1d) _ _ plain (
          Keeps-if (code == 0x2a) _ _ plain (
            Keeps-if (code == 0x36) _ _ plain (
              Keeps-if (code == 0x3a) _ _ (caps_key-Keeps s) (
                Keeps-if (code == 0x1c) _ _ (acknowledged is flags _) (
                  Keeps-if (code == 0x0e) _ _ (acknowledged is flags _) (
                    Keeps-if (code == 0x38) _ _ plain (
                      Keeps-if (code == 0x3b) _ _ (switch_terminal-Keeps s 0) (
                        Keeps-if (code == 0x3c) _ _ (switch_terminal-Keeps s 1) (
                          Keeps-if (code == 0x3d) _ _ (switch_terminal-Keeps s 2)
                            (Keeps-if (code == 0x0f) _ _ (tab_key-Keeps s) plain))))))))))

  pub handle_keypress-Keeps :
      {k : Kernel}
      → IsConsistent rest from k
      → (s : Keys) → Keeps rest from (handle_keypress env patience cmd_len shell esp ebp s k)
  unfolding handle_keypress
  handle_keypress-Keeps {k} is s =
      let (code, l) = inb env.dev 0x60 (log k) in
      let is1 = shown-IsConsistent is (set_log k l).console false k.intr_occ in
      let plain = acknowledged is1 k.irq (set_log k l).console in
      Keeps-if (ltb code 0x59) _ _
        (Keeps-if (not (entry code_to_ascii code == 254) && s.special_key_enabled == 0) _ _
          (print_key-Keeps is1 k.irq s code)
          (Keeps-if (is_on s.special_key_enabled) _ _ plain (make_key-Keeps is1 k.irq s code)))
        (Keeps-if (code == 0xe0) _ _ (acknowledged is1 k.irq _) plain)
