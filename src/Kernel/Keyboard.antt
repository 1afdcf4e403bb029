-- ===== src/Kernel/Keyboard.antt =====
-- The keyboard's interrupt handler in drivers/keyboard.c, and the keys that it keeps track of.
pub mod Tables
pub mod Typing
pub mod Outcomes
pub mod Modifiers
mod Tests
use gyarad_os.Base.{
  ℕ, zero, suc, ◌%◌, Bool, ◌&&◌, ◌||◌, not, Option, none, some, ltb, ◌==◌, if◌then◌else◌, bit_or,
}
use gyarad_os.Machine.Memory.{Addr}
use gyarad_os.Machine.Bus.{Log, Device, inb, outb}
use gyarad_os.Drivers.Pic.{send_eoi}
use gyarad_os.Screen.Pages.{update_screen}
use gyarad_os.Console.{
  Console, add_char_to_buffer, reset_term, handle_enter, handle_backspace, handle_tab,
}
use gyarad_os.Kernel.State.{
  Kernel, Env, Result, ret, enters, resumes, wait, overruns, fault, log, set_log, cli, restore,
}
use gyarad_os.Kernel.Process.{halt}
use gyarad_os.Kernel.Switch.{Switched, stays, starts, moves, breaks, context_switch}
use Tables.{code_to_ascii, shift_ascii, caps_ascii, entry}

-- The state of the special keys, each 0 or 1.
pub record Keys : Type 0 where
  pub special_key_enabled : ℕ
  pub cntrl_l_on : ℕ
  pub cntrl_r_on : ℕ
  pub caps_on : ℕ
  pub shift_l_on : ℕ
  pub shift_r_on : ℕ
  pub alt_l_on : ℕ
  pub alt_r_on : ℕ

abbrev pub is_on : ℕ → Bool
is_on n = not (n == 0)

abbrev pub cntrl_on : Keys → Bool
cntrl_on s = is_on s.cntrl_l_on || is_on s.cntrl_r_on

abbrev pub shift_on : Keys → Bool
shift_on s = is_on s.shift_l_on || is_on s.shift_r_on

-- How a key press ends: the handler comes back; the processor goes on somewhere else; it waits for
-- the keyboard, or in a string that never ends.
pub data Pressed : Type 0 where
  done : Keys → Kernel → Pressed
  leaves : Keys → Switched → Pressed
  stuck : Pressed

-- `kbd_ack`, with `patience` reads before the model gives up.
unfoldable pub kbd_ack : (patience : ℕ) → Device → Log → Option Log
kbd_ack zero dev l = none
kbd_ack (suc n) dev l =
    let (v, l') = inb dev 0x60 l in
    let again = kbd_ack n dev l' in if v == 0xfa then some l' else again

-- `kbd_led_handling(caps, num, scroll)`.
unfoldable pub kbd_led_handling : (patience : ℕ) → Device → (caps num scroll : ℕ) → Log → Option Log
kbd_led_handling patience dev caps num scroll l = elim (kbd_ack patience dev (outb 0xed 0x60 l)) [
  | none ↦ none
  | some l' ↦
      let a = if is_on caps then 4 else 0 in
      let b = if is_on num then bit_or a 2 else a in
      let c = if is_on scroll then bit_or b 1 else b in some (outb c 0x60 l')
]

-- The table that a printable key is looked up in.
abbrev pub key_table : Keys → (key_code : ℕ) → ℕ
key_table s key_code =
    if is_on s.caps_on && not (shift_on s)
    then entry caps_ascii key_code
    else if not (is_on s.caps_on) && shift_on s
    then entry shift_ascii key_code
    else entry code_to_ascii key_code

abbrev pub set_console : Kernel → Console → Kernel
set_console k c = record k { console = c }

-- A key that was let go: the last switch.
unfoldable pub break_key : (key_code : ℕ) → Keys → Keys
break_key key_code s =
    if key_code == 0x9d
    then record s { cntrl_l_on = 0 }
    else if key_code == 0xaa
    then record s { shift_l_on = 0 }
    else if key_code == 0xb6
    then record s { shift_r_on = 0 }
    else if key_code == 0xb8
    then record s { alt_l_on = 0 }
    else s

-- The code behind `SPECIAL_KEY`.
unfoldable pub special_key : (key_code : ℕ) → Keys → Keys
special_key key_code s =
    if key_code == 0x1d
    then record s { cntrl_r_on = 1 }
    else if key_code == 0x9d
    then record s { cntrl_r_on = 0 }
    else if key_code == 0x38
    then record s { alt_r_on = 1 }
    else if key_code == 0xb8
    then record s { alt_r_on = 0 }
    else s

module _ (env : Env) (patience cmd_len : ℕ) (shell : Addr) (esp ebp : ℕ) where
  open env use {dev, fs}

  -- `send_eoi(IRQ_KEYBOARD_CTRL)` and `restore_flags(flags)`.
  abbrev pub acknowledge : (flags : Bool) → Kernel → Kernel
  acknowledge flags k = restore flags (set_log k (send_eoi 1 (log k)))

  -- What is left when `halt` comes back.
  unfoldable pub after_halt : (flags : Bool) → Keys → Result → Pressed
  after_halt flags s (ret n k) = done s (acknowledge flags k)
  after_halt flags s (enters e k) = leaves s (starts (enters e k))
  after_halt flags s (resumes e k) = leaves s (starts (resumes e k))
  after_halt flags s wait = stuck
  after_halt flags s overruns = stuck
  after_halt flags s fault = leaves s breaks

  -- The end of the handler, once `context_switch` came back.
  unfoldable pub after_switch : (flags : Bool) → Keys → Switched → Pressed
  after_switch flags s (stays k) = done s (acknowledge flags k)
  after_switch flags s (starts r) = after_halt flags s r
  after_switch flags s (moves p b k) = leaves s (moves p b k)
  after_switch flags s breaks = leaves s breaks

  -- F1, F2 and F3.
  unfoldable pub switch_terminal : (flags : Bool) → Keys → (next : ℕ) → Kernel → Pressed
  switch_terminal flags s next k =
      let c = k.console in
      let old = c.active_terminal in
      let shown = record c {
        screen = update_screen next old c.screen;
        prev_terminal = old;
        active_terminal = next;
      } in
      after_switch flags s (
        context_switch env cmd_len shell esp ebp old next (acknowledge flags (set_console k shown)))

  -- A printable key.
  unfoldable pub print_key : (flags : Bool) → Keys → (key_code : ℕ) → Kernel → Pressed
  print_key flags s key_code k =
      let c = k.console in
      if cntrl_on s
      then if key_code == 0x26
        then done s (acknowledge flags (set_console k (reset_term c)))
        else if key_code == 0x2e
        then after_halt flags s (halt env 254 (acknowledge flags k))
        else done s (acknowledge flags k)
      else done s (
          acknowledge flags
            (set_console k (add_char_to_buffer (key_table s key_code) c.active_terminal c).1))

  -- Caps Lock.
  unfoldable pub caps_key : (flags : Bool) → Keys → Kernel → Pressed
  caps_key flags s k =
      let caps = if is_on s.caps_on then 0 else 1 in
      elim (kbd_led_handling patience dev caps 0 0 (log k)) [
        | none ↦ stuck
        | some l ↦ done (record s { caps_on = caps }) (acknowledge flags (set_log k l))
      ]

  -- Tab.
  unfoldable pub tab_key : (flags : Bool) → Keys → Kernel → Pressed
  tab_key flags s k = elim (handle_tab fs k.console) [
    | none ↦ stuck
    | some c ↦ done s (acknowledge flags (set_console k c))
  ]

  -- The switch over the other make keys.
  unfoldable pub make_key : (flags : Bool) → Keys → (key_code : ℕ) → Kernel → Pressed
  make_key flags s key_code k =
      let c = k.console in
      if key_code == 0x1d
      then done (record s { cntrl_l_on = 1 }) (acknowledge flags k)
      else if key_code == 0x2a
      then done (record s { shift_l_on = 1 }) (acknowledge flags k)
      else if key_code == 0x36
      then done (record s { shift_r_on = 1 }) (acknowledge flags k)
      else if key_code == 0x3a
      then caps_key flags s k
      else if key_code == 0x1c
      then done s (acknowledge flags (set_console k (handle_enter c)))
      else if key_code == 0x0e
      then done s (acknowledge flags (set_console k (handle_backspace c)))
      else if key_code == 0x38
      then done (record s { alt_l_on = 1 }) (acknowledge flags k)
      else if key_code == 0x3b
      then switch_terminal flags s 0 k
      else if key_code == 0x3c
      then switch_terminal flags s 1 k
      else if key_code == 0x3d
      then switch_terminal flags s 2 k
      else if key_code == 0x0f
      then tab_key flags s k
      else done s (acknowledge flags k)

  unfoldable pub handle_keypress : Keys → Kernel → Pressed
  handle_keypress s k =
      let flags = k.irq in
      let (key_code, l) = inb dev 0x60 (log k) in
      let k1 = set_log (cli k) l in
      if ltb key_code 0x59
      then if not (entry code_to_ascii key_code == 254) && s.special_key_enabled == 0
        then print_key flags s key_code k1
        else if is_on s.special_key_enabled
        then done (record s { special_key_enabled = 0 }) (acknowledge flags k1)
        else make_key flags s key_code k1
      else if key_code == 0xe0
      then (let (code2, l2) = inb dev 0x60 (log k1) in
          done (special_key code2 (record s { special_key_enabled = 1 }))
            (acknowledge flags (set_log k1 l2)))
      else done (break_key key_code s) (acknowledge flags k1)
