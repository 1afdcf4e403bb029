-- ===== src/Kernel/Keyboard/Modifiers.antt =====
-- The flags of the special keys against the keys that are held down.
use gyarad_os.Base.{
  ℕ, ◌+◌, ◌%◌, ◌≤◌, ◌<◌, ◌≡◌, ◌≢◌, ap, Bool, true, false, ◌&&◌, not, arith, ltb, ◌==◌,
  if◌then◌else◌, Bool-cases, inl, inr,
}
use gyarad_os.Machine.Bus.{inb}
use gyarad_os.Kernel.State.{Kernel, Env, log, set_log, cli}
use gyarad_os.Kernel.Keyboard.{Keys, is_on, break_key, handle_keypress}
use gyarad_os.Kernel.Keyboard.Tables.{code_to_ascii, entry}
use gyarad_os.Kernel.Keyboard.Outcomes.{Leaves, print_key-Leaves, make_key-Leaves}

-- The keyboard as the user sees it: which keys are down, by their make codes. The code of a key that
-- is let go is its make code with bit 7 set.
abbrev pub Held : Type 0
Held = ℕ → Bool

abbrev pub held_step : (code : ℕ) → Held → Held
held_step code held = λ c. if c == code then true else if c + 0x80 == code then false else held c

-- The flags say which of the keys Control, Shift and Alt on the left, and Shift on the right, are
-- down, and no extended code has begun.
pub record Tracks (s : Keys) (held : Held) : Type 0 where
  pub cntrl_l : is_on s.cntrl_l_on ≡ held 0x1d
  pub shift_l : is_on s.shift_l_on ≡ held 0x2a
  pub shift_r : is_on s.shift_r_on ≡ held 0x36
  pub alt_l : is_on s.alt_l_on ≡ held 0x38
  pub special : s.special_key_enabled ≡ 0

break_key-Tracks :
    (s : Keys) (code : ℕ) (held : Held)
    → 0x59 ≤ code
    → Tracks s held
    → Tracks (break_key code s) (held_step code held)
unfolding break_key
break_key-Tracks s code held h is = record {
  cntrl_l = ground (arith, is.cntrl_l);
  shift_l = ground (arith, is.shift_l);
  shift_r = ground (arith, is.shift_r);
  alt_l = ground (arith, is.alt_l);
  special = ground (arith, is.special);
}

-- The special keys have no character.
placeholder :
    (code : ℕ)
    → entry code_to_ascii code ≢ 254
    → (code ≢ 0x1d) × (code ≢ 0x2a) × (code ≢ 0x36) × (code ≢ 0x38)
unfolding code_to_ascii entry
placeholder code ne = (
  (λ e. ne (ap (entry code_to_ascii) e)),
  (λ e. ne (ap (entry code_to_ascii) e)),
  (λ e. ne (ap (entry code_to_ascii) e)),
  (λ e. ne (ap (entry code_to_ascii) e)),
)

make-Tracks :
    (s : Keys) (code : ℕ) (held : Held)
    → code < 0x59
    → code ≢ 0x1d
    → code ≢ 0x2a
    → code ≢ 0x36
    → code ≢ 0x38
    → Tracks s held
    → Tracks s (held_step code held)
make-Tracks s code held h n1 n2 n3 n4 is = record {
  cntrl_l = ground (arith, is.cntrl_l);
  shift_l = ground (arith, is.shift_l);
  shift_r = ground (arith, is.shift_r);
  alt_l = ground (arith, is.alt_l);
  special = is.special;
}

ctrl-Tracks :
    (s : Keys) (code : ℕ) (held : Held)
    → code ≡ 0x1d
    → Tracks s held
    → Tracks (record s { cntrl_l_on = 1 }) (held_step code held)
ctrl-Tracks s code held e is = record {
  cntrl_l = ground (arith, e);
  shift_l = ground (arith, e, is.shift_l);
  shift_r = ground (arith, e, is.shift_r);
  alt_l = ground (arith, e, is.alt_l);
  special = is.special;
}

shl-Tracks :
    (s : Keys) (code : ℕ) (held : Held)
    → code ≡ 0x2a
    → Tracks s held
    → Tracks (record s { shift_l_on = 1 }) (held_step code held)
shl-Tracks s code held e is = record {
  cntrl_l = ground (arith, e, is.cntrl_l);
  shift_l = ground (arith, e);
  shift_r = ground (arith, e, is.shift_r);
  alt_l = ground (arith, e, is.alt_l);
  special = is.special;
}

shr-Tracks :
    (s : Keys) (code : ℕ) (held : Held)
    → code ≡ 0x36
    → Tracks s held
    → Tracks (record s { shift_r_on = 1 }) (held_step code held)
shr-Tracks s code held e is = record {
  cntrl_l = ground (arith, e, is.cntrl_l);
  shift_l = ground (arith, e, is.shift_l);
  shift_r = ground (arith, e);
  alt_l = ground (arith, e, is.alt_l);
  special = is.special;
}

alt-Tracks :
    (s : Keys) (code : ℕ) (held : Held)
    → code ≡ 0x38
    → Tracks s held
    → Tracks (record s { alt_l_on = 1 }) (held_step code held)
alt-Tracks s code held e is = record {
  cntrl_l = ground (arith, e, is.cntrl_l);
  shift_l = ground (arith, e, is.shift_l);
  shift_r = ground (arith, e, is.shift_r);
  alt_l = ground (arith, e);
  special = is.special;
}

caps-Tracks :
    (s : Keys) (code : ℕ) (held : Held)
    → code ≡ 0x3a
    → (caps : ℕ) → Tracks s held
    → Tracks (record s { caps_on = caps }) (held_step code held)
caps-Tracks s code held e caps is = record {
  cntrl_l = ground (arith, e, is.cntrl_l);
  shift_l = ground (arith, e, is.shift_l);
  shift_r = ground (arith, e, is.shift_r);
  alt_l = ground (arith, e, is.alt_l);
  special = is.special;
}

module _ (env : Env) (patience cmd_len shell esp ebp : ℕ) where
  -- Every press and every release, in whatever order, keeps the flags in step with the keys that are
  -- held down, whatever else the key does: the flags of Control, Shift and Alt are those of the keys
  -- after the code that is read from the keyboard, as long as it does not begin an extended code.
  -- Waits for the keyboard's answer, and in a string that never ends, are left out.
  pub handle_keypress-Tracks :
      (s : Keys) (k : Kernel) (held : Held) (code : ℕ)
      → env.dev (log k) 0x60 % 0x100 ≡ code
      → code ≢ 0xe0
      → Tracks s held
      → Leaves
          (λ s'. Tracks s' (held_step code held))
          (handle_keypress env patience cmd_len shell esp ebp s k)
  unfolding handle_keypress inb
  handle_keypress-Tracks s k held code read plain is =
      let P = λ (s' : Keys). Tracks s' (held_step code held) in
      let k1 = set_log (cli k) (inb env.dev 0x60 (log k)).1 in
      let n : (code == 0xe0) ≡ false = ground arith in
      let sp : not (s.special_key_enabled == 0) ≡ false = ground (arith, is.special) in
      elim (Bool-cases (ltb code 0x59)) [
        | inr e ↦
            rw (Leaves, handle_keypress, read, e, n)
              (break_key-Tracks s code held (ground arith) is)
        | inl e ↦
            elim (Bool-cases
              (not (entry code_to_ascii code == 254) && s.special_key_enabled == 0)) [
                | inl e1 ↦
                    let (a, b, c, d) = placeholder code (ground arith) in
                    rw (read, e, e1)
                      (print_key-Leaves env patience cmd_len shell esp ebp P k.irq s code _
                        (make-Tracks s code held (ground arith) a b c d is))
                | inr e1 ↦
                    rw (read, e, e1, sp)
                      (make_key-Leaves env patience cmd_len shell esp ebp P k.irq s code _
                        (λ e2. ctrl-Tracks s code held e2 is) (λ e2. shl-Tracks s code held e2 is)
                        (λ e2. shr-Tracks s code held e2 is) (λ e2. alt-Tracks s code held e2 is)
                        (λ e2 caps. caps-Tracks s code held e2 caps is)
                        (λ a b c d. make-Tracks s code held (ground arith) a b c d is))
              ]
      ]
