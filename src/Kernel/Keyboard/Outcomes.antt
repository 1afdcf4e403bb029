-- ===== src/Kernel/Keyboard/Outcomes.antt =====
-- What the keyboard's handler leaves of the keys, whatever else a key does.
use gyarad_os.Base.{
  ℕ, ◌≡◌, ◌≢◌, refl, Bool, true, false, arith, ◌==◌, if◌then◌else◌, Option-cases, inl, inr,
}
use gyarad_os.Console.{handle_tab}
use gyarad_os.Kernel.State.{Kernel, Env, Result, ret, enters, resumes, wait, overruns, fault, log}
use gyarad_os.Kernel.Switch.{Switched, stays, starts, moves, breaks}
use gyarad_os.Kernel.Keyboard.{
  Keys, Pressed, done, leaves, stuck, is_on, cntrl_on, after_halt, after_switch, switch_terminal,
  print_key, make_key, caps_key, tab_key, kbd_led_handling,
}

-- What holds of the keys in each outcome that is not a wait.
abbrev pub Leaves : (Keys → Type 0) → Pressed → Type 0
Leaves P (done s k) = P s
Leaves P (leaves s r) = P s
Leaves P stuck = Unit

module _ (env : Env) (patience cmd_len shell esp ebp : ℕ) (P : Keys → Type 0) where
  after_halt-Leaves :
      (flags : Bool) (s : Keys) (r : Result)
      → P s
      → Leaves P (after_halt env patience cmd_len shell esp ebp flags s r)
  unfolding after_halt
  after_halt-Leaves flags s (ret n k) p = p
  after_halt-Leaves flags s (enters n k) p = p
  after_halt-Leaves flags s (resumes n k) p = p
  after_halt-Leaves flags s wait p = tt
  after_halt-Leaves flags s overruns p = tt
  after_halt-Leaves flags s fault p = p

  after_switch-Leaves :
      (flags : Bool) (s : Keys) (r : Switched)
      → P s
      → Leaves P (after_switch env patience cmd_len shell esp ebp flags s r)
  unfolding after_switch
  after_switch-Leaves flags s (stays k) p = p
  after_switch-Leaves flags s (starts r) p = after_halt-Leaves flags s r p
  after_switch-Leaves flags s (moves a b k) p = p
  after_switch-Leaves flags s breaks p = p

  Leaves-if :
      (b : Bool) (x y : Pressed)
      → (b ≡ true → Leaves P x)
      → (b ≡ false → Leaves P y)
      → Leaves P (if b then x else y)
  Leaves-if true x y f g = f refl
  Leaves-if false x y f g = g refl

  pub print_key-Leaves :
      (flags : Bool) (s : Keys) (code : ℕ) (k : Kernel)
      → P s
      → Leaves P (print_key env patience cmd_len shell esp ebp flags s code k)
  unfolding print_key
  print_key-Leaves flags s code k p =
      Leaves-if (cntrl_on s) _ _
        (λ e.
          Leaves-if (code == 0x26) _ _ (λ e1. p)
            (λ e1. Leaves-if (code == 0x2e) _ _ (λ e2. after_halt-Leaves flags s _ p) (λ e2. p)))
        (λ e. p)

  caps_key-Leaves :
      (flags : Bool) (s : Keys) (k : Kernel)
      → ((caps : ℕ) → P (record s { caps_on = caps }))
      → Leaves P (caps_key env patience cmd_len shell esp ebp flags s k)
  unfolding caps_key
  caps_key-Leaves flags s k p =
      elim (Option-cases
        (kbd_led_handling patience env.dev (if is_on s.caps_on then 0 else 1) 0 0 (log k))) [
          | inl e ↦ rw (Leaves, e) tt
          | inr (l, e) ↦ rw (Leaves, e) (p _)
        ]

  tab_key-Leaves :
      (flags : Bool) (s : Keys) (k : Kernel)
      → P s
      → Leaves P (tab_key env patience cmd_len shell esp ebp flags s k)
  unfolding tab_key
  tab_key-Leaves flags s k p = elim (Option-cases (handle_tab env.fs k.console)) [
    | inl e ↦ rw (Leaves, e) tt
    | inr (c, e) ↦ rw (Leaves, e) p
  ]

  pub make_key-Leaves :
      (flags : Bool) (s : Keys) (code : ℕ) (k : Kernel)
      → (code ≡ 0x1d → P (record s { cntrl_l_on = 1 }))
      → (code ≡ 0x2a → P (record s { shift_l_on = 1 }))
      → (code ≡ 0x36 → P (record s { shift_r_on = 1 }))
      → (code ≡ 0x38 → P (record s { alt_l_on = 1 }))
      → (code ≡ 0x3a → (caps : ℕ) → P (record s { caps_on = caps }))
      → (code ≢ 0x1d → code ≢ 0x2a → code ≢ 0x36 → code ≢ 0x38 → P s)
      → Leaves P (make_key env patience cmd_len shell esp ebp flags s code k)
  unfolding make_key switch_terminal
  make_key-Leaves flags s code k ctrl shl shr alt caps other =
      Leaves-if (code == 0x1d) _ _ (λ e. ctrl (ground arith))
        (λ n1.
          Leaves-if (code == 0x2a) _ _ (λ e. shl (ground arith))
            (λ n2.
              Leaves-if (code == 0x36) _ _ (λ e. shr (ground arith))
                (λ n3.
                  Leaves-if (code == 0x3a) _ _
                    (λ e. caps_key-Leaves flags s k (caps (ground arith)))
                    (λ n4.
                      Leaves-if (code == 0x1c) _ _ (λ e. rest n1 n2 n3 (ground arith))
                        (λ n5.
                          Leaves-if (code == 0x0e) _ _ (λ e. rest n1 n2 n3 (ground arith))
                            (λ n6.
                              Leaves-if (code == 0x38) _ _ (λ e. alt (ground arith))
                                (λ n7.
                                  let p = rest n1 n2 n3 (ground arith) in
                                  Leaves-if (code == 0x3b) _ _
                                    (λ e. after_switch-Leaves flags s _ p)
                                    (λ n8.
                                      Leaves-if (code == 0x3c) _ _
                                        (λ e. after_switch-Leaves flags s _ p)
                                        (λ n9.
                                          Leaves-if (code == 0x3d) _ _
                                            (λ e. after_switch-Leaves flags s _ p)
                                            (λ n10.
                                              Leaves-if (code == 0x0f) _ _
                                                (λ e. tab_key-Leaves flags s k p)
                                                (λ n11. p)))))))))))
    where
      rest :
          (code == 0x1d) ≡ false
          → (code == 0x2a) ≡ false
          → (code == 0x36) ≡ false
          → code ≢ 0x38
          → P s
      rest n1 n2 n3 n7 = other (ground (arith, n1)) (ground (arith, n2)) (ground (arith, n3)) n7
