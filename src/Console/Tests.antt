-- ===== src/Console/Tests.antt =====
-- The terminals of drivers/keyboard.c with empty buffers.
use gyarad_os.Base.{ℕ, ◌+◌, ◌≤◌, ◌≡◌, refl, some, arith, [], ltb, if◌then◌else◌}
use gyarad_os.Base.Int.{pos}
use gyarad_os.Screen.{Screen}
use gyarad_os.Console.{Console, handle_enter, terminal_read}
use gyarad_os.Console.Buffer.{IsConsole}
use gyarad_os.Console.Lines.{IsText, type_text, terminal_read-typed}

abbrev blank : Screen
blank = record { mem = λ a. 0; log = []; x = λ t. 0; y = λ t. 0; active = 1; text_color = 2 }

-- Terminal 1 is the active one.
abbrev fresh : Console
fresh = record {
  screen = blank;
  kb = 0x10_0000;
  num_chars = λ t. 0;
  ready = λ t. 0;
  active_terminal = 1;
  prev_terminal = 0;
}

abbrev filled : Console
filled = record fresh { ready = λ t. 1 }

fresh-IsConsole : IsConsole fresh 1
fresh-IsConsole = record {
  apart = omega arith;
  cursor = record { col = omega arith; row = omega arith };
  terminal = omega arith;
  active = refl;
}

filled-IsConsole : IsConsole filled 1
filled-IsConsole = record {
  apart = omega arith;
  cursor = record { col = omega arith; row = omega arith };
  terminal = omega arith;
  active = refl;
}

abbrev letters : ℕ → ℕ
letters i = b'a'

letters-IsText : IsText letters 5
letters-IsText i h = ((λ e. omega arith), (λ e. omega arith), omega arith)

terminal_read-typed_example :
    (c' : Console) × (terminal_read 1 0x20_0000
        (pos 8)
        (handle_enter (type_text 5 1 letters 0 fresh))
      ≡ some (pos 9, c'))
    × ((i : ℕ) → i ≤ 8 → c'.screen.mem (0x20_0000 + i) ≡ (if ltb i 5 then b'a' else 0))
    × (c'.num_chars 1 ≡ 0)
    × (c'.ready 1 ≡ 0)
terminal_read-typed_example =
    terminal_read-typed fresh 1 letters 5 0x20_0000 8 fresh-IsConsole refl letters-IsText
      (omega arith) (omega arith) (omega arith) (omega arith)
