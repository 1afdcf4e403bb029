-- ===== src/Screen/Tests.antt =====
-- The text screen of lib/lib.c with the cursor in the last row.
use gyarad_os.Base.{ℕ, some, ◌<◌, ◌*◌, ◌+◌, ◌≡◌, refl, arith, [], ◌∷◌}
use gyarad_os.Machine.Memory.{Mem, Addr, IsString, ◌≐◌}
use gyarad_os.Screen.{Screen, video, new_line, puts}
use gyarad_os.Str.Number.{read_number}
use gyarad_os.Screen.Pages.{update_screen, page, term_color}
use gyarad_os.Screen.Pages.Swap.{update_screen-update_screen}
use gyarad_os.Screen.Printf.{hex8}
use gyarad_os.Screen.Printf.Hex.{hex8-read_number}
use gyarad_os.Screen.Scroll.{new_line-scrolled, blanked, scrolled}
use gyarad_os.Screen.Cursor.{OnScreen, Keeps, puts-Keeps}

abbrev last_row : Screen
last_row = record {
  mem = λ a. b'x';
  log = [];
  x = λ t. 79;
  y = λ t. 24;
  active = 0;
  text_color = 2;
}

last_row-OnScreen : OnScreen last_row 0
last_row-OnScreen = record { col = omega arith; row = omega arith }

new_line-scrolled_example :
    ((new_line 0 last_row).mem ≐ blanked (scrolled last_row.mem video 1920 2) (video + 3840) 80 2)
    × ((new_line 0 last_row).y 0 ≡ 24)
    × ((new_line 0 last_row).x 0 ≡ 0)
new_line-scrolled_example = new_line-scrolled 0 last_row refl

puts-Keeps_example : Keeps last_row (puts 0 (b'h' ∷ b'i' ∷ 10 ∷ []) last_row) 0
puts-Keeps_example = puts-Keeps 0 (b'h' ∷ b'i' ∷ 10 ∷ []) last_row last_row-OnScreen

update_screen-update_screen_example :
    let s' = update_screen 0 1 (update_screen 1 0 last_row) in
    ((i : ℕ) → i < 2000 → s'.mem (video + 2 * i) ≡ b'x')
    × ((i : ℕ) → i < 2000 → s'.mem (video + 2 * i + 1) ≡ term_color 0)
    × ((i : ℕ) → i < 2000 → s'.mem (page 1 + 2 * i) ≡ b'x')
    × (s'.x ≡ last_row.x)
    × (s'.y ≡ last_row.y)
update_screen-update_screen_example =
    update_screen-update_screen 0 1 last_row (omega arith) (omega arith) (λ e. omega arith)
      (λ a. omega arith)

hex8-read_number_example :
    (g : Mem) × (a : Addr) × (hex8 last_row.mem 0x1000 0xbeef ≡ some (g, a))
    × IsString g a 8
    × (read_number 16 g a 8 ≡ 0xbeef)
hex8-read_number_example = hex8-read_number last_row.mem 0x1000 0xbeef (omega arith)
