-- ===== src/Screen.antt =====
-- The text screen of lib/lib.c: video memory at 0xB8000, the cursor of each terminal, and the ports
-- of the hardware cursor. A coordinate is an `int`, kept as its bit pattern below 2 ^ 32, so that
-- `screen_y--` at 0 is what the machine makes of it.
pub mod Cursor
pub mod Scroll
pub mod Pages
pub mod Printf
pub mod Splash
mod Tests
use gyarad_os.Base.{
  ℕ, zero, suc, ◌+◌, ◌-◌, ◌*◌, ◌/◌, ◌%◌, ◌^◌, Bool, true, false, ◌||◌, List, [], ◌∷◌, ltb, ◌==◌,
  if◌then◌else◌, bit_and,
}
use gyarad_os.Machine.Memory.{Addr, Mem, poke}
use gyarad_os.Machine.Bus.{Log, outbs}

pub record Screen : Type 0 where
  pub mem : Mem
  pub log : Log
  -- `screen_x` and `screen_y`, by terminal
  pub x : ℕ → ℕ
  pub y : ℕ → ℕ
  -- lib.c's own `active_terminal`
  pub active : ℕ
  pub text_color : ℕ

abbrev pub video : Addr
video = 0xb8000

abbrev pub update : (ℕ → ℕ) → ℕ → ℕ → ℕ → ℕ
update f i v = λ j. if j == i then v else f j

-- `video_mem + ((NUM_COLS * row + col) << 1)`.
abbrev pub cell : (row col : ℕ) → Addr
cell row col = (video + (80 * row + col) * 2) % 2 ^ 32

-- The two bytes of a cell: the character and its colour.
abbrev pub put_cell : Mem → Addr → (c color : ℕ) → Mem
put_cell m a c color = poke (poke m a c) (a + 1) color

-- `update_cursor`: the position goes out in two halves.
unfoldable pub update_cursor : (row col : ℕ) → Screen → Screen
update_cursor row col s =
    let position = (row * 80 + col) % 0x1_0000 in
    record s {
      log =
          outbs
            ((15, 0x3d4) ∷ (position % 0x100, 0x3d5) ∷ (14, 0x3d4) ∷ (position / 0x100, 0x3d5) ∷ [])
            s.log;
    }

-- The inner loop of the scroll, with `k` of the columns left: row `i` takes the characters of the
-- row below.
unfoldable pub scroll_row : ℕ → (color i j : ℕ) → Mem → Mem
scroll_row zero color i j m = m
scroll_row (suc k) color i j m =
    scroll_row k color i (j + 1) (put_cell m (cell i j) (m (cell (i + 1) j)) color)

-- The outer loop, with `k` rows left.
unfoldable pub scroll_rows : ℕ → (color i : ℕ) → Mem → Mem
scroll_rows zero color i m = m
scroll_rows (suc k) color i m = scroll_rows k color (i + 1) (scroll_row 80 color i 0 m)

-- The loop that blanks a row, with `k` columns left.
unfoldable pub blank_row : ℕ → (color i j : ℕ) → Mem → Mem
blank_row zero color i j m = m
blank_row (suc k) color i j m = blank_row k color i (j + 1) (put_cell m (cell i j) b' ' color)

-- `terminal` is what `get_active_terminal` returns.
unfoldable pub new_line : (terminal : ℕ) → Screen → Screen
new_line terminal s =
    let s' =
      if s.y terminal == 24
      then record s {
        active = terminal;
        mem = blank_row 80 s.text_color 24 0 (scroll_rows 24 s.text_color 0 s.mem);
        y = update s.y terminal 24;
        x = update s.x terminal 0;
      }
      else record s {
        active = terminal;
        y = update s.y terminal ((s.y terminal + 1) % 2 ^ 32);
        x = update s.x terminal 0;
      } in
    update_cursor (s'.y terminal) (s'.x terminal) s'

-- `v % n` on `int`: the remainder has the sign of `v`.
unfoldable pub int_rem : ℕ → ℕ → ℕ
int_rem v n = if ltb v (2 ^ 31) then v % n else (2 ^ 32 - (2 ^ 32 - v) % n) % 2 ^ 32

-- `v / n` on `int`, towards 0.
unfoldable pub int_quot : ℕ → ℕ → ℕ
int_quot v n = if ltb v (2 ^ 31) then v / n else (2 ^ 32 - (2 ^ 32 - v) / n) % 2 ^ 32

-- The other branch of `putc`: a character at the cursor.
unfoldable pub put_char : (terminal c : ℕ) → Screen → Screen
put_char terminal c s =
    let written = record s {
      active = terminal;
      mem = put_cell s.mem (cell (s.y terminal) (s.x terminal)) c s.text_color;
      x = update s.x terminal ((s.x terminal + 1) % 2 ^ 32);
    } in
    let wrapped = if written.x terminal == 80 then new_line terminal written else written in
    let col = int_rem (wrapped.x terminal) 80 in
    record wrapped {
      x = update wrapped.x terminal col;
      y = update wrapped.y terminal (int_rem ((wrapped.y terminal + int_quot col 80) % 2 ^ 32) 25);
    }

-- The tests against '\n' and '\r'.
unfoldable pub putc : (terminal c : ℕ) → Screen → Screen
putc terminal c s =
    let s' = if c == 10 || c == 13 then new_line terminal s else put_char terminal c s in
    update_cursor (s'.y terminal) (s'.x terminal) s'

-- `puts`, over the bytes of the string.
unfoldable pub puts : (terminal : ℕ) → List ℕ → Screen → Screen
puts terminal [] s = s
puts terminal (c ∷ r) s = puts terminal r (putc terminal c s)

unfoldable pub del_last_char : (terminal : ℕ) → Screen → Screen
del_last_char terminal s =
    let moved =
      if s.x terminal == 0
      then record s {
        active = terminal;
        x = update s.x terminal 79;
        y = update s.y terminal ((s.y terminal + (2 ^ 32 - 1)) % 2 ^ 32);
      }
      else record s { active = terminal; x = update s.x terminal (s.x terminal - 1) } in
    let s' = record moved {
      mem = put_cell moved.mem (cell (moved.y terminal) (moved.x terminal)) b' ' moved.text_color;
    } in
    update_cursor (s'.y terminal) (s'.x terminal) s'

-- The loop of `clear`, `clear_screen` over the 2000 cells, with `k` left.
unfoldable pub clear_cells : ℕ → (color i : ℕ) → Mem → Mem
clear_cells zero color i m = m
clear_cells (suc k) color i m = clear_cells k color (i + 1) (put_cell m (video + i * 2) b' ' color)

-- `clear`.
unfoldable pub clear : Screen → Screen
clear s = record s { mem = clear_cells 2000 s.text_color 0 s.mem }

-- `clear_screen` uses lib.c's `active_terminal` as it stands.
unfoldable pub clear_screen : Screen → Screen
clear_screen s =
    let s' = record s {
      mem = clear_cells 2000 s.text_color 0 s.mem;
      x = update s.x s.active 0;
      y = update s.y s.active 0;
    } in
    update_cursor 0 0 s'
