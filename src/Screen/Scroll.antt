-- ===== src/Screen/Scroll.antt =====
-- What `new_line` and `clear_screen` leave in video memory.
use gyarad_os.Base.{
  ℕ, zero, suc, ◌+◌, ◌*◌, ◌%◌, ◌≤◌, ◌<◌, ◌≡◌, ◌∙◌, true, arith, ◌==◌, if◌then◌else◌,
}
use gyarad_os.Machine.Memory.{Addr, Mem, within, ◌≐◌}
use gyarad_os.Screen.{
  Screen, video, cell, put_cell, scroll_row, scroll_rows, blank_row, clear_cells, new_line,
  clear_screen, update_cursor,
}

-- Video memory alternates characters, at even addresses, and colours.
abbrev pub pair : (char color : ℕ) → Addr → ℕ
pair char color x = if x % 2 == 0 then char else color

-- `n` cells from `a` on scrolled by a row, which has 160 bytes.
abbrev pub scrolled : Mem → Addr → (n color : ℕ) → Mem
scrolled m a n color = λ x. if within a (2 * n) x then pair (m (x + 160)) color x else m x

-- `n` cells from `a` on blanked.
abbrev pub blanked : Mem → Addr → (n color : ℕ) → Mem
blanked m a n color = λ x. if within a (2 * n) x then pair b' ' color x else m x

scroll_row-scrolled :
    (k : ℕ) (color i j : ℕ) (m : Mem)
    → i < 24
    → j + k ≤ 80
    → scroll_row k color i j m ≐ scrolled m (video + (80 * i + j) * 2) k color
unfolding scroll_row
scroll_row-scrolled zero color i j m hi hj x = ground arith
scroll_row-scrolled (suc k) color i j m hi hj x =
    let m' = put_cell m (cell i j) (m (cell (i + 1) j)) color in
    scroll_row-scrolled k color i (j + 1) m' hi (omega arith) x ∙ ground arith

scroll_rows-scrolled :
    (k : ℕ) (color i : ℕ) (m : Mem)
    → i + k ≤ 24
    → scroll_rows k color i m ≐ scrolled m (video + 160 * i) (80 * k) color
unfolding scroll_rows
scroll_rows-scrolled zero color i m h x = ground arith
scroll_rows-scrolled (suc k) color i m h x =
    let m' = scroll_row 80 color i 0 m in
    let row = scroll_row-scrolled 80 color i 0 m (omega arith) (omega arith) in
    scroll_rows-scrolled k color (i + 1) m' (omega arith) x ∙ ground (arith, row x, row (x + 160))

blank_row-blanked :
    (k : ℕ) (color i j : ℕ) (m : Mem)
    → i < 25
    → j + k ≤ 80
    → blank_row k color i j m ≐ blanked m (video + (80 * i + j) * 2) k color
unfolding blank_row
blank_row-blanked zero color i j m hi hj x = ground arith
blank_row-blanked (suc k) color i j m hi hj x =
    blank_row-blanked k color i (j + 1) (put_cell m (cell i j) b' ' color) hi (omega arith) x
    ∙ ground arith

pub clear_cells-blanked :
    (k : ℕ) (color i : ℕ) (m : Mem) → clear_cells k color i m ≐ blanked m (video + i * 2) k color
unfolding clear_cells
clear_cells-blanked zero color i m x = ground arith
clear_cells-blanked (suc k) color i m x =
    clear_cells-blanked k color (i + 1) (put_cell m (video + i * 2) b' ' color) x ∙ ground arith

-- A new line on the last row scrolls the screen: each of the first 24 rows shows the characters of
-- the row below it, the last row is blank, every cell has the text colour, the cursor stands at
-- the start of the last row, and no other memory changes.
pub new_line-scrolled :
    (t : ℕ) (s : Screen)
    → s.y t ≡ 24
    → let s' = new_line t s in
      (s'.mem ≐ blanked (scrolled s.mem video 1920 s.text_color) (video + 3840) 80 s.text_color)
      × (s'.y t ≡ 24)
      × (s'.x t ≡ 0)
unfolding new_line update_cursor
new_line-scrolled t s h =
    let last : (s.y t == 24) ≡ true = ground arith in
    let m = scroll_rows 24 s.text_color 0 s.mem in
    rw last (
      λ x.
          blank_row-blanked 80 s.text_color 24 0 m (omega arith) (omega arith) x
          ∙ ground (arith, scroll_rows-scrolled 24 s.text_color 0 s.mem (omega arith) x),
      ground arith,
      ground arith,
    )

-- `clear_screen` blanks the 2000 cells in the text colour, puts the cursor of the active terminal
-- of lib.c at the top left, and changes no other memory.
pub clear_screen-blanked :
    (s : Screen)
    → let s' = clear_screen s in
      (s'.mem ≐ blanked s.mem video 2000 s.text_color) × (s'.y s.active ≡ 0) × (s'.x s.active ≡ 0)
unfolding clear_screen update_cursor
clear_screen-blanked s = (clear_cells-blanked 2000 s.text_color 0 s.mem, ground arith, ground arith)
