-- ===== src/Screen/Pages.antt =====
-- The rest of the screen in lib/lib.c: single cells, colours, and the pages that keep what the
-- terminals that are not shown have on the screen.
pub mod Swap
use gyarad_os.Base.{ℕ, zero, suc, ◌+◌, ◌*◌, ◌/◌, ◌%◌, ◌^◌, ◌==◌, if◌then◌else◌, bit_xor}
use gyarad_os.Machine.Memory.{Addr, Mem, poke}
use gyarad_os.Block.{memcpy}
use gyarad_os.Screen.{Screen, video, cell, put_cell, update_cursor}

-- `x` and `y` are the bit patterns of the `int32_t`.
unfoldable pub draw_full_block : (x y p_char : ℕ) → Screen → Screen
draw_full_block x y p_char s = record s { mem = put_cell s.mem (cell y x) p_char s.text_color }

unfoldable pub get_full_block : (x y : ℕ) → Screen → ℕ
get_full_block x y s = s.mem (cell y x)

-- `lfsr`, an `unsigned short`; the result is its new value.
unfoldable pub rand : (lfsr : ℕ) → ℕ
rand lfsr =
    let bit = bit_xor (bit_xor (bit_xor lfsr (lfsr / 4)) (lfsr / 8)) (lfsr / 32) % 2 in
    lfsr / 2 + bit * 2 ^ 15

-- The loop of `set_color`, with `k` cells left.
unfoldable pub color_cells : ℕ → (color i : ℕ) → Mem → Mem
color_cells zero color i m = m
color_cells (suc k) color i m = color_cells k color (i + 1) (poke m (video + i * 2 + 1) color)

unfoldable pub set_color : (color : ℕ) → Mem → Mem
set_color color m = color_cells 2000 color 0 m

-- `term_vid_mem`.
abbrev pub page : ℕ → Addr
page t = if t == 0 then 0xbc000 else if t == 1 then 0xdc000 else 0xec000

-- The colours of the switch: RED, GREEN, YELLOW.
abbrev pub term_color : ℕ → ℕ
term_color t = if t == 0 then 0x04 else if t == 1 then 0x0a else 0x0e

-- `dest` and `src` are numbers of terminals.
unfoldable pub update_screen : (dest src : ℕ) → Screen → Screen
update_screen dest src s =
    let m1 = memcpy s.mem (page src) video 0x1000 in
    let m2 = memcpy m1 video (page dest) 0x1000 in
    update_cursor (s.y dest) (s.x dest)
      (record s { mem = set_color (term_color dest) m2; text_color = term_color dest })

-- The loop of `test_interrupts`: a `char` that counts up.
unfoldable pub count_cells : ℕ → (i : ℕ) → Mem → Mem
count_cells zero i m = m
count_cells (suc k) i m =
    count_cells k (i + 1) (poke m (video + i * 2) ((m (video + i * 2) + 1) % 0x100))

unfoldable pub test_interrupts : Screen → Screen
test_interrupts s = record s { mem = count_cells 2000 0 s.mem }
