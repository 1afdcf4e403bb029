-- ===== src/Screen/Pages/Swap.antt =====
-- `update_screen` exchanges what the screen shows with the pages of the terminals.
use gyarad_os.Base.{
  ℕ, zero, suc, ◌+◌, ◌-◌, ◌*◌, ◌%◌, ◌≤◌, ◌<◌, ◌≡◌, ◌≢◌, ◌⊎◌, refl, sym, ◌∙◌, false, arith, ◌==◌,
  ◌&&◌, if◌then◌else◌,
}
use gyarad_os.Machine.Memory.{Addr, Mem, poke, within, blit, ◌≐◌}
use gyarad_os.Str.Compare.{IsBytes}
use gyarad_os.Block.{memcpy}
use gyarad_os.Block.Move.{memcpy-blit}
use gyarad_os.Screen.{Screen, video, update_cursor}
use gyarad_os.Screen.Pages.{color_cells, set_color, page, term_color, update_screen}

-- `n` cells from `a` on in one colour.
abbrev pub colored : Mem → Addr → (n color : ℕ) → Mem
colored m a n color = λ x. if within a (2 * n) x && x % 2 == 1 then color else m x

color_cells-colored :
    (k : ℕ) (color i : ℕ) (m : Mem) → color_cells k color i m ≐ colored m (video + i * 2) k color
unfolding color_cells
color_cells-colored zero color i m x = ground arith
color_cells-colored (suc k) color i m x =
    color_cells-colored k color (i + 1) (poke m (video + i * 2 + 1) color) x ∙ ground arith

pub set_color-colored : (color : ℕ) (m : Mem) → set_color color m ≐ colored m video 2000 color
unfolding set_color
set_color-colored color m x = color_cells-colored 2000 color 0 m x

-- What the screen shows and the pages hold after a change from terminal `src` to `dest`.
pub record Swapped (s s' : Screen) (dest src : ℕ) : Type 0 where
  pub saved : (i : ℕ) → i < 0x1000 → s'.mem (page src + i) ≡ s.mem (video + i)
  pub shown : (i : ℕ) → i < 2000 → s'.mem (video + 2 * i) ≡ s.mem (page dest + 2 * i)
  pub colors : (i : ℕ) → i < 2000 → s'.mem (video + 2 * i + 1) ≡ term_color dest
  pub kept :
      (x : Addr)
      → within video 0x1000 x ≡ false
      → within (page src) 0x1000 x ≡ false
      → s'.mem x ≡ s.mem x
  pub byte : IsBytes s'.mem
  pub x : s'.x ≡ s.x
  pub y : s'.y ≡ s.y

page_apart : (t : ℕ) → (page t + 0x1000 ≤ video) ⊎ (video + 0x1000 ≤ page t)
page_apart t = ground arith

-- The memory that `update_screen` leaves, before its colours.
abbrev turned : Mem → (dest src : ℕ) → Mem
turned m dest src = blit (blit m (page src) video 0x1000) video (page dest) 0x1000

memcpy-turned :
    (dest src : ℕ) (m : Mem)
    → IsBytes m
    → memcpy (memcpy m (page src) video 0x1000) video (page dest) 0x1000 ≐ turned m dest src
memcpy-turned dest src m byte x =
    let m1 = memcpy m (page src) video 0x1000 in
    let first = memcpy-blit m (page src) video 0x1000 byte (ground (arith, page_apart src)) in
    let byte1 : IsBytes m1 = λ a. ground (arith, first a, byte a, byte (video + (a - page src))) in
    memcpy-blit m1 video (page dest) 0x1000 byte1 (ground (arith, page_apart dest)) x
    ∙ ground (arith, first x, first (page dest + (x - video)))

update_screen-mem :
    (dest src : ℕ) (s : Screen)
    → IsBytes s.mem
    → (update_screen dest src s).mem ≐ colored (turned s.mem dest src) video 2000 (term_color dest)
unfolding update_screen update_cursor
update_screen-mem dest src s byte x =
    let m2 = memcpy (memcpy s.mem (page src) video 0x1000) video (page dest) 0x1000 in
    set_color-colored (term_color dest) m2 x ∙ ground (arith, memcpy-turned dest src s.mem byte x)

turned-IsBytes : (m : Mem) (dest src : ℕ) → IsBytes m → IsBytes (turned m dest src)
turned-IsBytes m dest src byte x = ground (
  arith,
  byte x,
  byte (video + (x - page src)),
  byte (page dest + (x - video)),
  byte (video + (page dest + (x - video) - page src)),
)

pages_apart :
    (t u : ℕ) → t < 3 → u < 3 → t ≢ u → (page t + 0x1000 ≤ page u) ⊎ (page u + 0x1000 ≤ page t)
pages_apart t u ht hu ne = ground arith

pub update_screen-Swapped :
    (dest src : ℕ) (s : Screen)
    → dest < 3
    → src < 3
    → dest ≢ src
    → IsBytes s.mem
    → Swapped s (update_screen dest src s) dest src
unfolding update_screen update_cursor
update_screen-Swapped dest src s hd hs ne byte =
    let m = update_screen-mem dest src s byte in
    let distinct = pages_apart dest src hd hs ne in
    record {
      saved = λ i h. m (page src + i) ∙ ground (arith, page_apart src, distinct);
      shown = λ i h. m (video + 2 * i) ∙ ground (arith, page_apart src, page_apart dest, distinct);
      colors = λ i h. m (video + 2 * i + 1) ∙ ground arith;
      kept = λ x out out'. m x ∙ ground (arith, out, out');
      byte = λ x. rw (m x) (ground (arith, turned-IsBytes s.mem dest src byte x));
      x = refl;
      y = refl;
    }

-- Going to another terminal and back, with nothing printed in between, shows the characters of the
-- first terminal again, all in its own colour, and leaves the cursors where they were.
pub update_screen-update_screen :
    (t u : ℕ) (s : Screen)
    → t < 3
    → u < 3
    → t ≢ u
    → IsBytes s.mem
    → let s' = update_screen t u (update_screen u t s) in
      ((i : ℕ) → i < 2000 → s'.mem (video + 2 * i) ≡ s.mem (video + 2 * i))
      × ((i : ℕ) → i < 2000 → s'.mem (video + 2 * i + 1) ≡ term_color t)
      × ((i : ℕ) → i < 2000 → s'.mem (page u + 2 * i) ≡ s.mem (page u + 2 * i))
      × (s'.x ≡ s.x)
      × (s'.y ≡ s.y)
update_screen-update_screen t u s ht hu ne byte =
    let there = update_screen-Swapped u t s hu ht (λ e. ne (sym e)) byte in
    let back = update_screen-Swapped t u (update_screen u t s) ht hu ne there.byte in
    (
      (λ i h. back.shown i h ∙ there.saved (2 * i) (omega arith)),
      back.colors,
      (λ i h. back.saved (2 * i) (omega arith) ∙ there.shown i h),
      back.x ∙ there.x,
      back.y ∙ there.y,
    )
