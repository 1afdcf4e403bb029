-- ===== src/Drivers/Mouse/Pointer.antt =====
-- The text that the pointer stands on.
use gyarad_os.Base.{
  ℕ, ◌≤◌, ◌≡◌, refl, ◌∙◌, Bool, Bool-cases, inl, inr, arith, ◌==◌, if◌then◌else◌, ◌&&◌,
}
use gyarad_os.Machine.Memory.{Mem}
use gyarad_os.Machine.Bus.{Device}
use gyarad_os.Screen.{Screen, cell, put_cell}
use gyarad_os.Screen.Pages.{draw_full_block, get_full_block}
use gyarad_os.Drivers.Mouse.{Mouse, move_pointer, mouse_handle_interrupt}
use gyarad_os.Drivers.Mouse.Bounds.{OnScreen, handle_cases, move_pointer-OnScreen}

-- The text without the pointer: the character of a cell, and the one that the pointer hides where
-- it stands.
abbrev pub text : Mouse → Screen → (row col : ℕ) → ℕ
text mouse s row col =
    if row == mouse.mouse_y && col == mouse.mouse_x then mouse.prev_char else s.mem (cell row col)

put-cell :
    (m : Mem) (y x c color row col : ℕ)
    → y ≤ 24
    → x ≤ 79
    → row ≤ 24
    → col ≤ 79
    → put_cell m (cell y x) c color (cell row col)
      ≡ (if row == y && col == x then c else m (cell row col))
put-cell m y x c color row col hy hx hr hc = ground arith

-- Whether a cell is the one at (y, x).
abbrev pub is_at : (y x row col : ℕ) → Bool
is_at y x row col = row == y && col == x

-- The block goes from one cell to another.
redrawn-text :
    (m : Mem) (y x c y' x' color row col : ℕ)
    → y ≤ 24
    → x ≤ 79
    → y' ≤ 24
    → x' ≤ 79
    → row ≤ 24
    → col ≤ 79
    → let m1 = put_cell m (cell y x) c color in
      (if is_at y' x' row col
        then m1 (cell y' x')
        else put_cell m1 (cell y' x') 219 color (cell row col))
      ≡ (if is_at y x row col then c else m (cell row col))
redrawn-text m y x c y' x' color row col hy hx hy' hx' hr hc =
    let m1 = put_cell m (cell y x) c color in
    elim (Bool-cases (is_at y' x' row col)) [
      | inl e ↦
          let here : m1 (cell y' x') ≡ m1 (cell row col) = ground (arith, e) in
          rw e (here ∙ put-cell m y x c color row col hy hx hr hc)
      | inr e ↦ rw e (
          (put-cell m1 y' x' 219 color row col hy' hx' hr hc ∙ rw e refl)
          ∙ put-cell m y x c color row col hy hx hr hc)
    ]

move_pointer-text :
    (dev : Device) (mouse : Mouse) (s : Screen)
    → OnScreen mouse
    → (row col : ℕ) → row ≤ 24
    → col ≤ 79
    → text (move_pointer dev mouse s).0 (move_pointer dev mouse s).1 row col ≡ text mouse s row col
unfolding move_pointer draw_full_block get_full_block
move_pointer-text dev mouse s on row col hr hc =
    let on' = move_pointer-OnScreen dev mouse s in
    redrawn-text s.mem mouse.mouse_y mouse.mouse_x mouse.prev_char _ _ s.text_color row col on.row
      on.column on'.row on'.column hr hc

-- The text under the pointer is not lost: whatever the mouse sends, an interrupt leaves every
-- character of the screen as it was, where the one that the pointer hides is the one that the
-- driver keeps.
pub mouse_handle_interrupt-text :
    (dev : Device) (mouse : Mouse) (s : Screen)
    → OnScreen mouse
    → (row col : ℕ) → row ≤ 24
    → col ≤ 79
    → text (mouse_handle_interrupt dev mouse s).0 (mouse_handle_interrupt dev mouse s).1 row col
      ≡ text mouse s row col
mouse_handle_interrupt-text dev mouse s on row col hr hc =
    handle_cases (λ m s'. text m s' row col ≡ text mouse s row col) dev mouse s (λ m s' l h. h)
      (λ f b l. refl)
      (λ f b l.
        move_pointer-text dev (record mouse { flags = f; mouse_byte_1 = b }) (record s { log = l })
          (record { column = on.column; row = on.row }) row col hr hc)
