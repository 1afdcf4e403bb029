-- ===== src/Drivers/Mouse/Bounds.antt =====
-- Where the pointer goes.
use gyarad_os.Base.{
  ℕ, ◌+◌, ◌-◌, ◌/◌, ◌%◌, ◌^◌, ◌≤◌, ◌<◌, ◌≡◌, refl, Bool, true, false, Bool-cases, inl, inr, arith,
  ltb, ◌==◌, ==_iff, if◌then◌else◌, bit_or, not, ◌&&◌, ◌∷◌,
}
use gyarad_os.Base.Bits.{all_below, all_below_sound}
use gyarad_os.Machine.Bus.{inb}
use gyarad_os.Machine.Bus.{Device, Log, got}
use gyarad_os.Screen.{Screen, int_quot}
use gyarad_os.Drivers.Mouse.{
  Mouse, sign_extend, clamp, move_pointer, mouse_handle_interrupt, mouse_ack,
}

-- The pointer is on the screen.
pub record OnScreen (mouse : Mouse) : Type 0 where
  pub column : mouse.mouse_x ≤ 79
  pub row : mouse.mouse_y ≤ 24

-- The step that a byte of the packet asks for, in cells: it counts in sixths, and a sign bit takes
-- 256 from the byte.
unfoldable pub steps : (negative : Bool) → ℕ → ℕ
steps negative byte = if negative then (256 - byte) / 6 else byte / 6

-- A coordinate that moves by so many cells and stays within 0 and `last`.
unfoldable pub slide : (last : ℕ) → (back : Bool) → (count v : ℕ) → ℕ
slide last back count v =
    if back then v - count else if ltb last (v + count) then last else v + count

extend_table : all_below 256 (λ b. bit_or b 0xffff_ff00 == b + 0xffff_ff00) ≡ true
unfolding all_below
extend_table = refl

extend : (b : ℕ) → b < 256 → bit_or b 0xffff_ff00 ≡ b + 0xffff_ff00
extend b h = (==_iff _ _).0 (all_below_sound 256 _ b extend_table h)

column :
    (negative : Bool) (b x : ℕ)
    → b < 256
    → x ≤ 79
    → clamp 79 ((x + int_quot (sign_extend negative b) 6) % 2 ^ 32)
      ≡ slide 79 negative (steps negative b) x
unfolding clamp sign_extend int_quot slide steps
column true b x h hx = rw (extend b h) (ground arith)
column false b x h hx = ground arith

row :
    (negative : Bool) (b y : ℕ)
    → b < 256
    → y ≤ 24
    → clamp 24 ((y + (2 ^ 32 - int_quot (sign_extend negative b) 6)) % 2 ^ 32)
      ≡ slide 24 (not negative) (steps negative b) y
unfolding clamp sign_extend int_quot slide steps
row true b y h hy = rw (extend b h) (ground arith)
row false b y h hy = ground arith

clamp-≤ : (last v : ℕ) → clamp last v ≤ last
unfolding clamp
clamp-≤ last v = ground arith

pub move_pointer-OnScreen :
    (dev : Device) (mouse : Mouse) (s : Screen) → OnScreen (move_pointer dev mouse s).0
unfolding move_pointer
move_pointer-OnScreen dev mouse s = record { column = clamp-≤ 79 _; row = clamp-≤ 24 _ }

-- What holds of the mouse and the screen after an interrupt, when it holds after each of its two
-- courses, and does not depend on what is on the bus.
pub handle_cases :
    (P : Mouse → Screen → Type 0) (dev : Device) (mouse : Mouse) (s : Screen)
    → ((m : Mouse) (s' : Screen) (l : Log) → P m s' → P m (record s' { log = l }))
    → ((f b : ℕ) (l : Log)
        → P (record mouse { flags = f; mouse_byte_1 = b }) (record s { log = l }))
    → ((f b : ℕ) (l : Log)
        → let moved =
            move_pointer dev
              (record mouse { flags = f; mouse_byte_1 = b })
              (record s { log = l }) in
          P moved.0 moved.1)
    → P (mouse_handle_interrupt dev mouse s).0 (mouse_handle_interrupt dev mouse s).1
unfolding mouse_handle_interrupt mouse_ack inb
handle_cases P dev mouse s bus ignored moved = elim (Bool-cases (dev s.log 0x60 % 256 % 2 == 0)) [
  | inl e ↦ rw e (
      let l1 = got (dev s.log 0x60 % 256) 0x60 ∷ s.log in
      let b = dev l1 0x60 % 256 in
      elim (Bool-cases (b / 8 % 2 == 1 && (not (b / 0x80 % 2 == 1) && not (b / 0x40 % 2 == 1)))) [
        | inl valid ↦ rw valid (bus _ _ _ (moved 1 b (got b 0x60 ∷ l1)))
        | inr invalid ↦ rw invalid (bus _ _ _ (ignored 1 b (got b 0x60 ∷ l1)))
      ])
  | inr e ↦ rw e (bus _ _ _ (ignored 0 0 (got (dev s.log 0x60 % 256) 0x60 ∷ s.log)))
]

-- Whatever the mouse sends, an interrupt leaves the pointer within the 80 columns and the 25 rows,
-- if it was there before.
pub mouse_handle_interrupt-OnScreen :
    (dev : Device) (mouse : Mouse) (s : Screen)
    → OnScreen mouse
    → OnScreen (mouse_handle_interrupt dev mouse s).0
mouse_handle_interrupt-OnScreen dev mouse s on =
    handle_cases (λ m s'. OnScreen m) dev mouse s (λ m s' l h. h)
      (λ f b l. record { column = on.column; row = on.row })
      (λ f b l. move_pointer-OnScreen dev _ _)

-- The bytes of a packet, as they are read one after the other.
abbrev pub second : Device → Screen → ℕ
second dev s = (inb dev 0x60 s.log).0

abbrev pub third : Device → Screen → ℕ
third dev s = (inb dev 0x60 (inb dev 0x60 s.log).1).0

-- A packet moves the pointer by a sixth of each of its two numbers, which are signed and go from
-- -256 to 255, to the right and up, and the pointer stops at the edge of the screen.
pub move_pointer-slides :
    (dev : Device) (mouse : Mouse) (s : Screen)
    → OnScreen mouse
    → let left = mouse.mouse_byte_1 / 0x10 % 2 == 1 in
      let down = mouse.mouse_byte_1 / 0x20 % 2 == 1 in
      ((move_pointer dev mouse s).0.mouse_x
        ≡ slide 79 left (steps left (second dev s)) mouse.mouse_x)
      × ((move_pointer dev mouse s).0.mouse_y
          ≡ slide 24 (not down) (steps down (third dev s)) mouse.mouse_y)
unfolding move_pointer inb
move_pointer-slides dev mouse s on =
    (column _ _ _ (omega arith) on.column, row _ _ _ (omega arith) on.row)
