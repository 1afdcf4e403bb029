-- ===== src/Drivers/Mouse.antt =====
-- drivers/mouse.c: the pointer of a PS/2 mouse, a full block that stands on the text screen.
-- A coordinate is an `int32_t`, kept as its bit pattern below 2 ^ 32.
pub mod Bounds
pub mod Pointer
mod Tests
use gyarad_os.Base.{
  ℕ, ◌+◌, ◌-◌, ◌/◌, ◌%◌, ◌^◌, Bool, ◌&&◌, not, List, [], ◌∷◌, ltb, leb, ◌==◌, if◌then◌else◌, bit_or,
}
use gyarad_os.Machine.Bus.{Log, Device, inb, outbs}
use gyarad_os.Drivers.Pic.{send_eoi}
use gyarad_os.Screen.{Screen, int_quot}
use gyarad_os.Screen.Pages.{draw_full_block, get_full_block}

pub record Mouse : Type 0 where
  pub mouse_x : ℕ
  pub mouse_y : ℕ
  pub prev_char : ℕ
  pub flags : ℕ
  pub mouse_byte_1 : ℕ

-- The data port is read, where the status port was meant.
unfoldable pub mouse_ack : Device → Mouse → Log → ℕ × Mouse × Log
mouse_ack dev mouse l =
    let (status, l1) = inb dev 0x60 l in
    let (byte, l2) = inb dev 0x60 l1 in
    if status % 2 == 0
    then (byte, record mouse { flags = 1 }, l2)
    else (0, record mouse { flags = 0 }, l1)

unfoldable pub mouse_init : Device → Mouse → Log → Mouse × Log
mouse_init dev mouse l =
    let (status, l1) = inb dev 0x60 l in
    (
      record mouse { mouse_x = 40; mouse_y = 12 },
      outbs
          ((0xa8, 0x64)
            ∷ (0x20, 0x64)
            ∷ (0x60, 0x64)
            ∷ (bit_or status 2, 0x60)
            ∷ (0x60, 0x64)
            ∷ (0x47, 0x60)
            ∷ (0xd4, 0x64)
            ∷ (0xf4, 0x60)
            ∷ [])
          l1,
    )

-- A byte of the packet, with the sign that the first one has for it.
unfoldable pub sign_extend : (negative : Bool) → ℕ → ℕ
sign_extend negative byte = if negative then bit_or byte 0xffff_ff00 else byte

-- `if(v < 0) v = 0; else if(v > last) v = last;`
unfoldable pub clamp : (last v : ℕ) → ℕ
clamp last v = if leb (2 ^ 31) v then 0 else if ltb last v then last else v

-- The packet whose first byte has no overflow: the block goes to its new place.
unfoldable pub move_pointer : Device → Mouse → Screen → Mouse × Screen
move_pointer dev mouse s =
    let (b2, l1) = inb dev 0x60 s.log in
    let (b3, l2) = inb dev 0x60 l1 in
    let mouse_byte_2 = sign_extend (mouse.mouse_byte_1 / 0x10 % 2 == 1) b2 in
    let mouse_byte_3 = sign_extend (mouse.mouse_byte_1 / 0x20 % 2 == 1) b3 in
    let s1 = draw_full_block mouse.mouse_x mouse.mouse_y mouse.prev_char (record s { log = l2 }) in
    let x = clamp 79 ((mouse.mouse_x + int_quot mouse_byte_2 6) % 2 ^ 32) in
    let y = clamp 24 ((mouse.mouse_y + (2 ^ 32 - int_quot mouse_byte_3 6)) % 2 ^ 32) in
    (
      record mouse { mouse_x = x; mouse_y = y; prev_char = get_full_block x y s1 },
      draw_full_block x y 219 s1,
    )

unfoldable pub mouse_handle_interrupt : Device → Mouse → Screen → Mouse × Screen
mouse_handle_interrupt dev mouse s =
    let (b1, mouse1, l1) = mouse_ack dev mouse s.log in
    let mouse2 = record mouse1 { mouse_byte_1 = b1 } in
    let s2 = record s { log = l1 } in
    let moved = move_pointer dev mouse2 s2 in
    let (mouse3, s3) =
      if b1 / 8 % 2 == 1 && (not (b1 / 0x80 % 2 == 1) && not (b1 / 0x40 % 2 == 1))
      then moved
      else (mouse2, s2) in
    (mouse3, record s3 { log = send_eoi 12 s3.log })
