-- ===== src/Drivers/Mouse/Tests.antt =====
-- A mouse that moves to the left and down, with the pointer at the left edge.
use gyarad_os.Base.{◌≡◌, arith, []}
use gyarad_os.Machine.Bus.{Device}
use gyarad_os.Screen.{Screen}
use gyarad_os.Drivers.Mouse.{Mouse, mouse_handle_interrupt}
use gyarad_os.Drivers.Mouse.Bounds.{OnScreen, mouse_handle_interrupt-OnScreen}
use gyarad_os.Drivers.Mouse.Pointer.{text, mouse_handle_interrupt-text}

-- Every byte is 0x38: a packet with both signs.
abbrev leftwards : Device
leftwards l port = 0x38

abbrev at_edge : Mouse
at_edge = record { mouse_x = 2; mouse_y = 24; prev_char = b'p'; flags = 1; mouse_byte_1 = 0x38 }

abbrev letters : Screen
letters = record { mem = λ a. b'x'; log = []; x = λ t. 0; y = λ t. 0; active = 0; text_color = 2 }

at_edge-OnScreen : OnScreen at_edge
at_edge-OnScreen = record { column = omega arith; row = omega arith }

mouse_handle_interrupt-OnScreen_example :
    OnScreen (mouse_handle_interrupt leftwards at_edge letters).0
mouse_handle_interrupt-OnScreen_example =
    mouse_handle_interrupt-OnScreen leftwards at_edge letters at_edge-OnScreen

mouse_handle_interrupt-text_example :
    text
      (mouse_handle_interrupt leftwards at_edge letters).0
      (mouse_handle_interrupt leftwards at_edge letters).1
      24
      2
    ≡ text at_edge letters 24 2
mouse_handle_interrupt-text_example =
    mouse_handle_interrupt-text leftwards at_edge letters at_edge-OnScreen 24 2 (omega arith)
      (omega arith)
