-- ===== src/Kernel/Keyboard/Tests.antt =====
-- The keyboard's handler on a machine whose keyboard sends the code of the key D.
use gyarad_os.Base.{refl, arith, ◌==◌}
use gyarad_os.Kernel.State.{Kernel}
use gyarad_os.Kernel.Keyboard.{Keys, handle_keypress}
use gyarad_os.Kernel.Keyboard.Modifiers.{Tracks, Held, held_step, handle_keypress-Tracks}
use gyarad_os.Kernel.Keyboard.Outcomes.{Leaves}
use gyarad_os.Kernel.Tests.Data.{machine, running}

-- Shift is down.
abbrev shifted : Keys
shifted = record {
  special_key_enabled = 0;
  cntrl_l_on = 0;
  cntrl_r_on = 0;
  caps_on = 0;
  shift_l_on = 1;
  shift_r_on = 0;
  alt_l_on = 0;
  alt_r_on = 0;
}

abbrev shift_held : Held
shift_held c = c == 0x2a

handle_keypress-Tracks_example :
    Leaves
      (λ s'. Tracks s' (held_step 0x20 shift_held))
      (handle_keypress machine 5 0 0x40 0x70_0000 0x70_0010 shifted running)
handle_keypress-Tracks_example =
    handle_keypress-Tracks machine 5 0 0x40 0x70_0000 0x70_0010 shifted running shift_held 0x20 refl
      (λ e. omega arith)
      (record { cntrl_l = refl; shift_l = refl; shift_r = refl; alt_l = refl; special = refl })
