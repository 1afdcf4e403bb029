-- ===== src/Screen/Splash.antt =====
-- `splash_screen` of lib/lib.c, which nothing calls.
use gyarad_os.Base.{ℕ, Option, none, some, List, [], ◌∷◌, codes}
use gyarad_os.Machine.Memory.{Addr}
use gyarad_os.Machine.Bus.{Device}
use gyarad_os.Drivers.Speaker.{sound_bootup}
use gyarad_os.Screen.{Screen, clear_screen}
use gyarad_os.Screen.Printf.{printf}

abbrev splash : List (List ℕ)
splash =
    codes "\n\n\n\n\n\n\n\n"
    ∷ codes "                                                _  ____   _____                \n"
    ∷ codes "                                               | |/ __ \\ / ____|               \n"
    ∷ codes "                 __ _ _   _  __ _ _ __ __ _  __| | |  | | (___                 \n"
    ∷ codes "                / _` | | | |/ _` | '__/ _` |/ _` | |  | |\\___ \\                \n"
    ∷ codes "               | (_| | |_| | (_| | | | (_| | (_| | |__| |____) |               \n"
    ∷ codes
        "                \\__, |\\__, |\\__,_|_|  \\__,_|\\__,_|\\____/|_____/                \n"
    ∷ codes "                 __/ | __/ |                                                   \n"
    ∷ codes "                |___/ |___/                                                    "
    ∷ codes "\n\n\n\n\n\n\n\n"
    ∷ []

-- One `printf` after the other, without arguments: `args` is what stands on the stack.
unfoldable pub print_all :
    (terminal : ℕ) → (conv_buf : Addr) → (args : ℕ → ℕ) → List (List ℕ) → Screen → Option Screen
print_all terminal conv_buf args [] s = some s
print_all terminal conv_buf args (f ∷ r) s = elim (printf terminal conv_buf args f s) [
  | none ↦ none
  | some s' ↦ print_all terminal conv_buf args r s'
]

unfoldable pub splash_screen :
    Device → (terminal : ℕ) → (conv_buf : Addr) → (args : ℕ → ℕ) → Screen → Option Screen
splash_screen dev terminal conv_buf args s =
    elim (print_all terminal conv_buf args splash (clear_screen s)) [
      | none ↦ none
      | some s' ↦ some (clear_screen (record s' { log = sound_bootup dev s'.log }))
    ]
