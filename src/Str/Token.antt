-- ===== src/Str/Token.antt =====
-- `strtok` of lib/lib.c: the first word of a command, in the place of a string constant.
use gyarad_os.Base.{ℕ, zero, suc, ◌+◌, ◌||◌, Option, none, some, ◌==◌, if◌then◌else◌}
use gyarad_os.Machine.Memory.{Addr, Mem, poke}
use gyarad_os.Str.{strlen}

-- The loop of `strtok`, with `k` rounds left.
unfoldable pub strtok_loop : ℕ → Mem → (output input : Addr) → (i : ℕ) → ℕ × Mem
strtok_loop zero m output input i = (i, m)
strtok_loop (suc k) m output input i =
    let rest = strtok_loop k (poke m (output + i) (m (input + i))) output input (i + 1) in
    if m (input + i) == b' ' || m (input + i) == 10 || m (input + i) == 0 then (i, m) else rest

-- `output` is the address of the constant; the inner `none` is NULL.
unfoldable pub strtok : Mem → (output input : Addr) → Option (Option Addr × Mem)
strtok m output input = elim (strlen m input) [
  | none ↦ none
  | some len ↦
      if len == 0 || input == 0 || m input == b' '
      then some (none, m)
      else (let (i, m') = strtok_loop (len + 1) m output input 0 in
          some (some output, poke m' (output + i) 0))
]
