-- ===== src/Str.antt =====
-- The string functions of lib/lib.c, over byte memory. A loop that runs to a NUL takes fuel, one
-- round for each address of the 32-bit address space; `none` is a loop that never ends. A counted
-- loop recurs on the rounds left. A `char` is signed on this machine, which `strncmp` shows.
pub mod Length
pub mod Copy
pub mod Compare
pub mod Reverse
pub mod Number
pub mod Token
mod Tests
use gyarad_os.Base.{
  ℕ, zero, suc, ◌+◌, ◌-◌, ◌/◌, ◌%◌, ◌^◌, ◌≡◌, refl, Bool, true, false, ◌||◌, Option, none, some,
  not, ltb, ◌==◌, if◌then◌else◌,
}
use gyarad_os.Base.Int.{ℤ, pos, negsuc, ◌-ℤ◌}
use gyarad_os.Machine.Memory.{Addr, Mem, poke}

-- One round for each address.
unfoldable pub address_space : ℕ
address_space = 2 ^ 32

pub address_space_lem : address_space ≡ 2 ^ 32
unfolding address_space
address_space_lem = refl

unfoldable pub strlen_loop : ℕ → Mem → Addr → ℕ → Option ℕ
strlen_loop zero m s len = none
strlen_loop (suc f) m s len =
    let rest = strlen_loop f m s (len + 1) in if m (s + len) == 0 then some len else rest

unfoldable pub strlen : Mem → Addr → Option ℕ
strlen m s = strlen_loop address_space m s 0

-- The copy reads `src` in the memory that it has already written to.
unfoldable pub strcpy_loop : ℕ → Mem → (dest src : Addr) → ℕ → Option Mem
strcpy_loop zero m dest src i = none
strcpy_loop (suc f) m dest src i =
    let rest = strcpy_loop f (poke m (dest + i) (m (src + i))) dest src (i + 1) in
    if m (src + i) == 0 then some (poke m (dest + i) 0) else rest

unfoldable pub strcpy : Mem → (dest src : Addr) → Option Mem
strcpy m dest src = strcpy_loop address_space m dest src 0

-- The second loop of `strncpy`, with `k` rounds left.
unfoldable pub strncpy_pad : ℕ → Mem → (dest : Addr) → ℕ → Mem
strncpy_pad zero m dest i = m
strncpy_pad (suc k) m dest i = strncpy_pad k (poke m (dest + i) 0) dest (i + 1)

-- The first loop, with `k` of the `n` rounds left.
unfoldable pub strncpy_loop : ℕ → Mem → (dest src : Addr) → ℕ → Mem
strncpy_loop zero m dest src i = m
strncpy_loop (suc k) m dest src i =
    let rest = strncpy_loop k (poke m (dest + i) (m (src + i))) dest src (i + 1) in
    if m (src + i) == 0 then strncpy_pad (suc k) m dest i else rest

unfoldable pub strncpy : Mem → (dest src : Addr) → ℕ → Mem
strncpy m dest src n = strncpy_loop n m dest src 0

-- The number that a `char` stands for.
unfoldable pub signed8 : ℕ → ℤ
signed8 c = if ltb c 0x80 then pos c else negsuc (0xff - c)

unfoldable pub strncmp_loop : ℕ → Mem → (s1 s2 : Addr) → ℕ → ℤ
strncmp_loop zero m s1 s2 i = pos 0
strncmp_loop (suc k) m s1 s2 i =
    let rest = strncmp_loop k m s1 s2 (i + 1) in
    if not (m (s1 + i) == m (s2 + i)) || m (s1 + i) == 0
    then signed8 (m (s1 + i)) -ℤ signed8 (m (s2 + i))
    else rest

unfoldable pub strncmp : Mem → (s1 s2 : Addr) → ℕ → ℤ
strncmp m s1 s2 n = strncmp_loop n m s1 s2 0

-- `beg < end` with `end` counted from 1 (`end` starts at `strlen(s) - 1`, which is -1 at an empty
-- string): the loop runs on the distance.
unfoldable pub strrev_loop : ℕ → Mem → (s : Addr) → (beg past : ℕ) → Mem
strrev_loop zero m s beg past = m
strrev_loop (suc f) m s beg past =
    let end = past - 1 in
    let swapped = poke (poke m (s + end) (m (s + beg))) (s + beg) (m (s + end)) in
    let rest = strrev_loop f swapped s (beg + 1) end in if ltb (beg + 1) past then rest else m

unfoldable pub strrev : Mem → Addr → Option Mem
strrev m s = elim (strlen m s) [ none ↦ none | some n ↦ some (strrev_loop n m s 0 n) ]

-- `lookup[]` of `itoa`, "0123456789ABCDEFGHIJKLMNOPQRSTUVWXYZ".
unfoldable pub digit_char : ℕ → ℕ
digit_char d = if ltb d 10 then 48 + d else 55 + d

unfoldable pub itoa_loop : ℕ → Mem → (newbuf : Addr) → (newval radix : ℕ) → Option (Mem × Addr)
itoa_loop zero m newbuf newval radix = none
itoa_loop (suc f) m newbuf newval radix =
    let rest =
      itoa_loop f (poke m newbuf (digit_char (newval % radix))) (newbuf + 1) (newval / radix)
        radix in
    if newval == 0 then some (m, newbuf) else rest

-- 32 digits are enough for every radix from 2 on, and one more round ends the loop.
unfoldable pub itoa : Mem → (value : ℕ) → (buf : Addr) → (radix : ℕ) → Option Mem
itoa m value buf radix =
    if value == 0
    then some (poke (poke m buf b'0') (buf + 1) 0)
    else elim (itoa_loop 33 m buf value radix) [
      | none ↦ none
      | some (m', newbuf) ↦ strrev (poke m' newbuf 0) buf
    ]
