-- ===== src/Screen/Printf.antt =====
-- `printf` of lib/lib.c. The arguments are the words of the stack past the format, and a string that
-- is printed, like the buffer of a number, stands in memory.
pub mod Hex
use gyarad_os.Base.{
  ℕ, zero, suc, ◌+◌, ◌-◌, ◌%◌, ◌^◌, Bool, true, false, Option, none, some, List, [], ◌∷◌, ltb, ◌==◌,
  if◌then◌else◌,
}
use gyarad_os.Machine.Memory.{Addr, Mem, poke}
use gyarad_os.Str.{address_space, strlen, itoa}
use gyarad_os.Screen.{Screen, putc}

-- `puts` of a string in memory, which `putc` itself may change.
unfoldable pub puts_loop : ℕ → (terminal : ℕ) → Addr → Screen → Option Screen
puts_loop zero terminal a s = none
puts_loop (suc f) terminal a s =
    let rest = puts_loop f terminal (a + 1) (putc terminal (s.mem a) s) in
    if s.mem a == 0 then some s else rest

unfoldable pub puts_memory : (terminal : ℕ) → Addr → Screen → Option Screen
puts_memory terminal a s = puts_loop address_space terminal a s

-- `while(i < 8) conv_buf[i++] = '0'`, with `k` rounds left.
unfoldable pub zero_pad : ℕ → Mem → Addr → (i : ℕ) → Mem
zero_pad zero m conv_buf i = m
zero_pad (suc k) m conv_buf i = zero_pad k (poke m (conv_buf + i) b'0') conv_buf (i + 1)

-- The digits of `%#x`: the memory, and where they start.
unfoldable pub hex8 : Mem → (conv_buf : Addr) → (value : ℕ) → Option (Mem × Addr)
hex8 m conv_buf value = elim (itoa m value (conv_buf + 8) 16) [
  | none ↦ none
  | some m' ↦ elim (strlen m' (conv_buf + 8)) [
    | none ↦ none
    | some n ↦ some (zero_pad (8 - n) m' conv_buf n, conv_buf + n)
  ]
]

-- The digits of `%d`.
unfoldable pub signed_digits : Mem → (conv_buf : Addr) → (value : ℕ) → Option Mem
signed_digits m conv_buf value =
    if ltb value (2 ^ 31)
    then itoa m value conv_buf 10
    else itoa (poke m conv_buf b'-') (2 ^ 32 - value) (conv_buf + 1) 10

module _ (terminal : ℕ) (conv_buf : Addr) where
  -- The digits that are in memory now, from `a` on.
  abbrev pub puts_digits : Option (Mem × Addr) → Screen → Option Screen
  puts_digits none s = none
  puts_digits (some (m, a)) s = puts_memory terminal a (record s { mem = m })

  abbrev pub from_buffer : Option Mem → Option (Mem × Addr)
  from_buffer none = none
  from_buffer (some m) = some (m, conv_buf)

  -- A conversion other than `%%` and `%#`, with its argument. The outer `none` is for a character
  -- that is no conversion, and takes no argument; the inner one for a string that never ends.
  unfoldable pub convert : (alternate : Bool) → (c word : ℕ) → Screen → Option (Option Screen)
  convert alternate c word s =
      if c == b'x'
      then some (
          puts_digits
            (if alternate
              then hex8 s.mem conv_buf word
              else from_buffer (itoa s.mem word conv_buf 16))
            s)
      else if c == b'u'
      then some (puts_digits (from_buffer (itoa s.mem word conv_buf 10)) s)
      else if c == b'd'
      then some (puts_digits (from_buffer (signed_digits s.mem conv_buf word)) s)
      else if c == b'c'
      then some (some (putc terminal (word % 0x100) s))
      else if c == b's'
      then some (puts_memory terminal word s)
      else none

-- Where `printf` is in the format: among the characters, or past a `%`, or past a `%#`.
pub data Mode : Type 0 where
  literal percent alternate : Mode

module _ (terminal : ℕ) (conv_buf : Addr) (args : ℕ → ℕ) where
  -- The rest of the format, and the number of the next argument. A format that ends in the middle of
  -- a conversion makes the code read past it.
  unfoldable pub printf_from : Mode → List ℕ → (esp : ℕ) → Screen → Option Screen
  unfolding convert
  printf_from literal [] esp s = some s
  printf_from percent [] esp s = none
  printf_from alternate [] esp s = none
  printf_from literal (c ∷ r) esp s =
      let conversion = printf_from percent r esp s in
      let rest = printf_from literal r esp (putc terminal c s) in
      if c == b'%' then conversion else rest
  printf_from percent (c ∷ r) esp s =
      let sharp = printf_from alternate r esp s in
      if c == b'#'
      then sharp
      else if c == b'%'
      then printf_from literal r esp (putc terminal c s)
      else elim (convert terminal conv_buf false c (args esp) s) [
        | none ↦ printf_from literal r esp s
        | some none ↦ none
        | some (some s') ↦ printf_from literal r (esp + 1) s'
      ]
  printf_from alternate (c ∷ r) esp s =
      let sharp = printf_from alternate r esp s in
      if c == b'#'
      then sharp
      else if c == b'%'
      then printf_from literal r esp (putc terminal c s)
      else elim (convert terminal conv_buf true c (args esp) s) [
        | none ↦ printf_from literal r esp s
        | some none ↦ none
        | some (some s') ↦ printf_from literal r (esp + 1) s'
      ]

  unfoldable pub printf : (format : List ℕ) → Screen → Option Screen
  printf format s = printf_from literal format 0 s
