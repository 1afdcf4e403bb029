-- ===== src/Kernel/Keyboard/Tables.antt =====
-- The three key tables of drivers/keyboard.c, indexed by the code of the key. 0 is
-- `ASCII_NULL_CHAR` and 254 `ASCII_PLACEHOLDER`; 39 is the quote and 92 the backslash.
use gyarad_os.Base.{ℕ, zero, suc, List, [], ◌∷◌}

unfoldable pub code_to_ascii : List ℕ
code_to_ascii =
    0 ∷ 254 ∷ b'1' ∷ b'2' ∷ b'3' ∷ b'4' ∷ b'5' ∷ b'6' ∷ b'7' ∷ b'8' ∷ b'9' ∷ b'0' ∷ b'-' ∷ b'='
    ∷ 254 ∷ 254 ∷ b'q' ∷ b'w' ∷ b'e' ∷ b'r' ∷ b't' ∷ b'y' ∷ b'u' ∷ b'i' ∷ b'o' ∷ b'p' ∷ b'[' ∷ b']'
    ∷ 254 ∷ 254 ∷ b'a' ∷ b's' ∷ b'd' ∷ b'f' ∷ b'g' ∷ b'h' ∷ b'j' ∷ b'k' ∷ b'l' ∷ b';' ∷ 39 ∷ b'`'
    ∷ 254 ∷ 92 ∷ b'z' ∷ b'x' ∷ b'c' ∷ b'v' ∷ b'b' ∷ b'n' ∷ b'm' ∷ b',' ∷ b'.' ∷ b'/' ∷ 254 ∷ b'*'
    ∷ 254 ∷ b' ' ∷ 254 ∷ 254 ∷ 254 ∷ 254 ∷ 254 ∷ 254 ∷ 254 ∷ 254 ∷ 254 ∷ 254 ∷ 254 ∷ 254 ∷ 254
    ∷ b'7' ∷ b'8' ∷ b'9' ∷ b'-' ∷ b'4' ∷ b'5' ∷ b'6' ∷ b'+' ∷ b'1' ∷ b'2' ∷ b'3' ∷ b'0' ∷ b'.' ∷ 0
    ∷ 0 ∷ 0 ∷ 254 ∷ 254 ∷ []

unfoldable pub shift_ascii : List ℕ
shift_ascii =
    0 ∷ 254 ∷ b'!' ∷ b'@' ∷ b'#' ∷ b'$' ∷ b'%' ∷ b'^' ∷ b'&' ∷ b'*' ∷ b'(' ∷ b')' ∷ b'_' ∷ b'+'
    ∷ 254 ∷ 254 ∷ b'Q' ∷ b'W' ∷ b'E' ∷ b'R' ∷ b'T' ∷ b'Y' ∷ b'U' ∷ b'I' ∷ b'O' ∷ b'P' ∷ b'{' ∷ b'}'
    ∷ 254 ∷ 254 ∷ b'A' ∷ b'S' ∷ b'D' ∷ b'F' ∷ b'G' ∷ b'H' ∷ b'J' ∷ b'K' ∷ b'L' ∷ b':' ∷ b'"' ∷ b'~'
    ∷ 254 ∷ b'|' ∷ b'Z' ∷ b'X' ∷ b'C' ∷ b'V' ∷ b'B' ∷ b'N' ∷ b'M' ∷ b'<' ∷ b'>' ∷ b'?' ∷ 254 ∷ b'*'
    ∷ 254 ∷ b' ' ∷ 254 ∷ 254 ∷ 254 ∷ 254 ∷ 254 ∷ 254 ∷ 254 ∷ 254 ∷ 254 ∷ 254 ∷ 254 ∷ 254 ∷ 254
    ∷ b'7' ∷ b'8' ∷ b'9' ∷ b'-' ∷ b'4' ∷ b'5' ∷ b'6' ∷ b'+' ∷ b'1' ∷ b'2' ∷ b'3' ∷ b'0' ∷ b'.' ∷ 0
    ∷ 0 ∷ 0 ∷ 254 ∷ 254 ∷ []

unfoldable pub caps_ascii : List ℕ
caps_ascii =
    0 ∷ 254 ∷ b'1' ∷ b'2' ∷ b'3' ∷ b'4' ∷ b'5' ∷ b'6' ∷ b'7' ∷ b'8' ∷ b'9' ∷ b'0' ∷ b'-' ∷ b'='
    ∷ 254 ∷ 254 ∷ b'Q' ∷ b'W' ∷ b'E' ∷ b'R' ∷ b'T' ∷ b'Y' ∷ b'U' ∷ b'I' ∷ b'O' ∷ b'P' ∷ b'{' ∷ b'}'
    ∷ 254 ∷ 254 ∷ b'A' ∷ b'S' ∷ b'D' ∷ b'F' ∷ b'G' ∷ b'H' ∷ b'J' ∷ b'K' ∷ b'L' ∷ b':' ∷ b'"' ∷ b'~'
    ∷ 254 ∷ b'|' ∷ b'Z' ∷ b'X' ∷ b'C' ∷ b'V' ∷ b'B' ∷ b'N' ∷ b'M' ∷ b',' ∷ b'.' ∷ b'/' ∷ 254 ∷ b'*'
    ∷ 254 ∷ b' ' ∷ 254 ∷ 254 ∷ 254 ∷ 254 ∷ 254 ∷ 254 ∷ 254 ∷ 254 ∷ 254 ∷ 254 ∷ 254 ∷ 254 ∷ 254
    ∷ b'7' ∷ b'8' ∷ b'9' ∷ b'-' ∷ b'4' ∷ b'5' ∷ b'6' ∷ b'+' ∷ b'1' ∷ b'2' ∷ b'3' ∷ b'0' ∷ b'.' ∷ 0
    ∷ 0 ∷ 0 ∷ 254 ∷ 254 ∷ []

-- `table[code]` of a table that has the index.
unfoldable pub entry : List ℕ → (code : ℕ) → ℕ
entry [] code = 0
entry (x ∷ xs) zero = x
entry (x ∷ xs) (suc code) = entry xs code
