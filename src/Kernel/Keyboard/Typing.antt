-- ===== src/Kernel/Keyboard/Typing.antt =====
-- Printable keys: the characters of the tables, and where they go.
use gyarad_os.Base.{
  List, [], ◌∷◌, codes, ℕ, ◌-◌, ◌<◌, ◌≡◌, refl, Bool, true, ◌&&◌, not, arith, ltb, leb, ◌==◌,
  if◌then◌else◌,
}
use gyarad_os.Base.Bits.{all_below, all_below_sound}
use gyarad_os.Machine.Bus.{inb}
use gyarad_os.Console.{Console}
use gyarad_os.Kernel.State.{Kernel, Env, log, set_log, cli}
use gyarad_os.Kernel.Keyboard.{Keys, is_on, shift_on, key_table, acknowledge, set_console}
use gyarad_os.Kernel.Keyboard.Tables.{code_to_ascii, shift_ascii, caps_ascii, entry}

-- Whether `a` is a small letter.
abbrev pub is_letter : ℕ → Bool
is_letter a = leb b'a' a && leb a b'z'

-- The capital of a letter.
abbrev pub capital : ℕ → ℕ
capital a = a - 32

letters_ok : ℕ → Bool
letters_ok code =
    let a = entry code_to_ascii code in
    if is_letter a
    then entry shift_ascii code == capital a && entry caps_ascii code == capital a
    else true

all_letters : all_below 0x59 letters_ok ≡ true
unfolding all_below letters_ok code_to_ascii shift_ascii caps_ascii entry
all_letters = refl

abbrev pub exclusive : Bool → Bool → Bool
exclusive a b = if a then not b else b

-- A letter key gives the capital exactly when one of Caps Lock and Shift is on, and not both.
pub key_table-letter :
    (s : Keys) (code : ℕ)
    → code < 0x59
    → is_letter (entry code_to_ascii code) ≡ true
    → key_table s code ≡ (
        if exclusive (is_on s.caps_on) (shift_on s)
        then capital (entry code_to_ascii code)
        else entry code_to_ascii code)
unfolding letters_ok
key_table-letter s code h letter =
    let ok = all_below_sound 0x59 letters_ok code all_letters h in ground (arith, ok)

-- What Shift makes of a sign, by pairs.
abbrev pub shift_pairs : List ℕ
shift_pairs = codes "1!2@3#4$5%6^7&8*9(0)-_=+[{]};:,<.>/?"

abbrev pub paired : List ℕ → ℕ → ℕ
paired [] a = a
paired (x ∷ []) a = a
paired (x ∷ y ∷ r) a = if a == x then y else paired r a

-- The signs on which Caps Lock acts too: the quote, the accent, the backslash, the semicolon and
-- the brackets.
abbrev pub lock_pairs : List ℕ
lock_pairs = 39 ∷ b'"' ∷ b'`' ∷ b'~' ∷ 92 ∷ b'|' ∷ b';' ∷ b':' ∷ b'[' ∷ b'{' ∷ b']' ∷ b'}' ∷ []

-- What a key types that is marked `a`, by the layout of the United States: of a letter the capital
-- exactly when one of Caps Lock and Shift is on. Of another key left of the number block the upper
-- sign with Shift, and the lower one with Caps Lock, which undoes Shift, but for six signs on which
-- Caps Lock acts as on letters.
abbrev pub typed_char : (caps shift : Bool) → (code a : ℕ) → ℕ
typed_char caps shift code a =
    if is_letter a
    then (if exclusive caps shift then capital a else a)
    else if leb 0x37 code
    then a
    else if caps
    then (if shift then a else paired lock_pairs a)
    else if shift
    then paired lock_pairs (paired shift_pairs a)
    else a

-- The character of the tables.
abbrev chosen : (caps shift : Bool) → (code : ℕ) → ℕ
chosen caps shift code =
    if caps && not shift
    then entry caps_ascii code
    else if not caps && shift
    then entry shift_ascii code
    else entry code_to_ascii code

char_ok : (caps shift : Bool) → ℕ → Bool
char_ok caps shift code =
    chosen caps shift code == typed_char caps shift code (entry code_to_ascii code)

-- What a key of the first table has in the others.
entry_ok : ℕ → ℕ → Bool
entry_ok a x = ltb x 0x100 && not (x == 10) && (if a == 0 then true else not (x == 0))

entries_ok : ℕ → Bool
entries_ok code =
    let a = entry code_to_ascii code in
    entry_ok a a && entry_ok a (entry shift_ascii code) && entry_ok a (entry caps_ascii code)

module _ (env : Env) (patience cmd_len shell esp ebp : ℕ) where
  -- The kernel once the code of the key has been read.
  abbrev after_code : Kernel → Kernel
  after_code k = set_log (cli k) (inb env.dev 0x60 (log k)).1

  -- The kernel behind a character of the console `c`.
  abbrev printed : Kernel → Console → Kernel
  printed k c = acknowledge env patience cmd_len shell esp ebp k.irq (set_console (after_code k) c)
