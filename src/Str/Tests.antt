-- ===== src/Str/Tests.antt =====
-- The string functions of lib/lib.c on two words in memory.
use gyarad_os.Base.{ℕ, ◌≤◌, ◌≡◌, ◌↔◌, inr, refl, some, arith, ◌==◌, if◌then◌else◌}
use gyarad_os.Base.Int.{pos}
use gyarad_os.Machine.Memory.{Mem, blit, ◌≐◌, IsString}
use gyarad_os.Str.{strcpy, strncmp, itoa}
use gyarad_os.Str.Copy.{strcpy-blit, IsPrefix}
use gyarad_os.Str.Compare.{IsBytes, SameText, strncmp_iff}
use gyarad_os.Str.Number.{itoa-Printed, Printed}

-- "abc" at 16 and "abd" at 32.
abbrev words : Mem
words a =
    if a == 16
    then b'a'
    else if a == 17
    then b'b'
    else if a == 18
    then b'c'
    else if a == 32
    then b'a'
    else if a == 33
    then b'b'
    else if a == 34
    then b'd'
    else 0

words-IsString : IsString words 16 3
words-IsString = record { bytes = λ i h. ground arith; stop = refl }

words-IsPrefix : IsPrefix words 16 3 6
words-IsPrefix = record { bytes = λ i h. ground arith; stop = inr refl }

words-IsBytes : IsBytes words
words-IsBytes a = ground arith

strcpy-blit_example : (g : Mem) × (strcpy words 64 16 ≡ some g) × (g ≐ blit words 64 16 4)
strcpy-blit_example = strcpy-blit words 64 16 3 words-IsString (omega arith) (omega arith)

strncmp_iff_example : (strncmp words 16 32 2 ≡ pos 0) ↔ SameText words 16 32 2
strncmp_iff_example = strncmp_iff words 16 32 words-IsBytes 2

itoa-Printed_example :
    (g : Mem) × (n : ℕ) × (itoa words 2015 64 10 ≡ some g) × (n ≤ 32) × Printed 10 2015 words g 64 n
itoa-Printed_example = itoa-Printed words 2015 64 10 (omega arith) (omega arith) (omega arith)
