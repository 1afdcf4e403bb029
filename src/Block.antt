-- ===== src/Block.antt =====
-- The block functions of lib/lib.c: memset, memset_word, memset_dword, memcpy and memmove. Their
-- bodies are assembly; a loop of it, and a string instruction with `rep`, is a recursion on the
-- count in ECX or EDX. EDI and ESI are addresses that are taken not to wrap.
pub mod Move
pub mod Fill
mod Tests
use gyarad_os.Base.{ℕ, zero, suc, ◌+◌, ◌-◌, ◌*◌, ◌/◌, ◌%◌, ◌^◌, ltb, leb, ◌==◌, if◌then◌else◌}
use gyarad_os.Machine.Memory.{Addr, Mem, poke, load32, store32}

-- `rep movsb` with the direction flag clear, and the loop `.memcpy_bottom`.
unfoldable pub move_bytes : ℕ → Mem → (edi esi : Addr) → Mem
move_bytes zero m edi esi = m
move_bytes (suc n) m edi esi = move_bytes n (poke m edi (m esi)) (edi + 1) (esi + 1)

-- `rep movsl`.
unfoldable pub move_dwords : ℕ → Mem → (edi esi : Addr) → Mem
move_dwords zero m edi esi = m
move_dwords (suc n) m edi esi = move_dwords n (store32 m edi (load32 m esi)) (edi + 4) (esi + 4)

-- `rep movsb` with the direction flag set, from the last of `n` bytes down.
unfoldable pub move_down : ℕ → Mem → (dest src : Addr) → Mem
move_down zero m dest src = m
move_down (suc n) m dest src = move_down n (poke m (dest + n) (m (src + n))) dest src

-- From `.memcpy_aligned` on, with `ecx` bytes left.
unfoldable pub memcpy_aligned : (ecx : ℕ) → Mem → (edi esi : Addr) → Mem
memcpy_aligned ecx m edi esi =
    let dwords = ecx / 4 in
    move_bytes (ecx % 4) (move_dwords dwords m edi esi) (edi + 4 * dwords) (esi + 4 * dwords)

-- The loop `.memcpy_top`, which copies bytes until the destination is aligned.
unfoldable pub memcpy_top : (ecx : ℕ) → Mem → (edi esi : Addr) → Mem
memcpy_top zero m edi esi = m
memcpy_top (suc n) m edi esi =
    let rest = memcpy_top n (poke m edi (m esi)) (edi + 1) (esi + 1) in
    if edi % 4 == 0 then memcpy_aligned (suc n) m edi esi else rest

abbrev pub memcpy : Mem → (dest src : Addr) → (n : ℕ) → Mem
memcpy m dest src n = memcpy_top n m dest src

-- `jae` keeps the direction upwards when the source does not lie below the destination.
unfoldable pub memmove : Mem → (dest src : Addr) → (n : ℕ) → Mem
memmove m dest src n = if leb dest src then move_bytes n m dest src else move_down n m dest src

-- The loop `.memset_bottom`.
unfoldable pub set_bytes : ℕ → Mem → (edi : Addr) → (al : ℕ) → Mem
set_bytes zero m edi al = m
set_bytes (suc n) m edi al = set_bytes n (poke m edi al) (edi + 1) al

-- `rep stosl`.
unfoldable pub set_dwords : ℕ → Mem → (edi : Addr) → (eax : ℕ) → Mem
set_dwords zero m edi eax = m
set_dwords (suc n) m edi eax = set_dwords n (store32 m edi eax) (edi + 4) eax

-- `rep stosw`.
unfoldable pub set_words : ℕ → Mem → (edi : Addr) → (eax : ℕ) → Mem
set_words zero m edi eax = m
set_words (suc n) m edi eax =
    set_words n (poke (poke m edi (eax % 0x100)) (edi + 1) (eax / 0x100 % 0x100)) (edi + 2) eax

-- From `.memset_aligned` on. EAX holds the byte four times.
unfoldable pub memset_aligned : (ecx : ℕ) → Mem → (edi : Addr) → (c : ℕ) → Mem
memset_aligned ecx m edi c =
    let dwords = ecx / 4 in
    set_bytes (ecx % 4) (set_dwords dwords m edi (c * 0x101_0101)) (edi + 4 * dwords) c

-- The loop `.memset_top`.
unfoldable pub memset_top : (ecx : ℕ) → Mem → (edi : Addr) → (c : ℕ) → Mem
memset_top zero m edi c = m
memset_top (suc n) m edi c =
    let rest = memset_top n (poke m edi c) (edi + 1) c in
    if edi % 4 == 0 then memset_aligned (suc n) m edi c else rest

-- `c &= 0xFF` comes first; `c` is the bit pattern of the `int32_t`.
unfoldable pub memset : Mem → (s : Addr) → (c n : ℕ) → Mem
memset m s c n = memset_top n m s (c % 0x100)

abbrev pub memset_word : Mem → (s : Addr) → (c n : ℕ) → Mem
memset_word m s c n = set_words n m s c

-- `n` counts double words.
abbrev pub memset_dword : Mem → (s : Addr) → (c n : ℕ) → Mem
memset_dword m s c n = set_dwords n m s c
