-- ===== src/Block/Move.antt =====
-- `memcpy` and `memmove` against the copy of a range at once.
use gyarad_os.Base.{
  ℕ, zero, suc, ◌+◌, ◌-◌, ◌*◌, ◌/◌, ◌%◌, ◌≤◌, ◌<◌, ◌≡◌, ◌⊎◌, inl, inr, ◌∙◌, ap, arith, leb, ◌==◌,
  Bool-cases,
}
use gyarad_os.Machine.Memory.{Addr, Mem, poke, load32, store32, blit, ◌≐◌}
use gyarad_os.Str.Compare.{IsBytes}
use gyarad_os.Block.{
  move_bytes, move_dwords, move_down, memcpy_aligned, memcpy_top, memcpy, memmove,
}

-- A copy upwards reads no byte that it has written.
abbrev pub Upward : (dest src : Addr) → ℕ → Type 0
Upward dest src n = (dest ≤ src) ⊎ (src + n ≤ dest)

-- Two copies, one behind the other.
blit-blit :
    (m g : Mem) (dest src : Addr) (a b : ℕ)
    → Upward dest src (a + b)
    → g ≐ blit m dest src a
    → blit g (dest + a) (src + a) b ≐ blit m dest src (a + b)
blit-blit m g dest src a b up c x = ground (arith, c x, c (src + a + (x - (dest + a))))

move_bytes-blit :
    (n : ℕ) (m : Mem) (dest src : Addr)
    → Upward dest src n
    → move_bytes n m dest src ≐ blit m dest src n
unfolding move_bytes
move_bytes-blit zero m dest src up x = ground arith
move_bytes-blit (suc n) m dest src up x =
    move_bytes-blit n (poke m dest (m src)) (dest + 1) (src + 1) (omega arith) x ∙ ground arith

-- One `movsl` moves four bytes.
store32-load32 :
    (m : Mem) (dest src : Addr) → IsBytes m → store32 m dest (load32 m src) ≐ blit m dest src 4
unfolding store32 load32
store32-load32 m dest src byte x =
    ground (arith, byte src, byte (src + 1), byte (src + 2), byte (src + 3))

store32-IsBytes : (m : Mem) (a v : ℕ) → IsBytes m → IsBytes (store32 m a v)
unfolding store32
store32-IsBytes m a v byte x = ground (arith, byte x)

move_dwords-blit :
    (n : ℕ) (m : Mem) (dest src : Addr)
    → IsBytes m
    → Upward dest src (4 * n)
    → (move_dwords n m dest src ≐ blit m dest src (4 * n)) × IsBytes (move_dwords n m dest src)
unfolding move_dwords
move_dwords-blit zero m dest src byte up = ((λ x. ground arith), byte)
move_dwords-blit (suc n) m dest src byte up =
    let g = store32 m dest (load32 m src) in
    let rest =
      move_dwords-blit n g (dest + 4) (src + 4) (store32-IsBytes m dest (load32 m src) byte)
        (omega arith) in
    let same : 4 * suc n ≡ 4 + 4 * n = omega arith in
    (
      rw same (λ x.
          rest.0 x
          ∙ blit-blit m g dest src 4 (4 * n) (omega arith) (store32-load32 m dest src byte) x),
      rest.1,
    )

memcpy_aligned-blit :
    (n : ℕ) (m : Mem) (dest src : Addr)
    → IsBytes m
    → Upward dest src n
    → memcpy_aligned n m dest src ≐ blit m dest src n
unfolding memcpy_aligned
memcpy_aligned-blit n m dest src byte up =
    let q = 4 * (n / 4) in
    let all : q + n % 4 ≡ n = omega arith in
    let first = move_dwords-blit (n / 4) m dest src byte (omega arith) in
    λ x.
      move_bytes-blit (n % 4) (move_dwords (n / 4) m dest src) (dest + q) (src + q) (omega arith) x
      ∙ blit-blit m (move_dwords (n / 4) m dest src) dest src q (n % 4) (omega arith) first.0 x
      ∙ ap (λ k. blit m dest src k x) all

memcpy_top-blit :
    (n : ℕ) (m : Mem) (dest src : Addr)
    → IsBytes m
    → Upward dest src n
    → memcpy_top n m dest src ≐ blit m dest src n
unfolding memcpy_top
memcpy_top-blit zero m dest src byte up x = ground arith
memcpy_top-blit (suc n) m dest src byte up x = elim (Bool-cases (dest % 4 == 0)) [
  | inl e ↦ rw e (memcpy_aligned-blit (suc n) m dest src byte up x)
  | inr e ↦ rw e (
      memcpy_top-blit n (poke m dest (m src)) (dest + 1) (src + 1)
        (λ a. ground (arith, byte a, byte src)) (omega arith) x
      ∙ ground arith)
]

-- `memcpy` of bytes to a place that does not begin inside its source copies the whole range, as if
-- at once, whatever the alignment, and changes no other byte.
pub memcpy-blit :
    (m : Mem) (dest src : Addr) (n : ℕ)
    → IsBytes m
    → Upward dest src n
    → memcpy m dest src n ≐ blit m dest src n
memcpy-blit m dest src n byte up = memcpy_top-blit n m dest src byte up

move_down-blit :
    (n : ℕ) (m : Mem) (dest src : Addr) → src < dest → move_down n m dest src ≐ blit m dest src n
unfolding move_down
move_down-blit zero m dest src lt x = ground arith
move_down-blit (suc n) m dest src lt x =
    move_down-blit n (poke m (dest + n) (m (src + n))) dest src lt x ∙ ground arith

-- `memmove` copies a range as if at once, however the two places overlap, and changes no byte
-- outside its destination.
pub memmove-blit : (m : Mem) (dest src : Addr) (n : ℕ) → memmove m dest src n ≐ blit m dest src n
unfolding memmove
memmove-blit m dest src n x = elim (Bool-cases (leb dest src)) [
  | inl e ↦ rw e (move_bytes-blit n m dest src (inl (ground arith)) x)
  | inr e ↦ rw e (move_down-blit n m dest src (ground arith) x)
]
