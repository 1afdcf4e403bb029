-- ===== src/Block/Fill.antt =====
-- `memset` against the fill of a range at once.
use gyarad_os.Base.{ℕ, zero, suc, ◌+◌, ◌*◌, ◌/◌, ◌%◌, ◌<◌, inl, inr, ◌∙◌, arith, ◌==◌, Bool-cases}
use gyarad_os.Machine.Memory.{Addr, Mem, poke, store32, fill, ◌≐◌}
use gyarad_os.Block.{set_bytes, set_dwords, memset_aligned, memset_top, memset}

set_bytes-fill : (n : ℕ) (m : Mem) (s : Addr) (c : ℕ) → set_bytes n m s c ≐ fill m s n c
unfolding set_bytes
set_bytes-fill zero m s c x = ground arith
set_bytes-fill (suc n) m s c x = set_bytes-fill n (poke m s c) (s + 1) c x ∙ ground arith

set_dwords-fill :
    (n : ℕ) (m : Mem) (s : Addr) (c : ℕ)
    → c < 0x100
    → set_dwords n m s (c * 0x101_0101) ≐ fill m s (4 * n) c
unfolding set_dwords store32
set_dwords-fill zero m s c h x = ground arith
set_dwords-fill (suc n) m s c h x =
    set_dwords-fill n (store32 m s (c * 0x101_0101)) (s + 4) c h x ∙ ground arith

memset_aligned-fill :
    (n : ℕ) (m : Mem) (s : Addr) (c : ℕ) → c < 0x100 → memset_aligned n m s c ≐ fill m s n c
unfolding memset_aligned
memset_aligned-fill n m s c h x =
    set_bytes-fill (n % 4) (set_dwords (n / 4) m s (c * 0x101_0101)) (s + 4 * (n / 4)) c x
    ∙ ground (arith, set_dwords-fill (n / 4) m s c h x)

memset_top-fill :
    (n : ℕ) (m : Mem) (s : Addr) (c : ℕ) → c < 0x100 → memset_top n m s c ≐ fill m s n c
unfolding memset_top
memset_top-fill zero m s c h x = ground arith
memset_top-fill (suc n) m s c h x = elim (Bool-cases (s % 4 == 0)) [
  | inl e ↦ rw e (memset_aligned-fill (suc n) m s c h x)
  | inr e ↦ rw e (memset_top-fill n (poke m s c) (s + 1) c h x ∙ ground arith)
]

-- `memset` writes the low byte of the value to each byte of the range, whatever the alignment, and
-- changes no other byte.
pub memset-fill : (m : Mem) (s : Addr) (c n : ℕ) → memset m s c n ≐ fill m s n (c % 0x100)
unfolding memset
memset-fill m s c n x = memset_top-fill n m s (c % 0x100) (omega arith) x
