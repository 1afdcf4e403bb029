-- ===== src/Kernel/Heap.antt =====
-- `sbrk` of kernel/syscall.c.
use gyarad_os.Base.{
  ℕ, ◌+◌, ◌-◌, ◌%◌, ◌^◌, ◌≤◌, ◌<◌, ◌≡◌, ◌⊎◌, inl, inr, refl, true, false, arith, ltb, ◌==◌,
  if◌then◌else◌,
}

-- The result and the static `heap_ptr`, 0 for NULL; `end` is the address of `_end`. The difference
-- of the pointers is a signed number.
unfoldable pub sbrk : (end nbytes heap_ptr : ℕ) → ℕ × ℕ
sbrk end nbytes heap_ptr =
    let heap = if heap_ptr == 0 then end else heap_ptr in
    if ltb ((0x10_0000 + 2 ^ 32 - heap) % 2 ^ 32) (2 ^ 31)
    then (heap, (heap + nbytes) % 2 ^ 32)
    else (2 ^ 32 - 1, heap)

-- A kernel that is linked past 1 MB has no heap: the first call and every one after it return -1.
pub sbrk-refuses :
    (end nbytes heap_ptr : ℕ)
    → 0x10_0000 < end
    → end ≤ 2 ^ 31
    → (heap_ptr ≡ 0) ⊎ (heap_ptr ≡ end)
    → sbrk end nbytes heap_ptr ≡ (2 ^ 32 - 1, end)
unfolding sbrk
sbrk-refuses end nbytes heap_ptr lo hi (inl e) =
    let first : (heap_ptr == 0) ≡ true = ground (arith, e) in
    let big : ltb ((0x10_0000 + 2 ^ 32 - end) % 2 ^ 32) (2 ^ 31) ≡ false = ground arith in
    rw (first, big) refl
sbrk-refuses end nbytes heap_ptr lo hi (inr e) =
    let later : (heap_ptr == 0) ≡ false = ground (arith, e) in
    let big : ltb ((0x10_0000 + 2 ^ 32 - heap_ptr) % 2 ^ 32) (2 ^ 31) ≡ false = ground (arith, e) in
    rw (later, big, e) refl
