-- ===== src/Machine/Memory.antt =====
-- Byte-addressed memory, as the C code sees it through its pointers: an address is a number and a
-- cell holds a byte. Distinct objects are distinct ranges of addresses, so that aliasing is real.
use gyarad_os.Base.{
  ℕ, arith, ◌+◌, ◌-◌, ◌*◌, ◌/◌, ◌%◌, ◌^◌, ◌≤◌, ◌<◌, ◌≡◌, ◌⊎◌, Bool, ◌&&◌, ltb, leb, ◌==◌,
  if◌then◌else◌,
}

abbrev pub Addr : Type 0
Addr = ℕ

abbrev pub Mem : Type 0
Mem = Addr → ℕ

-- `*(uint8_t *)a = v`.
abbrev pub poke : Mem → Addr → ℕ → Mem
poke m a v = λ x. if x == a then v else m x

-- A `uint32_t` read from memory, least significant byte first.
unfoldable pub load32 : Mem → Addr → ℕ
load32 m a = m a + 0x100 * m (a + 1) + 0x1_0000 * m (a + 2) + 0x100_0000 * m (a + 3)

-- A `uint32_t` written to memory.
unfoldable pub store32 : Mem → Addr → ℕ → Mem
store32 m a v =
    poke
      (poke (poke (poke m a (v % 0x100)) (a + 1) (v / 0x100 % 0x100)) (a + 2)
        (v / 0x1_0000 % 0x100))
      (a + 3) (v / 0x100_0000 % 0x100)

-- Whether `x` lies among the `n` bytes from `a`.
abbrev pub within : Addr → ℕ → Addr → Bool
within a n x = leb a x && ltb x (a + n)

-- The reference for every copy: the `n` bytes from `dest` become those from `src`.
abbrev pub blit : Mem → Addr → Addr → ℕ → Mem
blit m dest src n = λ x. if within dest n x then m (src + (x - dest)) else m x

-- The reference for a transfer from elsewhere: the `n` bytes at `dest` become the wanted ones.
abbrev pub pasted : Mem → Addr → (want : ℕ → ℕ) → ℕ → Mem
pasted m dest want n = λ x. if within dest n x then want (x - dest) else m x

-- The reference for every fill.
abbrev pub fill : Mem → Addr → ℕ → ℕ → Mem
fill m a n v = λ x. if within a n x then v else m x

-- Two memories agree at every address.
infix 40 ◌≐◌
abbrev pub ◌≐◌ : Mem → Mem → Type 0
m ≐ g = (x : Addr) → m x ≡ g x

-- The `n` bytes from `a` and the `k` bytes from `b` share no address.
abbrev pub Apart : Addr → ℕ → Addr → ℕ → Type 0
Apart a n b k = (a + n ≤ b) ⊎ (b + k ≤ a)

-- `s` points at a string of `n` bytes other than NUL, closed by a NUL.
pub record IsString (m : Mem) (s : Addr) (n : ℕ) : Type 0 where
  pub bytes : (i : ℕ) → i < n → (m (s + i) == 0) ≡ Bool.false
  pub stop : m (s + n) ≡ 0

-- One more byte of a transfer.
pub pasted-suc :
    (m g : Mem) (dest : Addr) (want : ℕ → ℕ) (n v : ℕ)
    → v ≡ want n
    → g ≐ pasted m dest want n
    → poke g (dest + n) v ≐ pasted m dest want (n + 1)
pasted-suc m g dest want n v e c x = ground (arith, c x)

pub load32-store32 : (m : Mem) (a : Addr) (v : ℕ) → v < 2 ^ 32 → load32 (store32 m a v) a ≡ v
unfolding load32 store32
load32-store32 m a v h = ground arith

pub store32_same :
    (m : Mem) (a : Addr) (v : ℕ) (x : Addr) → (x < a) ⊎ (a + 4 ≤ x) → store32 m a v x ≡ m x
unfolding store32
store32_same m a v x o = ground arith

-- A word that is read from four equal bytes.
pub load32-eq :
    (m g : Mem) (a : Addr) → ((x : Addr) → a ≤ x → x < a + 4 → g x ≡ m x) → load32 g a ≡ load32 m a
unfolding load32
load32-eq m g a same = ground (
  arith,
  same a (omega arith) (omega arith),
  same (a + 1) (omega arith) (omega arith),
  same (a + 2) (omega arith) (omega arith),
  same (a + 3) (omega arith) (omega arith),
)
