-- ===== src/Fs.antt =====
-- The read-only file system of fs/files.c, over the image that the boot loader put in memory.
-- The image and every buffer are ranges of one memory, so a buffer that lies over the image is
-- possible; a local whose address the code takes (`temp`) is an address that the caller gives.
-- The outer `Option` of a result is `none` where a string function never ends; C integers that
-- may be -1 are `ℤ`. Addresses that the code computes in `uint32_t` wrap.
pub mod Calls
pub mod Lookup
pub mod Read
pub mod Name
pub mod Load
pub mod Dir
mod Tests
use gyarad_os.Base.{
  ℕ, zero, suc, ◌+◌, ◌-◌, ◌*◌, ◌/◌, ◌%◌, ◌^◌, Bool, true, false, Option, none, some, ltb, leb, ◌==◌,
  if◌then◌else◌,
}
use gyarad_os.Base.Int.{ℤ, pos, negsuc}
use gyarad_os.Machine.Memory.{Addr, Mem, poke, load32, store32}
use gyarad_os.Str.{strlen, strcpy, strncpy, strncmp}

-- The static variables of files.c: the boot block and the three places in the image.
pub record Fs : Type 0 where
  pub n_dentries : ℕ
  pub n_inodes : ℕ
  pub n_data_blocks : ℕ
  pub dentries : Addr
  pub inodes : Addr
  pub data_blocks : Addr

-- `fs_init`. The three counts stand first in the 64 bytes of the boot block.
unfoldable pub fs_init : Mem → Addr → Fs
fs_init m addrs = record {
  n_dentries = load32 m addrs;
  n_inodes = load32 m (addrs + 4);
  n_data_blocks = load32 m (addrs + 8);
  dentries = (addrs + 64) % 2 ^ 32;
  inodes = (addrs + 0x1000) % 2 ^ 32;
  data_blocks = (addrs + load32 m (addrs + 4) * 0x1000 + 0x1000) % 2 ^ 32;
}

-- `file_array` of include/lib/types.h without its `operations_pointer` and `inode`: `file_name`
-- is the address of the 32 bytes that the struct holds.
pub record File : Type 0 where
  pub file_position : ℕ
  pub file_name : Addr

-- A test of a C string result against 0.
abbrev pub is_zero : ℤ → Bool
is_zero (pos zero) = true
is_zero (pos (suc n)) = false
is_zero (negsuc n) = false

module _ (fs : Fs) where
  -- `dentries[i].file_name`, `.file_type` and `.inode_num`: a `dentry_t` has 64 bytes.
  abbrev pub dentry_name : ℕ → Addr
  dentry_name i = fs.dentries + 64 * i

  abbrev pub dentry_type : Mem → ℕ → ℕ
  dentry_type m i = load32 m (dentry_name i + 32)

  abbrev pub dentry_inode : Mem → ℕ → ℕ
  dentry_inode m i = load32 m (dentry_name i + 36)

  -- `inodes[inode].file_size` and `.blocks[k]`: an `inode_t` has 4096 bytes.
  abbrev pub file_size : Mem → ℕ → ℕ
  file_size m inode = load32 m (fs.inodes + 0x1000 * inode)

  abbrev pub block_number : Mem → ℕ → ℕ → ℕ
  block_number m inode k = load32 m (fs.inodes + 0x1000 * inode + 4 + 4 * k)

-- The loop of `read_dentry_by_name` with `k` rounds left: the index at which it stops.
unfoldable pub find_dentry : ℕ → Fs → Mem → (fname : Addr) → (read_bytes i : ℕ) → Option (Option ℕ)
find_dentry zero fs m fname read_bytes i = some none
find_dentry (suc k) fs m fname read_bytes i =
    let rest = find_dentry k fs m fname read_bytes (i + 1) in
    elim (strlen m fname) [
      | none ↦ none
      | some n ↦ elim (strlen m (dentry_name fs i)) [
        | none ↦ none
        | some l ↦
            if n == l
            then (if is_zero (strncmp m (dentry_name fs i) fname read_bytes)
                then some (some i)
                else rest)
            else rest
      ]
    ]

-- `int readBytes = strlen(fname)`, at most `MAX_FILENAME_LENGTH`.
unfoldable pub name_bytes : ℕ → ℕ
name_bytes n = if ltb 31 n then 31 else n

-- What the loop writes to `*dentry` when it stops at `i`.
unfoldable pub copy_dentry : Fs → Mem → (dentry : Addr) → (i n : ℕ) → Mem
copy_dentry fs m dentry i n =
    let m1 = strncpy m dentry (dentry_name fs i) n in
    let m2 = store32 m1 (dentry + 32) (dentry_type fs m1 i) in
    store32 m2 (dentry + 36) (dentry_inode fs m2 i)

unfoldable pub read_dentry_by_name : Fs → Mem → (fname dentry : Addr) → Option (ℤ × Mem)
read_dentry_by_name fs m fname dentry = elim (strlen m fname) [
  | none ↦ none
  | some n ↦ elim (find_dentry fs.n_dentries fs m fname (name_bytes n) 0) [
    | none ↦ none
    | some none ↦ some (negsuc 0, m)
    | some (some i) ↦ some (pos 0, copy_dentry fs m dentry i (name_bytes n))
  ]
]

unfoldable pub read_dentry_by_index : Fs → Mem → (index : ℕ) → (dentry : Addr) → ℤ × Mem
read_dentry_by_index fs m index dentry =
    if leb fs.n_dentries index then (negsuc 0, m) else (pos 0, copy_dentry fs m dentry index 32)

-- The address of the byte at `location` in the file's block `k`.
unfoldable pub read_pos : Fs → Mem → (inode k location : ℕ) → Addr
read_pos fs m inode k location =
    (fs.data_blocks + block_number fs m inode k * 0x1000 + location) % 2 ^ 32

-- The loop of `read_data`, with `k` of the `length` rounds left.
unfoldable pub read_loop :
    ℕ
    → Fs
    → Mem
    → (inode offset : ℕ) → (buf : Addr) → (num_reads curr_block location : ℕ)
    → (curr_read_pos : Addr) → ℤ × Mem
read_loop zero fs m inode offset buf num_reads curr_block location curr_read_pos =
    (pos num_reads, m)
read_loop (suc k) fs m inode offset buf num_reads curr_block location curr_read_pos =
    let m' = poke m (buf + num_reads) (m curr_read_pos) in
    let same_block =
      read_loop k fs m' inode offset buf (num_reads + 1) curr_block (location + 1)
        (curr_read_pos + 1) in
    let next_block =
      read_loop k fs m' inode offset buf (num_reads + 1) (curr_block + 1) 0
        (read_pos fs m' inode (curr_block + 1) 0) in
    if ltb (file_size fs m' inode) ((offset + (num_reads + 1)) % 2 ^ 32)
    then (pos (num_reads + 1), m')
    else if leb 0x1000 (location + 1)
    then (if leb fs.n_data_blocks (block_number fs m' inode (curr_block + 1))
        then (negsuc 0, m')
        else next_block)
    else same_block

unfoldable pub read_data : Fs → Mem → (inode offset : ℕ) → (buf : Addr) → (length : ℕ) → ℤ × Mem
read_data fs m inode offset buf length =
    if leb fs.n_inodes inode
    then (negsuc 0, m)
    else if leb (file_size fs m inode) offset
    then (pos 0, m)
    else read_loop length fs m inode offset buf 0 (offset / 0x1000) (offset % 0x1000)
        (read_pos fs m inode (offset / 0x1000) (offset % 0x1000))
