-- ===== src/Fs/Calls.antt =====
-- The functions of fs/files.c that the system calls, the loader and the keyboard use.
use gyarad_os.Base.{
  ℕ, zero, suc, ◌+◌, ◌-◌, ◌*◌, ◌%◌, ◌^◌, Bool, Option, none, some, leb, ◌==◌, if◌then◌else◌,
}
use gyarad_os.Base.Int.{ℤ, pos, negsuc}
use gyarad_os.Machine.Memory.{Addr, Mem, load32}
use gyarad_os.Str.{strlen, strcpy, strncmp}
use gyarad_os.Fs.{Fs, File, is_zero, dentry_name, file_size, read_dentry_by_name, read_data}

-- `fd->file_position += bytesRead`: -1 is 2 ^ 32 - 1.
unfoldable pub advance : ℕ → ℤ → ℕ
advance p (pos n) = (p + n) % 2 ^ 32
advance p (negsuc n) = (p + (2 ^ 32 - 1 - n)) % 2 ^ 32

-- `temp` is the address of the local `dentry_t`.
unfoldable pub fs_read :
    Fs → Mem → (temp : Addr) → File → (buf : Addr) → (nbytes : ℕ) → Option (ℤ × Mem × File)
fs_read fs m temp fd buf nbytes = elim (read_dentry_by_name fs m fd.file_name temp) [
  | none ↦ none
  | some (found, m1) ↦
      if is_zero found
      then (let (bytes_read, m2) =
            read_data fs m1 (load32 m1 (temp + 36)) fd.file_position buf nbytes in
          some (bytes_read, m2, record fd { file_position = advance fd.file_position bytes_read }))
      else some (negsuc 0, m1, fd)
]

-- The file system is read-only, and opening or closing a file has nothing to do.
abbrev pub fs_write : ℤ
fs_write = negsuc 0

abbrev pub fs_open : ℤ
fs_open = pos 0

abbrev pub fs_close : ℤ
fs_close = pos 0

abbrev pub dir_open : ℤ
dir_open = pos 0

abbrev pub dir_close : ℤ
dir_close = pos 0

abbrev pub dir_write : ℤ
dir_write = negsuc 0

-- `ret == -1` compares in `uint32_t`.
unfoldable pub is_minus_one : ℤ → Bool
is_minus_one (pos n) = n == 0xffff_ffff
is_minus_one (negsuc n) = n == 0

unfoldable pub copy_file_to_addr : Fs → Mem → (temp fname addr : Addr) → Option (ℤ × Mem)
copy_file_to_addr fs m temp fname addr = elim (read_dentry_by_name fs m fname temp) [
  | none ↦ none
  | some (found, m1) ↦
      if is_zero found
      then (let inode = load32 m1 (temp + 36) in
          let (ret, m2) = read_data fs m1 inode 0 addr (file_size fs m1 inode) in
          some (if is_minus_one ret then negsuc 0 else pos 0, m2))
      else some (negsuc 0, m1)
]

-- The loop of `autocomplete_command`: the name's address, or nothing for `(char *) -1`.
unfoldable pub complete_loop : ℕ → Fs → Mem → (curr_text : Addr) → (str_length i : ℕ) → Option Addr
complete_loop zero fs m curr_text str_length i = none
complete_loop (suc k) fs m curr_text str_length i =
    let rest = complete_loop k fs m curr_text str_length (i + 1) in
    if is_zero (strncmp m (dentry_name fs i) curr_text str_length)
    then some (dentry_name fs i)
    else rest

unfoldable pub autocomplete_command : Fs → Mem → (curr_text : Addr) → Option (Option Addr)
autocomplete_command fs m curr_text = elim (strlen m curr_text) [
  | none ↦ none
  | some n ↦ some (complete_loop fs.n_dentries fs m curr_text n 0)
]

-- `inodes + inode_num * BLOCK_SIZE` on an `inode_t *`: the addition is in units of 4096 bytes.
unfoldable pub get_inode : Fs → (inode_num : ℕ) → Addr
get_inode fs inode_num = (fs.inodes + inode_num * 0x1000 * 0x1000) % 2 ^ 32

-- `length` is not looked at.
unfoldable pub dir_read : Fs → Mem → File → (buf : Addr) → (length : ℕ) → Option (ℤ × Mem × File)
dir_read fs m fd buf length =
    if leb fs.n_dentries fd.file_position
    then some (pos 0, m, record fd { file_position = 0 })
    else elim (strcpy m buf (dentry_name fs fd.file_position)) [
      | none ↦ none
      | some m' ↦ elim (strlen m' buf) [
        | none ↦ none
        | some n ↦ some (pos n, m', record fd { file_position = (fd.file_position + 1) % 2 ^ 32 })
      ]
    ]
