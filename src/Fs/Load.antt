-- ===== src/Fs/Load.antt =====
-- `fs_read` and `copy_file_to_addr`: from a name to the bytes of the file.
use gyarad_os.Base.{
  ℕ, ◌+◌, ◌-◌, ◌*◌, ◌/◌, ◌%◌, ◌≤◌, ◌<◌, ◌^◌, ◌≡◌, ◌⊎◌, inl, inr, ◌∙◌, ap, true, false, some, arith,
  ◌==◌, if◌then◌else◌, min, dec_lt,
}
use gyarad_os.Base.Int.{ℤ, pos, negsuc}
use gyarad_os.Machine.Memory.{Addr, Mem, load32, within, Apart}
use gyarad_os.Fs.{Fs, File, file_size, block_number, dentry_inode, read_dentry_by_name, read_data}
use gyarad_os.Fs.Lookup.{Named, IsNames}
use gyarad_os.Fs.Name.{Looked, read_dentry_by_name-Looked}
use gyarad_os.Fs.Calls.{advance, fs_read, is_minus_one, copy_file_to_addr}
use gyarad_os.Fs.Read.{
  IsFile, file_byte, byte_addr, load32-same, byte_addr_in, read_data-Reads, read_data-end,
}

module _ {fs : Fs} {m g : Mem} {inode size : ℕ} {base stop : Addr}
    (is : IsFile fs m inode size base stop)
    (same : (x : Addr) → base ≤ x → x < stop → g x ≡ m x) where
  block_same : (k : ℕ) → k < 1023 → block_number fs g inode k ≡ block_number fs m inode k
  block_same k h =
      load32-same m g base stop _ same (omega (arith, is.inodes_in))
        (omega (arith, is.inode_in, is.table_in, is.data_in))

  -- A file survives every write outside the image.
  pub IsFile-same : IsFile fs g inode size base stop
  IsFile-same = record {
    inode_in = is.inode_in;
    size_eq =
        load32-same m g base stop _ same (omega (arith, is.inodes_in))
          (omega (arith, is.inode_in, is.table_in, is.data_in))
        ∙ is.size_eq;
    fits = is.fits;
    blocks = λ k h. rw (block_same k (omega (arith, is.fits))) (is.blocks k h);
    inodes_in = is.inodes_in;
    table_in = is.table_in;
    data_in = is.data_in;
    stop_in = is.stop_in;
  }

  pub file_byte_same : (p : ℕ) → p ≤ size → file_byte fs g inode p ≡ file_byte fs m inode p
  file_byte_same p h =
      let e : byte_addr fs g inode p ≡ byte_addr fs m inode p =
        rw (block_same (p / 0x1000) (omega (arith, is.fits))) in
      let in_ = byte_addr_in is 0 0 0 (omega arith) p h in ap g e ∙ same _ in_.0 in_.1

-- The directory has a file of the name of `n` bytes at `fname`: its first entry with that name is
-- entry `j`, which names the inode. The image lies from `base` to `stop`, the directory in it.
pub record IsEntry (fs : Fs) (m : Mem) (len : ℕ → ℕ) (fname : Addr) (n j inode size : ℕ)
    (base stop : Addr) : Type 0 where
  pub names : IsNames fs m len fname n
  pub file : IsFile fs m inode size base stop
  pub entry_in : j < fs.n_dentries
  pub named : Named fs m len fname n j
  pub first : (l : ℕ) → l < j → ¬ Named fs m len fname n l
  pub inode_eq : dentry_inode fs m j ≡ inode
  pub directory : (base ≤ fs.dentries) × (fs.dentries + 64 * fs.n_dentries ≤ stop)

fs_read-found :
    (fs : Fs) (m m1 : Mem) (temp : Addr) (fd : File) (buf : Addr) (nbytes : ℕ) (rg : ℤ × Mem)
    → read_dentry_by_name fs m fd.file_name temp ≡ some (pos 0, m1)
    → read_data fs m1 (load32 m1 (temp + 36)) fd.file_position buf nbytes ≡ rg
    → fs_read fs m temp fd buf nbytes
      ≡ some (rg.0, rg.1, record fd { file_position = advance fd.file_position rg.0 })
unfolding fs_read
fs_read-found fs m m1 temp fd buf nbytes rg e e' = ground arith

copy_file_to_addr-found :
    (fs : Fs) (m m1 : Mem) (temp fname addr : Addr) (inode : ℕ) (rg : ℤ × Mem)
    → read_dentry_by_name fs m fname temp ≡ some (pos 0, m1)
    → load32 m1 (temp + 36) ≡ inode
    → read_data fs m1 inode 0 addr (file_size fs m1 inode) ≡ rg
    → copy_file_to_addr fs m temp fname addr
      ≡ some (if is_minus_one rg.0 then negsuc 0 else pos 0, rg.1)
unfolding copy_file_to_addr
copy_file_to_addr-found fs m m1 temp fname addr inode rg e e1 e2 =
    rw (e, copy_file_to_addr) (rw (e1, e2))

-- A look-up that found the file: what the rest of the code relies on.
record Located (fs : Fs) (m m1 : Mem) (fname temp : Addr) (inode : ℕ) : Type 0 where
  call : read_dentry_by_name fs m fname temp ≡ some (pos 0, m1)
  number : load32 m1 (temp + 36) ≡ inode
  same : (x : Addr) → (x < temp) ⊎ (temp + 40 ≤ x) → m1 x ≡ m x

module _ {fs : Fs} {m : Mem} {len : ℕ → ℕ} {fname : Addr} {n j inode size : ℕ} {base stop : Addr}
    (is : IsEntry fs m len fname n j inode size base stop) (temp : Addr)
    (apart : Apart temp 40 base (stop - base)) (ordered : base ≤ stop) where
  located :
      Looked fs m len fname n temp (read_dentry_by_name fs m fname temp)
      → (m1 : Mem) × Located fs m m1 fname temp inode
  located (inl (l, m1, call, l_in, named, first, ty, number, name, same)) = (
    m1,
    record { call = call; number = number ∙ ap (dentry_inode fs m) e ∙ is.inode_eq; same = same },
  )
    where
      e : l ≡ j
      e = elim (dec_lt l j) [
        | yes lt ↦ absurd (is.first l lt named)
        | no ge ↦ elim (dec_lt j l) [ yes gt ↦ absurd (first j gt is.named) | no le ↦ omega arith ]
      ]
  located (inr (call, out)) = absurd (out j is.entry_in is.named)

  Located-entry : (m1 : Mem) × Located fs m m1 fname temp inode
  Located-entry = located (read_dentry_by_name-Looked is.names temp (omega (arith, is.directory)))

  -- What a read of `length` bytes from `offset` into the buffer has done: it returns their number,
  -- the buffer holds those bytes of the file, and nothing else has changed but the local `dentry_t`.
  pub record Transferred (offset : ℕ) (buf : Addr) (r : ℕ) (g : Mem) : Type 0 where
    pub bytes : (l : ℕ) → l < r → g (buf + l) ≡ file_byte fs m inode (offset + l)
    pub same : (x : Addr) → (x < buf) ⊎ (buf + r ≤ x) → (x < temp) ⊎ (temp + 40 ≤ x) → g x ≡ m x

  module _ (buf : Addr) (length : ℕ) (room : Apart buf length base (stop - base)) where
    read-Located :
        (m1 : Mem) (offset : ℕ)
        → Located fs m m1 fname temp inode
        → offset < size
        → (g : Mem) × (read_data fs m1 inode offset buf length
            ≡ (pos (min length (size - offset + 1)), g))
          × Transferred offset buf (min length (size - offset + 1)) g
    read-Located m1 offset at h =
        let kept : (x : Addr) → base ≤ x → x < stop → m1 x ≡ m x =
          λ x lo hi. at.same x (omega arith) in
        let file1 = IsFile-same is.file kept in
        let r = min length (size - offset + 1) in
        let done = read_data-Reads file1 offset buf length (omega arith) h in
        let g = (read_data fs m1 inode offset buf length).1 in
        (
          g,
          λ i. (done.0 i, g),
          record {
            bytes = λ l lt.
                let inside : within buf r (buf + l) ≡ true = ground arith in
                let back : offset + (buf + l - buf) ≡ offset + l = omega arith in
                done.1 (buf + l)
                ∙ rw (inside, back) (file_byte_same is.file kept (offset + l) (omega arith));
            same = λ x o o'.
                let outside : within buf r x ≡ false = ground arith in
                done.1 x ∙ rw outside (at.same x o');
          },
        )

    -- `fs_read` of an existing file, with the position inside the file and the buffer and the
    -- local apart from the image, copies the next bytes of the file, one more than the file has
    -- left at most, returns their number and advances the position by it.
    pub fs_read-Transferred :
        (fd : File)
        → fd.file_name ≡ fname
        → fd.file_position < size
        → let r = min length (size - fd.file_position + 1) in
          (g : Mem) × (fs_read fs m temp fd buf length
            ≡ some (pos r, g, record fd { file_position = (fd.file_position + r) % 2 ^ 32 }))
          × Transferred fd.file_position buf r g
    unfolding advance
    fs_read-Transferred fd e h =
        let (m1, at) = Located-entry in
        let (g, call, done) = read-Located m1 fd.file_position at h in
        (
          g,
          fs_read-found fs m m1 temp fd buf length _
              (ap (λ a. read_dentry_by_name fs m a temp) e ∙ at.call)
              (ap (λ a. read_data fs m1 a fd.file_position buf length) at.number ∙ call),
          done,
        )

  -- Loading an existing file to an address with room for it, apart from the image, copies every
  -- byte of the file there, and nothing else changes but the local `dentry_t`.
  pub copy_file_to_addr-Transferred :
      (addr : Addr)
      → Apart addr size base (stop - base)
      → (g : Mem) × (copy_file_to_addr fs m temp fname addr ≡ some (pos 0, g))
        × Transferred 0 addr size g
  unfolding is_minus_one
  copy_file_to_addr-Transferred addr room =
      let (m1, at) = Located-entry in
      let kept : (x : Addr) → base ≤ x → x < stop → m1 x ≡ m x =
        λ x lo hi. at.same x (omega arith) in
      let file1 = IsFile-same is.file kept in
      let fits : (size == 0xffff_ffff) ≡ false = ground (arith, is.file.fits) in
      elim (dec_lt 0 size) [
        | yes some_bytes ↦
            let (g, call, done) = read-Located addr size room m1 0 at some_bytes in
            let all : min size (size - 0 + 1) ≡ size = omega arith in
            let call' : read_data fs m1 inode 0 addr (file_size fs m1 inode) ≡ (pos size, g) =
              rw (file1.size_eq) (call ∙ (λ i. (pos (all i), g))) in
            (
              g,
              copy_file_to_addr-found fs m m1 temp fname addr inode (pos size, g) at.call at.number
                    call'
                  ∙ rw fits,
              rw all at done,
            )
        | no no_bytes ↦
            let empty : size ≡ 0 = omega arith in
            let call : read_data fs m1 inode 0 addr (file_size fs m1 inode) ≡ (pos 0, m1) =
              read_data-end file1 0 addr (file_size fs m1 inode) (omega (arith, file1.size_eq))
                (omega arith) in
            (
              m1,
              copy_file_to_addr-found fs m m1 temp fname addr inode (pos 0, m1) at.call at.number
                  call,
              record { bytes = λ l lt. absurd (omega arith); same = λ x o o'. at.same x o' },
            )
      ]
