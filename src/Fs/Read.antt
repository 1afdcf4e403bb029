-- ===== src/Fs/Read.antt =====
-- `read_data` against the file that the image holds.
use gyarad_os.Base.{
  ℕ, zero, suc, ◌+◌, ◌-◌, ◌*◌, ◌/◌, ◌%◌, ◌^◌, ◌≤◌, ◌<◌, ◌≡◌, ◌⊎◌, ◌∙◌, refl, ap, ap₂, sym, arith,
  ltb, lt→ltb, leb, min, dec_lt, true, false,
}
use gyarad_os.Base.Int.{ℤ, pos}
use gyarad_os.Machine.Memory.{Addr, Mem, poke, load32, within, pasted, pasted-suc, ◌≐◌}
use gyarad_os.Fs.{Fs, file_size, block_number, read_pos, read_loop, read_data}

module _ (fs : Fs) (m : Mem) (inode : ℕ) where
  -- Where the image keeps byte `p` of the file.
  abbrev pub byte_addr : ℕ → Addr
  byte_addr p = fs.data_blocks + block_number fs m inode (p / 0x1000) * 0x1000 + p % 0x1000

  abbrev pub file_byte : ℕ → ℕ
  file_byte p = m (byte_addr p)

  -- The image stands at the addresses from `base` up to `stop`, and holds the file: its size fits
  -- the inode's table, and the table names a data block of the image for each block of the file,
  -- up to the block of the byte behind its last one, which `read_data` asks for too.
  pub record IsFile (size : ℕ) (base stop : Addr) : Type 0 where
    pub inode_in : inode < fs.n_inodes
    pub size_eq : file_size fs m inode ≡ size
    pub fits : size < 0x1000 * 1023
    pub blocks : (k : ℕ) → k ≤ size / 0x1000 → block_number fs m inode k < fs.n_data_blocks
    pub inodes_in : base ≤ fs.inodes
    pub table_in : fs.inodes + 0x1000 * fs.n_inodes ≤ fs.data_blocks
    pub data_in : fs.data_blocks + 0x1000 * fs.n_data_blocks ≤ stop
    pub stop_in : stop ≤ 2 ^ 32

  -- The reference: the `n` bytes at `buf` become those of the file from `offset` on.
  abbrev pub taken : (offset : ℕ) → (buf : Addr) → ℕ → Mem
  taken offset buf n = pasted m buf (λ j. file_byte (offset + j)) n

-- A word of a range that two memories share.
pub load32-same :
    (m g : Mem) (base stop a : Addr)
    → ((x : Addr) → base ≤ x → x < stop → g x ≡ m x)
    → base ≤ a
    → a + 4 ≤ stop
    → load32 g a ≡ load32 m a
unfolding load32
load32-same m g base stop a same lo hi = ground (
  arith,
  same a (omega arith) (omega arith),
  same (a + 1) (omega arith) (omega arith),
  same (a + 2) (omega arith) (omega arith),
  same (a + 3) (omega arith) (omega arith),
)

module _ {fs : Fs} {m : Mem} {inode size : ℕ} {base stop : Addr}
    (is : IsFile fs m inode size base stop) (offset : ℕ) (buf : Addr) (length : ℕ)
    (apart : (buf + length ≤ base) ⊎ (stop ≤ buf)) where
  pub byte_addr_in :
      (p : ℕ) → p ≤ size → (base ≤ byte_addr fs m inode p) × (byte_addr fs m inode p < stop)
  byte_addr_in p h = ground (arith, is.blocks (p / 0x1000) (omega arith))

  read_pos-eq :
      (g : Mem) (p : ℕ)
      → block_number fs g inode (p / 0x1000) ≡ block_number fs m inode (p / 0x1000)
      → p ≤ size
      → read_pos fs g inode (p / 0x1000) (p % 0x1000) ≡ byte_addr fs m inode p
  unfolding read_pos
  read_pos-eq g p e h = rw e (omega (arith, byte_addr_in p h, is.stop_in))

  byte_addr-suc :
      (p p' : ℕ) {at : Addr}
      → at ≡ byte_addr fs m inode p
      → p' ≡ p + 1
      → p % 0x1000 + 1 < 0x1000
      → at + 1 ≡ byte_addr fs m inode p'
  byte_addr-suc p p' ea e h =
      let q : p' / 0x1000 ≡ p / 0x1000 = omega arith in rw (q, ea) (omega arith)

  -- What the loop finds in a memory that it has written only the buffer of.
  record Sees (g : Mem) : Type 0 where
    size_same : file_size fs g inode ≡ size
    block_same : (k : ℕ) → k ≤ size / 0x1000 → block_number fs g inode k ≡ block_number fs m inode k
    byte_same : (p : ℕ) → p ≤ size → g (byte_addr fs m inode p) ≡ file_byte fs m inode p

  taken-same :
      (g : Mem) (n : ℕ)
      → n ≤ length
      → g ≐ taken fs m inode offset buf n
      → (x : Addr) → base ≤ x
      → x < stop
      → g x ≡ m x
  taken-same g n le c x lo hi = let out : within buf n x ≡ false = ground arith in c x ∙ rw out

  taken-Sees : (g : Mem) (n : ℕ) → n ≤ length → g ≐ taken fs m inode offset buf n → Sees g
  taken-Sees g n le c =
      let same = taken-same g n le c in
      record {
        size_same =
            load32-same m g base stop _ same (omega (arith, is.inodes_in))
              (omega (arith, is.inode_in, is.table_in, is.data_in))
            ∙ is.size_eq;
        block_same = λ k h.
            load32-same m g base stop _ same (omega (arith, is.inodes_in))
              (omega (arith, is.fits, is.inode_in, is.table_in, is.data_in));
        byte_same = λ p h. same (byte_addr fs m inode p) (byte_addr_in p h).0 (byte_addr_in p h).1;
      }

  -- The result of `read_data`: it stops one byte behind the end of the file, not at its end.
  abbrev pub Reads : ℤ × Mem → Type 0
  Reads (r, g) =
      (r ≡ pos (min length (size - offset + 1)))
      × (g ≐ taken fs m inode offset buf (min length (size - offset + 1)))

  read_loop-Reads :
      (k : ℕ) (g : Mem) (n cb loc : ℕ) (at : Addr)
      → n + k ≡ length
      → offset + n ≤ size
      → cb ≡ (offset + n) / 0x1000
      → loc ≡ (offset + n) % 0x1000
      → at ≡ byte_addr fs m inode (offset + n)
      → g ≐ taken fs m inode offset buf n
      → Reads (read_loop k fs g inode offset buf n cb loc at)
  unfolding read_loop
  read_loop-Reads zero g n cb loc at len le ec el ea c =
      let e : min length (size - offset + 1) ≡ n = omega arith in (ap pos (sym e), rw e c)
  read_loop-Reads (suc k) g n cb loc at len le ec el ea c =
      let p = offset + n in
      let g' = poke g (buf + n) (g at) in
      let sees = taken-Sees g n (omega arith) c in
      let c' : g' ≐ taken fs m inode offset buf (n + 1) =
        pasted-suc m g buf (λ j. file_byte fs m inode (offset + j)) n (g at)
          (rw ea (sees.byte_same p le)) c in
      let sees' = taken-Sees g' (n + 1) (omega arith) c' in
      let small = is.fits in
      elim (dec_lt p size) [
        | no last ↦
            let over : ltb (file_size fs g' inode) ((offset + (n + 1)) % 2 ^ 32) ≡ true =
              rw sees'.size_same (lt→ltb _ _ (omega arith)) in
            let e : min length (size - offset + 1) ≡ n + 1 = omega arith in rw (over, e) (refl, c')
        | yes more ↦
            let under : ltb (file_size fs g' inode) ((offset + (n + 1)) % 2 ^ 32) ≡ false =
              rw sees'.size_same (ground arith) in
            let block : cb ≡ p / 0x1000 = ec in
            elim (dec_lt (loc + 1) 0x1000) [
              | yes same ↦
                  let stay : leb 0x1000 (loc + 1) ≡ false = ground arith in
                  rw (under, stay)
                    (read_loop-Reads k g' (n + 1) cb (loc + 1) (at + 1) (omega arith) (omega arith)
                      (omega arith) (omega arith)
                      (byte_addr-suc p (offset + (n + 1)) ea (omega arith) (omega arith)) c')
              | no next ↦
                  let p' = offset + (n + 1) in
                  let q : p' / 0x1000 ≡ cb + 1 = omega arith in
                  let r : p' % 0x1000 ≡ 0 = omega arith in
                  let same : block_number fs g' inode (cb + 1) ≡ block_number fs m inode (cb + 1) =
                    sees'.block_same (cb + 1) (omega arith) in
                  let turn : leb 0x1000 (loc + 1) ≡ true = ground arith in
                  let valid : leb fs.n_data_blocks (block_number fs g' inode (cb + 1)) ≡ false =
                    rw same (ground (arith, is.blocks (cb + 1) (omega arith))) in
                  let found : read_pos fs g' inode (cb + 1) 0 ≡ byte_addr fs m inode p' =
                    ap₂ (read_pos fs g' inode) (sym q) (sym r)
                    ∙ read_pos-eq g' p' (sees'.block_same (p' / 0x1000) (omega arith))
                        (omega arith) in
                  rw (under, turn, valid)
                    (read_loop-Reads k g' (n + 1) (cb + 1) 0 (read_pos fs g' inode (cb + 1) 0)
                      (omega arith) (omega arith) (sym q) (sym r) found c')
            ]
      ]

  -- A read from inside a file that the image holds, with the buffer apart from the image, copies
  -- the bytes of the file from `offset` on, changes nothing else, and returns their number:
  -- `length`, or what the file has left and one more, if that is less.
  pub read_data-Reads :
      offset < size
      → let r = min length (size - offset + 1) in
        ((read_data fs m inode offset buf length).0 ≡ pos r)
        × ((read_data fs m inode offset buf length).1 ≐ taken fs m inode offset buf r)
  unfolding read_data
  read_data-Reads h =
      let known : leb fs.n_inodes inode ≡ false = ground (arith, is.inode_in) in
      let inside : leb (file_size fs m inode) offset ≡ false = rw is.size_eq (ground arith) in
      rw (known, inside)
        (read_loop-Reads length m 0 (offset / 0x1000) (offset % 0x1000) _ (omega arith)
          (omega arith) (omega arith) (omega arith)
          (read_pos-eq m offset refl (omega arith) ∙ ap (byte_addr fs m inode) (omega arith))
          (λ x. ground arith))

  -- A read at the end of a file that the image holds, or behind it, returns 0 and changes nothing.
  pub read_data-end : size ≤ offset → read_data fs m inode offset buf length ≡ (pos 0, m)
  unfolding read_data
  read_data-end h =
      let known : leb fs.n_inodes inode ≡ false = ground (arith, is.inode_in) in
      let past : leb (file_size fs m inode) offset ≡ true = rw is.size_eq (ground arith) in
      rw (known, past)
