-- ===== src/Fs/Name.antt =====
-- `read_dentry_by_name`: what it leaves in the `dentry_t` of the caller.
use gyarad_os.Base.{
  ℕ, ◌+◌, ◌*◌, ◌≤◌, ◌<◌, ◌^◌, ◌≡◌, ◌⊎◌, inl, inr, ◌∙◌, false, Option, some, arith, ◌==◌,
}
use gyarad_os.Base.Int.{ℤ, pos, negsuc}
use gyarad_os.Machine.Memory.{
  Addr, Mem, load32, store32, load32-store32, store32_same, load32-eq, Apart, ◌≐◌,
}
use gyarad_os.Str.{strncpy}
use gyarad_os.Str.Copy.{padded, strncpy-padded}
use gyarad_os.Str.Compare.{IsBytes}
use gyarad_os.Fs.{
  Fs, dentry_name, dentry_type, dentry_inode, find_dentry, name_bytes, copy_dentry,
  read_dentry_by_name,
}
use gyarad_os.Fs.Lookup.{
  Named, IsNames, Finds, find_dentry-first, strlen-fname, name_bytes-le, name_bytes-lt,
}

pub load32-lt : (m : Mem) (a : Addr) → IsBytes m → load32 m a < 2 ^ 32
unfolding load32
load32-lt m a byte = omega (arith, byte a, byte (a + 1), byte (a + 2), byte (a + 3))

module _ (fs : Fs) (m : Mem) (temp : Addr) (i n : ℕ) (byte : IsBytes m)
    (bytes : (j : ℕ) → j < n → (m (dentry_name fs i + j) == 0) ≡ false) (short : n ≤ 31)
    (apart : Apart temp 40 (dentry_name fs i) 64) where
  name_copied : strncpy m temp (dentry_name fs i) n ≐ padded m temp (dentry_name fs i) n n
  name_copied =
      strncpy-padded m temp (dentry_name fs i) n n
        (record { bytes = bytes; stop = inl (omega arith) }) (omega arith)

  name_same :
      (x : Addr) → (x < temp) ⊎ (temp + 31 ≤ x) → strncpy m temp (dentry_name fs i) n x ≡ m x
  name_same x o = ground (arith, name_copied x)

  -- Nothing but the `dentry_t` changes.
  pub copy_dentry_same :
      (x : Addr) → (x < temp) ⊎ (temp + 40 ≤ x) → copy_dentry fs m temp i n x ≡ m x
  unfolding copy_dentry
  copy_dentry_same x o =
      store32_same _ (temp + 36) _ x (omega arith)
      ∙ store32_same _ (temp + 32) _ x (omega arith)
      ∙ name_same x (omega arith)

  -- The inode number in it is the entry's.
  pub copy_dentry-inode : load32 (copy_dentry fs m temp i n) (temp + 36) ≡ dentry_inode fs m i
  unfolding copy_dentry
  copy_dentry-inode =
      let m1 = strncpy m temp (dentry_name fs i) n in
      let m2 = store32 m1 (temp + 32) (dentry_type fs m1 i) in
      let same : dentry_inode fs m2 i ≡ dentry_inode fs m i =
        load32-eq m m2 (dentry_name fs i + 36)
          (λ x lo hi. store32_same m1 (temp + 32) _ x (omega arith) ∙ name_same x (omega arith)) in
      load32-store32 m2 (temp + 36) (dentry_inode fs m2 i)
        (rw same (load32-lt m (dentry_name fs i + 36) byte))
      ∙ same

  -- So is the file type.
  pub copy_dentry-type : load32 (copy_dentry fs m temp i n) (temp + 32) ≡ dentry_type fs m i
  unfolding copy_dentry
  copy_dentry-type =
      let m1 = strncpy m temp (dentry_name fs i) n in
      let m2 = store32 m1 (temp + 32) (dentry_type fs m1 i) in
      let same : dentry_type fs m1 i ≡ dentry_type fs m i =
        load32-eq m m1 (dentry_name fs i + 32) (λ x lo hi. name_same x (omega arith)) in
      load32-eq m2 _ (temp + 32) (λ x lo hi. store32_same m2 (temp + 36) _ x (omega arith))
      ∙ load32-store32 m1 (temp + 32) (dentry_type fs m1 i)
          (rw same (load32-lt m (dentry_name fs i + 32) byte))
      ∙ same

  -- So are the bytes of the name.
  pub copy_dentry-name :
      (l : ℕ) → l < n → copy_dentry fs m temp i n (temp + l) ≡ m (dentry_name fs i + l)
  unfolding copy_dentry
  copy_dentry-name l h =
      store32_same _ (temp + 36) _ (temp + l) (omega arith)
      ∙ store32_same _ (temp + 32) _ (temp + l) (omega arith)
      ∙ name_copied (temp + l)
      ∙ ground arith

-- The two outcomes of a look-up. A hit gives the first entry with the name: its type, its inode
-- number and the first 31 bytes of its name are in the `dentry_t` at `dentry`, and no byte outside
-- changed. A miss changes nothing, and no entry has the name.
abbrev pub Looked :
    Fs
    → Mem
    → (len : ℕ → ℕ) → (fname : Addr) → (n : ℕ) → (dentry : Addr) → Option (ℤ × Mem)
    → Type 0
Looked fs m len fname n dentry r =
    ((j : ℕ) × (g : Mem) × (r ≡ some (pos 0, g))
      × (j < fs.n_dentries)
      × Named fs m len fname n j
      × ((l : ℕ) → l < j → ¬ Named fs m len fname n l)
      × (load32 g (dentry + 32) ≡ dentry_type fs m j)
      × (load32 g (dentry + 36) ≡ dentry_inode fs m j)
      × ((l : ℕ) → l < n → l < 31 → g (dentry + l) ≡ m (fname + l))
      × ((x : Addr) → (x < dentry) ⊎ (dentry + 40 ≤ x) → g x ≡ m x))
    ⊎ ((r ≡ some (negsuc 0, m)) × ((l : ℕ) → l < fs.n_dentries → ¬ Named fs m len fname n l))

name_bytes-short : (n : ℕ) → name_bytes n ≤ 31
unfolding name_bytes
name_bytes-short n = ground arith

module _ {fs : Fs} {m : Mem} {len : ℕ → ℕ} {fname : Addr} {n : ℕ} (is : IsNames fs m len fname n)
    (dentry : Addr) (apart : Apart dentry 40 fs.dentries (64 * fs.n_dentries)) where
  Looked-Finds :
      Finds fs m len fname n 0 fs.n_dentries (find_dentry fs.n_dentries fs m fname (name_bytes n) 0)
      → Looked fs m len fname n dentry (read_dentry_by_name fs m fname dentry)
  unfolding read_dentry_by_name
  Looked-Finds (inl (j, e, lo, hi, named, first)) =
      let k = name_bytes n in
      let le : k ≤ n = name_bytes-le is in
      let s = is.names j (omega arith) in
      let bytes : (l : ℕ) → l < k → (m (dentry_name fs j + l) == 0) ≡ false =
        λ l h. s.bytes l (omega (arith, named.0)) in
      let room : Apart dentry 40 (dentry_name fs j) 64 = omega arith in
      let short = name_bytes-short n in
      inl (
        j,
        copy_dentry fs m dentry j k,
        ground (arith, strlen-fname is),
        omega arith,
        named,
        (λ l h. first l (omega arith) h),
        copy_dentry-type fs m dentry j k is.byte bytes short room,
        copy_dentry-inode fs m dentry j k is.byte bytes short room,
        (λ l h few.
            copy_dentry-name fs m dentry j k is.byte bytes short room l (name_bytes-lt is l h few)
            ∙ named.1 l h few),
        copy_dentry_same fs m dentry j k is.byte bytes short room,
      )
  Looked-Finds (inr (e, out)) =
      inr (ground (arith, strlen-fname is), λ l h. out l (omega arith) (omega arith))

  -- Over a directory of strings, `read_dentry_by_name` finds the first entry with the name, as
  -- long as the `dentry_t` lies apart from the directory: it copies the type, the inode number and
  -- the first 31 bytes of the name, and changes nothing else. An entry has the name when it has its
  -- length and the same first 31 bytes. When no entry has the name it
  -- returns -1 and changes nothing.
  pub read_dentry_by_name-Looked :
      Looked fs m len fname n dentry (read_dentry_by_name fs m fname dentry)
  read_dentry_by_name-Looked = Looked-Finds (find_dentry-first is)
