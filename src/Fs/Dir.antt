-- ===== src/Fs/Dir.antt =====
-- `dir_read` and `autocomplete_command`: the directory as the user sees it.
use gyarad_os.Base.{inl, inr, ◌⊎◌, ℕ, ◌+◌, ◌*◌, ◌%◌, ◌≤◌, ◌<◌, ◌^◌, ◌≡◌, ◌∙◌, some, arith}
use gyarad_os.Base.Int.{pos}
use gyarad_os.Machine.Memory.{Addr, Mem, blit, Apart, IsString, ◌≐◌}
use gyarad_os.Str.{strlen, strcpy}
use gyarad_os.Str.Length.{strlen_iff}
use gyarad_os.Str.Copy.{strcpy-blit}
use gyarad_os.Fs.{Fs, File, dentry_name}
use gyarad_os.Fs.Calls.{dir_read}

-- The directory: each name is a string inside its 64 bytes.
pub record IsDirectory (fs : Fs) (m : Mem) (len : ℕ → ℕ) : Type 0 where
  pub names : (i : ℕ) → i < fs.n_dentries → IsString m (dentry_name fs i) (len i)
  pub short : (i : ℕ) → i < fs.n_dentries → len i < 64
  pub count : fs.n_dentries < 2 ^ 32

IsString-same :
    {m g : Mem} {s t : Addr} {n : ℕ}
    → IsString m s n
    → ((i : ℕ) → i ≤ n → g (t + i) ≡ m (s + i))
    → IsString g t n
IsString-same {n} is same = record {
  bytes = λ i h. rw (same i (omega arith)) (is.bytes i h);
  stop = same n (omega arith) ∙ is.stop;
}

-- A call of `dir_read` that has not reached the end.
dir_read-entry :
    (fs : Fs) (m g : Mem) (fd : File) (buf length n : ℕ)
    → fd.file_position < fs.n_dentries
    → strcpy m buf (dentry_name fs fd.file_position) ≡ some g
    → strlen g buf ≡ some n
    → dir_read fs m fd buf length
      ≡ some (pos n, g, record fd { file_position = (fd.file_position + 1) % 2 ^ 32 })
unfolding dir_read
dir_read-entry fs m g fd buf length n h e e' = ground arith

dir_read-end :
    (fs : Fs) (m : Mem) (fd : File) (buf length : ℕ)
    → fs.n_dentries ≤ fd.file_position
    → dir_read fs m fd buf length ≡ some (pos 0, m, record fd { file_position = 0 })
unfolding dir_read
dir_read-end fs m fd buf length h = ground arith

le_or_lt : (a b : ℕ) → (a ≤ b) ⊎ (b < a)
le_or_lt a b = ground arith

module _ {fs : Fs} {m : Mem} {len : ℕ → ℕ} (is : IsDirectory fs m len) (buf length : ℕ)
    (apart : Apart buf 64 fs.dentries (64 * fs.n_dentries)) where
  dir_read-copies :
      (fd : File)
      → fd.file_position < fs.n_dentries
      → let n = len fd.file_position in
        (g : Mem) × (dir_read fs m fd buf length
          ≡ some (pos n, g, record fd { file_position = fd.file_position + 1 }))
        × (g ≐ blit m buf (dentry_name fs fd.file_position) (n + 1))
  dir_read-copies fd h =
      let p = fd.file_position in
      let n = len p in
      let short = is.short p h in
      let (g, e, c) =
        strcpy-blit m buf (dentry_name fs p) n (is.names p h) (omega arith) (omega arith) in
      let text : IsString g buf n =
        IsString-same (is.names p h) (λ i le. c (buf + i) ∙ ground arith) in
      let l = (strlen_iff g buf n).1 (text, omega arith) in
      let next : (p + 1) % 2 ^ 32 ≡ p + 1 = omega (arith, is.count) in
      (g, dir_read-entry fs m g fd buf length n h e l ∙ rw next, c)

  -- A read of a directory of strings, with 64 bytes of buffer apart from it. Before the end it copies
  -- the name of the entry at the position, its NUL included, to the buffer and changes no other byte,
  -- returns the name's length and moves to the next entry. At the end it returns 0, changes no byte
  -- and goes back to the first entry.
  pub dir_read-lists :
      (fd : File)
      → ((fd.file_position < fs.n_dentries)
          × (g : Mem) × (dir_read fs m fd buf length
              ≡ some (
                pos (len fd.file_position),
                g,
                record fd { file_position = fd.file_position + 1 },
              ))
          × (g ≐ blit m buf (dentry_name fs fd.file_position) (len fd.file_position + 1)))
        ⊎ ((fs.n_dentries ≤ fd.file_position)
            × (dir_read fs m fd buf length ≡ some (pos 0, m, record fd { file_position = 0 })))
  dir_read-lists fd = elim (le_or_lt fs.n_dentries fd.file_position) [
    | inl end ↦ inr (end, dir_read-end fs m fd buf length end)
    | inr more ↦ let (g, e, c) = dir_read-copies fd more in inl (more, g, e, c)
  ]
