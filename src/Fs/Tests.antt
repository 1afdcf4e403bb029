-- ===== src/Fs/Tests.antt =====
-- An image with the one file "ab", which holds "hello".
use gyarad_os.Base.{◌+◌, ◌⊎◌, ℕ, ◌≤◌, ◌<◌, ◌≡◌, refl, some, arith, ◌==◌, if◌then◌else◌}
use gyarad_os.Base.Int.{pos}
use gyarad_os.Machine.Memory.{blit, Mem, load32, Apart, ◌≐◌, IsString}
use gyarad_os.Str.Compare.{IsBytes}
use gyarad_os.Fs.{
  Fs, File, dentry_name, name_bytes, dentry_inode, file_size, block_number, read_data,
  read_dentry_by_name,
}
use gyarad_os.Fs.Calls.{dir_read, fs_read}
use gyarad_os.Fs.Lookup.{Named, IsNames}
use gyarad_os.Fs.Read.{IsFile, taken, read_data-Reads}
use gyarad_os.Fs.Name.{Looked, read_dentry_by_name-Looked}
use gyarad_os.Fs.Load.{IsEntry, Transferred, fs_read-Transferred}
use gyarad_os.Fs.Dir.{IsDirectory, dir_read-lists}

-- The name that is looked for stands at 0x20.
abbrev image : Mem
image a =
    if a == 0x20
    then b'a'
    else if a == 0x21
    then b'b'
    else if a == 0x1_0040
    then b'a'
    else if a == 0x1_0041
    then b'b'
    else if a == 0x1_0060
    then 2
    else if a == 0x1_1000
    then 5
    else if a == 0x1_2000
    then b'h'
    else if a == 0x1_2001
    then b'e'
    else if a == 0x1_2002
    then b'l'
    else if a == 0x1_2003
    then b'l'
    else if a == 0x1_2004
    then b'o'
    else 0

abbrev disk : Fs
disk = record {
  n_dentries = 1;
  n_inodes = 1;
  n_data_blocks = 1;
  dentries = 0x1_0040;
  inodes = 0x1_1000;
  data_blocks = 0x1_2000;
}

abbrev len : ℕ → ℕ
len i = 2

abbrev file : File
file = record { file_position = 1; file_name = 0x20 }

abbrev directory : File
directory = record { file_position = 0; file_name = 0x20 }

image-IsBytes : IsBytes image
image-IsBytes a = ground arith

only : (i : ℕ) → i < 1 → i ≡ 0
only i h = omega arith

entry-IsString : IsString image 0x1_0040 2
entry-IsString = record { bytes = λ i h. ground arith; stop = refl }

names-IsString : (i : ℕ) → i < 1 → IsString image (dentry_name disk i) 2
names-IsString i h = rw (only i h) entry-IsString

disk-IsNames : IsNames disk image len 0x20 2
disk-IsNames = record {
  names = names-IsString;
  lens = λ i h. omega arith;
  name = record { bytes = λ i h. ground arith; stop = refl };
  bound = omega arith;
  byte = image-IsBytes;
}

block_zero : (k : ℕ) → k ≤ 0 → block_number disk image 0 k < 1
unfolding load32
block_zero k h = ground arith

size_five : file_size disk image 0 ≡ 5
unfolding load32
size_five = refl

inode_zero : dentry_inode disk image 0 ≡ 0
unfolding load32
inode_zero = refl

disk-IsFile : IsFile disk image 0 5 0x1_0000 0x1_3000
disk-IsFile = record {
  inode_in = omega arith;
  size_eq = size_five;
  fits = omega arith;
  blocks = λ k h. block_zero k (omega arith);
  inodes_in = omega arith;
  table_in = omega arith;
  data_in = omega arith;
  stop_in = omega arith;
}

entry-Named : Named disk image len 0x20 2 0
unfolding name_bytes
entry-Named = (refl, λ j h few. ground arith)

disk-IsEntry : IsEntry disk image len 0x20 2 0 0 5 0x1_0000 0x1_3000
disk-IsEntry = record {
  names = disk-IsNames;
  file = disk-IsFile;
  entry_in = omega arith;
  named = entry-Named;
  first = λ l h. absurd (omega arith);
  inode_eq = inode_zero;
  directory = (omega arith, omega arith);
}

disk-IsDirectory : IsDirectory disk image len
disk-IsDirectory = record {
  names = names-IsString;
  short = λ i h. omega arith;
  count = omega arith;
}

read_data-Reads_example :
    ((read_data disk image 0 1 0x200 16).0 ≡ pos 5)
    × ((read_data disk image 0 1 0x200 16).1 ≐ taken disk image 0 1 0x200 5)
read_data-Reads_example = read_data-Reads disk-IsFile 1 0x200 16 (omega arith) (omega arith)

read_dentry_by_name-Looked_example :
    Looked disk image len 0x20 2 0x100 (read_dentry_by_name disk image 0x20 0x100)
read_dentry_by_name-Looked_example = read_dentry_by_name-Looked disk-IsNames 0x100 (omega arith)

dir_read-lists_example :
    ((0 < 1)
      × (g : Mem) × (dir_read disk image directory 0x200 32
          ≡ some (pos (len 0), g, record directory { file_position = 1 }))
      × (g ≐ blit image 0x200 (dentry_name disk 0) (len 0 + 1)))
    ⊎ ((1 ≤ 0)
        × (dir_read disk image directory 0x200 32
            ≡ some (pos 0, image, record directory { file_position = 0 })))
dir_read-lists_example = dir_read-lists disk-IsDirectory 0x200 32 (omega arith) directory

local-Apart : Apart 0x100 40 0x1_0000 0x3000
local-Apart = omega arith

image_in : 0x1_0000 ≤ 0x1_3000
image_in = omega arith

fs_read-Transferred_example :
    (g : Mem) × (fs_read disk image 0x100 file 0x200 16
      ≡ some (pos 5, g, record file { file_position = 6 }))
    × Transferred disk-IsEntry 0x100 local-Apart image_in 1 0x200 5 g
fs_read-Transferred_example =
    fs_read-Transferred disk-IsEntry 0x100 local-Apart image_in 0x200 16 (omega arith) file refl
      (omega arith)
