-- ===== src/Boot.antt =====
-- boot/kernel.c, with the structures of include/boot/multiboot.h and include/boot/x86_desc.h: what
-- `entry` takes from the boot loader, and the segments that it sets up. The boot loader's
-- structures stand in memory, all of whose fields are 32 bits wide.
pub mod Modules
pub mod Segments
pub mod Entry
pub mod Lines
pub mod Calm
pub mod First
mod Tests
use gyarad_os.Base.{
  ℕ, zero, suc, ◌+◌, ◌/◌, ◌%◌, ◌^◌, ◌<◌, Bool, Option, none, some, ltb, ◌==◌, if◌then◌else◌,
}
use gyarad_os.Machine.Memory.{Addr, Mem, load32}

-- `CHECK_FLAG(flags, bit)`.
abbrev pub check_flag : (flags bit : ℕ) → Bool
check_flag flags bit = flags / 2 ^ bit % 2 == 1

-- `module_t`, 16 bytes: `mod_start`, `mod_end`, `string`, `reserved`.
abbrev pub mod_start : Mem → Addr → ℕ
mod_start m a = load32 m a

abbrev pub string : Mem → Addr → ℕ
string m a = load32 m (a + 8)

-- The loop over the modules, with `k` left. The pointer to a module's name is compared with a
-- number, MOD_FS_STRING.
unfoldable pub scan_modules : (k : ℕ) → Mem → (module_at : Addr) → (fs_start : ℕ) → ℕ
scan_modules zero m module_at fs_start = fs_start
scan_modules (suc k) m module_at fs_start =
    scan_modules k m (module_at + 16)
      (if string m module_at == 8201 then mod_start m module_at else fs_start)

-- Where the file system starts, 0 if there is none: `mods_count` and `mods_addr` are the sixth and
-- the seventh field of `multiboot_info_t`.
unfoldable pub find_fs : Mem → (mbi : Addr) → ℕ
find_fs m mbi =
    let found = scan_modules (load32 m (mbi + 20)) m (load32 m (mbi + 24)) 0 in
    if check_flag (load32 m mbi) 3 then found else 0

-- The loop over the memory map, which does nothing but go from entry to entry, with `f` rounds left.
unfoldable pub walk_mmap : ℕ → Mem → (mmap end : Addr) → Option Addr
walk_mmap zero m mmap end = none
walk_mmap (suc f) m mmap end =
    let rest = walk_mmap f m ((mmap + load32 m mmap + 4) % 2 ^ 32) end in
    if ltb mmap end then rest else some mmap

-- `seg_desc_t`.
pub record Segment : Type 0 where
  pub seg_lim_15_00 : ℕ
  pub base_15_00 : ℕ
  pub base_23_16 : ℕ
  pub kind : ℕ
  pub sys : ℕ
  pub dpl : ℕ
  pub present : ℕ
  pub seg_lim_19_16 : ℕ
  pub avail : ℕ
  pub reserved : ℕ
  pub opsize : ℕ
  pub granularity : ℕ
  pub base_31_24 : ℕ

-- `SET_LDT_PARAMS`, of whose text `SET_TSS_PARAMS` is a copy.
unfoldable pub set_ldt_params : (addr lim : ℕ) → Segment → Segment
set_ldt_params addr lim d = record d {
  base_31_24 = addr / 2 ^ 24 % 2 ^ 8;
  base_23_16 = addr / 2 ^ 16 % 2 ^ 8;
  base_15_00 = addr % 2 ^ 16;
  seg_lim_19_16 = lim / 2 ^ 16 % 2 ^ 4;
  seg_lim_15_00 = lim % 2 ^ 16;
}

unfoldable pub set_tss_params : (addr lim : ℕ) → Segment → Segment
set_tss_params addr lim d = record d {
  base_31_24 = addr / 2 ^ 24 % 2 ^ 8;
  base_23_16 = addr / 2 ^ 16 % 2 ^ 8;
  base_15_00 = addr % 2 ^ 16;
  seg_lim_19_16 = lim / 2 ^ 16 % 2 ^ 4;
  seg_lim_15_00 = lim % 2 ^ 16;
}

-- The descriptor of the LDT; `local` is what stands in the variable before.
unfoldable pub ldt_segment : (ldt ldt_size : ℕ) → (local : Segment) → Segment
ldt_segment ldt ldt_size local = set_ldt_params ldt ldt_size (record local {
  granularity = 0;
  opsize = 1;
  reserved = 0;
  avail = 0;
  present = 1;
  dpl = 0;
  sys = 0;
  kind = 2;
})

-- The descriptor of the TSS. TSS_SIZE is 104, and `tss_size` the size that the assembler counts.
unfoldable pub tss_segment : (tss tss_size : ℕ) → (local : Segment) → Segment
tss_segment tss tss_size local = set_tss_params tss tss_size (record local {
  granularity = 0;
  opsize = 0;
  reserved = 0;
  avail = 0;
  seg_lim_19_16 = 0;
  present = 1;
  dpl = 0;
  sys = 0;
  kind = 9;
  seg_lim_15_00 = 104;
})
