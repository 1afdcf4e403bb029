-- ===== src/Paging.antt =====
-- mm/paging.c: the page directory and the page table of the first 4 MB. An entry is a record of
-- the bit fields of include/lib/types.h, a table a function from the index; the load of CR3 that
-- follows each change is not modelled, since the processor then walks the tables as they are.
pub mod Frames
mod Tests
use gyarad_os.Base.{ℕ, zero, suc, ◌+◌, ◌-◌, ◌*◌, ◌/◌, ◌%◌, ◌^◌, Bool, ◌==◌, if◌then◌else◌}

-- `PDE_t`. The fields that every writer sets to 0 (`write_through` to `avail`) are one field.
pub record Entry : Type 0 where
  pub present : ℕ
  pub read_write : ℕ
  pub user_super : ℕ
  pub page_size : ℕ
  pub rest : ℕ
  pub base : ℕ

abbrev pub Table : Type 0
Table = ℕ → Entry

abbrev pub put : Table → ℕ → Entry → Table
put t i e = λ j. if j == i then e else t j

pub record Paging : Type 0 where
  pub directory : Table
  pub table : Table

-- The body of the first loop of `init_paging`.
abbrev pub fresh_page : ℕ → Entry
fresh_page i = record {
  present = 0;
  read_write = 0;
  user_super = 0;
  page_size = 0;
  rest = 0;
  base = i;
}

-- The body of the second loop.
abbrev pub fresh_directory : Entry
fresh_directory = record {
  present = 0;
  read_write = 1;
  user_super = 1;
  page_size = 0;
  rest = 0;
  base = 0;
}

-- `for(i = 0; i < n; i++)` over a table, with `k` rounds left.
unfoldable pub fill_table : ℕ → (ℕ → Entry) → ℕ → Table → Table
fill_table zero entry i t = t
fill_table (suc k) entry i t = fill_table k entry (i + 1) (put t i (entry i))

-- The three bits that `init_paging` sets on a page of video memory.
unfoldable pub open_page : ℕ → Table → Table
open_page i t = put t i (record (t i) { present = 1; read_write = 1; user_super = 1 })

-- `pageTable1` is the table's address. The pages at 0xB8000, 0xBC000, 0xDC000 and 0xEC000 are those
-- of the screen and of the three terminals.
unfoldable pub init_paging : (page_table : ℕ) → Paging → Paging
init_paging page_table p =
    let t = fill_table 1024 fresh_page 0 p.table in
    let t1 = open_page (0xb8000 / 4096) t in
    let t2 = open_page (0xbc000 / 4096) t1 in
    let t3 = open_page (0xdc000 / 4096) t2 in
    let t4 = open_page (0xec000 / 4096) t3 in
    let d = fill_table 1024 (λ _. fresh_directory) 0 p.directory in
    let d0 = put d 0 (record (d 0) {
      present = 1;
      read_write = 1;
      page_size = 0;
      base = page_table / 4096 % 2 ^ 20;
    }) in
    -- the code's line for entry 0 names entry 1, and the lines for entry 1 overwrite it
    let d0' = put d0 1 (record (d0 1) { user_super = 1 }) in
    let d1 = put d0' 1 (record (d0' 1) {
      present = 1;
      read_write = 1;
      user_super = 0;
      page_size = 1;
      base = 0x40_0000 / 4096;
    }) in
    record { directory = d1; table = t4 }

-- `PROCESS_START_ADDR / PAGE_SIZE_LARGE`.
abbrev pub process_index : ℕ
process_index = 0x0804_8000 / 0x40_0000

-- What both writers of the process's entry set.
abbrev pub map_process : Paging → (base : ℕ) → Paging
map_process p base = record p {
  directory = put p.directory process_index (record (p.directory process_index) {
    present = 1;
    read_write = 1;
    user_super = 1;
    page_size = 1;
    base = base;
  });
}

-- The result is the field as it was stored, in 20 bits.
unfoldable pub init_new_process : (process_num : ℕ) → Paging → ℕ × Paging
init_new_process process_num p =
    let address = (0x80_0000 + process_num * 0x40_0000) % 2 ^ 32 in
    let base = address / 4096 % 2 ^ 20 in (base, map_process p base)

unfoldable pub switch_pd : (process_num prev_base : ℕ) → Paging → Paging
switch_pd process_num prev_base p = map_process p (prev_base % 2 ^ 20)
