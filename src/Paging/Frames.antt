-- ===== src/Paging/Frames.antt =====
-- Which addresses the paging maps, and that processes do not share memory.
use gyarad_os.Base.{
  ℕ, zero, suc, ◌+◌, ◌*◌, ◌/◌, ◌%◌, ◌^◌, ◌≤◌, ◌<◌, ◌≡◌, ◌≢◌, inl, inr, ◌∙◌, ap, Bool, true, ◌&&◌,
  ◌||◌, Option, none, some, arith, ltb, leb, ◌==◌, if◌then◌else◌, Bool-cases,
}
use gyarad_os.Paging.{
  Entry, Table, Paging, put, map_process, fresh_page, fresh_directory, fill_table, open_page,
  init_paging, process_index, init_new_process, switch_pd,
}

-- The walk of the processor, as its manual has it: a directory entry that is present and large maps
-- 4 MB at its base, one that is present and small goes through the page table (the kernel has one),
-- and any other faults.
unfoldable pub translate : Paging → ℕ → Option ℕ
translate p a =
    let e = p.directory (a / 0x40_0000) in
    let t = p.table (a / 4096 % 1024) in
    if e.present == 0
    then none
    else if e.page_size == 1
    then some (e.base * 4096 + a % 0x40_0000)
    else if t.present == 0
    then none
    else some (t.base * 4096 + a % 4096)

-- A user address of the process window, 0x8000000 up to 0x8400000.
abbrev pub IsProcess : ℕ → Type 0
IsProcess a = a / 0x40_0000 ≡ process_index

-- What a process's window is mapped to while its entry is in place.
window :
    (p : Paging) (base a : ℕ)
    → IsProcess a
    → translate (map_process p base) a ≡ some (base * 4096 + a % 0x40_0000)
unfolding translate
window p base a w = ground arith

-- Elsewhere the entry of the process changes nothing.
elsewhere :
    (p : Paging) (base a : ℕ) → ¬ IsProcess a → translate (map_process p base) a ≡ translate p a
unfolding translate
elsewhere p base a out = ground arith

-- The physical address of a process's memory.
abbrev pub frame : ℕ → ℕ
frame n = 0x80_0000 + n * 0x40_0000

new_base : (n : ℕ) → n < 1022 → (frame n % 2 ^ 32 / 4096 % 2 ^ 20) * 4096 ≡ frame n
new_base n h = omega arith

-- A process with a number below 1022, `n`, gets the 4 MB of physical memory from 8 MB + 4 MB * n
-- on: its window is mapped there, and every other address is mapped as before.
pub init_new_process-translate :
    (p : Paging) (n a : ℕ)
    → n < 1022
    → translate (init_new_process n p).1 a
      ≡ (if a / 0x40_0000 == process_index then some (frame n + a % 0x40_0000) else translate p a)
unfolding init_new_process
init_new_process-translate p n a h = elim (Bool-cases (a / 0x40_0000 == process_index)) [
  | inl hit ↦
      rw hit (window p _ a (ground arith) ∙ ap (λ b. some (b + a % 0x40_0000)) (new_base n h))
  | inr miss ↦ rw miss (elsewhere p _ a (ground arith))
]

placed :
    (p : Paging) (n a x : ℕ)
    → n < 1022
    → IsProcess a
    → translate (init_new_process n p).1 a ≡ some x
    → x ≡ frame n + a % 0x40_0000
placed p n a x h w e =
    let hit : (a / 0x40_0000 == process_index) ≡ true = ground arith in
    let law = init_new_process-translate p n a h in ground arith

-- The memory of two processes with numbers below 1022 shares no byte, and neither shares one with
-- the first 8 MB, where the kernel is: what two of them map different numbers to are different
-- physical addresses.
pub init_new_process-apart :
    (p q : Paging) (n k a b x y : ℕ)
    → n < 1022
    → k < 1022
    → n ≢ k
    → IsProcess a
    → IsProcess b
    → translate (init_new_process n p).1 a ≡ some x
    → translate (init_new_process k q).1 b ≡ some y
    → (x ≢ y) × (0x80_0000 ≤ x) × (0x80_0000 ≤ y)
init_new_process-apart p q n k a b x y hn hk ne wa wb ex ey =
    let px = placed p n a x hn wa ex in let py = placed q k b y hk wb ey in omega arith

-- Switching to a process with a number below 1022 by the base that was returned when it was
-- created maps its own memory again, whatever was mapped in between.
pub switch_pd-init_new_process :
    (p q : Paging) (n a : ℕ)
    → n < 1022
    → translate (switch_pd n (init_new_process n p).0 q) a ≡ translate (init_new_process n q).1 a
unfolding switch_pd init_new_process
switch_pd-init_new_process p q n a h = ap (λ b. translate (map_process q b) a) (omega arith)

fill_table-at :
    (k : ℕ) (entry : ℕ → Entry) (i : ℕ) (t : Table) (j : ℕ)
    → fill_table k entry i t j ≡ (if leb i j && ltb j (i + k) then entry j else t j)
unfolding fill_table
fill_table-at zero entry i t j = ground arith
fill_table-at (suc k) entry i t j =
    ground (arith, fill_table-at k entry (i + 1) (put t i (entry i)) j)

-- The pages of the screen and of the terminals.
abbrev pub is_video : ℕ → Bool
is_video page = page == 0xb8 || page == 0xbc || page == 0xdc || page == 0xec

-- The directory and the table that `init_paging` leaves.
directory_at :
    (page_table : ℕ) (p : Paging) (j : ℕ)
    → j < 1024
    → let e = (init_paging page_table p).directory j in
      (e.present ≡ (if ltb j 2 then 1 else 0))
      × (e.page_size ≡ (if j == 1 then 1 else 0))
      × (j ≡ 1 → e.base ≡ 1024)
unfolding init_paging
directory_at page_table p j h =
    let entry : ℕ → Entry = λ _. fresh_directory in
    ground (
      arith,
      fill_table-at 1024 entry 0 p.directory j,
      fill_table-at 1024 entry 0 p.directory 0,
      fill_table-at 1024 entry 0 p.directory 1,
    )

table_at :
    (page_table : ℕ) (p : Paging) (j : ℕ)
    → j < 1024
    → let t = (init_paging page_table p).table j in
      (t.present ≡ (if is_video j then 1 else 0)) × (t.base ≡ j)
unfolding init_paging open_page
table_at page_table p j h =
    let at = fill_table-at 1024 fresh_page 0 p.table in
    ground (arith, at j, at 0xb8, at 0xbc, at 0xdc, at 0xec)

-- After `init_paging` an address below 4 GB is mapped to itself if it lies in the kernel, from 4 MB
-- to 8 MB, or in one of the four video pages, and faults anywhere else.
pub init_paging-translate :
    (page_table : ℕ) (p : Paging) (a : ℕ)
    → a < 2 ^ 32
    → translate (init_paging page_table p) a
      ≡ (if a / 0x40_0000 == 1 || is_video (a / 4096) then some a else none)
unfolding translate
init_paging-translate page_table p a h =
    ground
      (arith, directory_at page_table p (a / 0x40_0000), table_at page_table p (a / 4096 % 1024))
