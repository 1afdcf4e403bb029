-- ===== src/Drivers/Dma.antt =====
-- The DMA controllers of drivers/dma.c: channels 0 to 3 are on the first, 4 to 7 on the second.
pub mod Channels
use gyarad_os.Base.{
  ℕ, ◌+◌, ◌-◌, ◌*◌, ◌/◌, ◌%◌, ◌^◌, Bool, Option, none, some, ltb, ◌==◌, if◌then◌else◌, bit_and,
  bit_or,
}
use gyarad_os.Base.Int.{ℤ, pos, negsuc}
use gyarad_os.Machine.Bus.{Log, outb}

unfoldable pub start_dma : (d_data : ℕ) → Log → Log
start_dma d_data l = if ltb d_data 4 then outb d_data 0x0a l else outb (d_data % 4) 0xd4 l

unfoldable pub stop_dma : (d_data : ℕ) → Log → Log
stop_dma d_data l =
    if ltb d_data 4 then outb (bit_or d_data 4) 0x0a l else outb (bit_or (d_data % 4) 4) 0xd4 l

-- The mode goes to the mask ports.
unfoldable pub set_dma_mode : (d_data mode : ℕ) → Log → Log
set_dma_mode d_data mode l =
    if ltb d_data 4
    then outb (bit_or mode d_data) 0x0a l
    else outb (bit_or mode (d_data % 4)) 0xd4 l

-- The switches over the channel's page port; past 7 there is no case.
unfoldable pub page_port : ℕ → Option ℕ
page_port d_data =
    if d_data == 0
    then some 0x87
    else if d_data == 1
    then some 0x83
    else if d_data == 2
    then some 0x81
    else if d_data == 3
    then some 0x82
    else if d_data == 4
    then some 0x8f
    else if d_data == 5
    then some 0x8b
    else if d_data == 6
    then some 0x89
    else if d_data == 7
    then some 0x8a
    else none

-- `mem` is a `uint8_t`.
unfoldable pub set_dma_mem : (d_data mem : ℕ) → Log → Log
set_dma_mem d_data mem l = elim (page_port d_data) [
  | none ↦ l
  | some port ↦ if ltb d_data 4 then outb mem port l else outb (bit_or mem 0xfe) port l
]

unfoldable pub clear_dma_regs : (d_data : ℕ) → Log → Log
clear_dma_regs d_data l = if ltb d_data 4 then outb 0 0x0c l else outb 0 0xd8 l

unfoldable pub set_dma_mem_addr : (d_data addr : ℕ) → Log → Log
set_dma_mem_addr d_data addr l =
    let l' = set_dma_mem d_data (addr / 2 ^ 16 % 0x100) l in
    let port = if ltb d_data 4 then d_data % 4 * 2 else d_data % 4 * 4 + 0xc0 in
    let value = if ltb d_data 4 then addr else addr / 2 in
    outb (value / 2 ^ 8 % 0x100) port (outb (value % 0x100) port l')

unfoldable pub set_dma_rate : (d_data rate : ℕ) → Log → Log
set_dma_rate d_data rate l =
    let less = (rate + 0xffff_ffff) % 2 ^ 32 in
    let port = if ltb d_data 4 then d_data % 4 * 2 + 1 else d_data % 4 * 4 + 2 + 0xc0 in
    let value = if ltb d_data 4 then less else less / 2 in
    outb (value / 2 ^ 8 % 0x100) port (outb (value % 0x100) port l)

-- `mode` is the byte of an `int8_t`; -1 comes back as a `uint32_t`.
unfoldable pub init_dma : (channel addr size mode : ℕ) → Log → ℕ × Log
init_dma channel addr size mode l =
    if ltb 9 channel
    then (0xffff_ffff, l)
    else (let l1 = clear_dma_regs channel (stop_dma channel l) in
        let l2 = set_dma_mem_addr channel addr (set_dma_mode channel mode l1) in
        (0, start_dma channel (set_dma_rate channel size l2)))
