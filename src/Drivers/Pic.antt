-- ===== src/Drivers/Pic.antt =====
-- drivers/i8259.c: the two interrupt controllers. A port number is written as in
-- include/drivers/i8259.h: 0x20 and 0x21 are the master's, 0xa0 and 0xa1 the slave's.
pub mod Masks
use gyarad_os.Base.{
  ℕ, ◌+◌, ◌-◌, ◌/◌, ◌%◌, ◌^◌, Bool, List, [], ◌∷◌, bit_and, bit_or, ◌==◌, if◌then◌else◌,
}
use gyarad_os.Machine.Bus.{Log, Device, outb, inb, outbs}

unfoldable pub i8259_init : Log → Log
i8259_init = outbs (
    (0x11, 0x20)
    ∷ (0x11, 0xa0)
    ∷ (0x20, 0x21)
    ∷ (0x28, 0xa1)
    ∷ (0x04, 0x21)
    ∷ (0x02, 0xa1)
    ∷ (0x05, 0x21)
    ∷ (0x01, 0xa1)
    ∷ (0xff, 0x21)
    ∷ (0xff, 0xa1)
    ∷ [])

-- `irq_num & 8`.
unfoldable pub is_slave : ℕ → Bool
is_slave irq_num = irq_num / 8 % 2 == 1

-- `1 << irq_num` and its complement in 32 bits.
unfoldable pub irq_bit : ℕ → ℕ
irq_bit irq_num = 2 ^ irq_num % 2 ^ 32

unfoldable pub not32 : ℕ → ℕ
not32 v = 0xffff_ffff - v

-- `outb(inb(port) & mask, port)`.
unfoldable pub and_port : Device → (port mask : ℕ) → Log → Log
and_port dev port mask l = let (v, l') = inb dev port l in outb (bit_and v mask) port l'

-- `outb(inb(port) | mask, port)`.
unfoldable pub or_port : Device → (port mask : ℕ) → Log → Log
or_port dev port mask l = let (v, l') = inb dev port l in outb (bit_or v mask) port l'

unfoldable pub enable_irq : Device → (irq_num : ℕ) → Log → Log
enable_irq dev irq_num l =
    if is_slave irq_num
    then and_port dev 0xa1 (not32 (irq_bit (irq_num - 8))) l
    else and_port dev 0x21 (not32 (irq_bit irq_num)) l

unfoldable pub disable_irq : Device → (irq_num : ℕ) → Log → Log
disable_irq dev irq_num l =
    if is_slave irq_num
    then or_port dev 0xa1 (irq_bit (irq_num - 8)) l
    else or_port dev 0x21 (irq_bit irq_num) l

unfoldable pub send_eoi : (irq_num : ℕ) → Log → Log
send_eoi irq_num l =
    if is_slave irq_num
    then outb (0x60 + 2) 0x20 (outb (bit_or 0x60 (irq_num - 8)) 0xa0 l)
    else outb (bit_or 0x60 irq_num) 0x20 l
