-- ===== src/Machine/Bus.antt =====
-- The port instructions `inb` and `outb` of include/lib/lib.h. What the devices behind the ports
-- do is not code of the kernel: a device is a parameter, which answers a read from all that has
-- passed on the bus before. The kernel's own state of the bus is that history, newest first.
use gyarad_os.Base.{ℕ, ◌%◌, List, [], ◌∷◌}

pub data Event : Type 0 where
  -- `outb(value, port)`
  out : ℕ → ℕ → Event
  -- `inb(port)` that got the value
  got : ℕ → ℕ → Event

abbrev pub Log : Type 0
Log = List Event

-- The byte that a read of the port gets, after the history.
abbrev pub Device : Type 0
Device = Log → ℕ → ℕ

-- `b1` in the instruction takes the low byte of the value, and `w0` the low word of the port.
unfoldable pub outb : ℕ → ℕ → Log → Log
outb value port l = out (value % 0x100) (port % 0x1_0000) ∷ l

-- `xorl` clears the upper bytes, so the result is a byte.
unfoldable pub inb : Device → ℕ → Log → ℕ × Log
inb dev port l = let v = dev l port % 0x100 in (v, got v port ∷ l)

-- A run of writes, in the order of the list.
unfoldable pub outbs : List (ℕ × ℕ) → Log → Log
unfolding outb
outbs [] l = l
outbs ((value, port) ∷ r) l = outbs r (outb value port l)
