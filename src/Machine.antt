-- ===== src/Machine.antt =====
-- The machine that the kernel's C code runs on: byte memory, and the bus of the I/O ports.
pub mod Memory
pub mod Bus
