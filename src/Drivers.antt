-- ===== src/Drivers.antt =====
-- The device drivers of drivers/, over the bus.
pub mod Pic
pub mod Rtc
pub mod Dma
pub mod Mouse
pub mod Speaker
