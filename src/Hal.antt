-- ===== src/Hal.antt =====
-- The hardware abstraction layer, HALX64.
pub mod Rtc
