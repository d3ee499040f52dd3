-- ===== src/Ke.antt =====
-- The kernel's lowest layer: bug checks, interrupt request levels, spin locks.
pub mod BugCheck
pub mod Dispatcher
pub mod Irql
pub mod SpinLock
pub mod Time
