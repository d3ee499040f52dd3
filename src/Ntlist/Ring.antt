-- ===== src/Ntlist/Ring.antt =====
-- A list head with its elements as a ring in memory, and what each list operation does to it.
pub mod Defs
pub mod Insert
pub mod Move
pub mod Remove
