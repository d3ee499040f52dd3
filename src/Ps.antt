-- ===== src/Ps.antt =====
-- The scheduler, NNXOSKRN/scheduler.c.
pub mod Ready
