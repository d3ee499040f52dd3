-- ===== src/Ob.antt =====
-- The object manager, NNXOSKRN/ob.
pub mod Handle
