-- ===== src/Rtl.antt =====
-- The run-time library of the kernel, NNXOSKRN/rtl.
pub mod String
