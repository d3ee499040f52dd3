-- ===== src/Gdi.antt =====
-- The graphics objects of the kernel, NNXOSKRN/gdi: the table of handles, and the intersection of rectangles.
pub mod Object
pub mod Region
mod Tests
