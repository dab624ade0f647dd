-- ===== src/Tzx/Total.antt =====
-- Reading of any .tzx file ends.
pub mod Leaves
pub mod Blocks
pub mod Numbers
pub mod Files
