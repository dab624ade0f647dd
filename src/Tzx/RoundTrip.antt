-- ===== src/Tzx/RoundTrip.antt =====
-- A tape that is written to a .tzx file and read again.
pub mod Pieces
pub mod Data
pub mod Pulses
pub mod Texts
pub mod Sequences
pub mod Stored
pub mod Blocks
pub mod Selections
pub mod Tables
pub mod Files
