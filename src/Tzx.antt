-- ===== src/Tzx.antt =====
-- .tzx files: tzx_read.c and tzx_write.c. `Fields` has what both sides share, `Read` and `Write` the
-- blocks, and `Files` the loops over a file and a tape.
pub mod Fields
pub mod Read
pub mod Write
pub mod RoundTrip
pub mod Total
mod Runs
