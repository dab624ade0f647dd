-- ===== src/Z80.antt =====
-- z80.c: the run-length code of .z80 memory pages, and the blocks that hold them.
-- `compress_block` and `uncompress_block` are the two loops, `write_page` and `read_v2_block` the
-- page blocks of versions 2 and 3, `read_v1_block` the single block of version 1.
pub mod Compress
pub mod RoundTrip
pub mod Pages
pub mod PageLaws
pub mod Marker
mod Runs
