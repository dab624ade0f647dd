-- ===== src/Lib.antt =====
-- A verification library for libspectrum, the C library that reads and writes the files of ZX
-- Spectrum emulators and emulates some of their devices. Paths are from the root of the repository.
--
-- The parts that are modelled, and where:
--   Bytes      libspectrum.c: little-endian words and double words, and `libspectrum_make_room`.
--   Buffer     buffer.c: the growing buffer that all writers store into. `Buffer` is the struct, and
--              each function of the file is the function of the same name without its prefix. The
--              bytes behind a `libspectrum_byte*` that moves are a `Block`.
--   Z80        z80.c: the run-length coder (`Compress`), and the memory blocks of the file versions
--              1 to 3 with their headers and the end marker (`Pages`).
--   Hdf        ide.c: sectors of a disk image behind a write cache, as IDE drives and SD cards
--              share them.
--   Mmc        mmc.c: an SD card behind an SPI port. `State` is the struct, `Commands` the commands,
--              `Port` the state machine that takes and gives single bytes.
--   Microdrive microdrive.c: the blocks of a cartridge, their checksums, and .mdr files. The bytes
--              that `set_block` stores one by one are the list `block_bytes`.
--   Rzx        rzx.c: the frames of an input recording. `store_frame` records one, `playback` gives
--              the byte of an IN, and `playback_frame` goes on to the next frame or block.
--   Tape       tape.c and the initialisation in tape_block.c: the edges of each kind of block (`Data`,
--              `Pulses`, `Raw`, `Pulsed`, `Generalised`), `libspectrum_tape_get_next_edge` with its
--              jumps and loops (`Next`), and the list of blocks (`Select`). An edge function gives
--              the values of its pointer arguments as an `Edge`, and the new state. The list of
--              blocks is a list, a pointer into it an index. `Next.Program` has the abstract view
--              of a tape, as blocks and loops of blocks.
--   Tap        tap.c: .tap files and their relatives. `read_block` and `write_tap_block` are one block,
--              `internal_tap_read` and `internal_tap_write` the loops over a file and a tape.
--   Tzx        tzx_read.c and tzx_write.c: .tzx files. Each `tzx_read_` and `tzx_write_` function is the
--              function of the same name: a reader takes the bytes behind the number of its block, and
--              gives the block and the bytes that follow it. `Read.Files` and `Write.Files` are the
--              loops over a file and a tape, `Read.Generalised` and `Write.Generalised` the symbol
--              tables, with tape_block.c, and `Write.Samples` run-length coded pulses, which are
--              played by `get_next_edge` to become raw data.
--   Utilities  utilities.c: durations, the pause of a tape block, and bits in bytes.
-- Base has what they share: Boolean tests, lists measured by native numbers, blocks of C memory,
-- bits, and the error values of libspectrum.h.in.
--
-- How they interact: the Z80 coder stores through `libspectrum_make_room`, whose effect on storage is
-- Buffer's `append` and `block_make_room`; the coder itself is modelled on the bytes that it stores.
-- An SD card reads and writes sectors by the functions of Hdf, with its own cache. A file is
-- read on to a tape of the module Tape by its `append_block`, as blocks that its `Next` plays.
--
-- Parameters. Memory comes from an `Allocator` (realloc, which keeps the bytes that fit). Files and
-- hash tables come from a `Host`: reading a number of bytes at a position gives that many bytes or
-- fails, and a table finds what was inserted last under a key. Memory for recorded frames is given
-- or refused by a function `renew`, and a snapshot is a value of any type. The bits of a symbol of
-- a .tzx file come from `log` and `ceil` of the C library, as a function `ceil_log` of the number of
-- symbols.
--
-- Numbers. Bytes, words and sizes are natural numbers; where the C code wraps at 16, 32 or 64 bits
-- the remainder is written out. A pointer into a buffer is an index.
--
-- Bounds and fuel. `reallocate_to_new_size` doubles a 64-bit size in a loop; 64 rounds reach every
-- size up to 2 ^ 63, and larger ones are excluded by a hypothesis on the volume written. The coder's
-- loop runs on the length of its input and one, since each round takes a byte away. The search for an
-- edge of raw data has a round for every sample and one, since each goes on by a sample. The search for
-- a pulse with a length in a sequence has one for every pulse and one; no theorem is about this one. A
-- .tap or .tzx file has a round for each of its bytes and one, and run-length coded pulses have one for
-- each byte and one; no theorem is about the latter. `none` is a loop that has run out of rounds, or a
-- read past the end of a block where the C code reads on.
--
-- Not modelled: the other file formats, the removal and insertion of blocks of a tape, the descriptions
-- and lengths of its blocks, the file format and the rollback of recordings, the
-- registers of the IDE channel, the commit of a cache to its file, printed messages, memory that is
-- released, and the libraries for compression and cryptography. Functions that the build generates
-- are not in the sources.
pub mod Base
pub mod Bytes
pub mod Buffer
pub mod Z80
pub mod Hdf
pub mod Mmc
pub mod Microdrive
pub mod Rzx
pub mod Tape
pub mod Tap
pub mod Tzx
pub mod Utilities
