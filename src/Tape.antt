-- ===== src/Tape.antt =====
-- tape.c and tape_block.c: the edges that a tape gives, block by block. `Edges` has what an edge is,
-- `Data`, `Raw`, `Pulses`, `Pulsed` and `Generalised` the edges of the kinds of blocks, and `Next`
-- the tape itself, with its jumps and loops.
pub mod Edges
pub mod Emits
pub mod Data
pub mod Pulses
pub mod Raw
pub mod Pulsed
pub mod Generalised
pub mod Next
pub mod Select
pub mod Reading
pub mod Zeros
mod Runs
