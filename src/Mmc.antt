-- ===== src/Mmc.antt =====
-- mmc.c: an SD card behind an SPI port. `write` is `libspectrum_mmc_write`, the state machine that
-- takes a command byte by byte, and `read` is `libspectrum_mmc_read`.
pub mod State
pub mod Commands
pub mod Port
pub mod Sound
pub mod Invariant
pub mod Slot
pub mod Quiet
pub mod Protocol
pub mod Init
pub mod Transfer
pub mod Refused
pub mod Erase
mod Runs
