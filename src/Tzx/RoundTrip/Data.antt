-- ===== src/Tzx/RoundTrip/Data.antt =====
-- Blocks with data that are written and read again.
use libspectrum.Base.{ℕ, ◌^◌, ◌≤◌, ◌<◌, ◌≡◌, refl, arith, le→ltb, ne→==}
use libspectrum.Base.{List, ◌++◌, length, drop, ok}
use libspectrum.Bytes.{write_word}
use libspectrum.Tape.Data.{PureData, Rom, Turbo}
use libspectrum.Tape.Raw.{RawData, samples}
use libspectrum.Tape.Next.{rom, turbo, pure_data, raw_data}
use libspectrum.Tzx.Fields.{tzx_write_bytes, last_bits}
use libspectrum.Tzx.Read.{
  tzx_read_rom_block, tzx_read_turbo_block, tzx_read_pure_data, tzx_read_raw_data, some_data,
}
use libspectrum.Tzx.Write.{tzx_write_rom, tzx_write_turbo, tzx_write_data, tzx_write_raw_data}
use libspectrum.Tzx.RoundTrip.Pieces.{
  IsWord, IsPause, word_lem, byte_lem, read_data-write_bytes, of_ms_lem,
}

abbrev pub IsRom : Rom → Type 0
IsRom b = IsPause b.pause b.pause_tstates × (length b.bytes < 2 ^ 16)

-- The bits of the last byte, 1 to 8.
abbrev pub IsBits : ℕ → Type 0
IsBits n = (1 ≤ n) × (n ≤ 8)

pub last_bits_lem :
    (least bits : ℕ) (bytes : List ℕ) → IsBits bits → last_bits least bits bytes ≡ (bits, bytes)
last_bits_lem least bits bytes (low, high) =
    rw (ne→== bits 0 (λ e. omega arith), le→ltb 8 bits high) refl

abbrev pub IsPureData : PureData → Type 0
IsPureData b =
    IsPause b.pause b.pause_tstates
    × IsWord b.bit0_length
    × IsWord b.bit1_length
    × IsBits b.bits_in_last_byte
    × (length b.bytes < 2 ^ 24)

abbrev pub IsTurbo : Turbo → Type 0
IsTurbo b =
    IsPureData b.payload
    × IsWord b.pilot_length
    × IsWord b.pilot_pulses
    × IsWord b.sync1_length
    × IsWord b.sync2_length

-- Data that are there have a byte.
abbrev pub IsRawData : RawData → Type 0
IsRawData b =
    IsPause b.pause b.pause_tstates
    × IsWord b.bit_length
    × IsBits b.bits_in_last_byte
    × (length (samples b) < 2 ^ 24)
    × (some_data (samples b) (samples b) ≡ b.bytes)

-- The block that was written is read, and what stands behind it is left.
pub read_rom_block-write_rom :
    (b : Rom) (rest : List ℕ)
    → IsRom b
    → tzx_read_rom_block (drop 1 (tzx_write_rom b) ++ rest) ≡ ok (rom b, rest)
unfolding tzx_read_rom_block tzx_write_rom write_word tzx_write_bytes
read_rom_block-write_rom b rest ((w, p), n) = rw (
  le→ltb (length (drop 1 (tzx_write_rom b) ++ rest)) 4 (omega arith),
  read_data-write_bytes 2 b.bytes rest n,
  word_lem b.pause w,
  of_ms_lem b.pause,
  p,
)

pub read_pure_data-write_data :
    (b : PureData) (rest : List ℕ)
    → IsPureData b
    → tzx_read_pure_data (drop 1 (tzx_write_data b) ++ rest) ≡ ok (pure_data b, rest)
unfolding tzx_read_pure_data tzx_write_data write_word tzx_write_bytes
read_pure_data-write_data b rest ((w, p), zero_bit, one_bit, bits, n) = rw (
  le→ltb (length (drop 1 (tzx_write_data b) ++ rest)) 10 (omega arith),
  read_data-write_bytes 3 b.bytes rest n,
  word_lem b.pause w,
  word_lem b.bit0_length zero_bit,
  word_lem b.bit1_length one_bit,
  byte_lem b.bits_in_last_byte (omega (arith, bits)),
  last_bits_lem 2 b.bits_in_last_byte b.bytes bits,
  of_ms_lem b.pause,
  p,
)

pub read_turbo_block-write_turbo :
    (b : Turbo) (rest : List ℕ)
    → IsTurbo b
    → tzx_read_turbo_block (drop 1 (tzx_write_turbo b) ++ rest) ≡ ok (turbo b, rest)
unfolding tzx_read_turbo_block tzx_write_turbo write_word tzx_write_bytes
read_turbo_block-write_turbo b rest
      (((w, p), zero_bit, one_bit, bits, n), pilot, count, sync1, sync2) =
    rw (
      le→ltb (length (drop 1 (tzx_write_turbo b) ++ rest)) 18 (omega arith),
      read_data-write_bytes 3 b.payload.bytes rest n,
      word_lem b.payload.pause w,
      word_lem b.payload.bit0_length zero_bit,
      word_lem b.payload.bit1_length one_bit,
      word_lem b.pilot_length pilot,
      word_lem b.pilot_pulses count,
      word_lem b.sync1_length sync1,
      word_lem b.sync2_length sync2,
      byte_lem b.payload.bits_in_last_byte (omega (arith, bits)),
      last_bits_lem 1 b.payload.bits_in_last_byte b.payload.bytes bits,
      of_ms_lem b.payload.pause,
      p,
    )

pub read_raw_data-write_raw_data :
    (b : RawData) (rest : List ℕ)
    → IsRawData b
    → tzx_read_raw_data (drop 1 (tzx_write_raw_data b) ++ rest) ≡ ok (raw_data b, rest)
unfolding tzx_read_raw_data tzx_write_raw_data write_word tzx_write_bytes
read_raw_data-write_raw_data b rest ((w, p), bit, bits, n, there) = rw (
  le→ltb (length (drop 1 (tzx_write_raw_data b) ++ rest)) 8 (omega arith),
  read_data-write_bytes 3 (samples b) rest n,
  word_lem b.pause w,
  word_lem b.bit_length bit,
  byte_lem b.bits_in_last_byte (omega (arith, bits)),
  last_bits_lem 1 b.bits_in_last_byte (samples b) bits,
  of_ms_lem b.pause,
  p,
  there,
)
