-- ===== src/Tap.antt =====
-- tap.c: .tap files and their relatives .spc, .sta and .ltp, which keep less of a block's parity or
-- count its length in another way. A file is a list of bytes, and what is written to the buffer is
-- the list of the bytes that are stored.
pub mod Blocks
pub mod RoundTrip
pub mod Total
mod Runs
use libspectrum.Base.{
  ℕ, zero, suc, ◌+◌, ◌-◌, ◌*◌, ◌/◌, ◌%◌, ◌==◌, ltb, Bool, true, false, if◌then◌else◌, bit_xor,
}
use libspectrum.Base.{List, [], ◌∷◌, ◌++◌, length, get_or, set, take, drop, Option, none, some}
use libspectrum.Base.{Error, warning, corrupt, invalid, Result, ok, err}
use libspectrum.Base.Partial.{◌>>=◌}
use libspectrum.Bytes.{byte}
use libspectrum.Utilities.{Pause, set_pause_ms}
use libspectrum.Tape.Data.{Rom}
use libspectrum.Tape.Next.{Block, Tape, rom, turbo, pure_data, concat}
use libspectrum.Tape.Select.{append_block, tape_clear}

pub data TapType : Type 0 where
  tap spc sta ltp : TapType

-- What the length at the start of a block leaves out.
abbrev pub uncounted : TapType → ℕ
uncounted tap = 0
uncounted spc = 2
uncounted sta = 2
uncounted ltp = 2

abbrev pub xor_all : ℕ → List ℕ → ℕ
xor_all parity [] = parity
xor_all parity (b ∷ bytes) = xor_all (bit_xor parity b) bytes

-- The data of a block from the bytes of the file, with the parity put right.
unfoldable pub fix_parity : TapType → List ℕ → List ℕ
fix_parity tap bytes = bytes
fix_parity ltp bytes = bytes
fix_parity spc bytes =
    let last = length bytes - 1 in set bytes last (bit_xor (get_or bytes last 0) (get_or bytes 0 0))
fix_parity sta bytes = bytes ++ (xor_all 0 bytes ∷ [])

-- How many bytes of a block are in the file.
abbrev pub stored : TapType → ℕ → ℕ
stored sta n = n - 1
stored _ n = n

-- The data of a block from the start of a list of bytes, and the bytes behind it.
unfoldable pub read_block : TapType → List ℕ → Result (List ℕ × List ℕ)
unfolding fix_parity
read_block type [] = err corrupt
read_block type (low ∷ []) = err corrupt
read_block type (low ∷ high ∷ rest) =
    let buf_length = stored type (low + high * 0x100 + uncounted type) in
    if ltb (length rest) buf_length
    then err corrupt
    else ok (fix_parity type (take buf_length rest), drop buf_length rest)

-- A ROM block with a pause of a second; the two fields of its pause are those that
-- `libspectrum_set_pause_ms` sets.
abbrev pub rom_block : List ℕ → Block
rom_block bytes =
    let set = set_pause_ms (record { pause = 0; pause_tstates = 0 }) 1000 in
    rom (record { bytes = bytes; pause = set.pause; pause_tstates = set.pause_tstates })

-- The error, if there is one, and the tape. The outer `none` is a loop that has not ended after so
-- many rounds, or a block that cannot be put on the tape.
unfoldable pub tap_read : ℕ → TapType → List ℕ → Tape → Option (Option Error × Tape)
unfolding read_block tape_clear append_block
tap_read zero type buffer tape = none
tap_read (suc rounds) type [] tape = some (none, tape)
tap_read (suc rounds) type (b ∷ buffer) tape = elim (read_block type (b ∷ buffer)) [
  | err e ↦ some (some e, tape_clear tape)
  | ok (bytes, rest) ↦
      append_block tape (rom_block bytes) >>= λ tape'. tap_read rounds type rest tape'
]

-- `internal_tap_read`; each round takes two bytes at least.
unfoldable pub internal_tap_read : TapType → List ℕ → Tape → Option (Option Error × Tape)
unfolding tap_read
internal_tap_read type buffer tape = tap_read (suc (length buffer)) type buffer tape

-- The last byte of a block in the file, from its last byte and its first.
abbrev pub final_byte : TapType → ℕ → ℕ → ℕ
final_byte spc parity first = bit_xor parity first
final_byte _ parity first = parity

-- The bytes of a block in the file. `none` is the undefined behaviour for a block without data.
unfoldable pub write_tap_block : TapType → List ℕ → Option (Result (List ℕ))
write_tap_block type bytes =
    let buf_length = stored type (length bytes) in
    let n = length bytes - uncounted type in
    let parity = get_or bytes (buf_length - 1) 0 in
    if ltb (length bytes) (uncounted type)
    then some (err invalid)
    else if buf_length == 0
    then none
    else some (
        ok (
          byte n ∷ byte (n / 0x100) ∷ take (buf_length - 1) bytes
          ++ (final_byte type parity (get_or bytes 0 0) ∷ [])))

-- A block of a tape in the file: other blocks than those with data are left out, with a warning,
-- and for one without a description that is an error.
unfoldable pub write_block : TapType → Block → Option (Result (List ℕ))
unfolding write_tap_block
write_block type (rom b) = write_tap_block type b.bytes
write_block type (turbo b) = write_tap_block type b.payload.bytes
write_block type (pure_data b) = write_tap_block type b.bytes
write_block type concat = some (err warning)
write_block type b = some (ok [])

unfoldable pub internal_tap_write : TapType → List Block → Option (Result (List ℕ))
unfolding write_block
internal_tap_write type [] = some (ok [])
internal_tap_write type (b ∷ blocks) = write_block type b >>= λ r. elim r [
  | err e ↦ some (err e)
  | ok bytes ↦ internal_tap_write type blocks >>= λ q. elim q [
    | err e ↦ some (err e)
    | ok more ↦ some (ok (bytes ++ more))
  ]
]
