-- ===== src/Tzx/Write/Generalised.antt =====
-- Generalised data blocks, and the data blocks of PZX files, as blocks of a .tzx file. `none` is a read
-- past the end of an array, or through a null pointer.
use libspectrum.Base.{
  ℕ, zero, suc, ◌+◌, ◌*◌, ◌==◌, ltb, max, Bool, false, not, ◌&&◌, ◌||◌, if◌then◌else◌,
}
use libspectrum.Base.{
  List, [], ◌∷◌, ◌++◌, length, get_or, take, Option, none, some, invalid, Result, ok, err,
}
use libspectrum.Base.Partial.{◌>>=◌}
use libspectrum.Bytes.{byte, dword, write_word, write_dword}
use libspectrum.Utilities.{bits_to_bytes}
use libspectrum.Tape.Data.{PureData}
use libspectrum.Tape.Generalised.{
  EdgeType, symbol_edge, symbol_no_edge, symbol_low, symbol_high, symbol_other,
}
use libspectrum.Tape.Generalised.{Symbol, SymbolTable, GeneralisedData}
use libspectrum.Tape.Pulsed.{DataBlock}
use libspectrum.Tzx.Write.{
  tzx_write_data, add_pure_tone_block, add_set_signal_level_block, level_byte,
}

-- What is written, or an error.
abbrev pub Written : Type 0
Written = Option (Result (List ℕ))

-- What is written one behind the other, up to an error.
abbrev pub then_write : Written → Written → Written
then_write first second = first >>= λ r. elim r [
  | err e ↦ some (err e)
  | ok front ↦
      second >>= λ s. elim s [ err e ↦ some (err e) | ok behind ↦ some (ok (front ++ behind)) ]
]

abbrev pub write_all : List Written → Written
write_all [] = some (ok [])
write_all (part ∷ parts) = then_write part (write_all parts)

-- So many bytes of an array.
abbrev pub from_array : ℕ → List ℕ → Written
from_array n bytes = if ltb (length bytes) n then none else some (ok (take n bytes))

unfoldable pub generalised_data_length : SymbolTable → SymbolTable → ℕ → ℕ
unfolding bits_to_bytes
generalised_data_length pilot_table data_table bits =
    let table = λ (t : SymbolTable). (2 * t.max_pulses + 1) * t.symbols_in_table in
    let pilot_size =
      if pilot_table.symbols_in_block == 0
      then 0
      else table pilot_table + 3 * pilot_table.symbols_in_block in
    let data_size =
      if data_table.symbols_in_block == 0
      then 0
      else table data_table + bits_to_bytes (bits * data_table.symbols_in_block) in
    14 + pilot_size + data_size

unfoldable pub serialise_generalised_data_table : SymbolTable → Result (List ℕ)
unfolding write_dword
serialise_generalised_data_table table =
    let n = table.symbols_in_table in
    if not (table.symbols_in_block == 0) && (n == 0 || ltb 256 n)
    then err invalid
    else ok (
        write_dword table.symbols_in_block
        ++ (byte table.max_pulses ∷ byte (if n == 256 then 0 else n) ∷ []))

abbrev pub edge_byte : EdgeType → ℕ
edge_byte symbol_edge = 0
edge_byte symbol_no_edge = 1
edge_byte symbol_low = 2
edge_byte symbol_high = 3
edge_byte (symbol_other n) = n

-- So many pulses of a symbol.
abbrev pub pulse_bytes : ℕ → List ℕ → Written
pulse_bytes zero lengths = some (ok [])
pulse_bytes (suc n) [] = none
pulse_bytes (suc n) (l ∷ lengths) = then_write (some (ok (write_word l))) (pulse_bytes n lengths)

-- So many symbols of a table.
abbrev pub symbols_bytes : ℕ → ℕ → List Symbol → Written
symbols_bytes zero max_pulses symbols = some (ok [])
symbols_bytes (suc n) max_pulses [] = none
symbols_bytes (suc n) max_pulses (s ∷ symbols) =
    then_write (some (ok (byte (edge_byte s.edge_type) ∷ [])))
      (then_write (pulse_bytes max_pulses s.lengths) (symbols_bytes n max_pulses symbols))

unfoldable pub serialise_generalised_data_symbols : SymbolTable → Written
serialise_generalised_data_symbols table =
    if table.symbols_in_block == 0
    then some (ok [])
    else symbols_bytes table.symbols_in_table table.max_pulses table.symbols

-- So many symbols of the pilot with their repeats.
abbrev pub pilot_bytes : ℕ → List ℕ → List ℕ → Written
pilot_bytes zero symbols repeats = some (ok [])
pilot_bytes (suc n) (s ∷ symbols) (r ∷ repeats) =
    then_write (some (ok (byte s ∷ write_word r))) (pilot_bytes n symbols repeats)
pilot_bytes (suc n) _ _ = none

-- A block from the parts that are written of it.
unfoldable pub write_generalised_data_block :
    List ℕ → List ℕ → List ℕ → ℕ → SymbolTable → SymbolTable → ℕ → Written
unfolding generalised_data_length serialise_generalised_data_table
    serialise_generalised_data_symbols write_word write_dword bits_to_bytes
write_generalised_data_block symbols repeats bytes bits pilot_table data_table pause_ms =
    let n = generalised_data_length pilot_table data_table bits in
    let count = bits_to_bytes (bits * data_table.symbols_in_block) in
    let header : Written = some (ok (0x19 ∷ write_dword n ++ write_word pause_ms)) in
    write_all (
      header
      ∷ some (serialise_generalised_data_table pilot_table)
      ∷ some (serialise_generalised_data_table data_table)
      ∷ serialise_generalised_data_symbols pilot_table
      ∷ pilot_bytes pilot_table.symbols_in_block symbols repeats
      ∷ serialise_generalised_data_symbols data_table
      ∷ from_array count bytes
      ∷ [])

unfoldable pub tzx_write_generalised_data : GeneralisedData → Written
unfolding write_generalised_data_block
tzx_write_generalised_data block =
    write_generalised_data_block block.pilot_symbols block.pilot_repeats block.bytes
      block.bits_per_data_symbol block.pilot_table block.data_table block.pause

-- A bit that is two pulses of the same length.
abbrev pub two_equal : List ℕ → Bool
two_equal (a ∷ b ∷ []) = a == b
two_equal _ = false

abbrev pub initial_level_byte : Option Bool → ℕ
initial_level_byte none = 0xff
initial_level_byte (some level) = level_byte level

abbrev pub empty_table : SymbolTable
empty_table = record { symbols_in_block = 0; max_pulses = 0; symbols_in_table = 0; symbols = [] }

-- The pulses of a bit as a symbol.
abbrev pub bit_symbol : List ℕ → Symbol
bit_symbol pulses = record { edge_type = symbol_edge; lengths = pulses }

unfoldable pub bits_table : DataBlock → SymbolTable
bits_table block = record {
  symbols_in_block = dword block.count;
  max_pulses = byte (max (length block.bit0_pulses) (length block.bit1_pulses));
  symbols_in_table = 2;
  symbols = bit_symbol block.bit0_pulses ∷ bit_symbol block.bit1_pulses ∷ [];
}

-- The data as a block of pure data without a pause.
unfoldable pub pure_bits : DataBlock → PureData
pure_bits block = record {
  bytes = block.bytes;
  bits_in_last_byte = block.bits_in_last_byte;
  pause = 0;
  pause_tstates = 0;
  bit0_length = get_or block.bit0_pulses 0 0;
  bit1_length = get_or block.bit1_pulses 0 0;
}

unfoldable pub tzx_write_data_block : DataBlock → Written
unfolding write_generalised_data_block tzx_write_data bits_table pure_bits add_pure_tone_block
    add_set_signal_level_block
tzx_write_data_block block =
    let level = add_set_signal_level_block (initial_level_byte block.initial_level) in
    let pure = two_equal block.bit0_pulses && two_equal block.bit1_pulses in
    let bits =
      if pure
      then some (ok (tzx_write_data (pure_bits block)))
      else write_generalised_data_block [] [] block.bytes 1 empty_table (bits_table block) 0 in
    let tail = if block.tail_length == 0 then [] else add_pure_tone_block block.tail_length 1 in
    write_all (some (ok level) ∷ bits ∷ some (ok tail) ∷ [])
