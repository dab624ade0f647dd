-- ===== src/Tzx/Read/Generalised.antt =====
-- Generalised data blocks of a .tzx file. `none` is a read past the end of the buffer, which the
-- code does not check everywhere.
use libspectrum.Base.{ℕ, zero, suc, ◌+◌, ◌-◌, ◌*◌, ◌/◌, ◌==◌, ltb, if◌then◌else◌}
use libspectrum.Base.{
  List, [], ◌∷◌, length, get_or, take, drop, map, Option, none, some, corrupt, Result, ok, err,
}
use libspectrum.Base.Partial.{◌>>=◌}
use libspectrum.Bytes.{dword}
use libspectrum.Tape.Generalised.{
  EdgeType, symbol_edge, symbol_no_edge, symbol_low, symbol_high, symbol_other,
}
use libspectrum.Tape.Generalised.{Symbol, SymbolTable, GeneralisedData}
use libspectrum.Tape.Next.{generalised_data}
use libspectrum.Tzx.Fields.{word_at, number, of_ms}
use libspectrum.Tzx.Read.{Parse, words}

abbrev pub edge_type_of : ℕ → EdgeType
edge_type_of n =
    if n == 0
    then symbol_edge
    else if n == 1
    then symbol_no_edge
    else if n == 2
    then symbol_low
    else if n == 3
    then symbol_high
    else symbol_other n

-- `libspectrum_tape_block_read_symbol_table_parameters`: the symbols in the block, the most pulses,
-- and the symbols in the table.
abbrev pub symbol_table_parameters : List ℕ → ℕ × ℕ × ℕ
symbol_table_parameters buffer =
    let in_block = number 4 buffer in
    let in_table = get_or buffer 5 0 in
    (
      in_block,
      get_or buffer 4 0,
      if in_table == 0 then if in_block == 0 then 0 else 256 else in_table,
    )

-- The size of a table in the file.
abbrev pub table_bytes : ℕ × ℕ × ℕ → ℕ
table_bytes (in_block, max_pulses, in_table) =
    if in_block == 0 then 0 else (2 * max_pulses + 1) * in_table

abbrev pub read_symbols : ℕ → ℕ → List ℕ → List Symbol
read_symbols zero max_pulses buffer = []
read_symbols (suc n) max_pulses buffer =
    record {
      edge_type = edge_type_of (get_or buffer 0 0);
      lengths = words max_pulses (drop 1 buffer);
    }
    ∷ read_symbols n max_pulses (drop (2 * max_pulses + 1) buffer)

abbrev pub table_of : ℕ × ℕ × ℕ → List Symbol → SymbolTable
table_of (in_block, max_pulses, in_table) symbols = record {
  symbols_in_block = in_block;
  max_pulses = max_pulses;
  symbols_in_table = in_table;
  symbols = symbols;
}

-- `libspectrum_tape_block_read_symbol_table`, with the length that the data are said to have.
unfoldable pub read_symbol_table : ℕ × ℕ × ℕ → List ℕ → ℕ → Option (Result (SymbolTable × List ℕ))
read_symbol_table (in_block, max_pulses, in_table) buffer n =
    let size = (2 * max_pulses + 1) * in_table in
    let table = table_of (in_block, max_pulses, in_table) in
    if in_block == 0
    then some (ok (table [], buffer))
    else if ltb n size
    then some (err corrupt)
    else if ltb (length buffer) size
    then none
    else some (ok (table (read_symbols in_table max_pulses buffer), drop size buffer))

abbrev pub read_pilot : ℕ → List ℕ → List (ℕ × ℕ)
read_pilot zero buffer = []
read_pilot (suc n) buffer = (get_or buffer 0 0, word_at buffer 1) ∷ read_pilot n (drop 3 buffer)

-- The data behind the tables: `tzx_read_generalised_data` from the size of a symbol on. `left` is what
-- has to be left behind the block, where `ceil_log` gives the bits for so many symbols, by the
-- floating-point functions `log` and `ceil`.
unfoldable pub read_generalised_bits : (ℕ → ℕ) → GeneralisedData → ℕ → List ℕ → Parse
read_generalised_bits ceil_log block left buffer =
    let bits = ceil_log block.data_table.symbols_in_table in
    let count = dword (bits * block.data_table.symbols_in_block + 7) / 8 in
    if ltb (length buffer) count
    then err corrupt
    else if length (drop count buffer) == left
    then ok (
      generalised_data (record block { bits_per_data_symbol = bits; bytes = take count buffer }),
      drop count buffer,
    )
    else err corrupt

-- The error of the second table is not seen, and leaves it without symbols.
abbrev pub table_or_empty :
    ℕ × ℕ × ℕ → List ℕ → Result (SymbolTable × List ℕ) → SymbolTable × List ℕ
table_or_empty parameters behind (ok found) = found
table_or_empty parameters behind (err e) = (table_of parameters [], behind)

-- The pilot and the second table.
unfoldable pub read_generalised_pilot :
    (ℕ → ℕ) → GeneralisedData → ℕ × ℕ × ℕ → ℕ → ℕ → List ℕ → Option Parse
unfolding read_symbol_table read_generalised_bits
read_generalised_pilot ceil_log block parameters n left buffer =
    let count = block.pilot_table.symbols_in_block in
    let pilot = read_pilot count buffer in
    let behind = drop (3 * count) buffer in
    if ltb n (dword (3 * count))
    then some (err corrupt)
    else if ltb (length buffer) (3 * count)
    then none
    else read_symbol_table parameters behind (n - dword (3 * count)) >>= λ r.
        let (table, rest) = table_or_empty parameters behind r in
        some (
          read_generalised_bits ceil_log
            (record block {
              data_table = table;
              pilot_symbols = map (λ p. p.0) pilot;
              pilot_repeats = map (λ p. p.1) pilot;
            })
            left rest)

-- After the first table the length that is left over is larger by the size of the table, not
-- smaller, since the difference of the pointers is taken the other way round.
unfoldable pub tzx_read_generalised_data : (ℕ → ℕ) → List ℕ → Option Parse
unfolding read_symbol_table read_generalised_pilot
tzx_read_generalised_data ceil_log buffer =
    let n = number 4 buffer in
    let start = drop 4 buffer in
    let set = of_ms (word_at start 0) in
    let pilot = symbol_table_parameters (drop 2 start) in
    let parameters = symbol_table_parameters (drop 8 start) in
    let left = length start - n in
    let corrupted : Option Parse = some (err corrupt) in
    if ltb (length buffer) 4
    then corrupted
    else if ltb n 14
    then corrupted
    else if ltb (length start) n
    then corrupted
    else read_symbol_table pilot (drop 14 start) (n - 14) >>= λ r. elim r [
      | err e ↦ some (err e)
      | ok (table, rest) ↦
          read_generalised_pilot ceil_log
            (record {
              pause = set.pause;
              pause_tstates = set.pause_tstates;
              pilot_table = table;
              data_table = table;
              pilot_symbols = [];
              pilot_repeats = [];
              bits_per_data_symbol = 0;
              bytes = [];
            })
            parameters (dword (n - 14 + table_bytes pilot)) left rest
    ]
