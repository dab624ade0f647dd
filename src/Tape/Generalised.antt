-- ===== src/Tape/Generalised.antt =====
-- Generalised data: symbols, each of which is a list of pulses, first those of a pilot in runs, then
-- those that groups of bits of the data choose.
use libspectrum.Base.{ℕ, zero, suc, ◌+◌, ◌*◌, ◌==◌, Bool, false, not, ◌||◌, if◌then◌else◌, bit_and}
use libspectrum.Base.{List, [], get_or, logic, Result, ok, err}
use libspectrum.Bytes.{byte, word, dword}
use libspectrum.Tape.Edges.{Edge, Phase, pilot, data1, pause, increment, do_tail_pause}
use libspectrum.Tape.Edges.{flags_no_edge, flags_level_low, flags_level_high}

-- Any other number than 0 to 3 can stand in a file.
pub data EdgeType : Type 0 where
  symbol_edge symbol_no_edge symbol_low symbol_high : EdgeType
  symbol_other : ℕ → EdgeType

pub record Symbol : Type 0 where
  pub edge_type : EdgeType
  pub lengths : List ℕ

pub record SymbolTable : Type 0 where
  pub symbols_in_block : ℕ
  pub max_pulses : ℕ
  pub symbols_in_table : ℕ
  pub symbols : List Symbol

pub record GeneralisedData : Type 0 where
  pub pause : ℕ
  pub pause_tstates : ℕ
  pub pilot_table : SymbolTable
  pub data_table : SymbolTable
  pub pilot_symbols : List ℕ
  pub pilot_repeats : List ℕ
  pub bits_per_data_symbol : ℕ
  pub bytes : List ℕ

pub record GeneralisedState : Type 0 where
  pub state : Phase
  pub run : ℕ
  pub symbols_through_run : ℕ
  pub edges_through_symbol : ℕ
  pub current_symbol : ℕ
  pub symbols_through_stream : ℕ
  pub current_byte : ℕ
  pub bits_through_byte : ℕ
  pub bytes_through_stream : ℕ

unfoldable pub get_generalised_data_bit : GeneralisedData → GeneralisedState → ℕ × GeneralisedState
get_generalised_data_bit block s =
    let r = if bit_and s.current_byte 0x80 == 0 then 0 else 1 in
    let bits = increment s.bits_through_byte in
    let bytes = increment s.bytes_through_stream in
    let next = record s {
      bits_through_byte = 0;
      bytes_through_stream = bytes;
      current_byte = get_or block.bytes bytes 0;
    } in
    let shifted = record s { current_byte = byte (s.current_byte * 2); bits_through_byte = bits } in
    (r, if bits == 8 then next else shifted)

-- The loop over the bits of a symbol.
unfoldable pub get_symbol_bits : ℕ → GeneralisedData → GeneralisedState → ℕ → ℕ × GeneralisedState
unfolding get_generalised_data_bit
get_symbol_bits zero block s symbol = (symbol, s)
get_symbol_bits (suc n) block s symbol =
    let (r, s') = get_generalised_data_bit block s in
    get_symbol_bits n block s' (byte (symbol * 2) + r)

unfoldable pub next_symbol : GeneralisedData → GeneralisedState → GeneralisedState
unfolding get_symbol_bits
next_symbol block s =
    let (symbol, s') = get_symbol_bits block.bits_per_data_symbol block s 0 in
    record s' { current_symbol = symbol }

-- The symbol at an index, or an edge without pulses past the end of the table.
abbrev pub symbol_at : SymbolTable → ℕ → Symbol
symbol_at table n = get_or table.symbols n (record { edge_type = symbol_edge; lengths = [] })

unfoldable pub symbol_pulse : Symbol → ℕ → Edge
symbol_pulse symbol edge = record {
  tstates = get_or symbol.lengths edge 0;
  flags =
      if edge == 0
      then elim symbol.edge_type [
        | symbol_edge ↦ 0
        | symbol_no_edge ↦ flags_no_edge
        | symbol_low ↦ flags_level_low
        | symbol_high ↦ flags_level_high
        | symbol_other n ↦ 0
      ]
      else 0;
  end_of_block = false;
}

-- Whether a symbol has no pulse at an index.
abbrev pub symbol_over : SymbolTable → Symbol → ℕ → Bool
symbol_over table symbol edge = edge == table.max_pulses || get_or symbol.lengths edge 0 == 0

-- The first symbol of the data.
unfoldable pub start_data : GeneralisedData → GeneralisedState → GeneralisedState
unfolding next_symbol
start_data block s = next_symbol block (record s {
  state = data1;
  bits_through_byte = 0;
  bytes_through_stream = 0;
  symbols_through_stream = 0;
  current_byte = get_or block.bytes 0 0;
})

unfoldable pub pilot_step : GeneralisedData → GeneralisedState → GeneralisedState
unfolding start_data
pilot_step block s =
    let symbol = symbol_at block.pilot_table (get_or block.pilot_symbols s.run 0) in
    let edge = byte (s.edges_through_symbol + 1) in
    let through = word (s.symbols_through_run + 1) in
    let run = dword (s.run + 1) in
    let next_run = record s { edges_through_symbol = 0; symbols_through_run = 0; run = run } in
    if symbol_over block.pilot_table symbol edge
    then if through == get_or block.pilot_repeats s.run 0
      then if run == block.pilot_table.symbols_in_block then start_data block next_run else next_run
      else record s { edges_through_symbol = 0; symbols_through_run = through }
    else record s { edges_through_symbol = edge }

unfoldable pub data_step : GeneralisedData → GeneralisedState → GeneralisedState
unfolding next_symbol
data_step block s =
    let symbol = symbol_at block.data_table s.current_symbol in
    let edge = byte (s.edges_through_symbol + 1) in
    let through = increment s.symbols_through_stream in
    if symbol_over block.data_table symbol edge
    then if through == block.data_table.symbols_in_block
      then record s { edges_through_symbol = edge; symbols_through_stream = through; state = pause }
      else next_symbol block
          (record s { edges_through_symbol = 0; symbols_through_stream = through })
    else record s { edges_through_symbol = edge }

unfoldable pub generalised_data_edge :
    GeneralisedData → GeneralisedState → Result (Edge × GeneralisedState)
unfolding symbol_pulse pilot_step data_step do_tail_pause
generalised_data_edge block s =
    let pilot_symbol = symbol_at block.pilot_table (get_or block.pilot_symbols s.run 0) in
    let data_symbol = symbol_at block.data_table s.current_symbol in
    elim s.state [
      | pilot ↦ ok (symbol_pulse pilot_symbol s.edges_through_symbol, pilot_step block s)
      | data1 ↦ ok (symbol_pulse data_symbol s.edges_through_symbol, data_step block s)
      | pause ↦ ok (do_tail_pause block.pause_tstates, s)
      | _ ↦ err logic
    ]

unfoldable pub generalised_data_init : GeneralisedData → GeneralisedState → GeneralisedState
unfolding next_symbol
generalised_data_init block s =
    let start : GeneralisedState = record {
      state = s.state;
      run = 0;
      symbols_through_run = 0;
      edges_through_symbol = 0;
      current_symbol = 0;
      symbols_through_stream = 0;
      current_byte = 0;
      bits_through_byte = 0;
      bytes_through_stream = 0;
    } in
    if not (block.pilot_table.symbols_in_block == 0)
    then record start { state = pilot }
    else if not (block.data_table.symbols_in_block == 0)
    then next_symbol block (record start { state = data1; current_byte = get_or block.bytes 0 0 })
    else record start { state = pause }
