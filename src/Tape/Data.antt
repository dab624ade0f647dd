-- ===== src/Tape/Data.antt =====
-- Blocks whose bytes are sent bit by bit: standard ROM blocks, turbo blocks and pure data. They share
-- the reader of bits, which tape.c has once for each.
pub mod Stream
pub mod Play
use libspectrum.Base.{
  ℕ, zero, suc, ◌+◌, ◌-◌, ◌*◌, ◌%◌, ◌==◌, Bool, true, false, not, ◌&&◌, if◌then◌else◌,
}
use libspectrum.Base.{List, [], ◌∷◌, length, get_or, bit_and, Error, logic, Result, ok, err}
use libspectrum.Bytes.{byte}
use libspectrum.Tape.Edges.{unused_bits}
use libspectrum.Tape.Edges.{
  Edge, Phase, invalid_state, pilot, sync1, sync2, data1, data2, pause, tail,
}
use libspectrum.Tape.Edges.{flags_length_short, flags_length_long, minus_one, increment, decrement}
use libspectrum.Tape.Edges.{do_tail_pause, plain}

-- The data of a block and the lengths of its bits; `length` of the source is that of `bytes`.
pub record PureData : Type 0 where
  pub bytes : List ℕ
  pub bits_in_last_byte : ℕ
  pub pause : ℕ
  pub pause_tstates : ℕ
  pub bit0_length : ℕ
  pub bit1_length : ℕ

pub record Rom : Type 0 where
  pub bytes : List ℕ
  pub pause : ℕ
  pub pause_tstates : ℕ

pub record Turbo : Type 0 where
  pub payload : PureData
  pub pilot_length : ℕ
  pub pilot_pulses : ℕ
  pub sync1_length : ℕ
  pub sync2_length : ℕ

-- The states of the three kinds; pure data have no `edge_count`.
pub record DataState : Type 0 where
  pub state : Phase
  pub edge_count : ℕ
  pub bytes_through_block : ℕ
  pub bits_through_byte : ℕ
  pub current_byte : ℕ
  pub bit_tstates : ℕ

-- The data of a ROM block, whose bits have fixed lengths and whose last byte is whole.
abbrev pub rom_data : Rom → PureData
rom_data block = record {
  bytes = block.bytes;
  bits_in_last_byte = 8;
  pause = block.pause;
  pause_tstates = block.pause_tstates;
  bit0_length = 855;
  bit1_length = 1710;
}

-- The high bit is shifted out of the byte.
unfoldable pub take_bit : PureData → DataState → DataState
take_bit block state = record state {
  current_byte = byte (state.current_byte * 2);
  bit_tstates =
      if not (bit_and state.current_byte 0x80 == 0) then block.bit1_length else block.bit0_length;
  state = data1;
}

-- The byte at `bytes_through_block`, with as many bits to go as it has.
unfoldable pub load_byte : PureData → DataState → DataState
load_byte block state = record state {
  current_byte = get_or block.bytes state.bytes_through_block 0;
  bits_through_byte =
      if state.bytes_through_block + 1 == length block.bytes
      then unused_bits block.bits_in_last_byte
      else 0;
}

unfoldable pub next_bit : PureData → DataState → DataState
unfolding take_bit load_byte
next_bit block state =
    let bits = increment state.bits_through_byte in
    let bytes = increment state.bytes_through_block in
    let moved = record state { bits_through_byte = bits; bytes_through_block = bytes } in
    if bits == 8
    then if bytes == length block.bytes
      then record moved { state = pause }
      else take_bit block (load_byte block moved)
    else take_bit block (record state { bits_through_byte = bits })

-- The edges of a bit are flagged for loaders that are accelerated.
unfoldable pub bit_edge : PureData → DataState → Edge
bit_edge block state = record {
  tstates = state.bit_tstates;
  flags = if state.bit_tstates == block.bit0_length then flags_length_short else flags_length_long;
  end_of_block = false;
}

unfoldable pub pure_data_edge : PureData → DataState → Result (Edge × DataState)
unfolding bit_edge next_bit do_tail_pause
pure_data_edge block s = elim s.state [
  | data1 ↦ ok (bit_edge block s, record s { state = data2 })
  | data2 ↦ ok (bit_edge block s, next_bit block s)
  | pause ↦ ok (do_tail_pause block.pause_tstates, s)
  | _ ↦ err logic
]

unfoldable pub rom_edge : Rom → DataState → Result (Edge × DataState)
unfolding bit_edge next_bit do_tail_pause
rom_edge block s = elim s.state [
  | pilot ↦
      let count = decrement s.edge_count in
      ok (plain 2168, record s { edge_count = count; state = if count == 0 then sync1 else pilot })
  | sync1 ↦ ok (plain 667, record s { state = sync2 })
  | sync2 ↦ ok (plain 735, next_bit (rom_data block) s)
  | data1 ↦ ok (bit_edge (rom_data block) s, record s { state = data2 })
  | data2 ↦ ok (bit_edge (rom_data block) s, next_bit (rom_data block) s)
  | pause ↦ ok (do_tail_pause block.pause_tstates, s)
  | _ ↦ err logic
]

unfoldable pub turbo_edge : Turbo → DataState → Result (Edge × DataState)
unfolding bit_edge next_bit do_tail_pause
turbo_edge block s =
    let count = decrement s.edge_count in
    elim s.state [
      | pilot ↦
          if s.edge_count == 0
          then ok (plain block.sync1_length, record s { edge_count = count; state = sync2 })
          else ok (plain block.pilot_length, record s { edge_count = count })
      | sync1 ↦ ok (plain block.sync1_length, record s { state = sync2 })
      | sync2 ↦ ok (plain block.sync2_length, next_bit block.payload s)
      | data1 ↦ ok (bit_edge block.payload s, record s { state = data2 })
      | data2 ↦ ok (bit_edge block.payload s, next_bit block.payload s)
      | pause ↦ ok (do_tail_pause block.payload.pause_tstates, s)
      | _ ↦ err logic
    ]

-- Just before the start of the data.
abbrev pub before_data : DataState → DataState
before_data s = record s { bytes_through_block = minus_one; bits_through_byte = 7 }

unfoldable pub rom_init : Rom → DataState → DataState
rom_init block s =
    let is_data =
      not (length block.bytes == 0) && not (bit_and (get_or block.bytes 0 0) 0x80 == 0) in
    record (before_data s) { edge_count = if is_data then 0x0c97 else 0x1f7f; state = pilot }

unfoldable pub turbo_init : Turbo → DataState → DataState
turbo_init block s = record (before_data s) { edge_count = block.pilot_pulses; state = pilot }

unfoldable pub pure_data_init : PureData → DataState → DataState
unfolding next_bit
pure_data_init block s = next_bit block (before_data s)
