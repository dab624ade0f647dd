-- ===== src/Tape/Pulsed.antt =====
-- The data blocks of PZX files, in which a bit is a list of pulses.
use libspectrum.Base.{
  ℕ, ◌+◌, ◌*◌, ◌==◌, ltb, Bool, false, not, ◌&&◌, if◌then◌else◌, bit_and, bit_or,
}
use libspectrum.Base.{List, length, get_or, Option, none, some, logic, Result, ok, err}
use libspectrum.Bytes.{byte}
use libspectrum.Tape.Edges.{unused_bits}
use libspectrum.Tape.Edges.{Edge, Phase, data1, tail, minus_one, increment, do_tail_pause}
use libspectrum.Tape.Edges.{
  flags_no_edge, flags_level_low, flags_level_high, flags_length_short, flags_length_long,
}

-- The counts of the source are the lengths of the lists. `none` is an initial level of -1.
pub record DataBlock : Type 0 where
  pub count : ℕ
  pub initial_level : Option Bool
  pub bytes : List ℕ
  pub bits_in_last_byte : ℕ
  pub tail_length : ℕ
  pub bit0_pulses : List ℕ
  pub bit1_pulses : List ℕ

pub record PulsedState : Type 0 where
  pub state : Phase
  pub bit0_flags : ℕ
  pub bit1_flags : ℕ
  pub bytes_through_block : ℕ
  pub bits_through_byte : ℕ
  pub current_byte : ℕ
  pub bit_pulses : List ℕ
  pub bit_flags : ℕ
  pub level : Bool
  pub index : ℕ

unfoldable pub take_pulses : DataBlock → PulsedState → PulsedState
take_pulses block s =
    let set = not (bit_and s.current_byte 0x80 == 0) in
    record s {
      current_byte = byte (s.current_byte * 2);
      bit_pulses = if set then block.bit1_pulses else block.bit0_pulses;
      bit_flags = if set then s.bit1_flags else s.bit0_flags;
      index = 0;
      state = data1;
    }

unfoldable pub data_block_next_bit : DataBlock → PulsedState → PulsedState
unfolding take_pulses
data_block_next_bit block s =
    let bits = increment s.bits_through_byte in
    let bytes = increment s.bytes_through_block in
    let loaded = record s {
      bytes_through_block = bytes;
      current_byte = get_or block.bytes bytes 0;
      bits_through_byte =
          if bytes + 1 == length block.bytes then unused_bits block.bits_in_last_byte else 0;
    } in
    if bits == 8
    then if bytes == length block.bytes
      then record s { bits_through_byte = bits; bytes_through_block = bytes; state = tail }
      else take_pulses block loaded
    else take_pulses block (record s { bits_through_byte = bits })

-- The level goes into the flags of an edge, and changes behind it.
unfoldable pub with_level : Edge → PulsedState → Edge × PulsedState
with_level e s =
    let flag = if s.level then flags_level_high else flags_level_low in
    if bit_and e.flags flags_no_edge == 0
    then (record e { flags = bit_or e.flags flag }, record s { level = not s.level })
    else (e, s)

unfoldable pub data_block_edge : DataBlock → PulsedState → Result (Edge × PulsedState)
unfolding data_block_next_bit with_level do_tail_pause
data_block_edge block s =
    let pulse : Edge = record {
      tstates = get_or s.bit_pulses s.index 0;
      flags = s.bit_flags;
      end_of_block = false;
    } in
    let index = s.index + 1 in
    let moved = record s { index = index } in
    elim s.state [
      | data1 ↦ ok (
          with_level pulse
            (if index == length s.bit_pulses then data_block_next_bit block moved else moved))
      | tail ↦ ok (with_level (do_tail_pause block.tail_length) s)
      | _ ↦ err logic
    ]

-- Whether a bit is two pulses of the same length, which is not 0.
abbrev pub even_pulses : List ℕ → Bool
even_pulses pulses =
    length pulses == 2 && (get_or pulses 0 0 == get_or pulses 1 0 && ltb 0 (get_or pulses 0 0))

unfoldable pub data_block_init : DataBlock → PulsedState → PulsedState
unfolding data_block_next_bit
data_block_init block s =
    let zero_bit = get_or block.bit0_pulses 0 0 in
    let one_bit = get_or block.bit1_pulses 0 0 in
    let even = even_pulses block.bit0_pulses && even_pulses block.bit1_pulses in
    let flags = λ (short long : ℕ).
      if even
      then if ltb zero_bit one_bit then short else if ltb one_bit zero_bit then long else 0
      else 0 in
    data_block_next_bit block (record s {
      bit0_flags = flags flags_length_short flags_length_long;
      bit1_flags = flags flags_length_long flags_length_short;
      level = elim block.initial_level [ none ↦ s.level | some b ↦ b ];
      bytes_through_block = minus_one;
      bits_through_byte = 7;
    })
