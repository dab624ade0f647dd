-- ===== src/Tape/Raw.antt =====
-- Raw data: the bytes are samples of the level, and an edge is where it changes.
pub mod Samples
pub mod Runs
pub mod Steps
pub mod Play
use libspectrum.Base.{
  ℕ, zero, suc, ◌+◌, ◌-◌, ◌*◌, ◌==◌, Bool, true, false, not, if◌then◌else◌, bit_and,
}
use libspectrum.Base.{
  List, [], ◌∷◌, length, get_or, Option, none, some, Error, logic, Result, ok, err, ◌^◌,
}
use libspectrum.Bytes.{dword}
use libspectrum.Tape.Edges.{unused_bits}
use libspectrum.Tape.Edges.{
  Edge, Phase, data1, pause, flags_level_low, flags_level_high, minus_one, increment,
}
use libspectrum.Tape.Edges.{do_tail_pause}

-- `none` is a block without `data`.
pub record RawData : Type 0 where
  pub bytes : Option (List ℕ)
  pub bits_in_last_byte : ℕ
  pub pause : ℕ
  pub pause_tstates : ℕ
  pub bit_length : ℕ

-- `last_bit` is 0x80 in the source where it is `true`.
pub record RawState : Type 0 where
  pub state : Phase
  pub bytes_through_block : ℕ
  pub bits_through_byte : ℕ
  pub last_bit : Bool
  pub bit_tstates : ℕ

abbrev pub samples : RawData → List ℕ
samples block = elim block.bytes [ none ↦ [] | some bytes ↦ bytes ]

-- One round of the loop: the next sample, which counts only so many bits in the last byte.
unfoldable pub next_sample : RawData → RawState → RawState
next_sample block s =
    let bits = increment s.bits_through_byte in
    let bytes = increment s.bytes_through_block in
    if bits == 8
    then record s {
      bytes_through_block = bytes;
      bits_through_byte =
          if bytes + 1 == length (samples block) then unused_bits block.bits_in_last_byte else 0;
    }
    else record s { bits_through_byte = bits }

-- The sample that a state is at.
unfoldable pub sample_set : RawData → RawState → Bool
sample_set block s =
    not
      (bit_and (get_or (samples block) s.bytes_through_block 0 * 2 ^ s.bits_through_byte) 0x80 == 0)

abbrev pub same_level : Bool → Bool → Bool
same_level true b = b
same_level false b = not b

-- The loop, with the number of its rounds: `none` is a loop that has not ended after so many.
unfoldable pub find_edge : ℕ → RawData → RawState → ℕ → Option (ℕ × RawState)
unfolding next_sample sample_set
find_edge zero block s n = none
find_edge (suc rounds) block s n =
    let s' = next_sample block s in
    let rest = find_edge rounds block s' (n + 1) in
    if s'.bytes_through_block == length (samples block)
    then some (n + 1, s')
    else if same_level (sample_set block s') s.last_bit
    then some (n + 1, s')
    else rest

-- Enough rounds for every sample.
unfoldable pub raw_data_next_bit : RawData → RawState → Option RawState
unfolding find_edge
raw_data_next_bit block s =
    if s.bytes_through_block == length (samples block)
    then some (record s { state = pause })
    else elim (find_edge (8 * length (samples block) + 1) block (record s { state = data1 }) 0) [
      | none ↦ none
      | some (n, s') ↦
          some
            (record s' { bit_tstates = dword (n * block.bit_length); last_bit = not s'.last_bit })
    ]

unfoldable pub raw_data_init : RawData → RawState → Option RawState
unfolding raw_data_next_bit
raw_data_init block s = elim block.bytes [
  | none ↦ some (record s { state = pause })
  | some bytes ↦ raw_data_next_bit block (record s {
    state = data1;
    bytes_through_block = minus_one;
    bits_through_byte = 7;
    last_bit = not (bit_and (get_or bytes 0 0) 0x80 == 0);
  })
]

unfoldable pub raw_data_edge : RawData → RawState → Option (Result (Edge × RawState))
unfolding raw_data_next_bit do_tail_pause
raw_data_edge block s = elim s.state [
  | data1 ↦ elim (raw_data_next_bit block s) [
    | none ↦ none
    | some s' ↦ some (
        ok (
          record {
            tstates = s.bit_tstates;
            flags = if s'.last_bit then flags_level_low else flags_level_high;
            end_of_block = false;
          },
          s',
        ))
  ]
  | pause ↦ some (ok (do_tail_pause block.pause_tstates, s))
  | _ ↦ some (err logic)
]
