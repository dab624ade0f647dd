-- ===== src/Tape/Pulses.antt =====
-- Blocks that list their pulses: pure tones, lists of pulses, run-length coded pulses, and the pulse
-- sequences of PZX files.
pub mod Play
use libspectrum.Base.{
  ℕ, zero, suc, ◌+◌, ◌*◌, ◌==◌, Bool, true, false, not, ◌&&◌, ◌||◌, if◌then◌else◌, ltb, leb,
}
use libspectrum.Base.{
  List, [], ◌∷◌, length, get_or, Option, none, some, Error, logic, Result, ok, err,
}
use libspectrum.Bytes.{dword}
use libspectrum.Tape.Edges.{
  Edge, increment, decrement, flags_no_edge, flags_level_low, flags_level_high,
}

pub record PureTone : Type 0 where
  pub length : ℕ
  pub pulses : ℕ

-- The state is `edge_count`.
unfoldable pub tone_edge : PureTone → ℕ → Result (Edge × ℕ)
tone_edge block edge_count =
    let count = decrement edge_count in
    ok (record { tstates = block.length; flags = 0; end_of_block = count == 0 }, count)

-- The block is the list of the lengths of its pulses, the state the number of those that are gone.
unfoldable pub pulses_edge : List ℕ → ℕ → Result (Edge × ℕ)
pulses_edge lengths edge_count =
    let count = increment edge_count in
    ok (
      record {
        tstates = get_or lengths edge_count 0;
        flags = 0;
        end_of_block = count == length lengths;
      },
      count,
    )

pub record RlePulse : Type 0 where
  pub bytes : List ℕ
  pub scale : ℕ

abbrev pub rle_edge : RlePulse → ℕ → ℕ → Edge × ℕ
rle_edge block tstates next = (
  record {
    tstates = dword (block.scale * tstates);
    flags = 0;
    end_of_block = next == length block.bytes;
  },
  next,
)

-- The state is `index`; a pulse is a byte, or 0 and four bytes.
unfoldable pub rle_pulse_edge : RlePulse → ℕ → Result (Edge × ℕ)
rle_pulse_edge block index =
    let at = λ (k : ℕ). get_or block.bytes k 0 in
    let long =
      at (index + 1)
      + at (index + 2) * 0x100
      + at (index + 3) * 0x10000
      + at (index + 4) * 0x1000000 in
    if not (at index == 0)
    then ok (rle_edge block (at index) (index + 1))
    else if ltb (length block.bytes) (index + 5)
    then err logic
    else ok (rle_edge block long (index + 5))

pub record PulseSequence : Type 0 where
  pub lengths : List ℕ
  pub pulse_repeats : List ℕ

-- The level is -1, 0 or 1, and `none` is -1.
pub record SequenceState : Type 0 where
  pub index : ℕ
  pub pulse_count : ℕ
  pub level : Option Bool

-- `!level`
abbrev pub flip : Option Bool → Bool
flip (some b) = not b
flip none = false

-- The loop that skips pulses of no length: the length, the new level, whether the block has ended,
-- and the state. `none` is a loop that has not ended after so many rounds.
unfoldable pub skip_empty :
    ℕ → PulseSequence → SequenceState → Bool → Option (ℕ × Bool × Bool × SequenceState)
skip_empty zero block state level = none
skip_empty (suc rounds) block state level =
    let tstates = get_or block.lengths state.index 0 in
    let count = increment state.pulse_count in
    let last = count == get_or block.pulse_repeats state.index 0 in
    let index = state.index + 1 in
    let over = leb (length block.lengths) index in
    let state' : SequenceState =
      if last
      then if over
        then record state { pulse_count = count; index = index }
        else record state { pulse_count = 0; index = index }
      else record state { pulse_count = count } in
    let rest = skip_empty rounds block state' (not level) in
    if not (tstates == 0) || (last && over)
    then some (tstates, level, last && over, state')
    else rest

abbrev pub total_pulses : List ℕ → ℕ
total_pulses [] = 0
total_pulses (n ∷ ns) = n + total_pulses ns

-- The flags of the edge that a new level and a length make of the old level.
abbrev pub level_flags : Option Bool → Bool → ℕ → ℕ
level_flags (some false) false tstates = if tstates == 0 then flags_no_edge else 0
level_flags (some true) true tstates = if tstates == 0 then flags_no_edge else 0
level_flags old true tstates = flags_level_high
level_flags old false tstates = flags_level_low

-- `none` is a loop that does not end.
unfoldable pub pulse_sequence_edge : PulseSequence → SequenceState → Option (Edge × SequenceState)
unfolding skip_empty
pulse_sequence_edge block state =
    elim (skip_empty (suc (total_pulses block.pulse_repeats)) block state (flip state.level)) [
      | none ↦ none
      | some (tstates, level, end, state') ↦ some (
        record {
          tstates = tstates;
          flags = level_flags state.level level tstates;
          end_of_block = end;
        },
        record state' { level = some level },
      )
    ]
