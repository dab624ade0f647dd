-- ===== src/Tape/Next.antt =====
-- The tape: `libspectrum_tape_get_next_edge`, which takes an edge of the current block and goes on
-- to the next block where that was the last, with jumps and loops; and `libspectrum_tape_block_init`.
-- A pointer into the list of blocks is an index, and `none` is NULL.
pub mod Blocks
pub mod Whole
pub mod Through
pub mod Stretch
pub mod Loops
pub mod Program
pub mod Replay
pub mod Inside
pub mod Reach
use libspectrum.Base.{
  ℕ, zero, suc, ◌+◌, ◌-◌, ◌==◌, ltb, Bool, true, false, not, ◌&&◌, if◌then◌else◌, bit_and, bit_or,
}
use libspectrum.Base.{
  List, [], ◌∷◌, length, get_elem?, Option, none, some, Error, logic, corrupt, Result, ok, err,
}
use libspectrum.Base.Partial.{◌>>=◌}
use libspectrum.Tape.Edges.{
  Edge, decrement, flags_block, flags_stop, flags_stop48, flags_no_edge, flags_level_low,
}
use libspectrum.Tape.Edges.{flags_level_high, flags_tape}
use libspectrum.Tape.Data.{
  PureData, Rom, Turbo, DataState, rom_edge, rom_init, turbo_edge, turbo_init,
}
use libspectrum.Tape.Data.{pure_data_edge, pure_data_init}
use libspectrum.Tape.Pulses.{
  PureTone, tone_edge, pulses_edge, RlePulse, rle_pulse_edge, PulseSequence,
}
use libspectrum.Tape.Pulses.{SequenceState, pulse_sequence_edge}
use libspectrum.Tape.Raw.{RawData, RawState, raw_data_edge, raw_data_init}
use libspectrum.Tape.Pulsed.{DataBlock, PulsedState, data_block_edge, data_block_init}
use libspectrum.Tape.Generalised.{
  GeneralisedData, GeneralisedState, generalised_data_edge, generalised_data_init,
}

-- An offset of a jump.
pub data Offset : Type 0 where
  forward backward : ℕ → Offset

-- The blocks. A pause has its length in milliseconds and in T-states, and its level, `none` for -1; a
-- message its time in both. Texts are the bytes before the 0 at the end of a C string, and the
-- description of a custom block is the bytes of its array. A selection is an offset and a text, a string
-- of the archive info a number and a text, an entry of the hardware info a type, a number and a value.
pub data Block : Type 0 where
  rom : Rom → Block
  turbo : Turbo → Block
  pure_tone : PureTone → Block
  pulses : List ℕ → Block
  pure_data : PureData → Block
  raw_data : RawData → Block
  generalised_data : GeneralisedData → Block
  pause_block : ℕ → ℕ → Option Bool → Block
  jump : Offset → Block
  loop_start : ℕ → Block
  loop_end stop48 : Block
  set_signal_level : Bool → Block
  group_start : List ℕ → Block
  select : List (ℕ × List ℕ) → Block
  comment : List ℕ → Block
  message : ℕ → ℕ → List ℕ → Block
  archive_info : List (ℕ × List ℕ) → Block
  hardware : List (ℕ × ℕ × ℕ) → Block
  custom : List ℕ → List ℕ → Block
  group_end concat : Block
  rle_pulse : RlePulse → Block
  pulse_sequence : PulseSequence → Block
  data_block : DataBlock → Block

-- The members of the union `block_state` side by side; ROM, turbo and pure data share one, as their
-- fields do.
pub record States : Type 0 where
  pub bits : DataState
  pub edge_count : ℕ
  pub raw : RawState
  pub generalised : GeneralisedState
  pub index : ℕ
  pub sequence : SequenceState
  pub pulsed : PulsedState

unfoldable pub block_init : Block → States → Option (Result States)
unfolding rom_init turbo_init pure_data_init raw_data_init generalised_data_init data_block_init
block_init (rom b) s = some (ok (record s { bits = rom_init b s.bits }))
block_init (turbo b) s = some (ok (record s { bits = turbo_init b s.bits }))
block_init (pure_tone b) s = some (ok (record s { edge_count = b.pulses }))
block_init (pulses b) s = some (ok (record s { edge_count = 0 }))
block_init (pure_data b) s = some (ok (record s { bits = pure_data_init b s.bits }))
block_init (raw_data b) s = raw_data_init b s.raw >>= λ r. some (ok (record s { raw = r }))
block_init (generalised_data b) s =
    some (ok (record s { generalised = generalised_data_init b s.generalised }))
block_init (rle_pulse b) s = some (ok (record s { index = 0 }))
block_init (pulse_sequence b) s =
    some (ok (record s { sequence = record { index = 0; pulse_count = 0; level = none } }))
block_init (data_block b) s = some (ok (record s { pulsed = data_block_init b s.pulsed }))
block_init concat s = some (err logic)
block_init b s = some (ok s)

pub record Tape : Type 0 where
  pub blocks : List Block
  pub current_block : Option ℕ
  pub loop_block : Option ℕ
  pub loop_count : ℕ
  pub states : States

-- `g_slist_nth` gives NULL past the end, and for a negative position, which becomes a large one.
unfoldable pub jump_blocks : Tape → ℕ → Offset → Result Tape
jump_blocks tape position (forward n) =
    if ltb (position + n) (length tape.blocks)
    then ok (record tape { current_block = some (position + n) })
    else err corrupt
jump_blocks tape position (backward n) =
    if ltb position n
    then err corrupt
    else if ltb (position - n) (length tape.blocks)
    then ok (record tape { current_block = some (position - n) })
    else err corrupt

-- An edge of a block, whether the tape is not to advance, and the tape.
abbrev pub Step : Type 0
Step = Option (Result (Edge × Bool × Tape))

abbrev pub ends : ℕ → ℕ → Edge
ends tstates flags = record { tstates = tstates; flags = flags; end_of_block = true }

-- An edge function of a kind of blocks, with its member of the states put back.
abbrev pub in_states : {S : Type 0} → Tape → (S → States) → Result (Edge × S) → Step
in_states tape put (ok (e, s)) = some (ok (e, false, record tape { states = put s }))
in_states tape put (err e) = some (err e)

-- `LIBSPECTRUM_TAPE_BLOCK_LOOP_START`
abbrev pub enter_loop : Tape → ℕ → ℕ → Tape
enter_loop tape position count =
    if ltb (position + 1) (length tape.blocks) && not (count == 0)
    then record tape { loop_block = some (position + 1); loop_count = count }
    else tape

-- `LIBSPECTRUM_TAPE_BLOCK_LOOP_END`
abbrev pub leave_loop : Tape → Bool × Tape
leave_loop tape =
    let count = decrement tape.loop_count in
    elim tape.loop_block [
      | none ↦ (false, tape)
      | some start ↦
          if count == 0
          then (false, record tape { loop_block = none; loop_count = count })
          else (true, record tape { current_block = some start; loop_count = count })
    ]

-- The flags of a pause: none if it does not say a level.
abbrev pub pause_flags : ℕ → Option Bool → ℕ
pause_flags zero level = flags_stop
pause_flags (suc n) none = 0
pause_flags (suc n) (some level) = if level then flags_level_high else flags_level_low

-- The block at the position `position` of a tape.
unfoldable pub block_edge : Block → ℕ → Tape → Step
unfolding jump_blocks
block_edge (rom b) position t =
    in_states t (λ s. record t.states { bits = s }) (rom_edge b t.states.bits)
block_edge (turbo b) position t =
    in_states t (λ s. record t.states { bits = s }) (turbo_edge b t.states.bits)
block_edge (pure_tone b) position t =
    in_states t (λ s. record t.states { edge_count = s }) (tone_edge b t.states.edge_count)
block_edge (pulses b) position t =
    in_states t (λ s. record t.states { edge_count = s }) (pulses_edge b t.states.edge_count)
block_edge (pure_data b) position t =
    in_states t (λ s. record t.states { bits = s }) (pure_data_edge b t.states.bits)
block_edge (raw_data b) position t =
    raw_data_edge b t.states.raw >>= in_states t (λ s. record t.states { raw = s })
block_edge (generalised_data b) position t =
    in_states t (λ s. record t.states { generalised = s })
      (generalised_data_edge b t.states.generalised)
block_edge (pause_block ms tstates level) position t =
    some (ok (ends tstates (pause_flags tstates level), false, t))
block_edge (jump offset) position t = elim (jump_blocks t position offset) [
  | ok t' ↦ some (ok (ends 0 flags_no_edge, true, t'))
  | err e ↦ some (err e)
]
block_edge (loop_start count) position t =
    some (ok (ends 0 flags_no_edge, false, enter_loop t position count))
block_edge loop_end position t =
    let (stay, t') = leave_loop t in some (ok (ends 0 flags_no_edge, stay, t'))
block_edge stop48 position t = some (ok (ends 0 flags_stop48, false, t))
block_edge (set_signal_level level) position t =
    some (ok (ends 0 (if level then flags_level_low else flags_level_high), false, t))
block_edge (rle_pulse b) position t =
    in_states t (λ s. record t.states { index = s }) (rle_pulse_edge b t.states.index)
block_edge (pulse_sequence b) position t = pulse_sequence_edge b t.states.sequence >>= λ r.
    in_states t (λ s. record t.states { sequence = s }) (ok r)
block_edge (data_block b) position t =
    in_states t (λ s. record t.states { pulsed = s }) (data_block_edge b t.states.pulsed)
block_edge concat position t = some (err logic)
block_edge b position t = some (ok (ends 0 flags_no_edge, false, t))

-- The end of the tape is an edge, and goes back to the start.
unfoldable pub advance : Edge → Tape → Edge × Tape
advance e t =
    let next =
      t.current_block >>= λ n. if ltb (n + 1) (length t.blocks) then some (n + 1) else none in
    let over = bit_or e.flags (flags_stop + flags_tape) in
    elim next [
      | some n ↦ (e, record t { current_block = some n })
      | none ↦ (
        record e { flags = over - bit_and over flags_no_edge },
        record t { current_block = if ltb 0 (length t.blocks) then some 0 else none },
      )
    ]

-- The block at a pointer is initialised, if there is one.
unfoldable pub init_current : Tape → Option (Result Tape)
unfolding block_init
init_current t = elim (t.current_block >>= get_elem? t.blocks) [
  | none ↦ some (ok t)
  | some b ↦ block_init b t.states >>= λ r. elim r [
    | ok s ↦ some (ok (record t { states = s }))
    | err e ↦ some (err e)
  ]
]

-- What follows an edge of a block.
unfoldable pub finish_edge : Edge × Bool × Tape → Option (Result (Edge × Tape))
unfolding advance init_current
finish_edge (e, no_advance, t) =
    let marked = record e { flags = bit_or e.flags flags_block } in
    let (e', t') = if no_advance then (marked, t) else advance marked t in
    if e.end_of_block
    then (init_current t' >>= λ r. elim r [
      | ok t'' ↦ some (ok (e', t''))
      | err error ↦ some (err error)
    ])
    else some (ok (e, t))

unfoldable pub get_next_edge : Tape → Option (Result (Edge × Tape))
unfolding finish_edge block_edge
get_next_edge t =
    let no_block : Step = some (ok (ends 0 0, false, t)) in
    let step : Step = elim t.current_block [
      | none ↦ no_block
      | some n ↦ elim (get_elem? t.blocks n) [ none ↦ no_block | some b ↦ block_edge b n t ]
    ] in
    step >>= λ r. elim r [ ok x ↦ finish_edge x | err e ↦ some (err e) ]
