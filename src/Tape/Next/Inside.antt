-- ===== src/Tape/Next/Inside.antt =====
-- The pointers of a tape into its list of blocks stay in it.
use libspectrum.Base.{ℕ, ◌+◌, ◌-◌, ◌<◌, ◌≡◌, refl, ltb, ◌==◌}
use libspectrum.Base.{true, Bool-cases, inl, inr, ltb→lt}
use libspectrum.Base.{List, length, get_elem?, Option, none, some, Result, ok, err}
use libspectrum.Base.Partial.{◌>>=◌}
use libspectrum.Tape.Edges.{Edge, decrement}
use libspectrum.Tape.Next.{Block, States, Tape, Step, block_edge, advance, init_current}
use libspectrum.Tape.Edges.{flags_no_edge}
use libspectrum.Tape.Data.{rom_edge, turbo_edge, pure_data_edge}
use libspectrum.Tape.Pulses.{tone_edge, pulses_edge, rle_pulse_edge, pulse_sequence_edge}
use libspectrum.Tape.Raw.{raw_data_edge}
use libspectrum.Tape.Pulsed.{data_block_edge}
use libspectrum.Tape.Generalised.{generalised_data_edge}
use libspectrum.Tape.Next.{
  rom, turbo, pure_tone, pulses, pure_data, raw_data, generalised_data, pause_block, jump,
}
use libspectrum.Tape.Next.{
  loop_start, loop_end, stop48, set_signal_level, rle_pulse, pulse_sequence, data_block, concat,
}
use libspectrum.Tape.Next.{
  group_start, group_end, select, comment, message, archive_info, hardware, custom,
}
use libspectrum.Tape.Next.{
  block_init, ends, jump_blocks, enter_loop, leave_loop, in_states, Offset, forward, backward,
}

abbrev pub IsInside : List Block → Option ℕ → Type 0
IsInside blocks none = Unit {0}
IsInside blocks (some n) = n < length blocks

-- The current block and the start of a loop are blocks of the tape.
abbrev pub IsTape : Tape → Type 0
IsTape t = IsInside t.blocks t.current_block × IsInside t.blocks t.loop_block

-- The same blocks, and pointers into them.
abbrev pub Keeps : Tape → Tape → Type 0
Keeps t t' = (t'.blocks ≡ t.blocks) × IsTape t'

abbrev pub StepKeeps : Tape → Step → Type 0
StepKeeps t none = Unit {0}
StepKeeps t (some (err e)) = Unit {0}
StepKeeps t (some (ok (e, stay, t'))) = Keeps t t'

in_states-Keeps :
    {S : Type 0} (t : Tape) (put : S → States) (r : Result (Edge × S))
    → IsTape t
    → StepKeeps t (in_states t put r)
in_states-Keeps t put (ok (e, s)) w = (refl, w)
in_states-Keeps t put (err e) w = tt

some_states-Keeps :
    {S : Type 0} (t : Tape) (put : S → States) (o : Option (Result (Edge × S)))
    → IsTape t
    → StepKeeps t (o >>= in_states t put)
some_states-Keeps t put none w = tt
some_states-Keeps t put (some r) w = in_states-Keeps t put r w

sequence-Keeps :
    {S : Type 0} (t : Tape) (put : S → States) (o : Option (Edge × S))
    → IsTape t
    → StepKeeps t (o >>= λ r. in_states t put (ok r))
sequence-Keeps t put none w = tt
sequence-Keeps t put (some r) w = in_states-Keeps t put (ok r) w

enter_loop-Keeps : (t : Tape) (n count : ℕ) → IsTape t → Keeps t (enter_loop t n count)
enter_loop-Keeps t n count w = elim (Bool-cases (ltb (n + 1) (length t.blocks))) [
  | inl e ↦ elim (Bool-cases (count == 0)) [
    | inl z ↦ rw (e, z) (refl, w)
    | inr z ↦ rw (e, z) (refl, (w.0, ltb→lt _ _ e))
  ]
  | inr e ↦ rw e (refl, w)
]

abbrev tape : List Block → Option ℕ → Option ℕ → ℕ → States → Tape
tape b c l k s = record {
  blocks = b;
  current_block = c;
  loop_block = l;
  loop_count = k;
  states = s;
}

leave_loop-fields :
    (b : List Block) (c l : Option ℕ) (k : ℕ) (s : States)
    → IsTape (tape b c l k s)
    → Keeps (tape b c l k s) ((leave_loop (tape b c l k s)).1)
leave_loop-fields b c none k s w = (refl, w)
leave_loop-fields b c (some n) k s w = elim (Bool-cases (decrement k == 0)) [
  | inl z ↦ rw z (refl, (w.0, tt))
  | inr z ↦ rw z (refl, (w.1, w.1))
]

leave_loop-Keeps : (t : Tape) → IsTape t → Keeps t ((leave_loop t).1)
leave_loop-Keeps t w =
    leave_loop-fields t.blocks t.current_block t.loop_block t.loop_count t.states w

abbrev pub JumpKeeps : Tape → Result Tape → Type 0
JumpKeeps t (ok t') = Keeps t t'
JumpKeeps t (err e) = Unit {0}

jump_blocks-Keeps : (t : Tape) (n : ℕ) (o : Offset) → IsTape t → JumpKeeps t (jump_blocks t n o)
unfolding jump_blocks
jump_blocks-Keeps t n (forward k) w = elim (Bool-cases (ltb (n + k) (length t.blocks))) [
  | inl e ↦ rw e (refl, (ltb→lt _ _ e, w.1))
  | inr e ↦ rw e tt
]
jump_blocks-Keeps t n (backward k) w = elim (Bool-cases (ltb n k)) [
  | inl e ↦ rw e tt
  | inr e ↦ elim (Bool-cases (ltb (n - k) (length t.blocks))) [
    | inl i ↦ rw (e, i) (refl, (ltb→lt _ _ i, w.1))
    | inr i ↦ rw (e, i) tt
  ]
]

jump-Keeps :
    (t : Tape) (r : Result Tape)
    → JumpKeeps t r
    → StepKeeps t
        (elim r [ ok t' ↦ some (ok (ends 0 flags_no_edge, true, t')) | err e ↦ some (err e) ])
jump-Keeps t (ok t') k = k
jump-Keeps t (err e) k = tt

abbrev pub PairKeeps : Tape → Edge × Tape → Type 0
PairKeeps t (e, t') = Keeps t t'

advance-fields :
    (e : Edge) (b : List Block) (c l : Option ℕ) (k : ℕ) (s : States)
    → IsTape (tape b c l k s)
    → PairKeeps (tape b c l k s) (advance e (tape b c l k s))
unfolding advance
advance-fields e b none l k s w = elim (Bool-cases (ltb 0 (length b))) [
  | inl i ↦ rw (advance, i) (refl, (ltb→lt _ _ i, w.1))
  | inr i ↦ rw (advance, i) (refl, (tt, w.1))
]
advance-fields e b (some n) l k s w = elim (Bool-cases (ltb (n + 1) (length b))) [
  | inl i ↦ rw (advance, i) (refl, (ltb→lt _ _ i, w.1))
  | inr i ↦ elim (Bool-cases (ltb 0 (length b))) [
    | inl j ↦ rw (advance, i, j) (refl, (ltb→lt _ _ j, w.1))
    | inr j ↦ rw (advance, i, j) (refl, (tt, w.1))
  ]
]

pub advance-Keeps : (e : Edge) (t : Tape) → IsTape t → PairKeeps t (advance e t)
advance-Keeps e t w = advance-fields e t.blocks t.current_block t.loop_block t.loop_count t.states w

abbrev pub TapeKeeps : Tape → Option (Result Tape) → Type 0
TapeKeeps t none = Unit {0}
TapeKeeps t (some r) = JumpKeeps t r

started-Keeps :
    (t : Tape) (q : Option (Result States))
    → IsTape t
    → TapeKeeps t
        (q >>= λ r. elim r [ ok s ↦ some (ok (record t { states = s })) | err e ↦ some (err e) ])
started-Keeps t none w = tt
started-Keeps t (some (ok s)) w = (refl, w)
started-Keeps t (some (err e)) w = tt

init-Keeps :
    (t : Tape) (o : Option Block)
    → IsTape t
    → TapeKeeps t (elim o [
      | none ↦ some (ok t)
      | some b ↦ block_init b t.states >>= λ r. elim r [
        | ok s ↦ some (ok (record t { states = s }))
        | err e ↦ some (err e)
      ]
    ])
init-Keeps t none w = (refl, w)
init-Keeps t (some b) w = started-Keeps t (block_init b t.states) w

pub init_current-Keeps : (t : Tape) → IsTape t → TapeKeeps t (init_current t)
unfolding init_current
init_current-Keeps t w = init-Keeps t (t.current_block >>= get_elem? t.blocks) w

-- A block of any kind leaves the list as it is, and the pointers in it.
pub block_edge-Keeps : (b : Block) (n : ℕ) (t : Tape) → IsTape t → StepKeeps t (block_edge b n t)
unfolding block_edge
block_edge-Keeps (rom b) n t w = in_states-Keeps t _ (rom_edge b t.states.bits) w
block_edge-Keeps (turbo b) n t w = in_states-Keeps t _ (turbo_edge b t.states.bits) w
block_edge-Keeps (pure_tone b) n t w = in_states-Keeps t _ (tone_edge b t.states.edge_count) w
block_edge-Keeps (pulses b) n t w = in_states-Keeps t _ (pulses_edge b t.states.edge_count) w
block_edge-Keeps (pure_data b) n t w = in_states-Keeps t _ (pure_data_edge b t.states.bits) w
block_edge-Keeps (raw_data b) n t w = some_states-Keeps t _ (raw_data_edge b t.states.raw) w
block_edge-Keeps (generalised_data b) n t w =
    in_states-Keeps t _ (generalised_data_edge b t.states.generalised) w
block_edge-Keeps (pause_block ms k level) n t w = (refl, w)
block_edge-Keeps (jump offset) n t w =
    jump-Keeps t (jump_blocks t n offset) (jump_blocks-Keeps t n offset w)
block_edge-Keeps (loop_start count) n t w = enter_loop-Keeps t n count w
block_edge-Keeps loop_end n t w = leave_loop-Keeps t w
block_edge-Keeps stop48 n t w = (refl, w)
block_edge-Keeps (set_signal_level level) n t w = (refl, w)
block_edge-Keeps (rle_pulse b) n t w = in_states-Keeps t _ (rle_pulse_edge b t.states.index) w
block_edge-Keeps (pulse_sequence b) n t w =
    sequence-Keeps t _ (pulse_sequence_edge b t.states.sequence) w
block_edge-Keeps (data_block b) n t w = in_states-Keeps t _ (data_block_edge b t.states.pulsed) w
block_edge-Keeps concat n t w = tt
block_edge-Keeps (group_start text) n t w = (refl, w)
block_edge-Keeps group_end n t w = (refl, w)
block_edge-Keeps (select choices) n t w = (refl, w)
block_edge-Keeps (comment text) n t w = (refl, w)
block_edge-Keeps (message ms tstates text) n t w = (refl, w)
block_edge-Keeps (archive_info strings) n t w = (refl, w)
block_edge-Keeps (hardware entries) n t w = (refl, w)
block_edge-Keeps (custom name bytes) n t w = (refl, w)
