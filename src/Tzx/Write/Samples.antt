-- ===== src/Tzx/Write/Samples.antt =====
-- `tzx_write_rle`: run-length coded pulses as a block of raw data.
use libspectrum.Base.{
  ℕ, zero, suc, ◌+◌, ◌-◌, ◌/◌, ◌%◌, ◌^◌, ◌==◌, ltb, Bool, false, not, ◌&&◌, if◌then◌else◌, bit_and,
}
use libspectrum.Base.{List, [], ◌∷◌, ◌++◌, length, Option, none, some, Result, ok, err}
use libspectrum.Base.Partial.{◌>>=◌}
use libspectrum.Bytes.{dword}
use libspectrum.Tape.Edges.{flags_block}
use libspectrum.Tape.Pulses.{RlePulse}
use libspectrum.Tape.Raw.{RawData}
use libspectrum.Tape.Next.{Block, States, Tape, get_next_edge, block_init, rle_pulse}
use libspectrum.Tzx.Write.{tzx_write_raw_data}

-- `rle_write_state`: the bytes that are full, and the byte in progress.
pub record RleWriteState : Type 0 where
  pub bits_used : ℕ
  pub level : Bool
  pub full : List ℕ
  pub current : ℕ

-- The loop of `write_pulse`: so many bits of the level.
unfoldable pub write_bits : ℕ → RleWriteState → RleWriteState
write_bits zero s = s
write_bits (suc n) s =
    let current = s.current + (if s.level then 2 ^ (7 - s.bits_used) else 0) in
    let used = s.bits_used + 1 in
    write_bits n (
      if used == 8
      then record s { bits_used = 0; full = s.full ++ (current ∷ []); current = 0 }
      else record s { bits_used = used; current = current })

-- The number of bits is counted in an `int`, so that 2 ^ 31 and more are none.
unfoldable pub write_pulse : ℕ → RleWriteState → RleWriteState
unfolding write_bits
write_pulse pulse_length s =
    let count = if ltb pulse_length (2 ^ 31) then pulse_length else 0 in
    let written = write_bits count s in record written { level = not s.level }

-- The loop over the edges, with `balance_tstates`: `none` is a loop that has not ended after so many
-- rounds, or a scale of 0, by which the code divides.
unfoldable pub rle_samples : ℕ → ℕ → ℕ → Tape → RleWriteState → Option (Result RleWriteState)
unfolding get_next_edge write_pulse
rle_samples zero scale balance t s = none
rle_samples (suc rounds) scale balance t s = get_next_edge t >>= λ r. elim r [
  | err e ↦ some (err e)
  | ok (e, t') ↦
      let tstates = dword (balance + e.tstates) in
      let s' = write_pulse (tstates / scale) s in
      let rest = rle_samples rounds scale (tstates % scale) t' s' in
      if scale == 0 then none else if bit_and e.flags flags_block == 0 then rest else some (ok s')
]

-- The block that the samples make.
abbrev pub sampled : ℕ → RleWriteState → RawData
sampled scale s = record {
  bytes = some (if s.bits_used == 0 then s.full else s.full ++ (s.current ∷ []));
  bits_in_last_byte = if s.bits_used == 0 then 8 else s.bits_used;
  pause = 0;
  pause_tstates = 0;
  bit_length = scale;
}

-- Nothing is written without a sample.
abbrev pub written_samples : ℕ → RleWriteState → List ℕ
written_samples scale s =
    if s.bits_used == 0 && length s.full == 0 then [] else tzx_write_raw_data (sampled scale s)

-- The block at a position of a tape. The code has a state of its own for it, of which it sets the
-- current block only: `states` are the others. An edge takes at least a byte.
unfoldable pub tzx_write_rle : States → List Block → ℕ → RlePulse → Option (Result (List ℕ))
unfolding rle_samples tzx_write_raw_data block_init
tzx_write_rle states blocks position block = block_init (rle_pulse block) states >>= λ r. elim r [
  | err e ↦ some (err e)
  | ok started ↦
      let t : Tape = record {
        blocks = blocks;
        current_block = some position;
        loop_block = none;
        loop_count = 0;
        states = started;
      } in
      let start : RleWriteState = record { bits_used = 0; level = false; full = []; current = 0 } in
      rle_samples (suc (length block.bytes)) block.scale 0 t start >>= λ q. elim q [
        | err e ↦ some (err e)
        | ok s ↦ some (ok (written_samples block.scale s))
      ]
]
