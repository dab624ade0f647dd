-- ===== src/Tzx/Read/Files.antt =====
-- `internal_tzx_read`: the signature of a file, and the loop over its blocks, which puts them on a tape.
use libspectrum.Base.{ℕ, zero, suc, ◌+◌, ◌==◌, ltb, Bool, true, false, ◌&&◌, if◌then◌else◌}
use libspectrum.Base.{
  List, [], ◌∷◌, length, take, drop, Option, none, some, Error, corrupt, signature, unknown, Result,
  ok, err,
}
use libspectrum.Base.Partial.{◌>>=◌}
use libspectrum.Tape.Next.{Block, Tape, group_end, loop_end}
use libspectrum.Tape.Select.{append_block, tape_clear}
use libspectrum.Tzx.Fields.{tzx_signature}
use libspectrum.Tzx.Read.{
  Parse, tzx_read_rom_block, tzx_read_turbo_block, tzx_read_pure_tone, tzx_read_pulses_block,
}
use libspectrum.Tzx.Read.{
  tzx_read_pure_data, tzx_read_raw_data, tzx_read_pause, tzx_read_group_start, tzx_read_jump,
}
use libspectrum.Tzx.Read.{
  tzx_read_loop_start, tzx_read_select, tzx_read_stop, tzx_read_set_signal_level, tzx_read_comment,
}
use libspectrum.Tzx.Read.{
  tzx_read_message, tzx_read_archive_info, tzx_read_hardware, tzx_read_custom, tzx_read_concat,
}
use libspectrum.Tzx.Read.Generalised.{tzx_read_generalised_data}

-- A block, or none, and the bytes behind it.
abbrev pub Found : Type 0
Found = Result (Option Block × List ℕ)

abbrev pub a_block : Parse → Found
a_block (ok (b, rest)) = ok (some b, rest)
a_block (err e) = err e

abbrev pub no_block : Result (List ℕ) → Found
no_block (ok rest) = ok (none, rest)
no_block (err e) = err e

-- `memcmp`
abbrev pub equal_bytes : List ℕ → List ℕ → Bool
equal_bytes [] [] = true
equal_bytes (x ∷ xs) (y ∷ ys) = x == y && equal_bytes xs ys
equal_bytes _ _ = false

module _ (ceil_log : ℕ → ℕ) where
  -- The blocks by their numbers.
  unfoldable pub tzx_read_block : ℕ → List ℕ → Option Found
  tzx_read_block id buffer =
      if id == 0x10
      then some (a_block (tzx_read_rom_block buffer))
      else if id == 0x11
      then some (a_block (tzx_read_turbo_block buffer))
      else if id == 0x12
      then some (a_block (tzx_read_pure_tone buffer))
      else if id == 0x13
      then some (a_block (tzx_read_pulses_block buffer))
      else if id == 0x14
      then some (a_block (tzx_read_pure_data buffer))
      else if id == 0x15
      then some (a_block (tzx_read_raw_data buffer))
      else if id == 0x19
      then (tzx_read_generalised_data ceil_log buffer >>= λ r. some (a_block r))
      else if id == 0x20
      then some (a_block (tzx_read_pause buffer))
      else if id == 0x21
      then some (a_block (tzx_read_group_start buffer))
      else if id == 0x22
      then some (ok (some group_end, buffer))
      else if id == 0x23
      then some (a_block (tzx_read_jump buffer))
      else if id == 0x24
      then some (a_block (tzx_read_loop_start buffer))
      else if id == 0x25
      then some (ok (some loop_end, buffer))
      else if id == 0x28
      then some (a_block (tzx_read_select buffer))
      else if id == 0x2a
      then some (a_block (tzx_read_stop buffer))
      else if id == 0x2b
      then some (a_block (tzx_read_set_signal_level buffer))
      else if id == 0x30
      then some (a_block (tzx_read_comment buffer))
      else if id == 0x31
      then some (a_block (tzx_read_message buffer))
      else if id == 0x32
      then some (a_block (tzx_read_archive_info buffer))
      else if id == 0x33
      then some (a_block (tzx_read_hardware buffer))
      else if id == 0x35
      then some (a_block (tzx_read_custom buffer))
      else if id == 0x5a
      then some (no_block (tzx_read_concat buffer))
      else some (err unknown)

  abbrev pub append_found : Option Block → Tape → Option Tape
  append_found none tape = some tape
  append_found (some b) tape = append_block tape b

  -- The error, if there is one, and the tape. The outer `none` is a loop that has not ended after so
  -- many rounds, a read past the end of the buffer, or a block that cannot be put on the tape.
  unfoldable pub tzx_read_blocks : ℕ → List ℕ → Tape → Option (Option Error × Tape)
  unfolding tzx_read_block append_block tape_clear
  tzx_read_blocks zero buffer tape = none
  tzx_read_blocks (suc rounds) [] tape = some (none, tape)
  tzx_read_blocks (suc rounds) (id ∷ buffer) tape = tzx_read_block id buffer >>= λ r. elim r [
    | err e ↦ some (some e, tape_clear tape)
    | ok (found, rest) ↦ append_found found tape >>= λ tape'. tzx_read_blocks rounds rest tape'
  ]

  -- Each round takes at least a byte. The version is not looked at.
  unfoldable pub internal_tzx_read : List ℕ → Tape → Option (Option Error × Tape)
  unfolding tzx_read_blocks
  internal_tzx_read buffer tape =
      if ltb (length buffer) (length tzx_signature + 2)
      then some (some corrupt, tape)
      else if equal_bytes (take (length tzx_signature) buffer) tzx_signature
      then tzx_read_blocks (suc (length buffer)) (drop (length tzx_signature + 2) buffer) tape
      else some (some signature, tape)
