-- ===== src/Tzx/Write/Files.antt =====
-- `internal_tzx_write`: the signature of a file, its version, and the loop over the blocks of a tape.
use libspectrum.Base.{ℕ, ◌+◌, List, [], ◌∷◌, ◌++◌, some, logic, ok, err}
use libspectrum.Tape.Next.{
  Block, States, rom, turbo, pure_tone, pulses, pure_data, raw_data, generalised_data, pause_block,
  jump,
}
use libspectrum.Tape.Next.{
  loop_start, loop_end, stop48, set_signal_level, rle_pulse, pulse_sequence, data_block, concat,
}
use libspectrum.Tape.Next.{
  group_start, group_end, select, comment, message, archive_info, hardware, custom,
}
use libspectrum.Tzx.Fields.{tzx_signature}
use libspectrum.Tzx.Write.{
  tzx_write_rom, tzx_write_turbo, add_pure_tone_block, tzx_write_pulses, tzx_write_data,
  tzx_write_raw_data,
}
use libspectrum.Tzx.Write.{
  tzx_write_pause, tzx_write_group_start, tzx_write_jump, tzx_write_loop_start, tzx_write_select,
  tzx_write_stop,
}
use libspectrum.Tzx.Write.{
  add_set_signal_level_block, level_byte, tzx_write_comment, tzx_write_message,
  tzx_write_archive_info,
}
use libspectrum.Tzx.Write.{tzx_write_hardware, tzx_write_custom, tzx_write_pulse_sequence}
use libspectrum.Tzx.Write.Generalised.{
  Written, then_write, tzx_write_generalised_data, tzx_write_data_block,
}
use libspectrum.Tzx.Write.Samples.{tzx_write_rle}

-- `states` are the members that the code leaves unset in its state of a run-length coded block.
module _ (states : States) where
  -- The block at a position of the tape of the blocks `all`.
  unfoldable pub tzx_write_block : List Block → ℕ → Block → Written
  unfolding tzx_write_rom tzx_write_turbo add_pure_tone_block tzx_write_pulses tzx_write_data
      tzx_write_raw_data tzx_write_generalised_data tzx_write_pause tzx_write_group_start
      tzx_write_jump tzx_write_loop_start tzx_write_select tzx_write_stop add_set_signal_level_block
      tzx_write_comment tzx_write_message tzx_write_archive_info tzx_write_hardware tzx_write_custom
      tzx_write_rle tzx_write_pulse_sequence tzx_write_data_block
  tzx_write_block all n (rom b) = some (ok (tzx_write_rom b))
  tzx_write_block all n (turbo b) = some (ok (tzx_write_turbo b))
  tzx_write_block all n (pure_tone b) = some (ok (add_pure_tone_block b.length b.pulses))
  tzx_write_block all n (pulses lengths) = some (ok (tzx_write_pulses lengths))
  tzx_write_block all n (pure_data b) = some (ok (tzx_write_data b))
  tzx_write_block all n (raw_data b) = some (ok (tzx_write_raw_data b))
  tzx_write_block all n (generalised_data b) = tzx_write_generalised_data b
  tzx_write_block all n (pause_block ms tstates level) =
      some (ok (tzx_write_pause ms tstates level))
  tzx_write_block all n (jump offset) = some (ok (tzx_write_jump offset))
  tzx_write_block all n (loop_start count) = some (ok (tzx_write_loop_start count))
  tzx_write_block all n loop_end = some (ok (0x25 ∷ []))
  tzx_write_block all n stop48 = some (ok tzx_write_stop)
  tzx_write_block all n (set_signal_level level) =
      some (ok (add_set_signal_level_block (level_byte level)))
  tzx_write_block all n (group_start name) = some (ok (tzx_write_group_start name))
  tzx_write_block all n group_end = some (ok (0x22 ∷ []))
  tzx_write_block all n (select choices) = some (ok (tzx_write_select choices))
  tzx_write_block all n (comment text) = some (ok (tzx_write_comment text))
  tzx_write_block all n (message ms tstates text) = some (ok (tzx_write_message ms text))
  tzx_write_block all n (archive_info strings) = some (ok (tzx_write_archive_info strings))
  tzx_write_block all n (hardware entries) = some (ok (tzx_write_hardware entries))
  tzx_write_block all n (custom name bytes) = some (ok (tzx_write_custom name bytes))
  tzx_write_block all n (rle_pulse b) = tzx_write_rle states all n b
  tzx_write_block all n (pulse_sequence b) = some (ok (tzx_write_pulse_sequence b))
  tzx_write_block all n (data_block b) = tzx_write_data_block b
  tzx_write_block all n concat = some (err logic)

  -- The blocks from a position on.
  unfoldable pub tzx_write_blocks : List Block → ℕ → List Block → Written
  unfolding tzx_write_block
  tzx_write_blocks all n [] = some (ok [])
  tzx_write_blocks all n (b ∷ blocks) =
      then_write (tzx_write_block all n b) (tzx_write_blocks all (n + 1) blocks)

  unfoldable pub internal_tzx_write : List Block → Written
  unfolding tzx_write_blocks
  internal_tzx_write blocks =
      then_write (some (ok (tzx_signature ++ (1 ∷ 20 ∷ [])))) (tzx_write_blocks blocks 0 blocks)
