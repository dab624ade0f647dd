-- ===== src/Tzx/RoundTrip/Stored.antt =====
-- What each kind of block is read as from a .tzx file that it was written to.
use libspectrum.Base.{ℕ, ◌*◌, ◌^◌, ◌<◌, ◌≡◌, ◌==◌, Bool, true, false, ◌&&◌, if◌then◌else◌}
use libspectrum.Base.{List, [], ◌∷◌, length, All, Option, none, some}
use libspectrum.Tape.Next.{
  Block, rom, turbo, pure_tone, pulses, pure_data, raw_data, generalised_data, pause_block, jump,
}
use libspectrum.Tape.Next.{
  loop_start, loop_end, stop48, set_signal_level, rle_pulse, pulse_sequence, data_block, concat,
}
use libspectrum.Tape.Next.{
  group_start, group_end, select, comment, message, archive_info, hardware, custom,
}
use libspectrum.Tzx.Fields.{of_ms}
use libspectrum.Tzx.Write.Generalised.{two_equal, pure_bits}
use libspectrum.Tzx.RoundTrip.Pieces.{IsWord, IsPause, IsString}
use libspectrum.Tzx.RoundTrip.Data.{IsRom, IsTurbo, IsPureData, IsRawData}
use libspectrum.Tzx.RoundTrip.Pulses.{IsOffset}
use libspectrum.Tzx.RoundTrip.Texts.{IsNumbered, IsEntry}
use libspectrum.Tzx.RoundTrip.Sequences.{IsSequence, sequence_blocks}

-- The level that is read of an initial level: -1 is written as 255, which is high.
abbrev pub initial : Option Bool → Bool
initial none = true
initial (some level) = level

abbrev pub tone_of : ℕ → Block
tone_of tstates = pure_tone (record { length = tstates; pulses = 1 })

abbrev pub tail_blocks : ℕ → List Block
tail_blocks n = if n == 0 then [] else tone_of n ∷ []

-- The blocks that are read of a block: itself, but for pauses that are not low, messages, whose time
-- is read in seconds and was written in milliseconds, and the blocks of other formats.
abbrev pub stored : Block → List Block
stored (pause_block ms tstates (some true)) = set_signal_level true ∷ tone_of tstates ∷ []
stored (pause_block ms tstates none) = tone_of tstates ∷ []
stored (message ms tstates text) =
    let set = of_ms (ms * 1000) in message set.pause set.pause_tstates text ∷ []
stored (pulse_sequence b) = set_signal_level false ∷ sequence_blocks [] b.lengths b.pulse_repeats
stored (data_block b) =
    set_signal_level (initial b.initial_level) ∷ pure_data (pure_bits b) ∷ tail_blocks b.tail_length
stored b = b ∷ []

abbrev pub IsStorable : Block → Type 0
IsStorable (rom b) = IsRom b
IsStorable (turbo b) = IsTurbo b
IsStorable (pure_tone b) = IsWord b.length × IsWord b.pulses
IsStorable (pulses lengths) = All IsWord lengths × (length lengths < 256)
IsStorable (pure_data b) = IsPureData b
IsStorable (raw_data b) = IsRawData b
IsStorable (pause_block ms tstates (some false)) = IsPause ms tstates
IsStorable (pause_block ms tstates level) = IsWord tstates
IsStorable (jump offset) = IsOffset offset
IsStorable (loop_start count) = IsWord count
IsStorable loop_end = Unit {0}
IsStorable stop48 = Unit {0}
IsStorable (set_signal_level level) = Unit {0}
IsStorable (group_start name) = IsString name
IsStorable group_end = Unit {0}
IsStorable (comment text) = IsString text
IsStorable (message ms tstates text) = (ms < 256) × IsString text
IsStorable (archive_info strings) = All IsNumbered strings × (length strings < 256)
IsStorable (hardware entries) = All IsEntry entries × (length entries < 256)
IsStorable (custom name bytes) = (length name ≡ 16) × (length bytes < 2 ^ 32)
IsStorable (pulse_sequence b) = IsSequence b
IsStorable (data_block b) =
    ((two_equal b.bit0_pulses && two_equal b.bit1_pulses) ≡ true)
    × IsPureData (pure_bits b)
    × IsWord b.tail_length
IsStorable (generalised_data b) = ⊥
IsStorable (select choices) = ⊥
IsStorable (rle_pulse b) = ⊥
IsStorable concat = ⊥
