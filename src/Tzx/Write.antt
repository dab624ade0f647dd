-- ===== src/Tzx/Write.antt =====
-- tzx_write.c: the bytes of a block in a file. The numbers of blocks are their first bytes.
pub mod Generalised
pub mod Samples
pub mod Files
use libspectrum.Base.{ℕ, zero, suc, ◌+◌, ◌-◌, ◌*◌, ◌==◌, ltb, Bool, true, false, not, if◌then◌else◌}
use libspectrum.Base.{List, [], ◌∷◌, ◌++◌, length, get_or, take, map, Option, none, some}
use libspectrum.Bytes.{byte, write_word, write_dword}
use libspectrum.Tape.Data.{PureData, Rom, Turbo}
use libspectrum.Tape.Pulses.{PulseSequence}
use libspectrum.Tape.Raw.{RawData, samples}
use libspectrum.Tape.Next.{Offset, forward, backward}
use libspectrum.Tzx.Fields.{tzx_write_bytes, tzx_write_string}

unfoldable pub tzx_write_rom : Rom → List ℕ
unfolding write_word tzx_write_bytes
tzx_write_rom block = 0x10 ∷ write_word block.pause ++ tzx_write_bytes 2 block.bytes

unfoldable pub tzx_write_turbo : Turbo → List ℕ
unfolding write_word tzx_write_bytes
tzx_write_turbo block =
    0x11 ∷ write_word block.pilot_length
    ++ write_word block.sync1_length
    ++ write_word block.sync2_length
    ++ write_word block.payload.bit0_length
    ++ write_word block.payload.bit1_length
    ++ write_word block.pilot_pulses
    ++ (byte block.payload.bits_in_last_byte ∷ write_word block.payload.pause
        ++ tzx_write_bytes 3 block.payload.bytes)

unfoldable pub add_pure_tone_block : ℕ → ℕ → List ℕ
unfolding write_word
add_pure_tone_block pulse_length count = 0x12 ∷ write_word pulse_length ++ write_word count

-- The words one behind the other.
abbrev pub word_bytes : List ℕ → List ℕ
word_bytes [] = []
word_bytes (w ∷ ws) = write_word w ++ word_bytes ws

-- The number of pulses is one byte.
unfoldable pub tzx_write_pulses : List ℕ → List ℕ
unfolding write_word
tzx_write_pulses lengths = 0x13 ∷ byte (length lengths) ∷ word_bytes lengths

unfoldable pub tzx_write_data : PureData → List ℕ
unfolding write_word tzx_write_bytes
tzx_write_data block =
    0x14 ∷ write_word block.bit0_length
    ++ write_word block.bit1_length
    ++ (byte block.bits_in_last_byte ∷ write_word block.pause ++ tzx_write_bytes 3 block.bytes)

unfoldable pub tzx_write_raw_data : RawData → List ℕ
unfolding write_word tzx_write_bytes
tzx_write_raw_data block =
    0x15 ∷ write_word block.bit_length
    ++ write_word block.pause
    ++ (byte block.bits_in_last_byte ∷ tzx_write_bytes 3 (samples block))

unfoldable pub add_set_signal_level_block : ℕ → List ℕ
unfolding write_dword
add_set_signal_level_block level = 0x2b ∷ write_dword 1 ++ (byte level ∷ [])

abbrev pub level_byte : Bool → ℕ
level_byte true = 1
level_byte false = 0

-- A pause that is not low is a pulse.
unfoldable pub tzx_write_pause : ℕ → ℕ → Option Bool → List ℕ
unfolding write_word add_pure_tone_block add_set_signal_level_block
tzx_write_pause ms tstates (some false) = 0x20 ∷ write_word ms
tzx_write_pause ms tstates (some true) =
    add_set_signal_level_block 1 ++ add_pure_tone_block tstates 1
tzx_write_pause ms tstates none = add_pure_tone_block tstates 1

unfoldable pub tzx_write_group_start : List ℕ → List ℕ
unfolding tzx_write_string
tzx_write_group_start name = 0x21 ∷ tzx_write_string name

unfoldable pub tzx_write_jump : Offset → List ℕ
unfolding write_word
tzx_write_jump (forward n) = 0x23 ∷ write_word n
tzx_write_jump (backward zero) = 0x23 ∷ write_word 0
tzx_write_jump (backward (suc n)) = 0x23 ∷ write_word (65536 - suc n)

unfoldable pub tzx_write_loop_start : ℕ → List ℕ
unfolding write_word
tzx_write_loop_start count = 0x24 ∷ write_word count

abbrev pub text_bytes : List (ℕ × List ℕ) → ℕ
text_bytes [] = 0
text_bytes ((n, text) ∷ rest) = length text + text_bytes rest

abbrev pub selection_bytes : List (ℕ × List ℕ) → List ℕ
selection_bytes [] = []
selection_bytes ((offset, text) ∷ rest) =
    write_word offset ++ tzx_write_string text ++ selection_bytes rest

-- The length counts the number of the block and itself too.
unfoldable pub tzx_write_select : List (ℕ × List ℕ) → List ℕ
unfolding write_word tzx_write_string
tzx_write_select choices =
    let count = length choices in
    0x28 ∷ write_word (4 + 3 * count + text_bytes choices) ++ (byte count ∷ selection_bytes choices)

unfoldable pub tzx_write_stop : List ℕ
unfolding write_dword
tzx_write_stop = 0x2a ∷ write_dword 0

unfoldable pub tzx_write_comment : List ℕ → List ℕ
unfolding tzx_write_string
tzx_write_comment text = 0x30 ∷ tzx_write_string text

-- The time is written in milliseconds.
unfoldable pub tzx_write_message : ℕ → List ℕ → List ℕ
unfolding tzx_write_string
tzx_write_message ms text = 0x31 ∷ byte ms ∷ tzx_write_string text

abbrev pub string_bytes : List (ℕ × List ℕ) → List ℕ
string_bytes [] = []
string_bytes ((id, text) ∷ rest) = byte id ∷ tzx_write_string text ++ string_bytes rest

unfoldable pub tzx_write_archive_info : List (ℕ × List ℕ) → List ℕ
unfolding write_word tzx_write_string
tzx_write_archive_info strings =
    let count = length strings in
    0x32 ∷ write_word (1 + 2 * count + text_bytes strings) ++ (byte count ∷ string_bytes strings)

abbrev pub entry_bytes : List (ℕ × ℕ × ℕ) → List ℕ
entry_bytes [] = []
entry_bytes ((type, id, value) ∷ rest) = byte type ∷ byte id ∷ byte value ∷ entry_bytes rest

unfoldable pub tzx_write_hardware : List (ℕ × ℕ × ℕ) → List ℕ
tzx_write_hardware entries = 0x33 ∷ byte (length entries) ∷ entry_bytes entries

unfoldable pub tzx_write_custom : List ℕ → List ℕ → List ℕ
unfolding tzx_write_bytes
tzx_write_custom name bytes = 0x35 ∷ take 16 name ++ tzx_write_bytes 4 bytes

-- The pulses that wait to be written as one block.
abbrev pub queued : List ℕ → List ℕ
queued [] = []
queued (l ∷ lengths) = tzx_write_pulses (l ∷ lengths)

-- Repeated pulses are a tone, the others a list of pulses. `queue` are those that have not been
-- written.
unfoldable pub sequence_bytes : List ℕ → List ℕ → List ℕ → List ℕ
unfolding tzx_write_pulses add_pure_tone_block
sequence_bytes queue (l ∷ lengths) (n ∷ repeats) =
    let tone = sequence_bytes [] lengths repeats in
    let wait = sequence_bytes (queue ++ (l ∷ [])) lengths repeats in
    if ltb 1 n then queued queue ++ add_pure_tone_block l n ++ tone else wait
sequence_bytes queue lengths repeats = queued queue

unfoldable pub tzx_write_pulse_sequence : PulseSequence → List ℕ
unfolding sequence_bytes add_set_signal_level_block
tzx_write_pulse_sequence block =
    add_set_signal_level_block 0 ++ sequence_bytes [] block.lengths block.pulse_repeats
