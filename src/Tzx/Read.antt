-- ===== src/Tzx/Read.antt =====
-- tzx_read.c: the blocks of a file, each from the bytes behind its number, with the bytes that follow
-- it. Every function checks that its bytes are there before it reads them.
pub mod Generalised
pub mod Files
use libspectrum.Base.{ℕ, zero, suc, ◌+◌, ◌-◌, ◌*◌, ◌==◌, ltb, Bool, true, false, not, if◌then◌else◌}
use libspectrum.Base.{
  List, [], ◌∷◌, ◌++◌, length, get_or, take, drop, Option, none, some, Error, corrupt, Result, ok,
  err, ◌>>=◌,
}
use libspectrum.Tape.Data.{PureData, Rom, Turbo}
use libspectrum.Tape.Raw.{RawData}
use libspectrum.Tape.Next.{
  Offset, forward, backward, Block, rom, turbo, pure_tone, pulses, pure_data, raw_data, pause_block,
}
use libspectrum.Tape.Next.{
  jump, loop_start, stop48, set_signal_level, group_start, select, comment, message, archive_info,
}
use libspectrum.Tape.Next.{hardware, custom}
use libspectrum.Tzx.Fields.{
  tzx_signature, word_at, tzx_read_data, tzx_read_string, of_ms, last_bits,
}

-- A block and the bytes behind it.
abbrev pub Parse : Type 0
Parse = Result (Block × List ℕ)

-- The check that so many bytes are left.
abbrev pub with_bytes : {A : Type 0} → ℕ → List ℕ → Result A → Result A
with_bytes n buffer r = if ltb (length buffer) n then err corrupt else r

unfoldable pub tzx_read_rom_block : List ℕ → Parse
unfolding tzx_read_data
tzx_read_rom_block buffer = with_bytes 4 buffer (do
  (bytes, rest) ← tzx_read_data 2 (drop 2 buffer)
  let set = of_ms (word_at buffer 0)
  ok (rom (record { bytes = bytes; pause = set.pause; pause_tstates = set.pause_tstates }), rest))

unfoldable pub tzx_read_turbo_block : List ℕ → Parse
unfolding tzx_read_data
tzx_read_turbo_block buffer = with_bytes 18 buffer (do
  (bytes, rest) ← tzx_read_data 3 (drop 15 buffer)
  let set = of_ms (word_at buffer 13)
  let (bits, kept) = last_bits 1 (get_or buffer 12 0) bytes
  ok (
    turbo (record {
      payload = record {
        bytes = kept;
        bits_in_last_byte = bits;
        pause = set.pause;
        pause_tstates = set.pause_tstates;
        bit0_length = word_at buffer 6;
        bit1_length = word_at buffer 8;
      };
      pilot_length = word_at buffer 0;
      pilot_pulses = word_at buffer 10;
      sync1_length = word_at buffer 2;
      sync2_length = word_at buffer 4;
    }),
    rest,
  ))

unfoldable pub tzx_read_pure_tone : List ℕ → Parse
tzx_read_pure_tone buffer = with_bytes 4 buffer (
    ok (pure_tone (record { length = word_at buffer 0; pulses = word_at buffer 2 }), drop 4 buffer))

-- The words at the start of a list of bytes.
abbrev pub words : ℕ → List ℕ → List ℕ
words zero buffer = []
words (suc n) buffer = word_at buffer 0 ∷ words n (drop 2 buffer)

unfoldable pub tzx_read_pulses_block : List ℕ → Parse
tzx_read_pulses_block [] = err corrupt
tzx_read_pulses_block (count ∷ buffer) =
    with_bytes (2 * count) buffer (ok (pulses (words count buffer), drop (2 * count) buffer))

unfoldable pub tzx_read_pure_data : List ℕ → Parse
unfolding tzx_read_data
tzx_read_pure_data buffer = with_bytes 10 buffer (do
  (bytes, rest) ← tzx_read_data 3 (drop 7 buffer)
  let set = of_ms (word_at buffer 5)
  let (bits, kept) = last_bits 2 (get_or buffer 4 0) bytes
  ok (
    pure_data (record {
      bytes = kept;
      bits_in_last_byte = bits;
      pause = set.pause;
      pause_tstates = set.pause_tstates;
      bit0_length = word_at buffer 0;
      bit1_length = word_at buffer 2;
    }),
    rest,
  ))

-- A block without a byte has no `data`.
abbrev pub some_data : List ℕ → List ℕ → Option (List ℕ)
some_data [] kept = none
some_data (b ∷ bytes) kept = some kept

unfoldable pub tzx_read_raw_data : List ℕ → Parse
unfolding tzx_read_data
tzx_read_raw_data buffer = with_bytes 8 buffer (do
  (bytes, rest) ← tzx_read_data 3 (drop 5 buffer)
  let set = of_ms (word_at buffer 2)
  let (bits, kept) = last_bits 1 (get_or buffer 4 0) bytes
  ok (
    raw_data (record {
      bytes = some_data bytes kept;
      bits_in_last_byte = bits;
      pause = set.pause;
      pause_tstates = set.pause_tstates;
      bit_length = word_at buffer 0;
    }),
    rest,
  ))

-- A pause of a file is low.
unfoldable pub tzx_read_pause : List ℕ → Parse
tzx_read_pause buffer =
    let set = of_ms (word_at buffer 0) in
    with_bytes 2 buffer (ok (pause_block set.pause set.pause_tstates (some false), drop 2 buffer))

unfoldable pub tzx_read_group_start : List ℕ → Parse
unfolding tzx_read_string
tzx_read_group_start buffer =
    with_bytes 1 buffer (do (name, rest) ← tzx_read_string buffer; ok (group_start name, rest))

-- A word as a signed offset.
abbrev pub offset_of : ℕ → Offset
offset_of w = if ltb w 32768 then forward w else backward (65536 - w)

unfoldable pub tzx_read_jump : List ℕ → Parse
tzx_read_jump buffer = with_bytes 2 buffer (ok (jump (offset_of (word_at buffer 0)), drop 2 buffer))

unfoldable pub tzx_read_loop_start : List ℕ → Parse
tzx_read_loop_start buffer = with_bytes 2 buffer (ok (loop_start (word_at buffer 0), drop 2 buffer))

-- So many selections.
unfoldable pub read_selections : ℕ → List ℕ → Result (List (ℕ × List ℕ) × List ℕ)
unfolding tzx_read_string
read_selections zero buffer = ok ([], buffer)
read_selections (suc n) buffer = with_bytes 3 buffer (do
  (text, rest) ← tzx_read_string (drop 2 buffer)
  (choices, rest') ← read_selections n rest
  ok ((word_at buffer 0, text) ∷ choices, rest'))

unfoldable pub tzx_read_select : List ℕ → Parse
unfolding read_selections
tzx_read_select buffer = with_bytes 3 buffer (
    with_bytes (word_at buffer 0) (drop 2 buffer) (
      read_selections (get_or buffer 2 0) (drop 3 buffer) >>= λ (choices, rest).
      ok (select choices, rest)))

unfoldable pub tzx_read_stop : List ℕ → Parse
tzx_read_stop buffer = with_bytes 4 buffer (ok (stop48, drop 4 buffer))

unfoldable pub tzx_read_set_signal_level : List ℕ → Parse
tzx_read_set_signal_level buffer =
    with_bytes 5 buffer (ok (set_signal_level (not (get_or buffer 4 0 == 0)), drop 5 buffer))

unfoldable pub tzx_read_comment : List ℕ → Parse
unfolding tzx_read_string
tzx_read_comment buffer =
    with_bytes 1 buffer (do (text, rest) ← tzx_read_string buffer; ok (comment text, rest))

unfoldable pub tzx_read_message : List ℕ → Parse
unfolding tzx_read_string
tzx_read_message buffer = with_bytes 2 buffer (do
  (text, rest) ← tzx_read_string (drop 1 buffer)
  let set = of_ms (get_or buffer 0 0 * 1000)
  ok (message set.pause set.pause_tstates text, rest))

unfoldable pub read_strings : ℕ → List ℕ → Result (List (ℕ × List ℕ) × List ℕ)
unfolding tzx_read_string
read_strings zero buffer = ok ([], buffer)
read_strings (suc n) buffer = with_bytes 2 buffer (do
  (text, rest) ← tzx_read_string (drop 1 buffer)
  (strings, rest') ← read_strings n rest
  ok ((get_or buffer 0 0, text) ∷ strings, rest'))

unfoldable pub tzx_read_archive_info : List ℕ → Parse
unfolding read_strings
tzx_read_archive_info buffer = with_bytes 3 buffer (do
  (strings, rest) ← read_strings (get_or buffer 2 0) (drop 3 buffer)
  ok (archive_info strings, rest))

abbrev pub read_entries : ℕ → List ℕ → List (ℕ × ℕ × ℕ)
read_entries zero buffer = []
read_entries (suc n) buffer =
    (get_or buffer 0 0, get_or buffer 1 0, get_or buffer 2 0) ∷ read_entries n (drop 3 buffer)

unfoldable pub tzx_read_hardware : List ℕ → Parse
tzx_read_hardware [] = err corrupt
tzx_read_hardware (count ∷ buffer) =
    with_bytes (3 * count) buffer
      (ok (hardware (read_entries count buffer), drop (3 * count) buffer))

unfoldable pub tzx_read_custom : List ℕ → Parse
unfolding tzx_read_data
tzx_read_custom buffer =
    with_bytes 20 buffer (do
      (bytes, rest) ← tzx_read_data 4 (drop 16 buffer)
      ok (custom (take 16 buffer) bytes, rest))

-- A second signature is skipped; its first byte is the number of the block.
unfoldable pub tzx_read_concat : List ℕ → Result (List ℕ)
tzx_read_concat buffer =
    let n = length tzx_signature + 2 - 1 in with_bytes n buffer (ok (drop n buffer))
