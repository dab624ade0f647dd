-- ===== src/Tzx/RoundTrip/Pulses.antt =====
-- Pulses, pauses and the blocks that control a tape, written and read again.
use libspectrum.Base.{
  ℕ, zero, suc, ◌*◌, ◌-◌, ◌≤◌, ◌<◌, ◌≡◌, refl, arith, ltb, lt→ltb, le→ltb, Bool, true, false,
}
use libspectrum.Base.{List, ◌++◌, length, length-append, All, drop, some, ok}
use libspectrum.Bytes.{write_word, write_dword}
use libspectrum.Tape.Pulses.{PureTone}
use libspectrum.Tape.Next.{
  Offset, forward, backward, pure_tone, pulses, pause_block, jump, loop_start, stop48,
  set_signal_level,
}
use libspectrum.Tzx.Read.{
  tzx_read_pure_tone, tzx_read_pulses_block, tzx_read_pause, tzx_read_jump, tzx_read_loop_start,
  tzx_read_stop, tzx_read_set_signal_level,
}
use libspectrum.Tzx.Write.{
  add_pure_tone_block, tzx_write_pulses, tzx_write_pause, tzx_write_jump, tzx_write_loop_start,
  tzx_write_stop, add_set_signal_level_block, level_byte, word_bytes,
}
use libspectrum.Tzx.RoundTrip.Pieces.{
  IsWord, IsPause, word_lem, byte_lem, of_ms_lem, words-word_bytes,
}

pub read_pure_tone-add_pure_tone_block :
    (b : PureTone) (rest : List ℕ)
    → IsWord b.length
    → IsWord b.pulses
    → tzx_read_pure_tone (drop 1 (add_pure_tone_block b.length b.pulses) ++ rest)
      ≡ ok (pure_tone b, rest)
unfolding tzx_read_pure_tone add_pure_tone_block write_word
read_pure_tone-add_pure_tone_block b rest h k =
    let written = drop 1 (add_pure_tone_block b.length b.pulses) ++ rest in
    rw (le→ltb (length written) 4 (omega arith), word_lem b.length h, word_lem b.pulses k)

pub read_pulses_block-write_pulses :
    (lengths rest : List ℕ)
    → All IsWord lengths
    → length lengths < 256
    → tzx_read_pulses_block (drop 1 (tzx_write_pulses lengths) ++ rest) ≡ ok (pulses lengths, rest)
unfolding tzx_read_pulses_block tzx_write_pulses
read_pulses_block-write_pulses lengths rest v n =
    let (read, left, size) = words-word_bytes lengths rest v in
    let enough : ltb (length (word_bytes lengths ++ rest)) (2 * length lengths) ≡ false =
      le→ltb _ _ (omega (arith, size, length-append (word_bytes lengths) rest)) in
    rw (byte_lem (length lengths) n, enough, read, left)

-- A low pause is read as it was.
pub read_pause-write_pause :
    (ms tstates : ℕ) (rest : List ℕ)
    → IsPause ms tstates
    → tzx_read_pause (drop 1 (tzx_write_pause ms tstates (some false)) ++ rest)
      ≡ ok (pause_block ms tstates (some false), rest)
unfolding tzx_read_pause tzx_write_pause write_word
read_pause-write_pause ms tstates rest (w, p) =
    let written = drop 1 (tzx_write_pause ms tstates (some false)) ++ rest in
    rw (le→ltb (length written) 2 (omega arith), word_lem ms w, of_ms_lem ms, p)

-- An offset that fits a word: 0 is no offset backwards.
abbrev pub IsOffset : Offset → Type 0
IsOffset (forward n) = n < 32768
IsOffset (backward n) = (1 ≤ n) × (n ≤ 32768)

pub read_jump-write_jump :
    (offset : Offset) (rest : List ℕ)
    → IsOffset offset
    → tzx_read_jump (drop 1 (tzx_write_jump offset) ++ rest) ≡ ok (jump offset, rest)
unfolding tzx_read_jump tzx_write_jump write_word
read_jump-write_jump (forward n) rest h =
    let written = drop 1 (tzx_write_jump (forward n)) ++ rest in
    rw (le→ltb (length written) 2 (omega arith), word_lem n (omega arith), lt→ltb n 32768 h)
read_jump-write_jump (backward zero) rest h = absurd (omega arith)
read_jump-write_jump (backward (suc n)) rest h =
    let written = drop 1 (tzx_write_jump (backward (suc n))) ++ rest in
    let w = 65536 - suc n in
    let back : 65536 - w ≡ suc n = omega arith in
    rw (
      le→ltb (length written) 2 (omega arith),
      word_lem w (omega arith),
      le→ltb w 32768 (omega arith),
      back,
    )

pub read_loop_start-write_loop_start :
    (count : ℕ) (rest : List ℕ)
    → IsWord count
    → tzx_read_loop_start (drop 1 (tzx_write_loop_start count) ++ rest)
      ≡ ok (loop_start count, rest)
unfolding tzx_read_loop_start tzx_write_loop_start write_word
read_loop_start-write_loop_start count rest h =
    let written = drop 1 (tzx_write_loop_start count) ++ rest in
    rw (le→ltb (length written) 2 (omega arith), word_lem count h)

pub read_stop-write_stop :
    (rest : List ℕ) → tzx_read_stop (drop 1 tzx_write_stop ++ rest) ≡ ok (stop48, rest)
unfolding tzx_read_stop tzx_write_stop write_dword
read_stop-write_stop rest =
    rw (le→ltb (length (drop 1 tzx_write_stop ++ rest)) 4 (omega arith)) refl

pub read_set_signal_level-add_set_signal_level_block :
    (level : Bool) (rest : List ℕ)
    → tzx_read_set_signal_level (drop 1 (add_set_signal_level_block (level_byte level)) ++ rest)
      ≡ ok (set_signal_level level, rest)
unfolding tzx_read_set_signal_level add_set_signal_level_block write_dword
read_set_signal_level-add_set_signal_level_block true rest =
    rw (le→ltb (length (drop 1 (add_set_signal_level_block 1) ++ rest)) 5 (omega arith)) refl
read_set_signal_level-add_set_signal_level_block false rest =
    rw (le→ltb (length (drop 1 (add_set_signal_level_block 0) ++ rest)) 5 (omega arith)) refl
