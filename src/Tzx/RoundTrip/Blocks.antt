-- ===== src/Tzx/RoundTrip/Blocks.antt =====
-- Each block is written as bytes that are read as it, or as what `stored` makes of it.
use libspectrum.Base.{
  ℕ, zero, suc, ◌*◌, ◌<◌, ◌≡◌, refl, ap, arith, le→ltb, ◌==◌, Bool, true, false, if◌then◌else◌,
}
use libspectrum.Base.{List, [], ◌∷◌, ◌++◌, length, drop, append-nil, Option, none, some, ok}
use libspectrum.Tape.Data.{PureData}
use libspectrum.Tape.Pulsed.{DataBlock}
use libspectrum.Tape.Next.{
  Block, States, rom, turbo, pure_tone, pulses, pure_data, raw_data, generalised_data, pause_block,
  jump,
}
use libspectrum.Tape.Next.{
  loop_start, loop_end, stop48, set_signal_level, rle_pulse, pulse_sequence, data_block, concat,
}
use libspectrum.Tape.Next.{
  group_start, group_end, select, comment, message, archive_info, hardware, custom,
}
use libspectrum.Tape.Next.{Offset, forward, backward}
use libspectrum.Tape.Reading.{append-Begins}
use libspectrum.Tzx.Fields.{tzx_write_string, of_ms}
use libspectrum.Tzx.Read.{Parse, tzx_read_message, tzx_read_set_signal_level}
use libspectrum.Tzx.Read.Files.{Found, tzx_read_block, tzx_read_blocks, a_block}
use libspectrum.Tzx.Write.{
  tzx_write_rom, tzx_write_turbo, add_pure_tone_block, tzx_write_pulses, tzx_write_data,
  tzx_write_raw_data,
}
use libspectrum.Tzx.Write.{
  tzx_write_pause, tzx_write_group_start, tzx_write_jump, tzx_write_loop_start, tzx_write_stop,
}
use libspectrum.Tzx.Write.{
  add_set_signal_level_block, level_byte, tzx_write_comment, tzx_write_message,
  tzx_write_archive_info,
}
use libspectrum.Tzx.Write.{
  tzx_write_hardware, tzx_write_custom, tzx_write_pulse_sequence, sequence_bytes,
}
use libspectrum.Tzx.Write.Generalised.{Written, pure_bits, initial_level_byte, tzx_write_data_block}
use libspectrum.Tzx.Write.Files.{tzx_write_block}
use libspectrum.Tzx.RoundTrip.Pieces.{IsWord, IsString, byte_lem, read_string-write_string}
use libspectrum.Tzx.RoundTrip.Data.{
  IsPureData, read_rom_block-write_rom, read_turbo_block-write_turbo, read_pure_data-write_data,
  read_raw_data-write_raw_data,
}
use libspectrum.Tzx.RoundTrip.Pulses.{
  read_pause-write_pause, read_jump-write_jump, read_loop_start-write_loop_start,
  read_stop-write_stop, read_set_signal_level-add_set_signal_level_block,
}
use libspectrum.Tzx.RoundTrip.Texts.{
  read_group_start-write_group_start, read_comment-write_comment,
  read_archive_info-write_archive_info, read_hardware-write_hardware, read_custom-write_custom,
}
use libspectrum.Tzx.RoundTrip.Sequences.{
  Is, branch-Is, nothing-Is, block-Is, tone-Is, pulses-Is, sequence_blocks, sequence-Is,
}
use libspectrum.Tzx.RoundTrip.Stored.{initial, tone_of, tail_blocks, stored, IsStorable}

read_message-write_message :
    (ms : ℕ) (text rest : List ℕ)
    → ms < 256
    → IsString text
    → tzx_read_message (drop 1 (tzx_write_message ms text) ++ rest)
      ≡ (let set = of_ms (ms * 1000) in ok (message set.pause set.pause_tstates text, rest))
unfolding tzx_read_message tzx_write_message tzx_write_string
read_message-write_message ms text rest h v = rw (
  le→ltb (length (drop 1 (tzx_write_message ms text) ++ rest)) 2 (omega arith),
  byte_lem ms h,
  read_string-write_string text rest v,
)

module _ (ceil_log : ℕ → ℕ) (states : States) where
  level-Is :
      (level : Bool)
      → Is ceil_log (set_signal_level level ∷ []) (add_set_signal_level_block (level_byte level))
  unfolding tzx_read_block add_set_signal_level_block
  level-Is level =
      block-Is ceil_log 0x2b (set_signal_level level)
        (drop 1 (add_set_signal_level_block (level_byte level)))
        (λ rest.
          ap (λ r. some (a_block r)) (read_set_signal_level-add_set_signal_level_block level rest))

  -- What a block is written as, which is read as `stored` says.
  abbrev pub Stored : List Block → ℕ → Block → Type 0
  Stored all n b =
      (bytes : List ℕ) × (tzx_write_block states all n b ≡ some (ok bytes))
      × Is ceil_log (stored b) bytes

  single-Is : (n : ℕ) → IsWord n → Is ceil_log (tone_of n ∷ []) (add_pure_tone_block n 1)
  single-Is n h = tone-Is ceil_log (record { length = n; pulses = 1 }) h (omega arith)

  pure_data-Is : (b : PureData) → IsPureData b → Is ceil_log (pure_data b ∷ []) (tzx_write_data b)
  unfolding tzx_read_block tzx_write_data
  pure_data-Is b v =
      block-Is ceil_log 0x14 (pure_data b) (drop 1 (tzx_write_data b))
        (λ rest. ap (λ r. some (a_block r)) (read_pure_data-write_data b rest v))

  jump_number :
      (offset : Offset)
      → ◌≡◌ {A = Written}
          (some (ok (tzx_write_jump offset)))
          (some (ok (0x23 ∷ drop 1 (tzx_write_jump offset))))
  unfolding tzx_write_jump
  jump_number (forward n) = refl
  jump_number (backward zero) = refl
  jump_number (backward (suc n)) = refl

  abbrev tail_bytes : ℕ → List ℕ
  tail_bytes n = if n == 0 then [] else add_pure_tone_block n 1

  tail-Is : (n : ℕ) → IsWord n → Is ceil_log (tail_blocks n) (tail_bytes n ++ [])
  tail-Is n h = rw (append-nil (tail_bytes n)) (
      branch-Is ceil_log (n == 0) [] (tone_of n ∷ []) [] (add_pure_tone_block n 1)
        (nothing-Is ceil_log) (single-Is n h))

  initial-Is :
      (level : Option Bool)
      → Is ceil_log
          (set_signal_level (initial level) ∷ [])
          (add_set_signal_level_block (initial_level_byte level))
  unfolding tzx_read_block add_set_signal_level_block tzx_read_set_signal_level
  initial-Is (some level) = level-Is level
  initial-Is none =
      block-Is ceil_log 0x2b (set_signal_level true) (drop 1 (add_set_signal_level_block 0xff))
        (λ rest.
          rw (le→ltb (length (drop 1 (add_set_signal_level_block 0xff) ++ rest)) 5 (omega arith))
            refl)

  data_block-Stored :
      (all : List Block) (n : ℕ) (b : DataBlock)
      → IsStorable (data_block b)
      → Stored all n (data_block b)
  unfolding tzx_write_block tzx_write_data_block
  data_block-Stored all n b (pure, fits, short) =
      let level = add_set_signal_level_block (initial_level_byte b.initial_level) in
      let bits = tzx_write_data (pure_bits b) in
      let tail = tail_bytes b.tail_length in
      let behind =
        append-Begins (tzx_read_blocks ceil_log) (pure_data (pure_bits b) ∷ [])
          (tail_blocks b.tail_length) bits (tail ++ []) (pure_data-Is (pure_bits b) fits)
          (tail-Is b.tail_length short) in
      (
        level ++ (bits ++ (tail ++ [])),
        rw pure refl,
        append-Begins (tzx_read_blocks ceil_log) (set_signal_level (initial b.initial_level) ∷ [])
            (pure_data (pure_bits b) ∷ tail_blocks b.tail_length) level (bits ++ (tail ++ []))
            (initial-Is b.initial_level) behind,
      )

  one-Stored :
      (all : List Block) (n : ℕ) (b : Block) (id : ℕ) (body : List ℕ)
      → stored b ≡ b ∷ []
      → tzx_write_block states all n b ≡ some (ok (id ∷ body))
      → ((rest : List ℕ)
          → tzx_read_block ceil_log id (body ++ rest) ≡ some (a_block (ok (b, rest))))
      → Stored all n b
  one-Stored all n b id body s h r = (id ∷ body, h, rw s (block-Is ceil_log id b body r))

  found : {x y : Parse} → x ≡ y → ◌≡◌ {A = Option Found} (some (a_block x)) (some (a_block y))
  found e = ap (λ r. some (a_block r)) e

  pub block-Stored : (all : List Block) (n : ℕ) (b : Block) → IsStorable b → Stored all n b
  unfolding tzx_write_block tzx_read_block tzx_write_rom tzx_write_turbo add_pure_tone_block
      tzx_write_pulses tzx_write_data tzx_write_raw_data tzx_write_pause tzx_write_group_start
      tzx_write_jump tzx_write_loop_start tzx_write_stop add_set_signal_level_block
      tzx_write_comment tzx_write_message tzx_write_archive_info tzx_write_hardware tzx_write_custom
      tzx_write_pulse_sequence
  block-Stored all n (rom b) v =
      one-Stored all n (rom b) 0x10 (drop 1 (tzx_write_rom b)) refl refl
        (λ rest. found (read_rom_block-write_rom b rest v))
  block-Stored all n (turbo b) v =
      one-Stored all n (turbo b) 0x11 (drop 1 (tzx_write_turbo b)) refl refl
        (λ rest. found (read_turbo_block-write_turbo b rest v))
  block-Stored all n (pure_tone b) v =
      (add_pure_tone_block b.length b.pulses, refl, tone-Is ceil_log b (v.0) (v.1))
  block-Stored all n (pulses lengths) v =
      (tzx_write_pulses lengths, refl, pulses-Is ceil_log lengths (v.0) (v.1))
  block-Stored all n (pure_data b) v = (tzx_write_data b, refl, pure_data-Is b v)
  block-Stored all n (raw_data b) v =
      one-Stored all n (raw_data b) 0x15 (drop 1 (tzx_write_raw_data b)) refl refl
        (λ rest. found (read_raw_data-write_raw_data b rest v))
  block-Stored all n (pause_block ms tstates (some false)) v =
      one-Stored all n (pause_block ms tstates (some false)) 0x20
        (drop 1 (tzx_write_pause ms tstates (some false))) refl refl
        (λ rest. found (read_pause-write_pause ms tstates rest v))
  block-Stored all n (pause_block ms tstates (some true)) v = (
    tzx_write_pause ms tstates (some true),
    refl,
    append-Begins (tzx_read_blocks ceil_log) (set_signal_level true ∷ []) (tone_of tstates ∷ [])
        (add_set_signal_level_block 1) (add_pure_tone_block tstates 1) (level-Is true)
        (single-Is tstates v),
  )
  block-Stored all n (pause_block ms tstates none) v =
      (add_pure_tone_block tstates 1, refl, single-Is tstates v)
  block-Stored all n (jump offset) v =
      one-Stored all n (jump offset) 0x23 (drop 1 (tzx_write_jump offset)) refl (jump_number offset)
        (λ rest. found (read_jump-write_jump offset rest v))
  block-Stored all n (loop_start count) v =
      one-Stored all n (loop_start count) 0x24 (drop 1 (tzx_write_loop_start count)) refl refl
        (λ rest. found (read_loop_start-write_loop_start count rest v))
  block-Stored all n loop_end v = one-Stored all n loop_end 0x25 [] refl refl (λ rest. refl)
  block-Stored all n stop48 v =
      one-Stored all n stop48 0x2a (drop 1 tzx_write_stop) refl refl
        (λ rest. found (read_stop-write_stop rest))
  block-Stored all n (set_signal_level level) v =
      (add_set_signal_level_block (level_byte level), refl, level-Is level)
  block-Stored all n (group_start name) v =
      one-Stored all n (group_start name) 0x21 (drop 1 (tzx_write_group_start name)) refl refl
        (λ rest. found (read_group_start-write_group_start name rest v))
  block-Stored all n group_end v = one-Stored all n group_end 0x22 [] refl refl (λ rest. refl)
  block-Stored all n (comment text) v =
      one-Stored all n (comment text) 0x30 (drop 1 (tzx_write_comment text)) refl refl
        (λ rest. found (read_comment-write_comment text rest v))
  block-Stored all n (message ms tstates text) v = (
    tzx_write_message ms text,
    refl,
    let set = of_ms (ms * 1000) in
        block-Is ceil_log 0x31 (message set.pause set.pause_tstates text)
          (drop 1 (tzx_write_message ms text))
          (λ rest. found (read_message-write_message ms text rest (v.0) (v.1))),
  )
  block-Stored all n (archive_info strings) v =
      one-Stored all n (archive_info strings) 0x32 (drop 1 (tzx_write_archive_info strings)) refl
        refl (λ rest. found (read_archive_info-write_archive_info strings rest (v.0) (v.1)))
  block-Stored all n (hardware entries) v =
      one-Stored all n (hardware entries) 0x33 (drop 1 (tzx_write_hardware entries)) refl refl
        (λ rest. found (read_hardware-write_hardware entries rest (v.0) (v.1)))
  block-Stored all n (custom name bytes) v =
      one-Stored all n (custom name bytes) 0x35 (drop 1 (tzx_write_custom name bytes)) refl refl
        (λ rest. found (read_custom-write_custom name bytes rest (v.0) (v.1)))
  block-Stored all n (pulse_sequence b) (ws, rs, short) = (
    tzx_write_pulse_sequence b,
    refl,
    append-Begins (tzx_read_blocks ceil_log) (set_signal_level false ∷ [])
        (sequence_blocks [] b.lengths b.pulse_repeats) (add_set_signal_level_block 0)
        (sequence_bytes [] b.lengths b.pulse_repeats) (level-Is false)
        (sequence-Is ceil_log [] b.lengths b.pulse_repeats tt ws rs (omega arith)),
  )
  block-Stored all n (data_block b) v = data_block-Stored all n b v
  block-Stored all n (generalised_data b) v = absurd v
  block-Stored all n (select choices) v = absurd v
  block-Stored all n (rle_pulse b) v = absurd v
  block-Stored all n concat v = absurd v
