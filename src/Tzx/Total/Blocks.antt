-- ===== src/Tzx/Total/Blocks.antt =====
-- The reader of each kind of block leaves the end of its bytes.
use libspectrum.Base.{ℕ, suc, ◌*◌, refl, ltb}
use libspectrum.Base.{List, [], ◌∷◌, length, drop, get_or}
use libspectrum.Tzx.Fields.{word_at, tzx_read_data, tzx_read_string}
use libspectrum.Tzx.Read.{
  read_selections, read_strings, tzx_read_rom_block, tzx_read_turbo_block, tzx_read_pure_tone,
  tzx_read_pulses_block, tzx_read_pure_data, tzx_read_raw_data, tzx_read_pause,
  tzx_read_group_start, tzx_read_jump, tzx_read_loop_start, tzx_read_select, tzx_read_stop,
  tzx_read_set_signal_level, tzx_read_comment, tzx_read_message, tzx_read_archive_info,
  tzx_read_hardware, tzx_read_custom,
}
use libspectrum.Tzx.Total.Leaves.{
  Left, Leaves, branch-Leaves, chain-Leaves, read_data-Leaves, read_string-Leaves,
  read_selections-Leaves, read_strings-Leaves,
}

module _ (buffer : List ℕ) where
  from : (n : ℕ) → Left buffer (drop n buffer)
  from n = (n, refl)

  pub read_rom_block-Leaves : Leaves buffer (tzx_read_rom_block buffer)
  unfolding tzx_read_rom_block
  read_rom_block-Leaves = branch-Leaves (ltb (length buffer) 4) buffer _ _ tt (
      chain-Leaves buffer (tzx_read_data 2 (drop 2 buffer)) _
        (read_data-Leaves 2 buffer (drop 2 buffer) (from 2)) (λ bytes rest k. k))

  pub read_turbo_block-Leaves : Leaves buffer (tzx_read_turbo_block buffer)
  unfolding tzx_read_turbo_block
  read_turbo_block-Leaves = branch-Leaves (ltb (length buffer) 18) buffer _ _ tt (
      chain-Leaves buffer (tzx_read_data 3 (drop 15 buffer)) _
        (read_data-Leaves 3 buffer (drop 15 buffer) (from 15)) (λ bytes rest k. k))

  pub read_pure_data-Leaves : Leaves buffer (tzx_read_pure_data buffer)
  unfolding tzx_read_pure_data
  read_pure_data-Leaves = branch-Leaves (ltb (length buffer) 10) buffer _ _ tt (
      chain-Leaves buffer (tzx_read_data 3 (drop 7 buffer)) _
        (read_data-Leaves 3 buffer (drop 7 buffer) (from 7)) (λ bytes rest k. k))

  pub read_raw_data-Leaves : Leaves buffer (tzx_read_raw_data buffer)
  unfolding tzx_read_raw_data
  read_raw_data-Leaves = branch-Leaves (ltb (length buffer) 8) buffer _ _ tt (
      chain-Leaves buffer (tzx_read_data 3 (drop 5 buffer)) _
        (read_data-Leaves 3 buffer (drop 5 buffer) (from 5)) (λ bytes rest k. k))

  pub read_pure_tone-Leaves : Leaves buffer (tzx_read_pure_tone buffer)
  unfolding tzx_read_pure_tone
  read_pure_tone-Leaves = branch-Leaves (ltb (length buffer) 4) buffer _ _ tt (from 4)

  pub read_pause-Leaves : Leaves buffer (tzx_read_pause buffer)
  unfolding tzx_read_pause
  read_pause-Leaves = branch-Leaves (ltb (length buffer) 2) buffer _ _ tt (from 2)

  pub read_jump-Leaves : Leaves buffer (tzx_read_jump buffer)
  unfolding tzx_read_jump
  read_jump-Leaves = branch-Leaves (ltb (length buffer) 2) buffer _ _ tt (from 2)

  pub read_loop_start-Leaves : Leaves buffer (tzx_read_loop_start buffer)
  unfolding tzx_read_loop_start
  read_loop_start-Leaves = branch-Leaves (ltb (length buffer) 2) buffer _ _ tt (from 2)

  pub read_stop-Leaves : Leaves buffer (tzx_read_stop buffer)
  unfolding tzx_read_stop
  read_stop-Leaves = branch-Leaves (ltb (length buffer) 4) buffer _ _ tt (from 4)

  pub read_set_signal_level-Leaves : Leaves buffer (tzx_read_set_signal_level buffer)
  unfolding tzx_read_set_signal_level
  read_set_signal_level-Leaves = branch-Leaves (ltb (length buffer) 5) buffer _ _ tt (from 5)

  pub read_group_start-Leaves : Leaves buffer (tzx_read_group_start buffer)
  unfolding tzx_read_group_start
  read_group_start-Leaves = branch-Leaves (ltb (length buffer) 1) buffer _ _ tt (
      chain-Leaves buffer (tzx_read_string buffer) _ (read_string-Leaves buffer buffer (from 0))
        (λ x rest k. k))

  pub read_comment-Leaves : Leaves buffer (tzx_read_comment buffer)
  unfolding tzx_read_comment
  read_comment-Leaves = branch-Leaves (ltb (length buffer) 1) buffer _ _ tt (
      chain-Leaves buffer (tzx_read_string buffer) _ (read_string-Leaves buffer buffer (from 0))
        (λ x rest k. k))

  pub read_message-Leaves : Leaves buffer (tzx_read_message buffer)
  unfolding tzx_read_message
  read_message-Leaves = branch-Leaves (ltb (length buffer) 2) buffer _ _ tt (
      chain-Leaves buffer (tzx_read_string (drop 1 buffer)) _
        (read_string-Leaves buffer (drop 1 buffer) (from 1)) (λ x rest k. k))

  pub read_archive_info-Leaves : Leaves buffer (tzx_read_archive_info buffer)
  unfolding tzx_read_archive_info
  read_archive_info-Leaves = branch-Leaves (ltb (length buffer) 3) buffer _ _ tt (
      chain-Leaves buffer (read_strings (get_or buffer 2 0) (drop 3 buffer)) _
        (read_strings-Leaves (get_or buffer 2 0) buffer (drop 3 buffer) (from 3)) (λ x rest k. k))

  pub read_custom-Leaves : Leaves buffer (tzx_read_custom buffer)
  unfolding tzx_read_custom
  read_custom-Leaves = branch-Leaves (ltb (length buffer) 20) buffer _ _ tt (
      chain-Leaves buffer (tzx_read_data 4 (drop 16 buffer)) _
        (read_data-Leaves 4 buffer (drop 16 buffer) (from 16)) (λ x rest k. k))

  pub read_select-Leaves : Leaves buffer (tzx_read_select buffer)
  unfolding tzx_read_select
  read_select-Leaves = branch-Leaves (ltb (length buffer) 3) buffer _ _ tt (
      branch-Leaves (ltb (length (drop 2 buffer)) (word_at buffer 0)) buffer _ _ tt (
        chain-Leaves buffer (read_selections (get_or buffer 2 0) (drop 3 buffer)) _
          (read_selections-Leaves (get_or buffer 2 0) buffer (drop 3 buffer) (from 3))
          (λ x rest k. k)))

pub read_pulses_block-Leaves : (buffer : List ℕ) → Leaves buffer (tzx_read_pulses_block buffer)
unfolding tzx_read_pulses_block
read_pulses_block-Leaves [] = tt
read_pulses_block-Leaves (count ∷ buffer) =
    branch-Leaves (ltb (length buffer) (2 * count)) (count ∷ buffer) _ _ tt (suc (2 * count), refl)

pub read_hardware-Leaves : (buffer : List ℕ) → Leaves buffer (tzx_read_hardware buffer)
unfolding tzx_read_hardware
read_hardware-Leaves [] = tt
read_hardware-Leaves (count ∷ buffer) =
    branch-Leaves (ltb (length buffer) (3 * count)) (count ∷ buffer) _ _ tt (suc (3 * count), refl)
