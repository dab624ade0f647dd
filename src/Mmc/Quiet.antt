-- ===== src/Mmc/Quiet.antt =====
-- What the commands of a card keep of its idle bit, and of its cache while the bit is set.
use libspectrum.Base.{ℕ, ◌%◌, ◌≡◌, refl, arith}
use libspectrum.Base.{Bool, true, false, ◌==◌, leb, if◌then◌else◌}
use libspectrum.Base.{List, Option, none, some, bit_or, max}
use libspectrum.Base.Bits.{bit_and-one, bit_or_low}
use libspectrum.Hdf.{Host}
use libspectrum.Mmc.State.{Card}
use libspectrum.Mmc.State.{is_idle, argument, respond}
use libspectrum.Mmc.State.{erase_reset_mask, illegal_command_mask}
use libspectrum.Mmc.State.{erase_seq_error_mask, parameter_error_mask}
use libspectrum.Mmc.Commands.{erase_wr_blk_end, erase, read_single_block, sector_response}
use libspectrum.Mmc.Commands.{send_csd, send_cid, do_command_data}
use libspectrum.Mmc.Commands.{do_standard_command, leave_erase_sequence}
use libspectrum.Mmc.Commands.{fail_with, erase_wr_blk_start}

module _ {host : Host} where
  -- A step that keeps the idle bit, and the cache while the bit is set.
  abbrev Quiet : Card host → Card host → Type 0
  Quiet c c' = (c'.r1_status % 2 ≡ c.r1_status % 2) × (c.r1_status % 2 ≡ 1 → c'.cache ≡ c.cache)

  is_idle_low : (card : Card host) → is_idle card ≡ (card.r1_status % 2 == 1)
  unfolding is_idle
  is_idle_low card = ground (arith, bit_and-one card.r1_status)

  if-Quiet :
      (c : Card host) (b : Bool) (x y : Card host)
      → Quiet c x
      → Quiet c y
      → Quiet c (if b then x else y)
  if-Quiet c true x y h k = h
  if-Quiet c false x y h k = k

  otherwise :
      (c : Card host) (b : Bool) (x y : Card host)
      → b ≡ false
      → Quiet c y
      → Quiet c (if b then x else y)
  otherwise c true x y h k = absurd (ground arith)
  otherwise c false x y h k = k

  -- The idle bit after other bits are set.
  pub low :
      (card : Card host) (mask : ℕ)
      → bit_or card.r1_status mask % 2 ≡ max (card.r1_status % 2) (mask % 2)
  low card mask = bit_or_low card.r1_status mask

  fail_with-Quiet : (card : Card host) (mask : ℕ) → mask % 2 ≡ 0 → Quiet card (fail_with card mask)
  unfolding fail_with respond
  fail_with-Quiet card mask h = (omega (arith, bit_or_low card.r1_status mask), λ _. refl)

  erase_wr_blk_start-Quiet : (card : Card host) → Quiet card (erase_wr_blk_start card)
  unfolding erase_wr_blk_start respond
  erase_wr_blk_start-Quiet card = ground (
    arith,
    low card illegal_command_mask,
    low card erase_seq_error_mask,
    low card parameter_error_mask,
  )

  erase_wr_blk_end-Quiet : (card : Card host) → Quiet card (erase_wr_blk_end card)
  unfolding erase_wr_blk_end respond
  erase_wr_blk_end-Quiet card = ground (
    arith,
    low card illegal_command_mask,
    low card erase_seq_error_mask,
    low card parameter_error_mask,
  )

  erase-Quiet : (card : Card host) → Quiet card (erase card)
  unfolding erase respond is_idle
  erase-Quiet card =
      ground (arith, low card illegal_command_mask, low card erase_seq_error_mask, is_idle_low card)

  sector_response-Quiet :
      (card : Card host) (sector : Option (List ℕ)) → Quiet card (sector_response card sector)
  unfolding sector_response respond
  sector_response-Quiet card none = (refl, λ _. refl)
  sector_response-Quiet card (some bytes) = (refl, λ _. refl)

  read_single_block-Quiet : (card : Card host) → Quiet card (read_single_block card)
  unfolding read_single_block
  read_single_block-Quiet card =
      if-Quiet card (is_idle card) _ _ (fail_with-Quiet card illegal_command_mask refl) (
        if-Quiet card (leb card.total_sectors (argument card)) _ _
          (fail_with-Quiet card parameter_error_mask refl) (sector_response-Quiet card _))

  send_csd-Quiet : (card : Card host) → Quiet card (send_csd card)
  unfolding send_csd respond
  send_csd-Quiet card =
      if-Quiet card (is_idle card) _ _ (fail_with-Quiet card illegal_command_mask refl)
        (refl, λ _. refl)

  send_cid-Quiet : (card : Card host) → Quiet card (send_cid card)
  unfolding send_cid respond
  send_cid-Quiet card =
      if-Quiet card (is_idle card) _ _ (fail_with-Quiet card illegal_command_mask refl)
        (refl, λ _. refl)

  pub leave_erase_sequence-Quiet : (card : Card host) → Quiet card (leave_erase_sequence card)
  unfolding leave_erase_sequence
  leave_erase_sequence-Quiet card = ground (arith, low card erase_reset_mask)

  pub do_command_data-Quiet : (card : Card host) → Quiet card (do_command_data card)
  unfolding do_command_data respond is_idle
  do_command_data-Quiet card =
      ground (arith, low card illegal_command_mask, low card parameter_error_mask, is_idle_low card)

  -- Every standard command but the first.
  pub do_standard_command-Quiet :
      (card : Card host)
      → (card.current_command == 0) ≡ false
      → Quiet card (do_standard_command card)
  unfolding do_standard_command respond
  do_standard_command-Quiet card h = otherwise card (card.current_command == 0) _ _ h (
      if-Quiet card (card.current_command == 8) _ _ (refl, λ _. refl)
        (if-Quiet card (card.current_command == 9) _ _ (send_csd-Quiet card) (
          if-Quiet card (card.current_command == 10) _ _ (send_cid-Quiet card) (
            if-Quiet card (card.current_command == 17) _ _ (read_single_block-Quiet card) (
              if-Quiet card (card.current_command == 24) _ _ (refl, λ _. refl)
                (if-Quiet card (card.current_command == 32) _ _ (erase_wr_blk_start-Quiet card) (
                  if-Quiet card (card.current_command == 33) _ _ (erase_wr_blk_end-Quiet card) (
                    if-Quiet card (card.current_command == 38) _ _ (erase-Quiet card) (
                      if-Quiet card (card.current_command == 55) _ _ (refl, λ _. refl)
                        (if-Quiet card (card.current_command == 58) _ _ (refl, λ _. refl)
                          (fail_with-Quiet card illegal_command_mask refl)))))))))))
