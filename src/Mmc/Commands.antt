-- ===== src/Mmc/Commands.antt =====
-- The commands of a card: the functions of mmc.c from `parse_command` to `do_command_data`.
-- Messages printed on an unknown command are left out.
use libspectrum.Base.{ℕ, zero, suc, ◌+◌, ◌-◌, ◌/◌, ◌%◌, ◌==◌, Bool, true, false, not, ◌&&◌, ◌||◌}
use libspectrum.Base.{ltb, leb, if◌then◌else◌, List, [], ◌∷◌, ◌++◌, Option, none, some, replicate}
use libspectrum.Base.{bit_and, bit_or}
use libspectrum.Base.Memory.{memcpy}
use libspectrum.Hdf.{Host, Drive, read_sector, write_sector}
use libspectrum.Mmc.State.{Card, erase_none, erase_start, erase_end}
use libspectrum.Mmc.State.{argument, is_idle, respond}
use libspectrum.Mmc.State.{in_idle_state_mask, erase_reset_mask, illegal_command_mask}
use libspectrum.Mmc.State.{erase_seq_error_mask, parameter_error_mask}

module _ {host : Host} where
  unfoldable pub set_response_buffer_r1 : Card host → Card host
  set_response_buffer_r1 card = respond card (card.r1_status ∷ [])

  unfoldable pub set_response_buffer_r7 : Card host → ℕ → Card host
  set_response_buffer_r7 card value = respond card (
      card.r1_status
      ∷ value / 0x1000000 % 0x100
      ∷ value / 0x10000 % 0x100
      ∷ value / 0x100 % 0x100
      ∷ value % 0x100
      ∷ [])

  unfoldable pub reset_erase_sequence : Card host → Card host
  reset_erase_sequence card = record card {
    erase_sequence = erase_none;
    erase_block_start = 0;
    erase_block_end = 0;
  }

  -- `card->r1_status |= mask; set_response_buffer_r1( card )`
  unfoldable pub fail_with : Card host → ℕ → Card host
  unfolding set_response_buffer_r1
  fail_with card mask =
      set_response_buffer_r1 (record card { r1_status = bit_or card.r1_status mask })

  unfoldable pub erase_wr_blk_start : Card host → Card host
  unfolding fail_with reset_erase_sequence is_idle
  erase_wr_blk_start card =
      let card' = record card { erase_block_start = argument card } in
      if is_idle card then fail_with card illegal_command_mask else elim card.erase_sequence [
        | erase_none ↦
            if leb card.total_sectors (argument card)
            then reset_erase_sequence (fail_with card' parameter_error_mask)
            else record (set_response_buffer_r1 card') { erase_sequence = erase_start }
        | _ ↦ reset_erase_sequence (fail_with card erase_seq_error_mask)
      ]

  unfoldable pub erase_wr_blk_end : Card host → Card host
  unfolding fail_with reset_erase_sequence is_idle
  erase_wr_blk_end card =
      let card' = record card { erase_block_end = argument card } in
      if is_idle card then fail_with card illegal_command_mask else elim card.erase_sequence [
        | erase_start ↦
            if leb card.total_sectors (argument card) || ltb (argument card) card.erase_block_start
            then reset_erase_sequence (fail_with card' parameter_error_mask)
            else record (set_response_buffer_r1 card') { erase_sequence = erase_end }
        | _ ↦ reset_erase_sequence (fail_with card erase_seq_error_mask)
      ]

  -- The loop from sector `i` over `n` sectors.
  unfoldable pub erase_sectors : Drive host → host.Table → ℕ → ℕ → List ℕ → host.Table
  erase_sectors drive cache i zero bytes = cache
  erase_sectors drive cache i (suc n) bytes =
      erase_sectors drive (write_sector host drive cache i bytes) (i + 1) n bytes

  unfoldable pub erase : Card host → Card host
  unfolding fail_with reset_erase_sequence is_idle erase_sectors
  erase card =
      let zeros = replicate 512 0 in
      let n = card.erase_block_end + 1 - card.erase_block_start in
      let cache' = erase_sectors card.drive card.cache card.erase_block_start n zeros in
      if is_idle card then fail_with card illegal_command_mask else elim card.erase_sequence [
        | erase_end ↦ reset_erase_sequence (
            respond (record card { send_buffer = zeros; cache = cache' })
              (card.r1_status ∷ 0x01 ∷ []))
        | _ ↦ reset_erase_sequence (fail_with card erase_seq_error_mask)
      ]

  -- The response to a read that has or has not found the sector.
  unfoldable pub sector_response : Card host → Option (List ℕ) → Card host
  sector_response card none = respond card (card.r1_status ∷ 0x01 ∷ [])
  sector_response card (some bytes) = record card {
    response_buffer =
        memcpy (memcpy card.response_buffer 0 (card.r1_status ∷ 0xfe ∷ bytes)) 514 (0 ∷ 0 ∷ []);
    response_next = 0;
    response_end = 516;
  }

  unfoldable pub read_single_block : Card host → Card host
  unfolding fail_with is_idle
  read_single_block card =
      if is_idle card
      then fail_with card illegal_command_mask
      else if leb card.total_sectors (argument card)
      then fail_with card parameter_error_mask
      else sector_response card (read_sector host card.drive card.cache (argument card))

  unfoldable pub send_csd : Card host → Card host
  unfolding fail_with is_idle
  send_csd card =
      let csd : List ℕ =
        0x40
        ∷ 0
        ∷ 0
        ∷ 0
        ∷ 0x5b
        ∷ bit_or 0x05 0x09
        ∷ 0
        ∷ 0
        ∷ card.c_size / 0x100 % 0x100
        ∷ card.c_size % 0x100
        ∷ bit_or 0x40 0x3f
        ∷ 0x80
        ∷ 0x10
        ∷ 0x01
        ∷ 0
        ∷ 0x01
        ∷ [] in
      if is_idle card
      then fail_with card illegal_command_mask
      else respond card (card.r1_status ∷ 0xfe ∷ csd ++ (0 ∷ 0 ∷ []))

  unfoldable pub send_cid : Card host → Card host
  unfolding fail_with is_idle
  send_cid card =
      let cid : List ℕ =
        0 ∷ b' ' ∷ b' ' ∷ b'F' ∷ b'u' ∷ b's' ∷ b'e' ∷ 0 ∷ 0 ∷ 0 ∷ 0 ∷ 0 ∷ 0 ∷ 0 ∷ 0 ∷ 0x01 ∷ [] in
      if is_idle card
      then fail_with card illegal_command_mask
      else respond card (card.r1_status ∷ 0xfe ∷ cid ++ (0 ∷ 0 ∷ []))

  -- The card after an application command, and whether the command was one.
  unfoldable pub do_application_command : Card host → Card host × Bool
  unfolding fail_with set_response_buffer_r1
  do_application_command card =
      let c = card.current_command in
      if c == 13 || (c == 22 || (c == 23 || (c == 42 || c == 51)))
      then (fail_with card illegal_command_mask, true)
      else if c == 41
      then (
        set_response_buffer_r1 (
            if card.cmd8_issued && not (bit_and card.argument0 0x40 == 0)
            then record card { r1_status = bit_and card.r1_status 0xfe }
            else card),
        true,
      )
      else (card, false)

  unfoldable pub do_standard_command : Card host → Card host
  unfolding set_response_buffer_r1 set_response_buffer_r7 send_csd send_cid read_single_block
      erase_wr_blk_start erase_wr_blk_end erase fail_with
  do_standard_command card =
      let c = card.current_command in
      if c == 0
      then set_response_buffer_r1 (record card {
        r1_status = bit_or card.r1_status in_idle_state_mask;
        cmd8_issued = false;
      })
      else if c == 8
      then set_response_buffer_r7 (record card { cmd8_issued = true }) (bit_or 0x100 card.argument3)
      else if c == 9
      then send_csd card
      else if c == 10
      then send_cid card
      else if c == 17
      then read_single_block card
      else if c == 24
      then set_response_buffer_r1 card
      else if c == 32
      then erase_wr_blk_start card
      else if c == 33
      then erase_wr_blk_end card
      else if c == 38
      then erase card
      else if c == 55
      then set_response_buffer_r1 (record card { cmd55_issued = true })
      else if c == 58
      then set_response_buffer_r7 card 0xc0000000
      else fail_with card illegal_command_mask

  -- A command out of an erase sequence ends the sequence.
  unfoldable pub leave_erase_sequence : Card host → Card host
  unfolding reset_erase_sequence
  leave_erase_sequence card =
      let c = card.current_command in
      let left = record (reset_erase_sequence card) {
        r1_status = bit_or card.r1_status erase_reset_mask;
      } in
      elim card.erase_sequence [
        | erase_none ↦ card
        | _ ↦ if c == 32 || (c == 33 || c == 38) then card else left
      ]

  unfoldable pub do_command : Card host → Card host
  unfolding do_application_command leave_erase_sequence do_standard_command
  do_command card =
      let (card', done) = do_application_command (record card { cmd55_issued = false }) in
      if card.cmd55_issued
      then if done then card' else do_standard_command (leave_erase_sequence card')
      else do_standard_command (leave_erase_sequence card)

  unfoldable pub write_single_block : Card host → Card host
  unfolding fail_with is_idle
  write_single_block card =
      if is_idle card
      then fail_with card illegal_command_mask
      else if leb card.total_sectors (argument card)
      then fail_with card parameter_error_mask
      else respond
          (record card {
            cache = write_sector host card.drive card.cache (argument card) card.send_buffer;
          })
          (0x05 ∷ 0x01 ∷ [])

  unfoldable pub do_command_data : Card host → Card host
  unfolding write_single_block
  do_command_data card = if card.current_command == 24 then write_single_block card else card
