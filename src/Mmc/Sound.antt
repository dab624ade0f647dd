-- ===== src/Mmc/Sound.antt =====
-- What every command of a card keeps: the sizes of its buffers, and the sectors of an erase
-- sequence on the card.
use libspectrum.Base.{ℕ, zero, ◌≤◌, ◌≡◌, ◌∙◌, arith, Bool, true, false}
use libspectrum.Base.{List, [], ◌∷◌, Option, none, some, length}
use libspectrum.Base.{bit_and, bit_or, ltb, leb, ◌&&◌, ◌==◌, if◌then◌else◌, length-replicate}
use libspectrum.Base.Memory.{memcpy, length-memcpy}
use libspectrum.Hdf.{Host}
use libspectrum.Mmc.State.{Card, EraseSequence, erase_none, erase_start, erase_end}
use libspectrum.Mmc.State.{is_idle, argument, respond}
use libspectrum.Mmc.State.{illegal_command_mask}
use libspectrum.Mmc.State.{erase_seq_error_mask, parameter_error_mask}
use libspectrum.Mmc.Commands.{
  erase_wr_blk_end, erase, read_single_block, sector_response, send_csd, send_cid,
}
use libspectrum.Mmc.Commands.{do_command, do_command_data, do_application_command}
use libspectrum.Mmc.Commands.{
  do_standard_command, leave_erase_sequence, fail_with, erase_wr_blk_start,
}

-- The sectors that an erase sequence has been told lie on the card, in order.
abbrev pub sequence_fits : EraseSequence → ℕ → ℕ → ℕ → Bool
sequence_fits erase_none start end total = true
sequence_fits erase_start start end total = ltb start total
sequence_fits erase_end start end total = leb start end && ltb end total

module _ {host : Host} where
  -- What holds while a command runs: its error bits are still in the status.
  pub record Sound (card : Card host) : Type 0 where
    pub send_size : length card.send_buffer ≡ 512
    pub response_size : length card.response_buffer ≡ 516
    pub response_fits : card.response_end ≤ 516
    pub response_order : card.response_next ≤ card.response_end
    pub sequence :
        sequence_fits card.erase_sequence card.erase_block_start card.erase_block_end
          card.total_sectors
        ≡ true

  if-Sound : (b : Bool) (x y : Card host) → Sound x → Sound y → Sound (if b then x else y)
  if-Sound true x y h k = h
  if-Sound false x y h k = k

  respond-Sound :
      (card : Card host) (bytes : List ℕ)
      → Sound card
      → length bytes ≤ 516
      → Sound (respond card bytes)
  unfolding respond
  respond-Sound card bytes s h = record {
    send_size = s.send_size;
    response_size = length-memcpy card.response_buffer 0 bytes ∙ s.response_size;
    response_fits = h;
    response_order = omega arith;
    sequence = s.sequence;
  }

  -- A change of the status and of the flags keeps what holds.
  fail_with-Sound : (card : Card host) (mask : ℕ) → Sound card → Sound (fail_with card mask)
  unfolding fail_with
  fail_with-Sound card mask s = respond-Sound _ _ (same s) (omega arith)
    where
      same : Sound card → Sound (record card { r1_status = bit_or card.r1_status mask })
      same s = record {
        send_size = s.send_size;
        response_size = s.response_size;
        response_fits = s.response_fits;
        response_order = s.response_order;
        sequence = s.sequence;
      }

  -- The response buffer keeps its size, whichever response is stored.
  abbrev SameSize : Card host → List ℕ → Type 0
  SameSize card bytes = length (memcpy card.response_buffer 0 bytes) ≡ length card.response_buffer

  size_kept : (card : Card host) (bytes : List ℕ) → SameSize card bytes
  size_kept card bytes = length-memcpy card.response_buffer 0 bytes

  size_kept_status : (card : Card host) (mask : ℕ) → SameSize card (bit_or card.r1_status mask ∷ [])
  size_kept_status card mask = size_kept card (bit_or card.r1_status mask ∷ [])

  erase_wr_blk_start-Sound : (card : Card host) → Sound card → Sound (erase_wr_blk_start card)
  unfolding erase_wr_blk_start respond
  erase_wr_blk_start-Sound card s = ground (
    arith,
    size_kept card (card.r1_status ∷ []),
    size_kept_status card illegal_command_mask,
    size_kept_status card erase_seq_error_mask,
    size_kept_status card parameter_error_mask,
  )

  erase_wr_blk_end-Sound : (card : Card host) → Sound card → Sound (erase_wr_blk_end card)
  unfolding erase_wr_blk_end respond
  erase_wr_blk_end-Sound card s = ground (
    arith,
    size_kept card (card.r1_status ∷ []),
    size_kept_status card illegal_command_mask,
    size_kept_status card erase_seq_error_mask,
    size_kept_status card parameter_error_mask,
  )

  erase-Sound : (card : Card host) → Sound card → Sound (erase card)
  unfolding erase respond
  erase-Sound card s = ground (
    arith,
    size_kept card (card.r1_status ∷ 0x01 ∷ []),
    size_kept_status card illegal_command_mask,
    size_kept_status card erase_seq_error_mask,
    length-replicate {0} 512 zero,
  )

  sector_response-Sound :
      (card : Card host) (sector : Option (List ℕ))
      → Sound card
      → Sound (sector_response card sector)
  unfolding sector_response
  sector_response-Sound card none s = respond-Sound card _ s (omega arith)
  sector_response-Sound card (some bytes) s =
      let front = memcpy card.response_buffer 0 (card.r1_status ∷ 0xfe ∷ bytes) in
      record {
        send_size = s.send_size;
        response_size =
            length-memcpy front 514 (0 ∷ 0 ∷ [])
            ∙ length-memcpy card.response_buffer 0 _
            ∙ s.response_size;
        response_fits = omega arith;
        response_order = omega arith;
        sequence = s.sequence;
      }

  read_single_block-Sound : (card : Card host) → Sound card → Sound (read_single_block card)
  unfolding read_single_block
  read_single_block-Sound card s =
      if-Sound (is_idle card) _ _ (fail_with-Sound card illegal_command_mask s) (
        if-Sound (leb card.total_sectors (argument card)) _ _
          (fail_with-Sound card parameter_error_mask s) (sector_response-Sound card _ s))

  send_csd-Sound : (card : Card host) → Sound card → Sound (send_csd card)
  unfolding send_csd
  send_csd-Sound card s =
      if-Sound (is_idle card) _ _ (fail_with-Sound card illegal_command_mask s)
        (respond-Sound card _ s (omega arith))

  send_cid-Sound : (card : Card host) → Sound card → Sound (send_cid card)
  unfolding send_cid
  send_cid-Sound card s =
      if-Sound (is_idle card) _ _ (fail_with-Sound card illegal_command_mask s)
        (respond-Sound card _ s (omega arith))

  do_application_command-Sound :
      (card : Card host) → Sound card → Sound (do_application_command card).0
  unfolding do_application_command respond
  do_application_command-Sound card s = ground (
    arith,
    size_kept card (card.r1_status ∷ []),
    size_kept card (bit_and card.r1_status 0xfe ∷ []),
    size_kept_status card illegal_command_mask,
  )

  leave_erase_sequence-Sound : (card : Card host) → Sound card → Sound (leave_erase_sequence card)
  unfolding leave_erase_sequence
  leave_erase_sequence-Sound card s = ground arith

  -- A response after a change of the status and the flags.
  answer-Sound :
      (card : Card host) (status : ℕ) (cmd8 cmd55 : Bool) (bytes : List ℕ)
      → Sound card
      → length bytes ≤ 516
      → Sound (
          respond
            (record card { r1_status = status; cmd8_issued = cmd8; cmd55_issued = cmd55 })
            bytes)
  answer-Sound card status cmd8 cmd55 bytes s h = respond-Sound _ bytes (same s) h
    where
      same :
          Sound card
          → Sound (record card { r1_status = status; cmd8_issued = cmd8; cmd55_issued = cmd55 })
      same s = record {
        send_size = s.send_size;
        response_size = s.response_size;
        response_fits = s.response_fits;
        response_order = s.response_order;
        sequence = s.sequence;
      }

  -- One test in the chain of commands at a time.
  do_standard_command-Sound : (card : Card host) → Sound card → Sound (do_standard_command card)
  unfolding do_standard_command
  do_standard_command-Sound card s =
      let flags = answer-Sound card in
      if-Sound (card.current_command == 0) _ _ (flags _ false card.cmd55_issued _ s (omega arith)) (
        if-Sound (card.current_command == 8) _ _
          (flags card.r1_status true card.cmd55_issued _ s (omega arith))
          (if-Sound (card.current_command == 9) _ _ (send_csd-Sound card s) (
            if-Sound (card.current_command == 10) _ _ (send_cid-Sound card s) (
              if-Sound (card.current_command == 17) _ _ (read_single_block-Sound card s) (
                if-Sound (card.current_command == 24) _ _ (respond-Sound card _ s (omega arith)) (
                  if-Sound (card.current_command == 32) _ _ (erase_wr_blk_start-Sound card s) (
                    if-Sound (card.current_command == 33) _ _ (erase_wr_blk_end-Sound card s) (
                      if-Sound (card.current_command == 38) _ _ (erase-Sound card s) (
                        if-Sound (card.current_command == 55) _ _
                          (flags card.r1_status card.cmd8_issued true _ s (omega arith))
                          (if-Sound (card.current_command == 58) _ _
                            (respond-Sound card _ s (omega arith))
                            (fail_with-Sound card illegal_command_mask s)))))))))))

  pub do_command-Sound : (card : Card host) → Sound card → Sound (do_command card)
  unfolding do_command
  do_command-Sound card s =
      let plain = record card { cmd55_issued = false } in
      let s' : Sound plain = flag s in
      let (card', done) = do_application_command plain in
      let a : Sound card' = do_application_command-Sound plain s' in
      if-Sound card.cmd55_issued _ _
        (if-Sound done _ _ a (do_standard_command-Sound _ (leave_erase_sequence-Sound card' a)))
        (do_standard_command-Sound _ (leave_erase_sequence-Sound card s))
    where
      flag : Sound card → Sound (record card { cmd55_issued = false })
      flag s = record {
        send_size = s.send_size;
        response_size = s.response_size;
        response_fits = s.response_fits;
        response_order = s.response_order;
        sequence = s.sequence;
      }

  pub do_command_data-Sound : (card : Card host) → Sound card → Sound (do_command_data card)
  unfolding do_command_data respond
  do_command_data-Sound card s = ground (
    arith,
    size_kept card (0x05 ∷ 0x01 ∷ []),
    size_kept_status card illegal_command_mask,
    size_kept_status card parameter_error_mask,
  )
