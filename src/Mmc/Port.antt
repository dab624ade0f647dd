-- ===== src/Mmc/Port.antt =====
-- The port of a card: `libspectrum_mmc_write`, `libspectrum_mmc_read`, and the card in and out.
use libspectrum.Base.{ℕ, ◌+◌, ◌*◌, ◌/◌, ◌%◌, ◌==◌, not, ◌||◌, ltb, leb}
use libspectrum.Base.{if◌then◌else◌, List, [], ◌∷◌, Option, none, some, set, get_or, bit_and}
use libspectrum.Base.{unknown, Result, ok, err}
use libspectrum.Bytes.{dword}
use libspectrum.Hdf.{Host, Drive}
use libspectrum.Mmc.State.{Card, CommandState, reset, in_idle_state_mask}
use libspectrum.Mmc.State.{waiting_for_command, waiting_for_data0, waiting_for_data1}
use libspectrum.Mmc.State.{waiting_for_data2, waiting_for_data3, waiting_for_crc}
use libspectrum.Mmc.State.{waiting_for_data_token, waiting_for_data, waiting_for_data_crc1}
use libspectrum.Mmc.State.{waiting_for_data_crc2}
use libspectrum.Mmc.Commands.{do_command, do_command_data}

-- `none` where `parse_command` keeps the state, else the command.
unfoldable pub parse_command : ℕ → Option ℕ
parse_command b = if bit_and b 0xc0 == 0x40 then some (bit_and b 0x3f) else none

module _ {host : Host} where
  -- The end of a command: its error flags go, and a write waits for its data.
  unfoldable pub end_command : Card host → Card host
  end_command card = record card {
    r1_status = bit_and card.r1_status in_idle_state_mask;
    command_state =
        if card.current_command == 24 then waiting_for_data_token else waiting_for_command;
  }

  unfoldable pub store_data : Card host → ℕ → Card host
  store_data card b = record card {
    send_buffer = set card.send_buffer card.data_count b;
    data_count = card.data_count + 1;
    command_state = if card.data_count + 1 == 512 then waiting_for_data_crc1 else waiting_for_data;
  }

  -- One byte in each state, with a card in the slot.
  unfoldable pub take_byte : CommandState → Card host → ℕ → Card host
  unfolding parse_command end_command store_data
  take_byte waiting_for_command card b = elim (parse_command b) [
    | some c ↦ record card { current_command = c; command_state = waiting_for_data0 }
    | none ↦ card
  ]
  take_byte waiting_for_data0 card b = record card {
    argument0 = b;
    command_state = waiting_for_data1;
  }
  take_byte waiting_for_data1 card b = record card {
    argument1 = b;
    command_state = waiting_for_data2;
  }
  take_byte waiting_for_data2 card b = record card {
    argument2 = b;
    command_state = waiting_for_data3;
  }
  take_byte waiting_for_data3 card b = record card {
    argument3 = b;
    command_state = waiting_for_crc;
  }
  take_byte waiting_for_crc card b = end_command (do_command card)
  take_byte waiting_for_data_token card b =
      if b == 0xfe then record card { command_state = waiting_for_data; data_count = 0 } else card
  take_byte waiting_for_data card b = store_data card b
  take_byte waiting_for_data_crc1 card b = record card { command_state = waiting_for_data_crc2 }
  take_byte waiting_for_data_crc2 card b = record (do_command_data card) {
    command_state = waiting_for_command;
  }

  unfoldable pub write : Card host → ℕ → Card host
  unfolding take_byte
  write card b = elim card.drive.disk [ none ↦ card | some _ ↦ take_byte card.command_state card b ]

  unfoldable pub write_all : Card host → List ℕ → Card host
  unfolding write
  write_all card [] = card
  write_all card (b ∷ bytes) = write_all (write card b) bytes

  -- The byte at the response pointer, which moves on, or 0xff at the end of the response.
  unfoldable pub read : Card host → ℕ × Card host
  read card =
      if ltb card.response_next card.response_end
      then (
        get_or card.response_buffer card.response_next 0,
        record card { response_next = card.response_next + 1 },
      )
      else (0xff, card)

  -- `libspectrum_ide_eject_from_drive` leaves the cache alone if there is no disk.
  unfoldable pub eject : Card host → Card host
  eject card =
      let out = record card { drive = record card.drive { disk = none }; cache = host.empty } in
      reset (elim card.drive.disk [ none ↦ card | some _ ↦ out ])

  -- `opened` is what `libspectrum_ide_insert_into_drive` makes of the file name, if there is one.
  -- The card stays in the slot where its size is refused.
  unfoldable pub insert : Card host → Option (Result (Drive host)) → Result (Card host) × Card host
  unfolding eject
  insert card none = (ok (eject card), eject card)
  insert card (some (err e)) = (err e, eject card)
  insert card (some (ok drive)) =
      let total = dword (dword (drive.cylinders * drive.heads) * drive.sectors) in
      let card' = record (eject card) { drive = drive; total_sectors = total } in
      let c_size = dword (total / 1024 + 0xffffffff) in
      let done = record card' { c_size = c_size } in
      if not (drive.sector_size == 512) || not (total % 1024 == 0)
      then (err unknown, card')
      else if leb 65375 c_size
      then (err unknown, card')
      else (ok done, done)
