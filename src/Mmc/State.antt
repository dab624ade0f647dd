-- ===== src/Mmc/State.antt =====
-- The state of a card: `struct libspectrum_mmc_card` and the enums of mmc.c. Pointers into the
-- response buffer are indices.
use libspectrum.Base.{ℕ, ◌+◌, ◌*◌, ◌==◌, Bool, false, not, List, length}
use libspectrum.Base.{bit_and}
use libspectrum.Base.Memory.{memcpy}
use libspectrum.Bytes.{dword}
use libspectrum.Hdf.{Host, Drive}

pub data CommandState : Type 0 where
  waiting_for_command waiting_for_data0 waiting_for_data1 waiting_for_data2 : CommandState
  waiting_for_data3 waiting_for_crc waiting_for_data_token waiting_for_data : CommandState
  waiting_for_data_crc1 waiting_for_data_crc2 : CommandState

pub data EraseSequence : Type 0 where
  erase_none erase_start erase_end : EraseSequence

module _ (host : Host) where
  pub record Card : Type 0 where
    pub drive : Drive host
    pub cache : host.Table
    pub c_size : ℕ
    pub total_sectors : ℕ
    pub r1_status : ℕ
    pub command_state : CommandState
    pub current_command : ℕ
    pub argument0 : ℕ
    pub argument1 : ℕ
    pub argument2 : ℕ
    pub argument3 : ℕ
    pub data_count : ℕ
    pub send_buffer : List ℕ
    pub response_buffer : List ℕ
    pub response_end : ℕ
    pub response_next : ℕ
    pub cmd8_issued : Bool
    pub cmd55_issued : Bool
    pub erase_sequence : EraseSequence
    pub erase_block_start : ℕ
    pub erase_block_end : ℕ

-- The bits of `r1_status`.
abbrev pub in_idle_state_mask : ℕ
in_idle_state_mask = 0x01

abbrev pub erase_reset_mask : ℕ
erase_reset_mask = 0x02

abbrev pub illegal_command_mask : ℕ
illegal_command_mask = 0x04

abbrev pub erase_seq_error_mask : ℕ
erase_seq_error_mask = 0x10

abbrev pub parameter_error_mask : ℕ
parameter_error_mask = 0x40

module _ {host : Host} where
  -- The four bytes of the argument, highest first.
  unfoldable pub argument : Card host → ℕ
  argument card = dword (
      card.argument3
      + card.argument2 * 0x100
      + card.argument1 * 0x10000
      + card.argument0 * 0x1000000)

  unfoldable pub is_idle : Card host → Bool
  is_idle card = not (bit_and card.r1_status in_idle_state_mask == 0)

  -- The bytes are stored at the start of the response buffer, and are the response.
  unfoldable pub respond : Card host → List ℕ → Card host
  respond card bytes = record card {
    response_buffer = memcpy card.response_buffer 0 bytes;
    response_next = 0;
    response_end = length bytes;
  }

  unfoldable pub reset : Card host → Card host
  reset card = record card {
    r1_status = in_idle_state_mask;
    command_state = waiting_for_command;
    response_next = 0;
    response_end = 0;
    cmd8_issued = false;
    cmd55_issued = false;
    erase_sequence = erase_none;
    erase_block_start = 0;
    erase_block_end = 0;
  }
