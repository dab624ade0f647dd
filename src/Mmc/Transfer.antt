-- ===== src/Mmc/Transfer.antt =====
-- The two transfers of a card through its port: WRITE_BLOCK with its data, and READ_SINGLE_BLOCK.
use libspectrum.Base.{ℕ, ◌+◌, ◌*◌, ◌<◌, ◌≡◌, refl, ap, ◌∙◌, arith, leb}
use libspectrum.Base.{false, eq→==, List, [], ◌∷◌, ◌++◌, some}
use libspectrum.Base.{length, take_all, length-append}
use libspectrum.Base.Memory.{memcpy, length-memcpy}
use libspectrum.Hdf.{Host, read_sector, write_sector}
use libspectrum.Hdf.Laws.{as_read, length-as_read, read_sector-write_sector}
use libspectrum.Mmc.State.{Card, erase_none, argument, is_idle, respond}
use libspectrum.Mmc.Commands.{do_command, do_command_data}
use libspectrum.Mmc.Commands.{sector_response}
use libspectrum.Mmc.Port.{take_byte, write, write_all, end_command}
use libspectrum.Mmc.Protocol.{ready, commanded, write_all_command, write_all_data}
use libspectrum.Mmc.Protocol.{read_all, read_all_lem, memcpy_all, filled}
use libspectrum.Bytes.{dword}

-- The four bytes of an argument as a sector number.
abbrev pub sector_number : ℕ → ℕ → ℕ → ℕ → ℕ
sector_number a0 a1 a2 a3 = dword (a3 + a2 * 0x100 + a1 * 0x10000 + a0 * 0x1000000)

module _ {host : Host} where
  -- A card with a disk that has been initialised and waits for a command.
  abbrev pub prepared : Card host → host.File → Card host
  prepared card f = record (ready card f) {
    r1_status = 0;
    cmd55_issued = false;
    erase_sequence = erase_none;
  }

  -- What a transfer of a block to a card makes of it.
  abbrev pub block_written : Card host → host.File → ℕ → ℕ → ℕ → ℕ → List ℕ → Card host
  block_written card f a0 a1 a2 a3 bytes =
      let card' = prepared card f in
      record card' {
        current_command = 24;
        argument0 = a0;
        argument1 = a1;
        argument2 = a2;
        argument3 = a3;
        data_count = 512;
        send_buffer = bytes;
        cache = write_sector host card'.drive card.cache (sector_number a0 a1 a2 a3) bytes;
        response_buffer = memcpy (memcpy card.response_buffer 0 (0 ∷ [])) 0 (0x05 ∷ 0x01 ∷ []);
        response_next = 0;
        response_end = 2;
      }

  pub write_block :
      (card : Card host) (f : host.File) (a0 a1 a2 a3 crc b x y : ℕ) (bytes : List ℕ)
      → length card.send_buffer ≡ 512
      → length (b ∷ bytes) ≡ 512
      → sector_number a0 a1 a2 a3 < card.total_sectors
      → write_all
          (prepared card f)
          (0x58 ∷ a0 ∷ a1 ∷ a2 ∷ a3 ∷ crc ∷ 0xfe ∷ b ∷ bytes ++ (x ∷ y ∷ []))
        ≡ block_written card f a0 a1 a2 a3 (b ∷ bytes)
  unfolding write_all write take_byte end_command do_command do_command_data respond is_idle
      argument
  write_block card f a0 a1 a2 a3 crc b x y bytes size full inside =
      let card' = prepared card f in
      let cmd =
        write_all_command card' f 0x58 24 a0 a1 a2 a3 crc (0xfe ∷ b ∷ bytes ++ (x ∷ y ∷ [])) refl in
      let after = end_command (do_command (commanded card' 24 a0 a1 a2 a3)) in
      let fits : leb card.total_sectors (sector_number a0 a1 a2 a3) ≡ false = ground arith in
      let whole = memcpy_all card.send_buffer (b ∷ bytes) (omega arith) in
      cmd ∙ write_all_data after f 0 b bytes (x ∷ y ∷ []) (omega arith) ∙ rw (fits, whole)

  -- What a card has to answer with after a sector was asked for.
  abbrev pub block_answered : Card host → host.File → ℕ → ℕ → ℕ → ℕ → List ℕ → Card host
  block_answered card f a0 a1 a2 a3 bytes = record (prepared card f) {
    current_command = 17;
    argument0 = a0;
    argument1 = a1;
    argument2 = a2;
    argument3 = a3;
    response_buffer = 0 ∷ 0xfe ∷ bytes ++ (0 ∷ 0 ∷ []);
    response_next = 0;
    response_end = 516;
  }

  pub read_block :
      (card : Card host) (f : host.File) (a0 a1 a2 a3 crc : ℕ) (bytes : List ℕ)
      → length card.response_buffer ≡ 516
      → sector_number a0 a1 a2 a3 < card.total_sectors
      → read_sector host (prepared card f).drive card.cache (sector_number a0 a1 a2 a3) ≡ some bytes
      → length bytes ≡ 512
      → write_all (prepared card f) (0x51 ∷ a0 ∷ a1 ∷ a2 ∷ a3 ∷ crc ∷ [])
        ≡ block_answered card f a0 a1 a2 a3 bytes
  unfolding write_all write take_byte end_command do_command respond is_idle argument
      sector_response
  read_block card f a0 a1 a2 a3 crc bytes size inside found full =
      let card' = prepared card f in
      let fits : leb card.total_sectors (sector_number a0 a1 a2 a3) ≡ false = ground arith in
      write_all_command card' f 0x51 17 a0 a1 a2 a3 crc [] refl
      ∙ rw (fits, found, filled card.response_buffer bytes size full)

  -- The bytes that are read from the port after that.
  read_block_bytes :
      (card : Card host) (f : host.File) (a0 a1 a2 a3 : ℕ) (bytes : List ℕ)
      → length bytes ≡ 512
      → read_all 516 (block_answered card f a0 a1 a2 a3 bytes) ≡ 0 ∷ 0xfe ∷ bytes ++ (0 ∷ 0 ∷ [])
  read_block_bytes card f a0 a1 a2 a3 bytes h =
      let size : length (bytes ++ (0 ∷ 0 ∷ [])) ≡ 514 =
        omega (arith, length-append bytes (0 ∷ 0 ∷ [])) in
      read_all_lem 516 0 (block_answered card f a0 a1 a2 a3 bytes) (omega arith)
      ∙ take_all 516 (0 ∷ 0xfe ∷ bytes ++ (0 ∷ 0 ∷ [])) (omega arith)

  -- A block of 512 bytes that is written to a sector of an initialised card, whose two buffers have
  -- their sizes and which has that sector, through the port, behind WRITE_BLOCK and the data token,
  -- is what READ_SINGLE_BLOCK answers with for that sector: the status, the token, the 512 bytes
  -- (their odd ones 0xff if the image keeps half sectors) and two bytes of CRC.
  pub read_back :
      (card : Card host) (f : host.File) (a0 a1 a2 a3 crc crc' b x y : ℕ) (bytes : List ℕ)
      → length card.send_buffer ≡ 512
      → length card.response_buffer ≡ 516
      → length (b ∷ bytes) ≡ 512
      → sector_number a0 a1 a2 a3 < card.total_sectors
      → read_all 516 (
          write_all
            (write_all
              (prepared card f)
              (0x58 ∷ a0 ∷ a1 ∷ a2 ∷ a3 ∷ crc ∷ 0xfe ∷ b ∷ bytes ++ (x ∷ y ∷ [])))
            (0x51 ∷ a0 ∷ a1 ∷ a2 ∷ a3 ∷ crc' ∷ []))
        ≡ 0 ∷ 0xfe ∷ as_read card.drive.sector_size (b ∷ bytes) ++ (0 ∷ 0 ∷ [])
  read_back card f a0 a1 a2 a3 crc crc' b x y bytes size room full inside =
      let written = block_written card f a0 a1 a2 a3 (b ∷ bytes) in
      let n = sector_number a0 a1 a2 a3 in
      let out = as_read card.drive.sector_size (b ∷ bytes) in
      let found : read_sector host written.drive written.cache n ≡ some out =
        read_sector-write_sector host written.drive card.cache n n (b ∷ bytes) full
        ∙ rw (eq→== n n refl) in
      let space : length written.response_buffer ≡ 516 =
        length-memcpy (memcpy card.response_buffer 0 (0 ∷ [])) 0 (0x05 ∷ 0x01 ∷ [])
        ∙ length-memcpy card.response_buffer 0 (0 ∷ [])
        ∙ room in
      let size' = length-as_read card.drive.sector_size (b ∷ bytes) full in
      ap (λ c. read_all 516 (write_all c (0x51 ∷ a0 ∷ a1 ∷ a2 ∷ a3 ∷ crc' ∷ [])))
        (write_block card f a0 a1 a2 a3 crc b x y bytes size full inside)
      ∙ ap (read_all 516) (read_block written f a0 a1 a2 a3 crc' out space inside found size')
      ∙ read_block_bytes written f a0 a1 a2 a3 out size'
