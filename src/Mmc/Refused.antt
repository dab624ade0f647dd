-- ===== src/Mmc/Refused.antt =====
-- A block of data for a sector that the card does not have.
use libspectrum.Base.{ℕ, suc, ◌≤◌, ◌≡◌, refl, ap, ◌∙◌, sym, arith, ltb, leb}
use libspectrum.Base.{true, List, [], ◌∷◌, ◌++◌, length}
use libspectrum.Base.{get_or, lt→ltb}
use libspectrum.Base.Regions.{get_or-take, region-memcpy}
use libspectrum.Base.Memory.{memcpy, length-memcpy}
use libspectrum.Hdf.{Host}
use libspectrum.Mmc.State.{Card, argument, is_idle, respond, parameter_error_mask}
use libspectrum.Mmc.Commands.{do_command, do_command_data}
use libspectrum.Mmc.Port.{take_byte, write, write_all, read, end_command}
use libspectrum.Mmc.Protocol.{commanded, write_all_command, write_all_data, read_all, memcpy_all}
use libspectrum.Mmc.Transfer.{prepared, sector_number}

module _ {host : Host} where
  abbrev refused : Card host → host.File → ℕ → ℕ → ℕ → ℕ → List ℕ → Card host
  refused card f a0 a1 a2 a3 bytes = record (prepared card f) {
    current_command = 24;
    argument0 = a0;
    argument1 = a1;
    argument2 = a2;
    argument3 = a3;
    data_count = 512;
    send_buffer = bytes;
    r1_status = parameter_error_mask;
    response_buffer = memcpy (memcpy card.response_buffer 0 (0 ∷ [])) 0 (parameter_error_mask ∷ []);
    response_next = 0;
    response_end = 1;
  }

  write_block_refused :
      (card : Card host) (f : host.File) (a0 a1 a2 a3 crc b x y : ℕ) (bytes : List ℕ)
      → length card.send_buffer ≡ 512
      → length (b ∷ bytes) ≡ 512
      → card.total_sectors ≤ sector_number a0 a1 a2 a3
      → write_all
          (prepared card f)
          (0x58 ∷ a0 ∷ a1 ∷ a2 ∷ a3 ∷ crc ∷ 0xfe ∷ b ∷ bytes ++ (x ∷ y ∷ []))
        ≡ refused card f a0 a1 a2 a3 (b ∷ bytes)
  unfolding write_all write take_byte end_command do_command do_command_data respond is_idle
      argument
  write_block_refused card f a0 a1 a2 a3 crc b x y bytes size full outside =
      let card' = prepared card f in
      let cmd =
        write_all_command card' f 0x58 24 a0 a1 a2 a3 crc (0xfe ∷ b ∷ bytes ++ (x ∷ y ∷ [])) refl in
      let after = end_command (do_command (commanded card' 24 a0 a1 a2 a3)) in
      let bad : leb card.total_sectors (sector_number a0 a1 a2 a3) ≡ true = ground arith in
      let whole = memcpy_all card.send_buffer (b ∷ bytes) (omega arith) in
      cmd ∙ write_all_data after f 0 b bytes (x ∷ y ∷ []) (omega arith) ∙ rw (bad, whole)

  -- The first byte of a response.
  read_first :
      (card : Card host) (buffer : List ℕ) (status : ℕ) (rest : List ℕ)
      → length buffer ≡ 516
      → length rest ≤ 515
      → read_all 1 (record card {
        response_buffer = memcpy buffer 0 (status ∷ rest);
        response_next = 0;
        response_end = suc (length rest);
      })
        ≡ status ∷ []
  unfolding read_all read
  read_first card buffer status rest h k =
      let out = memcpy buffer 0 (status ∷ rest) in
      let n = length (status ∷ rest) in
      let some_left : ltb 0 (suc (length rest)) ≡ true =
        lt→ltb 0 (suc (length rest)) (omega arith) in
      let byte : get_or out 0 0 ≡ status =
        sym (get_or-take n 0 out 0 (omega arith))
        ∙ ap (λ l. get_or l 0 0) (region-memcpy 0 buffer (status ∷ rest) (omega arith)) in
      rw (some_left, byte)

  -- A block of data for a sector beyond the end of an initialised card leaves the parameter error
  -- in the status: READ_OCR, which cannot fail, is answered with it, and only then is it gone.
  pub stale_error :
      (card : Card host) (f : host.File) (a0 a1 a2 a3 crc crc' b x y : ℕ) (bytes : List ℕ)
      → length card.send_buffer ≡ 512
      → length card.response_buffer ≡ 516
      → length (b ∷ bytes) ≡ 512
      → card.total_sectors ≤ sector_number a0 a1 a2 a3
      → let after =
          write_all
            (write_all
              (prepared card f)
              (0x58 ∷ a0 ∷ a1 ∷ a2 ∷ a3 ∷ crc ∷ 0xfe ∷ b ∷ bytes ++ (x ∷ y ∷ [])))
            (0x7a ∷ 0 ∷ 0 ∷ 0 ∷ 0 ∷ crc' ∷ []) in
        (read_all 1 after ≡ parameter_error_mask ∷ []) × (after.r1_status ≡ 0)
  unfolding end_command do_command respond write_all
  stale_error card f a0 a1 a2 a3 crc crc' b x y bytes size room full outside =
      let left = refused card f a0 a1 a2 a3 (b ∷ bytes) in
      let next = end_command (do_command (commanded left 58 0 0 0 0)) in
      let path =
        ap (λ c. write_all c (0x7a ∷ 0 ∷ 0 ∷ 0 ∷ 0 ∷ crc' ∷ []))
          (write_block_refused card f a0 a1 a2 a3 crc b x y bytes size full outside)
        ∙ write_all_command left f 0x7a 58 0 0 0 0 crc' [] refl in
      let space : length left.response_buffer ≡ 516 =
        length-memcpy (memcpy card.response_buffer 0 (0 ∷ [])) 0 (parameter_error_mask ∷ [])
        ∙ length-memcpy card.response_buffer 0 (0 ∷ [])
        ∙ room in
      (
        ap (read_all 1) path
            ∙ read_first next left.response_buffer parameter_error_mask (0xc0 ∷ 0 ∷ 0 ∷ 0 ∷ [])
                space (omega arith),
        ap (λ c. c.r1_status) path,
      )
