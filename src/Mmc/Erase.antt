-- ===== src/Mmc/Erase.antt =====
-- Erasing through the port: ERASE_WR_BLK_START, ERASE_WR_BLK_END and ERASE in order.
use libspectrum.Base.{ℕ, zero, suc, ◌+◌, ◌-◌, ◌≤◌, ◌<◌, ◌≡◌, refl, ap, ◌∙◌, arith, ltb, leb}
use libspectrum.Base.{Bool, false, ◌&&◌, ◌||◌, if◌then◌else◌, List, [], ◌∷◌, some}
use libspectrum.Base.{replicate, length-replicate}
use libspectrum.Base.Memory.{memcpy}
use libspectrum.Hdf.{Host, Drive, read_sector, write_sector}
use libspectrum.Hdf.Laws.{as_read, read_sector-write_sector}
use libspectrum.Mmc.State.{Card, erase_start, erase_end}
use libspectrum.Mmc.State.{argument, is_idle, respond, waiting_for_command}
use libspectrum.Mmc.Commands.{do_command, erase_sectors}
use libspectrum.Mmc.Port.{write_all, end_command}
use libspectrum.Mmc.Protocol.{commanded, write_all_command}
use libspectrum.Mmc.Transfer.{prepared, sector_number}

abbrev pub zeros : List ℕ
zeros = replicate 512 0

abbrev pub erased : ℕ → ℕ → ℕ → Bool
erased start end m = leb start m && leb m end

range : (s e m : ℕ) → s ≤ e → (leb s m && ltb m (s + (e + 1 - s))) ≡ erased s e m
range s e m h = ground arith

abbrev pub erase_commands : ℕ → ℕ → ℕ → ℕ → ℕ → ℕ → ℕ → ℕ → ℕ → List ℕ
erase_commands s0 s1 s2 s3 e0 e1 e2 e3 crc =
    0x60 ∷ s0 ∷ s1 ∷ s2 ∷ s3 ∷ crc ∷ 0x61 ∷ e0 ∷ e1 ∷ e2 ∷ e3 ∷ crc ∷ 0x66 ∷ 0 ∷ 0 ∷ 0 ∷ 0 ∷ crc
    ∷ []

module _ {host : Host} where
  -- The loop over the sectors writes those from the first on and no other.
  erase_sectors_lem :
      (drive : Drive host) (cache : host.Table) (i n m : ℕ)
      → read_sector host drive (erase_sectors drive cache i n zeros) m ≡ (
          if leb i m && ltb m (i + n)
          then some (as_read drive.sector_size zeros)
          else read_sector host drive cache m)
  unfolding erase_sectors
  erase_sectors_lem drive cache i zero m =
      let out : (leb i m && ltb m (i + 0)) ≡ false = ground arith in rw out
  erase_sectors_lem drive cache i (suc n) m =
      let first =
        read_sector-write_sector host drive cache i m zeros (length-replicate {A = ℕ} 512 0) in
      let later = erase_sectors_lem drive (write_sector host drive cache i zeros) (i + 1) n m in
      ground (arith, first, later)

  -- An initialised card that has answered a command with its status.
  abbrev answered : Card host → host.File → ℕ → ℕ → ℕ → ℕ → ℕ → Card host
  answered card f c a0 a1 a2 a3 = record (commanded (prepared card f) c a0 a1 a2 a3) {
    command_state = waiting_for_command;
    response_buffer = memcpy card.response_buffer 0 (0 ∷ []);
    response_next = 0;
    response_end = 1;
  }

  abbrev started : Card host → host.File → ℕ → ℕ → ℕ → ℕ → Card host
  started card f a0 a1 a2 a3 = record (answered card f 32 a0 a1 a2 a3) {
    erase_sequence = erase_start;
    erase_block_start = sector_number a0 a1 a2 a3;
  }

  abbrev bounded : Card host → host.File → ℕ → ℕ → ℕ → ℕ → ℕ → Card host
  bounded card f start a0 a1 a2 a3 = record (answered card f 33 a0 a1 a2 a3) {
    erase_sequence = erase_end;
    erase_block_start = start;
    erase_block_end = sector_number a0 a1 a2 a3;
  }

  after_start :
      (card : Card host) (f : host.File) (a0 a1 a2 a3 : ℕ)
      → sector_number a0 a1 a2 a3 < card.total_sectors
      → end_command (do_command (commanded (prepared card f) 32 a0 a1 a2 a3))
        ≡ started card f a0 a1 a2 a3
  unfolding end_command do_command respond is_idle argument
  after_start card f a0 a1 a2 a3 inside =
      let fits : leb card.total_sectors (sector_number a0 a1 a2 a3) ≡ false = ground arith in
      rw fits

  after_end :
      (card : Card host) (f : host.File) (start a0 a1 a2 a3 : ℕ)
      → start ≤ sector_number a0 a1 a2 a3
      → sector_number a0 a1 a2 a3 < card.total_sectors
      → end_command (
          do_command (
            commanded
              (record (prepared card f) { erase_sequence = erase_start; erase_block_start = start })
              33
              a0
              a1
              a2
              a3))
        ≡ bounded card f start a0 a1 a2 a3
  unfolding end_command do_command respond is_idle argument
  after_end card f start a0 a1 a2 a3 order inside =
      let fits : (leb card.total_sectors (sector_number a0 a1 a2 a3)
            || ltb (sector_number a0 a1 a2 a3) start)
          ≡ false =
        ground arith in
      rw fits

  -- Three commands that name a range of sectors that an initialised card has, its first not behind
  -- its last, fill each sector of the range with zeros and leave every other as it was; the range
  -- includes both its ends.
  pub erase_range :
      (card : Card host) (f : host.File) (s0 s1 s2 s3 e0 e1 e2 e3 crc m : ℕ)
      → sector_number s0 s1 s2 s3 ≤ sector_number e0 e1 e2 e3
      → sector_number e0 e1 e2 e3 < card.total_sectors
      → let card' = write_all (prepared card f) (erase_commands s0 s1 s2 s3 e0 e1 e2 e3 crc) in
        read_sector host card'.drive card'.cache m ≡ (
          if erased (sector_number s0 s1 s2 s3) (sector_number e0 e1 e2 e3) m
          then some (as_read card.drive.sector_size zeros)
          else read_sector host (prepared card f).drive card.cache m)
  unfolding end_command do_command respond is_idle write_all
  erase_range card f s0 s1 s2 s3 e0 e1 e2 e3 crc m order inside =
      let start = sector_number s0 s1 s2 s3 in
      let end = sector_number e0 e1 e2 e3 in
      let third = 0x66 ∷ 0 ∷ 0 ∷ 0 ∷ 0 ∷ crc ∷ [] in
      let second = 0x61 ∷ e0 ∷ e1 ∷ e2 ∷ e3 ∷ crc ∷ third in
      let told = started card f s0 s1 s2 s3 in
      let both = bounded told f start e0 e1 e2 e3 in
      let path =
        write_all_command (prepared card f) f 0x60 32 s0 s1 s2 s3 crc second refl
        ∙ ap (λ c. write_all c second) (after_start card f s0 s1 s2 s3 (omega arith))
        ∙ write_all_command told f 0x61 33 e0 e1 e2 e3 crc third refl
        ∙ ap (λ c. write_all c third) (after_end told f start e0 e1 e2 e3 order inside)
        ∙ write_all_command both f 0x66 38 0 0 0 0 crc [] refl in
      let loop = erase_sectors_lem both.drive card.cache start (end + 1 - start) m in
      ap (λ c. read_sector host c.drive c.cache m) path
      ∙ loop
      ∙ ap
          (λ b.
            if b
            then some (as_read card.drive.sector_size zeros)
            else read_sector host both.drive card.cache m)
          (range start end m order)
