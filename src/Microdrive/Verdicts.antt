-- ===== src/Microdrive/Verdicts.antt =====
-- The verdict on a block in terms of its fields.
use libspectrum.Base.{ℕ, ◌/◌, ◌%◌, ◌<◌, ◌≡◌, ap, ◌∙◌, sym, arith}
use libspectrum.Base.{
  List, ◌∷◌, ◌++◌, length, take, drop, length-take, take-append-drop, take_all, All,
}
use libspectrum.Base.{not, ◌&&◌, ◌==◌, if◌then◌else◌, bit_and}
use libspectrum.Base.Bits.{IsByte}
use libspectrum.Base.Regions.{get_or-append, drop-append_more, take-append_first}
use libspectrum.Microdrive.{Microdrive, Block, cartridge_length, block_start, set_block, checksum}
use libspectrum.Microdrive.{Verdict, preset_bad, bad_header, bad_record, bad_data, good}
use libspectrum.Microdrive.Checksum.{sum, check_all_lem}
use libspectrum.Microdrive.Blocks.{BlockIsValid, laid_out, block_bytes-laid_out, stored_bytes}

abbrev pub header : Block → List ℕ
header b = b.hdflag ∷ b.hdbnum ∷ b.hdblen % 0x100 ∷ b.hdblen / 0x100 ∷ take 10 b.hdbnam

abbrev pub record_header : Block → List ℕ
record_header b = b.recflg ∷ b.recnum ∷ b.reclen % 0x100 ∷ b.reclen / 0x100 ∷ take 10 b.recnam

pub record AreBytes (b : Block) : Type 0 where
  pub header_bytes : All IsByte (header b)
  pub record_bytes : All IsByte (record_header b)
  pub data_bytes : All IsByte b.bytes

-- A block whose record is empty needs no checksum for its data.
abbrev pub verdict : Block → Verdict
verdict b =
    if not (bit_and b.recflg 2 == 0) && b.reclen == 0
    then preset_bad
    else if not (b.hdchks == sum (header b) % 255)
    then bad_header
    else if not (b.rechks == sum (record_header b) % 255)
    then bad_record
    else if b.reclen == 0
    then good
    else if not (b.datchk == sum b.bytes % 255)
    then bad_data
    else good

-- The checks on the bytes of a block.
abbrev checked : List ℕ → Verdict
checked d = checksum (record { bytes = d; write_protect = 0; cartridge_len = 0 }) 0

empty-reclen : (n : ℕ) → (n % 0x100 == 0 && n / 0x100 == 0) ≡ (n == 0)
empty-reclen n = ground arith

checked-laid_out :
    (b : Block) (rest : List ℕ)
    → BlockIsValid b
    → AreBytes b
    → checked (laid_out b rest) ≡ verdict b
unfolding checksum
checked-laid_out b rest v w =
    let name = take 10 b.hdbnam in
    let record_name = take 10 b.recnam in
    let n : length name ≡ 10 = omega (arith, length-take 10 b.hdbnam, v.hdbnam_size) in
    let m : length record_name ≡ 10 = omega (arith, length-take 10 b.recnam, v.recnam_size) in
    let whole : take 512 b.bytes ≡ b.bytes = take_all 512 b.bytes (omega (arith, v.bytes_size)) in
    let size : length (take 512 b.bytes) ≡ 512 = ap length whole ∙ v.bytes_size in
    let tail = b.rechks ∷ take 512 b.bytes ++ (b.datchk ∷ rest) in
    let half =
      b.hdchks ∷ b.recflg ∷ b.recnum ∷ b.reclen % 0x100 ∷ b.reclen / 0x100 ∷ record_name ++ tail in
    let first = name ++ half in
    let field = λ (k : ℕ). get_or-append 10 name half k 0 n in
    let behind = λ (k : ℕ). get_or-append 10 record_name tail k 0 m in
    let third = behind 513 ∙ get_or-append 512 (take 512 b.bytes) (b.datchk ∷ rest) 0 0 size in
    let names = take-append_first 10 name half n in
    let records : take 14 (drop 11 first) ≡ record_header b =
      ap (take 14) (drop-append_more 10 name half 1 n)
      ∙ ap (λ l. b.recflg ∷ b.recnum ∷ b.reclen % 0x100 ∷ b.reclen / 0x100 ∷ l)
          (take-append_first 10 record_name tail m) in
    let bytes' : take 512 (drop 26 first) ≡ b.bytes =
      ap (take 512) (drop-append_more 10 name half 16 n ∙ drop-append_more 10 record_name tail 1 m)
      ∙ take-append_first 512 (take 512 b.bytes) (b.datchk ∷ rest) size
      ∙ whole in
    rw (
      names,
      records,
      bytes',
      field 0,
      field 1,
      field 3,
      field 4,
      field 15 ∙ behind 0,
      field 528 ∙ third,
      (check_all_lem (header b) w.header_bytes).0,
      (check_all_lem (record_header b) w.record_bytes).0,
      (check_all_lem b.bytes w.data_bytes).0,
      empty-reclen b.reclen,
    )

-- The verdict on a block whose fields fit their places and are bytes, and which has been stored on
-- a cartridge of 254 blocks at a number below 254, is that its record is
-- marked as bad where the flag says so and the record is empty, else the first of the three
-- checksums that is not the sum of its bytes modulo 255, that of the data only if there are some.
pub checksum-set_block :
    (md : Microdrive) (which : ℕ) (b : Block)
    → length md.bytes ≡ cartridge_length
    → BlockIsValid b
    → AreBytes b
    → which < 254
    → checksum (set_block md which b) which ≡ verdict b
unfolding checksum
checksum-set_block md which b size v w h =
    let d = block_start (set_block md which b) which in
    let split : d ≡ laid_out b (drop 543 d) =
      sym (take-append-drop 543 d)
      ∙ ap (λ l. l ++ drop 543 d) (stored_bytes md which b size v h)
      ∙ block_bytes-laid_out b (drop 543 d) in
    ap checked split ∙ checked-laid_out b (drop 543 d) v w
