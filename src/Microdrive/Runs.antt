-- ===== src/Microdrive/Runs.antt =====
-- Concrete cartridges, and the theorems at them.
use libspectrum.Base.{ℕ, ◌≤◌, ◌<◌, ◌%◌, ◌≡◌, refl, arith, List, [], ◌∷◌, replicate, length}
use libspectrum.Base.{length-replicate, All-replicate, ok}
use libspectrum.Base.Bits.{IsByte}
use libspectrum.Bytes.{byte}
use libspectrum.Microdrive.{
  Microdrive, Block, cartridge_length, get_block, set_block, mdr_read, mdr_write,
}
use libspectrum.Microdrive.{checksum, check_all, good}
use libspectrum.Microdrive.Checksum.{check_all_lem}
use libspectrum.Microdrive.Blocks.{BlockIsValid, get_block-set_block}
use libspectrum.Microdrive.Verdicts.{AreBytes, verdict, checksum-set_block}
use libspectrum.Microdrive.Files.{mdr_read-mdr_write, mdr_read_bounds}

abbrev cartridge : Microdrive
cartridge = record {
  bytes = replicate cartridge_length 0xff;
  write_protect = 1;
  cartridge_len = 180;
}

cartridge_size : length cartridge.bytes ≡ cartridge_length
cartridge_size = length-replicate {A = ℕ} cartridge_length 0xff

abbrev name : List ℕ
name = b'r' ∷ b'u' ∷ b'n' ∷ 32 ∷ 32 ∷ 32 ∷ 32 ∷ 32 ∷ 32 ∷ 32 ∷ 0 ∷ []

-- The header's bytes add up to 666, those of the record to 571, and those of the data to 3584.
abbrev block : Block
block = record {
  hdflag = 1;
  hdbnum = 100;
  hdblen = 0;
  hdbnam = name;
  hdchks = 156;
  recflg = 4;
  recnum = 0;
  reclen = 512;
  recnam = name;
  rechks = 61;
  bytes = replicate 512 7;
  datchk = 14;
}

block-IsValid : BlockIsValid block
block-IsValid = record {
  hdblen_word = omega arith;
  reclen_word = omega arith;
  hdbnam_size = refl;
  hdbnam_ends = refl;
  recnam_size = refl;
  recnam_ends = refl;
  bytes_size = refl;
}

block-AreBytes : AreBytes block
block-AreBytes = record {
  header_bytes = omega arith;
  record_bytes = omega arith;
  data_bytes = All-replicate IsByte 512 7 (omega arith);
}

verdict_good : verdict block ≡ good
verdict_good = refl

check_all_lem_example :
    (check_all 0 (200 ∷ 100 ∷ []) ≡ 300 % 255) × (check_all 0 (200 ∷ 100 ∷ []) < 255)
check_all_lem_example = check_all_lem (200 ∷ 100 ∷ []) (omega arith)

get_block-set_block_example : get_block (set_block cartridge 5 block) 5 ≡ block
get_block-set_block_example =
    get_block-set_block cartridge 5 5 block cartridge_size block-IsValid (omega arith)

checksum-set_block_example : checksum (set_block cartridge 5 block) 5 ≡ verdict block
checksum-set_block_example =
    checksum-set_block cartridge 5 block cartridge_size block-IsValid block-AreBytes (omega arith)

mdr_read-mdr_write_example :
    (md' : Microdrive) × (mdr_read cartridge (mdr_write cartridge) ≡ ok md')
    × ((which : ℕ) → which < 180 → get_block md' which ≡ get_block cartridge which)
    × (md'.cartridge_len ≡ 180)
    × (md'.write_protect ≡ byte 1)
mdr_read-mdr_write_example =
    mdr_read-mdr_write cartridge cartridge cartridge_size cartridge_size (omega arith) (omega arith)

-- The cartridge as it is read from its file.
abbrev reread : (md' : Microdrive) × (mdr_read cartridge (mdr_write cartridge) ≡ ok md')
reread =
    let (md', e, blocks, len, protect) =
      mdr_read-mdr_write cartridge cartridge cartridge_size cartridge_size (omega arith)
        (omega arith) in
    (md', e)

mdr_read_bounds_example :
    (length reread.0.bytes ≡ length cartridge.bytes)
    × (10 ≤ reread.0.cartridge_len)
    × (reread.0.cartridge_len ≤ 254)
mdr_read_bounds_example = mdr_read_bounds cartridge reread.0 (mdr_write cartridge) reread.1
