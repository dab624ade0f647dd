-- ===== src/Microdrive.antt =====
-- microdrive.c: a Microdrive cartridge as blocks of 543 bytes, their checksums, and .mdr files.
-- The struct's fields have accessors that only read or store them.
pub mod Checksum
pub mod Blocks
pub mod Verdicts
pub mod Files
mod Runs
use libspectrum.Base.{
  ℕ, zero, suc, ◌+◌, ◌-◌, ◌*◌, ◌/◌, ◌%◌, ◌==◌, ltb, Bool, true, false, not, ◌&&◌, ◌||◌,
}
use libspectrum.Base.{if◌then◌else◌, List, [], ◌∷◌, ◌++◌, take, drop, get_or, length, bit_and}
use libspectrum.Base.{Error, corrupt, Result, ok, err}
use libspectrum.Base.Memory.{memcpy}
use libspectrum.Bytes.{byte}

abbrev pub block_len : ℕ
block_len = 543

abbrev pub cartridge_length : ℕ
cartridge_length = 254 * 543

abbrev pub mdr_length : ℕ
mdr_length = cartridge_length + 1

pub record Microdrive : Type 0 where
  pub bytes : List ℕ
  pub write_protect : ℕ
  pub cartridge_len : ℕ

pub record Block : Type 0 where
  pub hdflag : ℕ
  pub hdbnum : ℕ
  pub hdblen : ℕ
  pub hdbnam : List ℕ
  pub hdchks : ℕ
  pub recflg : ℕ
  pub recnum : ℕ
  pub reclen : ℕ
  pub recnam : List ℕ
  pub rechks : ℕ
  pub bytes : List ℕ
  pub datchk : ℕ

-- The bytes from `which * LIBSPECTRUM_MICRODRIVE_BLOCK_LEN` on.
abbrev pub block_start : Microdrive → ℕ → List ℕ
block_start md which = drop (which * block_len) md.bytes

-- A read past the end of the cartridge gives zeros here.
unfoldable pub get_block : Microdrive → ℕ → Block
get_block md which =
    let d = block_start md which in
    record {
      hdflag = get_or d 0 0;
      hdbnum = get_or d 1 0;
      hdblen = get_or d 2 0 + get_or d 3 0 * 0x100;
      hdbnam = take 10 (drop 4 d) ++ (0 ∷ []);
      hdchks = get_or d 14 0;
      recflg = get_or d 15 0;
      recnum = get_or d 16 0;
      reclen = get_or d 17 0 + get_or d 18 0 * 0x100;
      recnam = take 10 (drop 19 d) ++ (0 ∷ []);
      rechks = get_or d 29 0;
      bytes = take 512 (drop 30 d);
      datchk = get_or d 542 0;
    }

-- The bytes that `set_block` stores in order.
unfoldable pub block_bytes : Block → List ℕ
block_bytes b =
    b.hdflag ∷ b.hdbnum ∷ b.hdblen % 0x100 ∷ b.hdblen / 0x100 ∷ take 10 b.hdbnam
    ++ (b.hdchks ∷ b.recflg ∷ b.recnum ∷ b.reclen % 0x100 ∷ b.reclen / 0x100 ∷ take 10 b.recnam
        ++ (b.rechks ∷ take 512 b.bytes ++ (b.datchk ∷ [])))

unfoldable pub set_block : Microdrive → ℕ → Block → Microdrive
unfolding block_bytes
set_block md which b = record md { bytes = memcpy md.bytes (which * block_len) (block_bytes b) }

-- The macro `DO_CHECK` on the checksum and a byte.
unfoldable pub do_check : ℕ → ℕ → ℕ
do_check checksum b =
    let total = checksum + b in
    let next = if ltb 255 total then total - 256 + (1 + 1) else total + (0 + 1) in
    if next == 256 then next - 256 else next - 1

-- The macro in a loop over bytes.
unfoldable pub check_all : ℕ → List ℕ → ℕ
unfolding do_check
check_all checksum [] = checksum
check_all checksum (b ∷ bytes) = check_all (do_check checksum b) bytes

-- The results of `libspectrum_microdrive_checksum`: -1, 1, 2, 3 and 0.
pub data Verdict : Type 0 where
  preset_bad bad_header bad_record bad_data good : Verdict

unfoldable pub checksum : Microdrive → ℕ → Verdict
unfolding check_all
checksum md what =
    let d = block_start md what in
    let empty = get_or d 17 0 == 0 && get_or d 18 0 == 0 in
    if not (bit_and (get_or d 15 0) 2 == 0) && empty
    then preset_bad
    else if not (get_or d 14 0 == check_all 0 (take 14 d))
    then bad_header
    else if not (get_or d 29 0 == check_all 0 (take 14 (drop 15 d)))
    then bad_record
    else if empty
    then good
    else if not (get_or d 542 0 == check_all 0 (take 512 (drop 30 d)))
    then bad_data
    else good

unfoldable pub mdr_read : Microdrive → List ℕ → Result Microdrive
mdr_read md buffer =
    let n = length buffer in
    let data_length = n - n % block_len in
    if ltb n (block_len * 10) || (ltb 1 (n % block_len) || ltb mdr_length n)
    then err corrupt
    else ok (record {
      bytes = memcpy md.bytes 0 (take data_length buffer);
      write_protect = if n % block_len == 1 then get_or buffer data_length 0 else 0;
      cartridge_len = byte (data_length / block_len);
    })

unfoldable pub mdr_write : Microdrive → List ℕ
mdr_write md = take (md.cartridge_len * block_len) md.bytes ++ (byte md.write_protect ∷ [])
