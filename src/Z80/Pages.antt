-- ===== src/Z80/Pages.antt =====
-- The memory blocks of a .z80 file: `write_page`, `read_v2_block` and `read_v1_block` of z80.c.
-- A reader is given the bytes from its pointer to the end of the file. The outer `Option` is a
-- read past that end, which the C code does not check for.
use libspectrum.Base.{ℕ, ◌+◌, ◌*◌, ◌-◌, ◌/◌, ◌%◌, ◌^◌, Bool, true, false, ◌&&◌, not, ltb, leb}
use libspectrum.Base.{
  ◌==◌, if◌then◌else◌, List, [], ◌∷◌, ◌++◌, Option, none, some, length, take, drop,
}
use libspectrum.Base.{Result, ok, err, Error, corrupt, slt}
use libspectrum.Base.Partial.{◌>>=◌}
use libspectrum.Bytes.{byte, write_word}
use libspectrum.Z80.Compress.{compress_block, uncompress_block}

-- The flags of a snapshot writer; `compress` is not 0 if pages are to be compressed, and has the
-- second bit set if they always are.
unfoldable pub always_compress : ℕ → Bool
always_compress compress = compress / 2 % 2 == 1

-- What the page is stored as. `page` points to 0x4000 bytes.
unfoldable pub write_page : ℕ → List ℕ → ℕ → Option (List ℕ)
unfolding always_compress
write_page page_num page compress =
    let stored = write_word 0xffff ++ (byte page_num ∷ page) in
    if compress == 0 then some stored else do
      compressed ← compress_block page
      some (
          if not (always_compress compress) && leb 0x4000 (length compressed)
          then stored
          else write_word (length compressed % 2 ^ 16) ++ (byte page_num ∷ compressed))

-- A page with its number and the pointer to the next block, or an error and where the pointer
-- stands then.
pub data PageRead : Type 0 where
  page : List ℕ → ℕ → List ℕ → PageRead
  stopped : Error → List ℕ → PageRead

abbrev pub slt_signature : List ℕ
slt_signature = 0 ∷ 0 ∷ 0 ∷ b'S' ∷ b'L' ∷ b'T' ∷ []

abbrev pub bytes_eq : List ℕ → List ℕ → Bool
bytes_eq [] [] = true
bytes_eq (x ∷ xs) (y ∷ ys) = x == y && bytes_eq xs ys
bytes_eq _ _ = false

-- `data` is what follows the header of three bytes.
abbrev pub read_compressed : ℕ → ℕ → List ℕ → Option PageRead
read_compressed length2 page_num bytes = do
  block ← uncompress_block (take length2 bytes)
  some (page block page_num (drop length2 bytes))

abbrev pub read_page_data : ℕ → ℕ → List ℕ → List ℕ → Option PageRead
read_page_data length2 page_num bytes buffer =
    if not (length2 == 0xffff)
    then if ltb (length bytes) length2
      then some (stopped corrupt buffer)
      else read_compressed length2 page_num bytes
    else if ltb (length bytes) 0x4000
    then some (stopped corrupt buffer)
    else some (page (take 0x4000 bytes) page_num (drop 0x4000 bytes))

unfoldable pub read_v2_block : List ℕ → Option PageRead
read_v2_block (low ∷ high ∷ page_num ∷ bytes) =
    let buffer = low ∷ high ∷ page_num ∷ bytes in
    let length2 = low + high * 0x100 in
    if length2 == 0
      && page_num == 0
      && (ltb 8 (length buffer) && bytes_eq (take 6 buffer) slt_signature)
    then some (stopped slt (drop 6 buffer))
    else read_page_data length2 page_num bytes buffer
read_v2_block _ = none

-- The states of the search for the end marker 00 ed ed 00: how much of it has been seen.
pub data Marker : Type 0 where
  seen0 seen1 seen2 seen3 seen4 : Marker

unfoldable pub marker_step : Marker → ℕ → Marker
marker_step seen0 b = if b == 0 then seen1 else seen0
marker_step seen1 b = if b == 0 then seen1 else if b == 0xed then seen2 else seen0
marker_step seen2 b = if b == 0 then seen1 else if b == 0xed then seen3 else seen0
marker_step seen3 b = if b == 0 then seen4 else seen0
marker_step seen4 b = seen4

-- How many bytes there are up to the end of the marker, `n` of them before the list; `none` if the
-- list ends first.
unfoldable pub find_marker : Marker → ℕ → List ℕ → Option ℕ
unfolding marker_step
find_marker seen4 n buffer = some n
find_marker s n [] = none
find_marker s n (b ∷ buffer) = find_marker (marker_step s b) (n + 1) buffer

-- The 48K of a version 1 snapshot and the bytes behind them. Both pointers that the source uses
-- for the start of the block are `buffer` here, as its one caller passes them.
unfoldable pub read_v1_block : List ℕ → Bool → Option (Result (List ℕ × List ℕ))
read_v1_block buffer false = some (
    if ltb (length buffer) 0xc000 then err corrupt else ok (take 0xc000 buffer, drop 0xc000 buffer))
read_v1_block buffer true = elim (find_marker seen0 0 buffer) [
  | none ↦ some (err corrupt)
  | some n ↦ do
    uncompressed ← uncompress_block (take (n - 4) buffer)
    some (if length uncompressed == 0xc000 then ok (uncompressed, drop n buffer) else err corrupt)
]
