-- ===== src/Hdf.antt =====
-- Sectors of an HDF disk image behind a write cache: `libspectrum_ide_read_sector_from_hdf` and
-- `libspectrum_ide_write_sector_to_hdf` of ide.c, which the IDE channel and the MMC card share.
-- The file is read by the C library, and the cache is a `GHashTable`: both are parameters, with
-- what their documentation says of the calls that are made.
pub mod Laws
use libspectrum.Base.{ℕ, zero, suc, ◌+◌, ◌*◌, ◌≡◌, Bool, true, false, ◌==◌, if◌then◌else◌}
use libspectrum.Base.{List, [], ◌∷◌, Option, none, some, length, take}
use libspectrum.Bytes.{dword}
use libspectrum.Base.Partial.{◌>>=◌}

pub record Host : Type 1 where
  -- A `FILE *` that is open, and the bytes that `fseek` to a position and `fread` of a number of
  -- bytes give: `none` if either fails.
  pub File : Type 0
  pub read_at : File → ℕ → ℕ → Option (List ℕ)
  pub length-read_at :
      (f : File) (position n : ℕ) (bytes : List ℕ)
      → read_at f position n ≡ some bytes
      → length bytes ≡ n
  -- A hash table from sector numbers to sectors.
  pub Table : Type 0
  pub empty : Table
  pub lookup : Table → ℕ → Option (List ℕ)
  pub insert : Table → ℕ → List ℕ → Table
  pub lookup-empty : (k : ℕ) → lookup empty k ≡ none
  pub lookup-insert :
      (t : Table) (k j : ℕ) (v : List ℕ)
      → lookup (insert t k v) j ≡ (if k == j then some v else lookup t j)

module _ (host : Host) where
  open host use {File, read_at, Table, lookup, insert}

  -- The fields of `libspectrum_ide_drive` that the sector functions use.
  pub record Drive : Type 0 where
    pub disk : Option File
    pub data_offset : ℕ
    pub sector_size : ℕ
    pub cylinders : ℕ
    pub heads : ℕ
    pub sectors : ℕ

-- `dest[ i*2 ] = buffer[ i ]; dest[ i*2 + 1 ] = 0xff`
unfoldable pub unpack : List ℕ → List ℕ
unpack [] = []
unpack (b ∷ bytes) = b ∷ 0xff ∷ unpack bytes

-- `buffer[i] = src[ i * 2 ]`
unfoldable pub pack : List ℕ → List ℕ
pack [] = []
pack (b ∷ []) = b ∷ []
pack (b ∷ c ∷ bytes) = b ∷ pack bytes

-- What 512 bytes of `dest` are filled with from a sector as the file and the cache hold it.
unfoldable pub sector_out : ℕ → List ℕ → List ℕ
unfolding unpack
sector_out sector_size buffer =
    if sector_size == 256 then unpack (take 256 buffer) else take 512 buffer

unfoldable pub sector_in : ℕ → List ℕ → List ℕ
unfolding pack
sector_in sector_size src = if sector_size == 256 then pack (take 512 src) else take 512 src

module _ (host : Host) where
  open host use {File, read_at, Table, lookup, insert}

  -- The product and the sum are of a word and a dword, so they keep 32 bits; the `long` that they
  -- are assigned to may be wider.
  unfoldable pub sector_position : Drive host → ℕ → ℕ
  sector_position drv sector_number = dword (drv.data_offset + drv.sector_size * sector_number)

  -- `none` is the error result. The callers have checked that there is a disk.
  unfoldable pub read_sector : Drive host → Table → ℕ → Option (List ℕ)
  unfolding sector_out sector_position
  read_sector drv cache sector_number =
      let from_disk = λ (f : File). read_at f (sector_position drv sector_number) drv.sector_size in
      do
        buffer ← elim (lookup cache sector_number) [
          | some cached ↦ some cached
          | none ↦ drv.disk >>= from_disk
        ]
        some (sector_out drv.sector_size buffer)

  unfoldable pub write_sector : Drive host → Table → ℕ → List ℕ → Table
  unfolding sector_in
  write_sector drv cache sector_number src =
      insert cache sector_number (sector_in drv.sector_size src)
