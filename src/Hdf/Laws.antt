-- ===== src/Hdf/Laws.antt =====
-- The write cache hides the file: what was written to a sector is read from it.
use libspectrum.Base.{ℕ, zero, suc, ◌+◌, ◌*◌, ◌^◌, ◌≤◌, ◌≡◌, refl, ap, arith}
use libspectrum.Base.{Bool-cases, ◌==◌, inl, inr, List, [], ◌∷◌, none, some}
use libspectrum.Base.{length, take, take_all, if◌then◌else◌}
use libspectrum.Bytes.{dword}
use libspectrum.Hdf.{Host, Drive, unpack, pack, sector_out, sector_in, read_sector, write_sector}

-- The high bytes of the words of a sector are lost where the image keeps half of it.
abbrev pub halved : List ℕ → List ℕ
halved [] = []
halved (b ∷ []) = b ∷ 0xff ∷ []
halved (b ∷ c ∷ bytes) = b ∷ 0xff ∷ halved bytes

unpack-pack : (bytes : List ℕ) → unpack (pack bytes) ≡ halved bytes
unfolding unpack pack
unpack-pack [] = refl
unpack-pack (b ∷ []) = refl
unpack-pack (b ∷ c ∷ bytes) = ap (λ r. b ∷ 0xff ∷ r) (unpack-pack bytes)

-- Packing gives one byte for two.
length-pack : (bytes : List ℕ) (n : ℕ) → length bytes ≤ 2 * n → length (pack bytes) ≤ n
unfolding pack
length-pack [] n h = omega arith
length-pack (b ∷ []) n h = omega arith
length-pack (b ∷ c ∷ bytes) zero h = absurd (omega arith)
length-pack (b ∷ c ∷ bytes) (suc n) h = omega (arith, length-pack bytes n (omega arith))

-- A sector as a program sees it after writing it: whole, or without its high bytes.
abbrev pub as_read : ℕ → List ℕ → List ℕ
as_read sector_size src = if sector_size == 256 then halved src else src

length-halved : (bytes : List ℕ) (n : ℕ) → length bytes ≡ 2 * n → length (halved bytes) ≡ 2 * n
length-halved [] n h = omega arith
length-halved (b ∷ []) n h = absurd (omega arith)
length-halved (b ∷ c ∷ bytes) zero h = absurd (omega arith)
length-halved (b ∷ c ∷ bytes) (suc n) h = omega (arith, length-halved bytes n (omega arith))

pub length-as_read :
    (sector_size : ℕ) (src : List ℕ) → length src ≡ 512 → length (as_read sector_size src) ≡ 512
length-as_read sector_size src h = elim (Bool-cases (sector_size == 256)) [
  | inl small ↦ rw small (length-halved src 256 (omega arith))
  | inr large ↦ rw large h
]

pub sector_out-sector_in :
    (sector_size : ℕ) (src : List ℕ)
    → length src ≡ 512
    → sector_out sector_size (sector_in sector_size src) ≡ as_read sector_size src
unfolding sector_out sector_in
sector_out-sector_in sector_size src h =
    let whole : take 512 src ≡ src = take_all 512 src (omega arith) in
    elim (Bool-cases (sector_size == 256)) [
      | inl small ↦
          rw (small, whole, take_all 256 (pack src) (length-pack src 256 (omega arith)))
            (unpack-pack src)
      | inr large ↦ rw (large, whole, whole)
    ]

-- A sector of 512 bytes that was written is read back, without its odd bytes if the image keeps
-- half sectors, and every other sector reads as before.
pub read_sector-write_sector :
    (host : Host) (drv : Drive host) (cache : host.Table) (n m : ℕ) (src : List ℕ)
    → length src ≡ 512
    → read_sector host drv (write_sector host drv cache n src) m
      ≡ (if n == m then some (as_read drv.sector_size src) else read_sector host drv cache m)
unfolding read_sector write_sector
read_sector-write_sector host drv cache n m src h = elim (Bool-cases (n == m)) [
  | inl same ↦
      rw (host.lookup-insert cache n m (sector_in drv.sector_size src), same)
        (ap some (sector_out-sector_in drv.sector_size src h))
  | inr other ↦ rw (host.lookup-insert cache n m (sector_in drv.sector_size src), other)
]

-- The position of a sector is computed in 32 bits: on an image with sectors of 512 bytes, the
-- sector 2 ^ 23 further on is read from the same place of the file, where neither is cached.
pub read_sector_alias :
    (host : Host) (drv : Drive host) (cache : host.Table) (n : ℕ)
    → drv.sector_size ≡ 512
    → host.lookup cache n ≡ none
    → host.lookup cache (n + 2 ^ 23) ≡ none
    → read_sector host drv cache (n + 2 ^ 23) ≡ read_sector host drv cache n
unfolding read_sector
read_sector_alias host drv cache n size h k =
    let same : dword (drv.data_offset + 512 * (n + 2 ^ 23)) ≡ dword (drv.data_offset + 512 * n) =
      omega arith in
    rw (h, k, size, same)
