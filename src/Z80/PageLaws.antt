-- ===== src/Z80/PageLaws.antt =====
-- A page block that `write_page` wrote is read back by `read_v2_block`.
use libspectrum.Base.{ℕ, ◌+◌, ◌*◌, ◌/◌, ◌%◌, ◌^◌, ◌≤◌, ◌<◌, ◌≡◌, ◌∙◌, arith}
use libspectrum.Base.{false, ◌&&◌, not, leb, ltb, ◌==◌, ap₂, le→ltb, ne→==, Bool-cases, inl, inr}
use libspectrum.Base.{List, ◌∷◌, ◌++◌, some, length, length-append, take-append, drop-append}
use libspectrum.Bytes.{byte, write_word}
use libspectrum.Z80.Compress.{uncompress_block}
use libspectrum.Z80.RoundTrip.{uncompress_block-compress_block}
use libspectrum.Z80.Pages.{always_compress, write_page, page, read_v2_block, read_page_data}

-- A header whose length and page number are not both 0 is read as that of a page.
read_header :
    (n length2 : ℕ) (bytes : List ℕ)
    → n < 256
    → 1 ≤ n
    → length2 < 2 ^ 16
    → read_v2_block (write_word length2 ++ (byte n ∷ bytes))
      ≡ read_page_data length2 n bytes (write_word length2 ++ (byte n ∷ bytes))
unfolding read_v2_block write_word
read_header n length2 bytes h k l =
    let size : length2 % 0x100 + byte (length2 / 0x100) * 0x100 ≡ length2 = omega arith in
    let number : byte n ≡ n = omega arith in
    let page1 : (n == 0) ≡ false = ne→== _ _ (omega arith) in
    elim (Bool-cases (length2 == 0)) [
      | inl none_left ↦ rw (size, number, page1, none_left)
      | inr some_left ↦ rw (size, number, page1, some_left)
    ]

stored_back :
    (n : ℕ) (image rest : List ℕ)
    → n < 256
    → 1 ≤ n
    → length image ≡ 0x4000
    → read_v2_block (write_word 0xffff ++ (byte n ∷ image ++ rest)) ≡ some (page image n rest)
stored_back n image rest h k l =
    let room : ltb (length (image ++ rest)) 0x4000 ≡ false =
      le→ltb _ _ (omega (arith, length-append image rest)) in
    read_header n 0xffff (image ++ rest) h k (omega arith)
    ∙ rw room (
        ap₂ (λ p r. some (page p n r)) (rw l at (take-append image rest))
          (rw l at (drop-append image rest)))

compressed_back :
    (n : ℕ) (image out rest : List ℕ)
    → n < 256
    → 1 ≤ n
    → length out < 0xffff
    → uncompress_block out ≡ some image
    → read_v2_block (write_word (length out) ++ (byte n ∷ out ++ rest)) ≡ some (page image n rest)
compressed_back n image out rest h k l e =
    let size = length out in
    let other : (size == 0xffff) ≡ false = ne→== _ _ (omega arith) in
    let room : ltb (length (out ++ rest)) size ≡ false =
      le→ltb _ _ (omega (arith, length-append out rest)) in
    read_header n size (out ++ rest) h k (omega arith)
    ∙ rw (other, room, take-append, drop-append, e)

-- The block that `write_page` stores for a page of 16K with a number from 1 to 255 is read back by
-- `read_v2_block` as that page and its number, with the pointer at what follows, whether the page
-- was compressed or not.
pub read_v2_block-write_page :
    (n : ℕ) (image : List ℕ) (compress : ℕ)
    → n < 256
    → 1 ≤ n
    → length image ≡ 0x4000
    → (out : List ℕ) × (write_page n image compress ≡ some out)
      × ((rest : List ℕ) → read_v2_block (out ++ rest) ≡ some (page image n rest))
unfolding write_page write_word
read_v2_block-write_page n image compress h k l =
    let (c, e, back, short) = uncompress_block-compress_block image in
    elim (Bool-cases (compress == 0)) [
      | inl plain ↦
          (write_word 0xffff ++ (byte n ∷ image), rw plain, λ rest. stored_back n image rest h k l)
      | inr packed ↦ elim (Bool-cases (not (always_compress compress) && leb 0x4000 (length c))) [
        | inl long ↦ (
          write_word 0xffff ++ (byte n ∷ image),
          rw (packed, e, long),
          λ rest. stored_back n image rest h k l,
        )
        | inr kept ↦
            let size : length c % 2 ^ 16 ≡ length c = omega arith in
            (
              write_word (length c) ++ (byte n ∷ c),
              rw (packed, e, kept, size),
              λ rest. compressed_back n image c rest h k (omega arith) back,
            )
      ]
    ]
