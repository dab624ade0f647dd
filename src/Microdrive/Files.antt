-- ===== src/Microdrive/Files.antt =====
-- The .mdr format: a cartridge that is written to a file is read back.
use libspectrum.Base.{ℕ, ◌+◌, ◌-◌, ◌*◌, ◌/◌, ◌%◌, ◌≤◌, ◌<◌, ◌≡◌, refl, ap, ◌∙◌, sym, arith}
use libspectrum.Base.{List, [], ◌∷◌, ◌++◌, length, take, drop, get_or, length-append, length-take}
use libspectrum.Base.{false, ◌||◌, ltb, ok}
use libspectrum.Base.Memory.{memcpy, length-memcpy}
use libspectrum.Base.Regions.{get_or-append, take-append_first, region-memcpy, take-drop-take}
use libspectrum.Bytes.{byte}
use libspectrum.Microdrive.{
  Microdrive, cartridge_length, mdr_length, block_start, get_block, mdr_read, mdr_write,
}
use libspectrum.Microdrive.Blocks.{parsed, parsed-take, parsed-block_start}

-- The blocks of two cartridges whose first bytes are the same.
same_blocks :
    (md md' : Microdrive) (n which : ℕ)
    → take (n * 543) md'.bytes ≡ take (n * 543) md.bytes
    → which < n
    → get_block md' which ≡ get_block md which
same_blocks md md' n which e h =
    let inside : which * 543 + 543 ≤ n * 543 = omega arith in
    let region : take 543 (block_start md' which) ≡ take 543 (block_start md which) =
      sym (take-drop-take 543 (which * 543) (n * 543) md'.bytes inside)
      ∙ ap (λ l. take 543 (drop (which * 543) l)) e
      ∙ take-drop-take 543 (which * 543) (n * 543) md.bytes inside in
    parsed-block_start md' which
    ∙ sym (parsed-take _)
    ∙ ap parsed region
    ∙ parsed-take _
    ∙ sym (parsed-block_start md which)

read_back_bytes :
    (md target : Microdrive)
    → length md.bytes ≡ cartridge_length
    → 10 ≤ md.cartridge_len
    → md.cartridge_len ≤ 254
    → mdr_read target (mdr_write md)
      ≡ ok (record {
        bytes = memcpy target.bytes 0 (take (md.cartridge_len * 543) md.bytes);
        write_protect = byte md.write_protect;
        cartridge_len = md.cartridge_len;
      })
unfolding mdr_read mdr_write
read_back_bytes md target size low high =
    let n = md.cartridge_len * 543 in
    let front = take n md.bytes in
    let k : length front ≡ n = omega (arith, length-take n md.bytes) in
    let all : length (front ++ (byte md.write_protect ∷ [])) ≡ n + 1 =
      omega (arith, length-append front (byte md.write_protect ∷ [])) in
    let rest : (n + 1) % 543 ≡ 1 = omega arith in
    let start : n + 1 - 1 ≡ n = omega arith in
    let fits : (ltb (n + 1) 5430 || (ltb 1 1 || ltb mdr_length (n + 1))) ≡ false = ground arith in
    let here : get_or (front ++ (byte md.write_protect ∷ [])) n 0 ≡ byte md.write_protect =
      ap (λ i. get_or (front ++ (byte md.write_protect ∷ [])) i 0) {x = n} {y = n + 0} (omega arith)
      ∙ get_or-append n front (byte md.write_protect ∷ []) 0 0 k in
    let blocks : byte (n / 543) ≡ md.cartridge_len = omega arith in
    rw (
      all,
      rest,
      start,
      fits,
      take-append_first n front (byte md.write_protect ∷ []) k,
      here,
      blocks,
    )

-- A cartridge of 10 to 254 blocks that is written to a .mdr file is read back into any cartridge
-- without an error: its blocks, its length, and its write protection as a byte.
pub mdr_read-mdr_write :
    (md target : Microdrive)
    → length md.bytes ≡ cartridge_length
    → length target.bytes ≡ cartridge_length
    → 10 ≤ md.cartridge_len
    → md.cartridge_len ≤ 254
    → (md' : Microdrive) × (mdr_read target (mdr_write md) ≡ ok md')
      × ((which : ℕ) → which < md.cartridge_len → get_block md' which ≡ get_block md which)
      × (md'.cartridge_len ≡ md.cartridge_len)
      × (md'.write_protect ≡ byte md.write_protect)
mdr_read-mdr_write md target size room low high =
    let n = md.cartridge_len * 543 in
    let front = take n md.bytes in
    let k : length front ≡ n = omega (arith, length-take n md.bytes) in
    let copied : take n (memcpy target.bytes 0 front) ≡ front =
      ap (λ m. take m (memcpy target.bytes 0 front)) (sym k)
      ∙ region-memcpy 0 target.bytes front (omega arith) in
    let md' : Microdrive = record {
      bytes = memcpy target.bytes 0 front;
      write_protect = byte md.write_protect;
      cartridge_len = md.cartridge_len;
    } in
    (
      md',
      read_back_bytes md target size low high,
      λ which h. same_blocks md md' md.cartridge_len which copied h,
      refl,
      refl,
    )

-- Reading a file never changes the size of the cartridge's storage, and gives it 10 to 254 blocks.
pub mdr_read_bounds :
    (md md' : Microdrive) (buffer : List ℕ)
    → mdr_read md buffer ≡ ok md'
    → (length md'.bytes ≡ length md.bytes) × (10 ≤ md'.cartridge_len) × (md'.cartridge_len ≤ 254)
unfolding mdr_read
mdr_read_bounds md md' buffer e =
    ground (arith, length-memcpy md.bytes 0 (take (length buffer - length buffer % 543) buffer))
