-- ===== src/Microdrive/Blocks.antt =====
-- Blocks of a cartridge: what `set_block` stores is what `get_block` returns.
use libspectrum.Base.{ℕ, ◌+◌, ◌*◌, ◌/◌, ◌%◌, ◌^◌, ◌≤◌, ◌<◌, ◌≡◌, refl, ap, ◌∙◌, sym, arith}
use libspectrum.Base.{
  List, [], ◌∷◌, ◌++◌, append_assoc, length, take, drop, get_or, length-append, length-take,
}
use libspectrum.Base.{inl, inr, ◌⊎◌, take-append-drop, take_all}
use libspectrum.Base.Regions.{
  get_or-append, drop-append_more, take-append_first, outside-memcpy, region-memcpy,
}
use libspectrum.Microdrive.{
  Microdrive, Block, block_len, cartridge_length, block_start, block_bytes,
}
use libspectrum.Base.{◌==◌, if◌then◌else◌, Bool-cases, ==→eq, ==→ne, ltb, ltb→lt, ltb→le}
use libspectrum.Base.Regions.{get_or-take, take-drop-take}
use libspectrum.Microdrive.{get_block, set_block}

-- The fields of a block fit their places.
pub record BlockIsValid (b : Block) : Type 0 where
  pub hdblen_word : b.hdblen < 2 ^ 16
  pub reclen_word : b.reclen < 2 ^ 16
  pub hdbnam_size : length b.hdbnam ≡ 11
  pub hdbnam_ends : take 10 b.hdbnam ++ (0 ∷ []) ≡ b.hdbnam
  pub recnam_size : length b.recnam ≡ 11
  pub recnam_ends : take 10 b.recnam ++ (0 ∷ []) ≡ b.recnam
  pub bytes_size : length b.bytes ≡ 512

-- The bytes of a block in front of others.
abbrev pub laid_out : Block → List ℕ → List ℕ
laid_out b rest =
    b.hdflag ∷ b.hdbnum ∷ b.hdblen % 0x100 ∷ b.hdblen / 0x100 ∷ take 10 b.hdbnam
    ++ (b.hdchks ∷ b.recflg ∷ b.recnum ∷ b.reclen % 0x100 ∷ b.reclen / 0x100 ∷ take 10 b.recnam
        ++ (b.rechks ∷ take 512 b.bytes ++ (b.datchk ∷ rest)))

pub block_bytes-laid_out : (b : Block) (rest : List ℕ) → block_bytes b ++ rest ≡ laid_out b rest
unfolding block_bytes
block_bytes-laid_out b rest =
    let name = take 10 b.hdbnam in
    let record_name = take 10 b.recnam in
    let bytes = take 512 b.bytes in
    rw (append_assoc name _ rest, append_assoc record_name _ rest, append_assoc bytes _ rest)

length-block_bytes : (b : Block) → BlockIsValid b → length (block_bytes b) ≡ 543
unfolding block_bytes
length-block_bytes b v =
    let tail = b.rechks ∷ take 512 b.bytes ++ (b.datchk ∷ []) in
    let half =
      b.hdchks ∷ b.recflg ∷ b.recnum ∷ b.reclen % 0x100 ∷ b.reclen / 0x100 ∷ take 10 b.recnam
      ++ tail in
    omega (
      arith,
      length-append (take 10 b.hdbnam) half,
      length-append (take 10 b.recnam) tail,
      length-append (take 512 b.bytes) (b.datchk ∷ []),
      length-take 10 b.hdbnam,
      length-take 10 b.recnam,
      length-take 512 b.bytes,
      v.hdbnam_size,
      v.recnam_size,
      v.bytes_size,
    )

-- The block that `get_block` makes of the bytes from a block's start on.
abbrev pub parsed : List ℕ → Block
parsed d = get_block (record { bytes = d; write_protect = 0; cartridge_len = 0 }) 0

parsed-laid_out : (b : Block) (rest : List ℕ) → BlockIsValid b → parsed (laid_out b rest) ≡ b
unfolding get_block
parsed-laid_out b rest v =
    let name = take 10 b.hdbnam in
    let record_name = take 10 b.recnam in
    let n : length name ≡ 10 = omega (arith, length-take 10 b.hdbnam, v.hdbnam_size) in
    let m : length record_name ≡ 10 = omega (arith, length-take 10 b.recnam, v.recnam_size) in
    let whole : take 512 b.bytes ≡ b.bytes = take_all 512 b.bytes (omega (arith, v.bytes_size)) in
    let tail = b.rechks ∷ take 512 b.bytes ++ (b.datchk ∷ rest) in
    let half =
      b.hdchks ∷ b.recflg ∷ b.recnum ∷ b.reclen % 0x100 ∷ b.reclen / 0x100 ∷ record_name ++ tail in
    let size : length (take 512 b.bytes) ≡ 512 = ap length whole ∙ v.bytes_size in
    let first = name ++ half in
    let second = record_name ++ tail in
    let field = λ (k : ℕ). get_or-append 10 name half k 0 n in
    let behind = λ (k : ℕ). get_or-append 10 record_name tail k 0 m in
    let third : get_or second 523 0 ≡ b.datchk =
      behind 513 ∙ get_or-append 512 (take 512 b.bytes) (b.datchk ∷ rest) 0 0 size in
    let name' : take 10 first ++ (0 ∷ []) ≡ b.hdbnam =
      ap (λ l. l ++ (0 ∷ [])) (take-append_first 10 name half n) ∙ v.hdbnam_ends in
    let record_name' : take 10 (drop 15 first) ++ (0 ∷ []) ≡ b.recnam =
      ap (λ l. take 10 l ++ (0 ∷ [])) (drop-append_more 10 name half 5 n)
      ∙ ap (λ l. l ++ (0 ∷ [])) (take-append_first 10 record_name tail m)
      ∙ v.recnam_ends in
    let bytes' : take 512 (drop 26 first) ≡ b.bytes =
      ap (take 512) (drop-append_more 10 name half 16 n ∙ drop-append_more 10 record_name tail 1 m)
      ∙ take-append_first 512 (take 512 b.bytes) (b.datchk ∷ rest) size
      ∙ whole in
    let hdblen' : b.hdblen % 0x100 + b.hdblen / 0x100 * 0x100 ≡ b.hdblen = omega arith in
    let reclen' : b.reclen % 0x100 + b.reclen / 0x100 * 0x100 ≡ b.reclen = omega arith in
    rw (
      name',
      record_name',
      bytes',
      hdblen',
      field 0,
      field 1,
      field 2,
      field 3,
      field 4,
      field 15 ∙ behind 0,
      field 528 ∙ third,
      reclen',
    )

-- `get_block` reads the 543 bytes of its block and no more.
pub parsed-take : (d : List ℕ) → parsed (take 543 d) ≡ parsed d
unfolding get_block
parsed-take d =
    let at = λ (k : ℕ) (h : k < 543). get_or-take 543 k d 0 h in
    let region = λ (n j : ℕ) (h : j + n ≤ 543). take-drop-take n j 543 d h in
    rw (
      at 0 (omega arith),
      at 1 (omega arith),
      at 2 (omega arith),
      at 3 (omega arith),
      at 14 (omega arith),
      at 15 (omega arith),
      at 16 (omega arith),
      at 17 (omega arith),
      at 18 (omega arith),
      at 29 (omega arith),
      at 542 (omega arith),
      region 10 4 (omega arith),
      region 10 19 (omega arith),
      region 512 30 (omega arith),
    )

pub parsed-block_start :
    (md : Microdrive) (which : ℕ) → get_block md which ≡ parsed (block_start md which)
unfolding get_block
parsed-block_start md which = refl

-- The bytes of a block after `set_block`.
pub stored_bytes :
    (md : Microdrive) (which : ℕ) (b : Block)
    → length md.bytes ≡ cartridge_length
    → BlockIsValid b
    → which < 254
    → take 543 (block_start (set_block md which b) which) ≡ block_bytes b
unfolding set_block
stored_bytes md which b size v h =
    let n = length-block_bytes b v in
    ap (λ m. take m (block_start (set_block md which b) which)) (sym n)
    ∙ region-memcpy (which * block_len) md.bytes (block_bytes b) (omega arith)

-- On a cartridge of 254 blocks, a block whose fields fit their places and which was stored at a
-- number below 254 is the one returned for its number, and for every other number the block that
-- stood there before is returned.
pub get_block-set_block :
    (md : Microdrive) (which other : ℕ) (b : Block)
    → length md.bytes ≡ cartridge_length
    → BlockIsValid b
    → which < 254
    → get_block (set_block md which b) other ≡ (if other == which then b else get_block md other)
get_block-set_block md which other b size v h =
    let md' = set_block md which b in
    elim (Bool-cases (other == which)) [
      | inl same ↦
          let e : other ≡ which = ==→eq other which same in
          let d = block_start md' which in
          let split : d ≡ laid_out b (drop 543 d) =
            sym (take-append-drop 543 d)
            ∙ ap (λ l. l ++ drop 543 d) (stored_bytes md which b size v h)
            ∙ block_bytes-laid_out b (drop 543 d) in
          rw same (
            ap (get_block md') e
            ∙ parsed-block_start md' which
            ∙ ap parsed split
            ∙ parsed-laid_out b _ v)
      | inr different ↦
          let ne = ==→ne other which different in
          let n = length-block_bytes b v in
          let apart : (other * 543 + 543 ≤ which * 543)
              ⊎ (which * 543 + length (block_bytes b) ≤ other * 543) =
            elim (Bool-cases (ltb other which)) [
              | inl below ↦ let l = ltb→lt other which below in inl (omega arith)
              | inr above ↦ let l = ltb→le other which above in inr (omega arith)
            ] in
          let same : take 543 (block_start md' other) ≡ take 543 (block_start md other) =
            unfold set_block in
            outside-memcpy 543 (other * 543) (which * 543) md.bytes (block_bytes b) apart in
          rw different (
            parsed-block_start md' other
            ∙ sym (parsed-take _)
            ∙ ap parsed same
            ∙ parsed-take _
            ∙ sym (parsed-block_start md other))
    ]
