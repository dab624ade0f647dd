-- ===== src/Tzx/RoundTrip/Texts.antt =====
-- Texts and the descriptions of a tape, written and read again.
use libspectrum.Base.{
  ℕ, suc, ◌+◌, ◌*◌, ◌^◌, ◌<◌, ◌≡◌, refl, ap, sym, ◌∙◌, arith, ltb, le→ltb, false,
}
use libspectrum.Base.{
  List, [], ◌∷◌, ◌++◌, length, length-append, All, take, take_all, take-append, drop-append, drop,
  append_assoc, ok,
}
use libspectrum.Bytes.{write_word}
use libspectrum.Tape.Next.{group_start, comment, archive_info, hardware, custom}
use libspectrum.Tzx.Fields.{tzx_write_string, tzx_write_bytes}
use libspectrum.Tzx.Read.{
  tzx_read_group_start, tzx_read_comment, read_strings, tzx_read_archive_info, read_entries,
  tzx_read_hardware, tzx_read_custom,
}
use libspectrum.Tzx.Write.{
  tzx_write_group_start, tzx_write_comment, string_bytes, tzx_write_archive_info, entry_bytes,
  tzx_write_hardware, tzx_write_custom,
}
use libspectrum.Tzx.RoundTrip.Pieces.{
  IsString, byte_lem, read_string-write_string, read_data-write_bytes,
}

pub read_group_start-write_group_start :
    (name rest : List ℕ)
    → IsString name
    → tzx_read_group_start (drop 1 (tzx_write_group_start name) ++ rest)
      ≡ ok (group_start name, rest)
unfolding tzx_read_group_start tzx_write_group_start tzx_write_string
read_group_start-write_group_start name rest v = rw (
  le→ltb (length (drop 1 (tzx_write_group_start name) ++ rest)) 1 (omega arith),
  read_string-write_string name rest v,
)

pub read_comment-write_comment :
    (text rest : List ℕ)
    → IsString text
    → tzx_read_comment (drop 1 (tzx_write_comment text) ++ rest) ≡ ok (comment text, rest)
unfolding tzx_read_comment tzx_write_comment tzx_write_string
read_comment-write_comment text rest v = rw (
  le→ltb (length (drop 1 (tzx_write_comment text) ++ rest)) 1 (omega arith),
  read_string-write_string text rest v,
)

-- A string of the archive info.
abbrev pub IsNumbered : ℕ × List ℕ → Type 0
IsNumbered (id, text) = (id < 256) × IsString text

pub read_strings-string_bytes :
    (strings : List (ℕ × List ℕ)) (rest : List ℕ)
    → All IsNumbered strings
    → read_strings (length strings) (string_bytes strings ++ rest) ≡ ok (strings, rest)
unfolding read_strings tzx_write_string
read_strings-string_bytes [] rest v = refl
read_strings-string_bytes ((id, text) ∷ strings) rest ((h, t), v) =
    let behind = string_bytes strings ++ rest in
    rw (
      le→ltb (length (string_bytes ((id, text) ∷ strings) ++ rest)) 2 (omega arith),
      append_assoc (tzx_write_string text) (string_bytes strings) rest,
      read_string-write_string text behind t,
      read_strings-string_bytes strings rest v,
      byte_lem id h,
    )

pub read_archive_info-write_archive_info :
    (strings : List (ℕ × List ℕ)) (rest : List ℕ)
    → All IsNumbered strings
    → length strings < 256
    → tzx_read_archive_info (drop 1 (tzx_write_archive_info strings) ++ rest)
      ≡ ok (archive_info strings, rest)
unfolding tzx_read_archive_info tzx_write_archive_info write_word
read_archive_info-write_archive_info strings rest v n = rw (
  le→ltb (length (drop 1 (tzx_write_archive_info strings) ++ rest)) 3 (omega arith),
  byte_lem (length strings) n,
  read_strings-string_bytes strings rest v,
)

abbrev pub IsEntry : ℕ × ℕ × ℕ → Type 0
IsEntry (type, id, value) = (type < 256) × (id < 256) × (value < 256)

read_entries-entry_bytes :
    (entries : List (ℕ × ℕ × ℕ)) (rest : List ℕ)
    → All IsEntry entries
    → (read_entries (length entries) (entry_bytes entries ++ rest) ≡ entries)
      × (drop (3 * length entries) (entry_bytes entries ++ rest) ≡ rest)
      × (length (entry_bytes entries) ≡ 3 * length entries)
read_entries-entry_bytes [] rest v = (refl, refl, refl)
read_entries-entry_bytes ((type, id, value) ∷ entries) rest ((a, b, c), v) =
    let (read, left, size) = read_entries-entry_bytes entries rest v in
    let triple : 3 * suc (length entries) ≡ suc (suc (suc (3 * length entries))) = omega arith in
    (
      rw (byte_lem type a, byte_lem id b, byte_lem value c, read) refl,
      rw (triple, left) refl,
      omega (arith, size),
    )

pub read_hardware-write_hardware :
    (entries : List (ℕ × ℕ × ℕ)) (rest : List ℕ)
    → All IsEntry entries
    → length entries < 256
    → tzx_read_hardware (drop 1 (tzx_write_hardware entries) ++ rest) ≡ ok (hardware entries, rest)
unfolding tzx_read_hardware tzx_write_hardware
read_hardware-write_hardware entries rest v n =
    let (read, left, size) = read_entries-entry_bytes entries rest v in
    let enough : ltb (length (entry_bytes entries ++ rest)) (3 * length entries) ≡ false =
      le→ltb _ _ (omega (arith, size, length-append (entry_bytes entries) rest)) in
    rw (byte_lem (length entries) n, enough, read, left)

-- A description of 16 bytes.
pub read_custom-write_custom :
    (name bytes rest : List ℕ)
    → length name ≡ 16
    → length bytes < 2 ^ 32
    → tzx_read_custom (drop 1 (tzx_write_custom name bytes) ++ rest) ≡ ok (custom name bytes, rest)
unfolding tzx_read_custom tzx_write_custom tzx_write_bytes
read_custom-write_custom name bytes rest e n =
    let behind = tzx_write_bytes 4 bytes ++ rest in
    let whole : take 16 name ≡ name = take_all 16 name (omega arith) in
    let front : take 16 (name ++ behind) ≡ name =
      ap (λ k. take k (name ++ behind)) (sym e) ∙ take-append name behind in
    let left : drop 16 (name ++ behind) ≡ behind =
      ap (λ k. drop k (name ++ behind)) (sym e) ∙ drop-append name behind in
    let size : length (tzx_write_bytes 4 bytes ++ rest) ≡ 4 + length (bytes ++ rest) =
      omega arith in
    rw (
      whole,
      append_assoc name (tzx_write_bytes 4 bytes) rest,
      le→ltb (length (name ++ behind)) 20 (omega (arith, length-append name behind, size)),
      front,
      left,
      read_data-write_bytes 4 bytes rest n,
    )
