-- ===== src/Tzx/RoundTrip/Selections.antt =====
-- Selections, which are written with a length that is too large.
use libspectrum.Base.{
  ℕ, ◌+◌, ◌*◌, ◌%◌, ◌<◌, ◌≡◌, refl, arith, ltb, le→ltb, lt→ltb, if◌then◌else◌, Bool-cases, inl, inr,
  ltb→lt, ltb→le,
}
use libspectrum.Base.{
  List, [], ◌∷◌, ◌++◌, length, length-append, All, drop, take_all, append_assoc, corrupt, ok, err,
}
use libspectrum.Bytes.{byte, write_word}
use libspectrum.Tape.Next.{select}
use libspectrum.Tzx.Fields.{tzx_write_string}
use libspectrum.Tzx.Read.{read_selections, tzx_read_select}
use libspectrum.Tzx.Write.{selection_bytes, text_bytes, tzx_write_select}
use libspectrum.Tzx.RoundTrip.Pieces.{
  IsWord, IsString, word_lem, byte_lem, length-file_text, read_string-write_string,
}

abbrev pub IsSelection : ℕ × List ℕ → Type 0
IsSelection (offset, text) = IsWord offset × IsString text

length-write_string :
    (text : List ℕ) → IsString text → length (tzx_write_string text) ≡ 1 + length text
unfolding tzx_write_string
length-write_string text (v, h) =
    let small : length text % 0x100 ≡ length text = omega arith in
    rw (small, take_all (length text) text (omega arith)) (omega (arith, length-file_text text))

length-selection_bytes :
    (choices : List (ℕ × List ℕ))
    → All IsSelection choices
    → length (selection_bytes choices) ≡ 3 * length choices + text_bytes choices
unfolding write_word
length-selection_bytes [] v = refl
length-selection_bytes ((offset, text) ∷ choices) ((h, t), v) = omega (
  arith,
  length-append (tzx_write_string text) (selection_bytes choices),
  length-write_string text t,
  length-selection_bytes choices v,
)

read_selections-selection_bytes :
    (choices : List (ℕ × List ℕ)) (rest : List ℕ)
    → All IsSelection choices
    → read_selections (length choices) (selection_bytes choices ++ rest) ≡ ok (choices, rest)
unfolding read_selections tzx_write_string write_word
read_selections-selection_bytes [] rest v = refl
read_selections-selection_bytes ((offset, text) ∷ choices) rest ((h, t), v) =
    let behind = selection_bytes choices ++ rest in
    rw (
      le→ltb (length (selection_bytes ((offset, text) ∷ choices) ++ rest)) 3 (omega arith),
      append_assoc (tzx_write_string text) (selection_bytes choices) rest,
      read_string-write_string text behind t,
      read_selections-selection_bytes choices rest v,
      word_lem offset h,
    )

-- Selections that a .tzx file can hold are read as they were written only where three bytes at least
-- stand behind them, as the length that is written is by three larger than what it is read as. Where
-- fewer bytes follow, so at the end of a file, the file is taken to be corrupt. The selections are at
-- most 255, with offsets of a word and texts of at most 255 bytes, which are not 0 or a carriage return,
-- and their length fits a word.
pub read_select-write_select :
    (choices : List (ℕ × List ℕ)) (rest : List ℕ)
    → All IsSelection choices
    → length choices < 256
    → IsWord (4 + 3 * length choices + text_bytes choices)
    → tzx_read_select (drop 1 (tzx_write_select choices) ++ rest)
      ≡ (if ltb (length rest) 3 then err corrupt else ok (select choices, rest))
unfolding tzx_read_select tzx_write_select write_word
read_select-write_select choices rest v n h =
    let said = 4 + 3 * length choices + text_bytes choices in
    let behind = byte (length choices) ∷ selection_bytes choices ++ rest in
    let size : length behind ≡ 1 + 3 * length choices + text_bytes choices + length rest =
      omega
        (arith, length-append (selection_bytes choices) rest, length-selection_bytes choices v) in
    rw
      (
        le→ltb (length (drop 1 (tzx_write_select choices) ++ rest)) 3 (omega (arith, size)),
        word_lem said h,
      )
      (elim (Bool-cases (ltb (length rest) 3)) [
        | inl e ↦
            let short =
              lt→ltb (length behind) said (omega (arith, size, ltb→lt (length rest) 3 e)) in
            rw (e, short) refl
        | inr e ↦
            let enough =
              le→ltb (length behind) said (omega (arith, size, ltb→le (length rest) 3 e)) in
            rw
              (
                e,
                enough,
                byte_lem (length choices) n,
                read_selections-selection_bytes choices rest v,
              )
              refl
      ])
