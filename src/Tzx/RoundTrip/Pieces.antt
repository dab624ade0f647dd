-- ===== src/Tzx/RoundTrip/Pieces.antt =====
-- Numbers, data and strings that are written and read again.
use libspectrum.Base.{
  ℕ, zero, suc, ◌+◌, ◌*◌, ◌/◌, ◌%◌, ◌^◌, ◌≤◌, ◌<◌, ◌≡◌, ◌≢◌, refl, ap, sym, arith, ltb, le→ltb,
  ◌==◌, ne→==, false, Bool-cases, ==→eq, inl, inr,
}
use libspectrum.Base.{
  List, [], ◌∷◌, ◌++◌, length, drop, All, length-append, take-append, drop-append, append_assoc,
  take_all, Result, ok,
}
use libspectrum.Bytes.{byte, write_word}
use libspectrum.Utilities.{set_pause_ms}
use libspectrum.Tzx.Fields.{
  number, number_bytes, tzx_read_data, tzx_write_bytes, c_text, tzx_read_string, file_text,
  tzx_write_string, of_ms,
}
use libspectrum.Tzx.Read.{with_bytes, words}
use libspectrum.Tzx.Write.{word_bytes}

abbrev pub IsWord : ℕ → Type 0
IsWord n = n < 2 ^ 16

pub word_lem : (w : ℕ) → IsWord w → w % 0x100 + byte (w / 0x100) * 0x100 ≡ w
word_lem w h = omega arith

pub byte_lem : (n : ℕ) → n < 256 → byte n ≡ n
byte_lem n h = omega arith

pub with_bytes_lem :
    {A : Type 0} (n : ℕ) (buffer : List ℕ) (r : Result A)
    → n ≤ length buffer
    → with_bytes n buffer r ≡ r
with_bytes_lem n buffer r h = rw (le→ltb (length buffer) n h) refl

pub number_lem : (k n : ℕ) (rest : List ℕ) → n < 0x100 ^ k → number k (number_bytes k n ++ rest) ≡ n
number_lem zero n rest h = omega arith
number_lem (suc k) n rest h =
    let power : 0x100 ^ suc k ≡ 0x100 * 0x100 ^ k = omega arith in
    let small : n / 0x100 < 0x100 ^ k = omega (arith, power) in
    omega (arith, number_lem k (n / 0x100) rest small)

pub drop_number : (k n : ℕ) (rest : List ℕ) → drop k (number_bytes k n ++ rest) ≡ rest
drop_number zero n rest = refl
drop_number (suc k) n rest = drop_number k (n / 0x100) rest

pub length-number_bytes : (k n : ℕ) → length (number_bytes k n) ≡ k
length-number_bytes zero n = refl
length-number_bytes (suc k) n = ap suc (length-number_bytes k (n / 0x100))

-- Data are read as they were written, and leave what stands behind them.
pub read_data-write_bytes :
    (k : ℕ) (bytes rest : List ℕ)
    → length bytes < 0x100 ^ k
    → tzx_read_data k (tzx_write_bytes k bytes ++ rest) ≡ ok (bytes, rest)
unfolding tzx_read_data tzx_write_bytes
read_data-write_bytes k bytes rest h =
    let enough : ltb (length (bytes ++ rest)) (length bytes) ≡ false =
      le→ltb _ _ (omega (arith, length-append bytes rest)) in
    rw (
      append_assoc (number_bytes k (length bytes)) bytes rest,
      number_lem k (length bytes) (bytes ++ rest) h,
      drop_number k (length bytes) (bytes ++ rest),
      enough,
      take-append bytes rest,
      drop-append bytes rest,
    )

-- A text that can stand in a file: no byte is 0 or 0x0d.
abbrev pub IsText : List ℕ → Type 0
IsText text = All (λ b. (b ≢ 0) × (b ≢ 0x0d)) text

pub c_text-file_text : (text : List ℕ) → IsText text → c_text (file_text text) ≡ text
c_text-file_text [] v = refl
c_text-file_text (b ∷ text) ((z, r), v) = elim (Bool-cases (b == 0x0a)) [
  | inl e ↦ rw (e, c_text-file_text text v) (ap (λ (x : ℕ). x ∷ text) (sym (==→eq b 0x0a e)))
  | inr e ↦ rw (e, ne→== b 0 z, ne→== b 0x0d r, c_text-file_text text v) refl
]

pub length-file_text : (text : List ℕ) → length (file_text text) ≡ length text
length-file_text [] = refl
length-file_text (b ∷ text) = ap suc (length-file_text text)

-- A string that fits the byte of its length.
abbrev pub IsString : List ℕ → Type 0
IsString text = IsText text × (length text < 256)

pub read_string-write_string :
    (text rest : List ℕ)
    → IsString text
    → tzx_read_string (tzx_write_string text ++ rest) ≡ ok (text, rest)
unfolding tzx_read_string tzx_write_string tzx_read_data
read_string-write_string text rest (v, h) =
    let small : length text % 0x100 ≡ length text = omega arith in
    let size = length-file_text text in
    let same : length text + 0 * 0x100 ≡ length (file_text text) = omega (arith, size) in
    let enough : ltb (length (file_text text ++ rest)) (length (file_text text)) ≡ false =
      le→ltb _ _ (omega (arith, length-append (file_text text) rest)) in
    rw (
      small,
      take_all (length text) text (omega arith),
      same,
      enough,
      take-append (file_text text) rest,
      drop-append (file_text text) rest,
      c_text-file_text text v,
    )

-- A pause that a file keeps: it is a whole number of milliseconds.
abbrev pub IsPause : ℕ → ℕ → Type 0
IsPause ms tstates = IsWord ms × ((of_ms ms).pause_tstates ≡ tstates)

pub of_ms_lem : (ms : ℕ) → (of_ms ms).pause ≡ ms
unfolding set_pause_ms
of_ms_lem ms = refl

pub words-word_bytes :
    (ws rest : List ℕ)
    → All IsWord ws
    → (words (length ws) (word_bytes ws ++ rest) ≡ ws)
      × (drop (2 * length ws) (word_bytes ws ++ rest) ≡ rest)
      × (length (word_bytes ws) ≡ 2 * length ws)
unfolding write_word
words-word_bytes [] rest v = (refl, refl, refl)
words-word_bytes (w ∷ ws) rest (h, v) =
    let (read, left, size) = words-word_bytes ws rest v in
    let double : 2 * suc (length ws) ≡ suc (suc (2 * length ws)) = omega arith in
    (rw (word_lem w h, read) refl, rw (double, left) refl, omega (arith, size))
