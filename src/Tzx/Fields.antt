-- ===== src/Tzx/Fields.antt =====
-- The pieces of a block of a .tzx file: numbers, data behind their length, and strings.
use libspectrum.Base.{ℕ, zero, suc, ◌+◌, ◌-◌, ◌*◌, ◌/◌, ◌%◌, ◌==◌, ltb, leb, ◌&&◌, if◌then◌else◌}
use libspectrum.Base.{
  List, [], ◌∷◌, ◌++◌, length, get_or, take, drop, corrupt, Result, ok, err, ◌>>=◌,
}
use libspectrum.Utilities.{Pause, set_pause_ms}

-- The first eight bytes of a file: `ZXTape!` and 0x1a.
abbrev pub tzx_signature : List ℕ
tzx_signature = 0x5a ∷ 0x58 ∷ 0x54 ∷ 0x61 ∷ 0x70 ∷ 0x65 ∷ 0x21 ∷ 0x1a ∷ []

-- `(*ptr)[i] + (*ptr)[i+1] * 0x100`
abbrev pub word_at : List ℕ → ℕ → ℕ
word_at buffer i = get_or buffer i 0 + get_or buffer (i + 1) 0 * 0x100

-- The number of so many bytes, the lowest first.
abbrev pub number : ℕ → List ℕ → ℕ
number zero buffer = 0
number (suc n) buffer = get_or buffer 0 0 + number n (drop 1 buffer) * 0x100

abbrev pub number_bytes : ℕ → ℕ → List ℕ
number_bytes zero n = []
number_bytes (suc k) n = n % 0x100 ∷ number_bytes k (n / 0x100)

-- Data behind their length of so many bytes, and what follows them.
unfoldable pub tzx_read_data : ℕ → List ℕ → Result (List ℕ × List ℕ)
tzx_read_data bytes buffer =
    let n = number bytes buffer in
    let rest = drop bytes buffer in
    if ltb (length rest) n then err corrupt else ok (take n rest, drop n rest)

unfoldable pub tzx_write_bytes : ℕ → List ℕ → List ℕ
tzx_write_bytes length_bytes bytes = number_bytes length_bytes (length bytes) ++ bytes

-- The string up to its first 0, with the line endings of C.
abbrev pub c_text : List ℕ → List ℕ
c_text [] = []
c_text (b ∷ bytes) =
    let rest = c_text bytes in if b == 0 then [] else (if b == 0x0d then 0x0a else b) ∷ rest

unfoldable pub tzx_read_string : List ℕ → Result (List ℕ × List ℕ)
unfolding tzx_read_data
tzx_read_string buffer = do (bytes, rest) ← tzx_read_data 1 buffer; ok (c_text bytes, rest)

-- With the line endings of the file.
abbrev pub file_text : List ℕ → List ℕ
file_text [] = []
file_text (b ∷ text) = (if b == 0x0a then 0x0d else b) ∷ file_text text

unfoldable pub tzx_write_string : List ℕ → List ℕ
tzx_write_string text = let n = length text % 0x100 in n ∷ file_text (take n text)

-- What `libspectrum_set_pause_ms` sets.
abbrev pub of_ms : ℕ → Pause
of_ms ms = set_pause_ms (record { pause = 0; pause_tstates = 0 }) ms

-- No bits in the last byte is one byte less, if there are so many bytes; more than 8 are 8.
abbrev pub last_bits : ℕ → ℕ → List ℕ → ℕ × List ℕ
last_bits least bits bytes =
    if bits == 0 && leb least (length bytes)
    then (8, take (length bytes - 1) bytes)
    else (if ltb 8 bits then 8 else bits, bytes)
