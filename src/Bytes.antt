-- ===== src/Bytes.antt =====
-- Words and dwords in a byte buffer, lowest byte first: the end of libspectrum.c, and
-- `libspectrum_make_room` above them. A pointer into a buffer is the list of the bytes from it on.
pub mod Laws
mod Runs
use libspectrum.Base.{ℕ, ◌+◌, ◌*◌, ◌/◌, ◌%◌, ◌^◌, Bool, true, false, leb, ltb, if◌then◌else◌, ◌==◌}
use libspectrum.Base.{List, [], ◌∷◌, ◌++◌, Option, none, some}

-- `libspectrum_word` and `libspectrum_dword` keep 16 and 32 bits.
abbrev pub word : ℕ → ℕ
word n = n % 2 ^ 16

abbrev pub dword : ℕ → ℕ
dword n = n % 2 ^ 32

-- `libspectrum_byte`, what an assignment to one keeps.
abbrev pub byte : ℕ → ℕ
byte n = n % 256

-- `none` is a read past the end of the buffer, which the C code does not check.
unfoldable pub read_word : List ℕ → Option (ℕ × List ℕ)
read_word (a ∷ b ∷ buffer) = some (word (a + b * 0x100), buffer)
read_word _ = none

unfoldable pub read_dword : List ℕ → Option (ℕ × List ℕ)
read_dword (a ∷ b ∷ c ∷ d ∷ buffer) =
    some (dword (a + b * 0x100 + c * 0x10000 + d * 0x1000000), buffer)
read_dword _ = none

-- The bytes that are stored at the pointer, which moves behind them.
unfoldable pub write_word : ℕ → List ℕ
write_word w = w % 0x100 ∷ byte (w / 0x100) ∷ []

-- `( d & 0x0000ff00 ) >> 8` is the second byte of `d`, and so on.
unfoldable pub write_dword : ℕ → List ℕ
write_dword d =
    d % 0x100 ∷ (d / 0x100) % 0x100 ∷ (d / 0x10000) % 0x100 ∷ (d / 0x1000000) % 0x100 ∷ []

-- Addition and doubling of `size_t`.
abbrev pub add_size : ℕ → ℕ → ℕ
add_size a b = (a + b) % 2 ^ 64

abbrev pub double_size : ℕ → ℕ
double_size a = 2 * a % 2 ^ 64

-- The new value of `*allocated`: the position `current_length` of the pointer must have room for
-- `requested` more bytes. With nothing allocated the pointer is at the start.
unfoldable pub make_room : ℕ → ℕ → ℕ → ℕ
make_room allocated current_length requested =
    let needed = add_size current_length requested in
    if allocated == 0
    then requested
    else if leb needed allocated
    then allocated
    else if ltb (double_size allocated) needed
    then needed
    else double_size allocated
