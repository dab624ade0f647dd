-- ===== src/Bytes/Laws.antt =====
-- What is written as a word or a dword is read back, whatever follows it in the buffer.
use libspectrum.Base.{ℕ, ◌+◌, ◌*◌, ◌^◌, ◌≤◌, ◌<◌, ◌≡◌, ap, arith, ◌⊎◌}
use libspectrum.Base.{List, [], ◌∷◌, ◌++◌, some, All}
use libspectrum.Base.Bits.{IsByte}
use libspectrum.Bytes.{read_word, read_dword, write_word, write_dword, make_room}

-- `libspectrum_read_word` returns the word that `libspectrum_write_word` stored, and leaves the
-- bytes behind it.
pub read_word-write_word :
    (w : ℕ) (rest : List ℕ) → w < 2 ^ 16 → read_word (write_word w ++ rest) ≡ some (w, rest)
unfolding read_word write_word
read_word-write_word w rest h = ground arith

-- `libspectrum_read_dword` returns the dword that `libspectrum_write_dword` stored, and leaves the
-- bytes behind it.
pub read_dword-write_dword :
    (d : ℕ) (rest : List ℕ) → d < 2 ^ 32 → read_dword (write_dword d ++ rest) ≡ some (d, rest)
unfolding read_dword write_dword
read_dword-write_dword d rest h = ap (λ (v : ℕ). some (v, rest)) (omega arith)

-- Conversely the bytes that a word is read from are those that it is written as.
pub write_word-read_word :
    (buffer rest : List ℕ) (w : ℕ)
    → All IsByte buffer
    → read_word buffer ≡ some (w, rest)
    → buffer ≡ write_word w ++ rest
unfolding read_word write_word
write_word-read_word [] rest w h e = ground arith
write_word-read_word (a ∷ []) rest w h e = ground arith
write_word-read_word (a ∷ b ∷ buffer) rest w h e = ground arith

pub write_word-IsByte : (w : ℕ) → All IsByte (write_word w)
unfolding write_word
write_word-IsByte w = omega arith

-- With the pointer inside the allocation, and a sum of its position and the request that fits
-- 64 bits, `libspectrum_make_room` leaves room for what is requested, never shrinks the allocation,
-- and where it grows one below 2 ^ 63, at least doubles it.
pub make_room_lem :
    (allocated current requested : ℕ)
    → current ≤ allocated
    → current + requested < 2 ^ 64
    → (current + requested ≤ make_room allocated current requested)
      × (allocated ≤ make_room allocated current requested)
      × ((make_room allocated current requested ≡ allocated)
          ⊎ (2 * allocated ≤ make_room allocated current requested)
          ⊎ (2 ^ 63 ≤ allocated))
unfolding make_room
make_room_lem allocated current requested h fits = ground arith
