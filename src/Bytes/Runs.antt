-- ===== src/Bytes/Runs.antt =====
-- Concrete runs of the word readers and writers, and their theorems at concrete inputs.
use libspectrum.Base.{◌-◌, ◌^◌, ◌+◌, ◌*◌, ◌≤◌, ◌≡◌, refl, arith, ◌⊎◌}
use libspectrum.Base.{[], ◌∷◌, none}
use libspectrum.Bytes.{read_word, write_word, write_dword, make_room}
use libspectrum.Bytes.Laws.{make_room_lem}

word_bytes : write_word 0x1234 ≡ 0x34 ∷ 0x12 ∷ []
unfolding write_word
word_bytes = refl

dword_bytes : write_dword 0x12345678 ≡ 0x78 ∷ 0x56 ∷ 0x34 ∷ 0x12 ∷ []
unfolding write_dword
dword_bytes = refl

read_word_short : read_word (1 ∷ []) ≡ none
unfolding read_word
read_word_short = refl

make_room_lem_example :
    (90 + 20 ≤ make_room 100 90 20)
    × (100 ≤ make_room 100 90 20)
    × ((make_room 100 90 20 ≡ 100) ⊎ (2 * 100 ≤ make_room 100 90 20) ⊎ (2 ^ 63 ≤ 100))
make_room_lem_example = make_room_lem 100 90 20 (omega arith) (omega arith)

-- Where the sum wraps, no room is left.
make_room_wraps : make_room 100 1 (2 ^ 64 - 1) ≡ 100
unfolding make_room
make_room_wraps = refl
