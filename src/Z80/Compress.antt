-- ===== src/Z80/Compress.antt =====
-- `compress_block` and `uncompress_block` of z80.c. What lies between a pointer and the end of the
-- input is a list; the output is the list of the bytes stored. The room for it is made by
-- `libspectrum_make_room` before each store.
use libspectrum.Base.{ℕ, zero, suc, ◌+◌, Bool, true, false, ◌&&◌, ◌||◌, not, ltb, leb, ◌==◌}
use libspectrum.Base.{if◌then◌else◌, List, [], ◌∷◌, ◌++◌, Option, none, some, length, replicate}
use libspectrum.Base.Partial.{◌>>=◌}
use libspectrum.Bytes.{byte}

-- The length of a run that has reached `n` bytes, capped at 255, and what follows it.
unfoldable pub run_tail : ℕ → ℕ → List ℕ → ℕ × List ℕ
run_tail repeated n [] = (n, [])
run_tail repeated n (x ∷ xs) =
    if x == repeated && ltb n 0xff then run_tail repeated (n + 1) xs else (n, x ∷ xs)

-- A run is stored in four bytes if it is long, or if it is one of 0xed.
unfoldable pub store_run : ℕ → ℕ → List ℕ
store_run n repeated =
    if leb 5 n || repeated == 0xed
    then 0xed ∷ 0xed ∷ byte n ∷ repeated ∷ []
    else replicate n repeated

-- `none` is a loop that has not ended after so many rounds.
unfoldable pub compress_loop : ℕ → List ℕ → Bool → Option (List ℕ)
unfolding run_tail store_run
compress_loop zero src last_char_ed = none
compress_loop (suc rounds) [] last_char_ed = some []
compress_loop (suc rounds) (x ∷ []) last_char_ed = some (x ∷ [])
compress_loop (suc rounds) (x ∷ y ∷ rest) last_char_ed = elim (x == y && not last_char_ed) [
  | true ↦ do
    out ← compress_loop rounds (run_tail x 2 rest).1 false
    some (store_run (run_tail x 2 rest).0 x ++ out)
  | false ↦ do out ← compress_loop rounds (y ∷ rest) (x == 0xed); some (x ∷ out)
]

-- Each round reads a byte at least, so one round more than there are bytes is enough.
unfoldable pub compress_block : List ℕ → Option (List ℕ)
unfolding compress_loop
compress_block src = compress_loop (suc (length src)) src false

-- `none` is a run whose count or byte lies behind the end of the input, which the C code reads.
unfoldable pub uncompress_block : List ℕ → Option (List ℕ)
uncompress_block [] = some []
uncompress_block (x ∷ []) = some (x ∷ [])
uncompress_block (x ∷ y ∷ []) = elim (x == 0xed && y == 0xed) [
  | true ↦ none
  | false ↦ some (x ∷ y ∷ [])
]
uncompress_block (x ∷ y ∷ n ∷ []) = elim (x == 0xed && y == 0xed) [
  | true ↦ none
  | false ↦ do out ← uncompress_block (y ∷ n ∷ []); some (x ∷ out)
]
uncompress_block (x ∷ y ∷ n ∷ repeated ∷ rest) = elim (x == 0xed && y == 0xed) [
  | true ↦ do out ← uncompress_block rest; some (replicate n repeated ++ out)
  | false ↦ do out ← uncompress_block (y ∷ n ∷ repeated ∷ rest); some (x ∷ out)
]
