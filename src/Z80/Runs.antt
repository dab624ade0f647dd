-- ===== src/Z80/Runs.antt =====
-- Concrete runs of the page code, and its theorems at concrete inputs.
use libspectrum.Base.{ℕ, ◌*◌, ◌≤◌, ◌≡◌, refl, arith, true, List, [], ◌∷◌, ◌++◌, none, some, ok}
use libspectrum.Base.{◌≢◌, length, replicate, length-replicate}
use libspectrum.Z80.Compress.{compress_block, uncompress_block}
use libspectrum.Z80.Pages.{write_page, read_v2_block, page, find_marker, seen0, read_v1_block}
use libspectrum.Z80.RoundTrip.{uncompress_block-compress_block}
use libspectrum.Z80.PageLaws.{read_v2_block-write_page}
use libspectrum.Z80.Marker.{end_marker, read_v1_block-compress_block, compress_block-end_marker}

-- A single 0xed keeps the run behind it from being coded at once.
abbrev sample : List ℕ
sample = 1 ∷ 1 ∷ 1 ∷ 1 ∷ 1 ∷ 0xed ∷ 2 ∷ 2 ∷ 2 ∷ 2 ∷ 2 ∷ 2 ∷ 0xed ∷ 0xed ∷ 3 ∷ []

abbrev coded : List ℕ
coded = 0xed ∷ 0xed ∷ 5 ∷ 1 ∷ 0xed ∷ 2 ∷ 0xed ∷ 0xed ∷ 5 ∷ 2 ∷ 0xed ∷ 0xed ∷ 2 ∷ 0xed ∷ 3 ∷ []

compress_sample : compress_block sample ≡ some coded
unfolding compress_block
compress_sample = refl

uncompress_cut : uncompress_block (0xed ∷ 0xed ∷ 5 ∷ []) ≡ none
unfolding uncompress_block
uncompress_cut = refl

find_marker_overlap : find_marker seen0 0 (0 ∷ 0xed ∷ 0 ∷ 0 ∷ 0xed ∷ 0xed ∷ 0 ∷ 9 ∷ []) ≡ some 7
unfolding find_marker
find_marker_overlap = refl

uncompress_block-compress_block_example :
    (out : List ℕ) × (compress_block sample ≡ some out)
    × (uncompress_block out ≡ some sample)
    × (length out ≤ 2 * length sample)
uncompress_block-compress_block_example = uncompress_block-compress_block sample

compress_block-end_marker_example :
    (coded ≢ [] ++ (end_marker ++ [])) × (coded ≢ [] ++ (0 ∷ 0xed ∷ 0xed ∷ []))
compress_block-end_marker_example = compress_block-end_marker sample coded [] [] compress_sample

read_v2_block-write_page_example :
    (out : List ℕ) × (write_page 8 (replicate 0x4000 7) 1 ≡ some out)
    × ((rest : List ℕ) → read_v2_block (out ++ rest) ≡ some (page (replicate 0x4000 7) 8 rest))
read_v2_block-write_page_example =
    read_v2_block-write_page 8 (replicate 0x4000 7) 1 (omega arith) (omega arith)
      (length-replicate {A = ℕ} 0x4000 7)

read_v1_block-compress_block_example :
    (out : List ℕ) × (compress_block (replicate 0xc000 0) ≡ some out)
    × (read_v1_block (out ++ (end_marker ++ (1 ∷ []))) true
        ≡ some (ok (replicate 0xc000 0, 1 ∷ [])))
read_v1_block-compress_block_example =
    read_v1_block-compress_block (replicate 0xc000 0) (1 ∷ []) (length-replicate {A = ℕ} 0xc000 0)
