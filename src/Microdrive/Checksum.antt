-- ===== src/Microdrive/Checksum.antt =====
-- The checksum of the Spectrum's ROM, which `DO_CHECK` computes as its machine code does.
use libspectrum.Base.{ℕ, ◌+◌, ◌%◌, ◌<◌, ◌≡◌, ◌∙◌, arith, List, [], ◌∷◌, All}
use libspectrum.Base.Bits.{IsByte}
use libspectrum.Microdrive.{do_check, check_all}

abbrev pub sum : List ℕ → ℕ
sum [] = 0
sum (b ∷ bytes) = b + sum bytes

do_check_lem : (c b : ℕ) → c < 255 → b < 256 → do_check c b ≡ (c + b) % 255
unfolding do_check
do_check_lem c b h k = ground arith

check_all-sum :
    (c : ℕ) (bytes : List ℕ)
    → c < 255
    → All IsByte bytes
    → check_all c bytes ≡ (c + sum bytes) % 255
unfolding check_all
check_all-sum c [] h k = omega arith
check_all-sum c (b ∷ bytes) h (k, ks) =
    let step = do_check_lem c b h k in
    let rest = check_all-sum (do_check c b) bytes (omega arith) ks in rest ∙ omega arith

-- The checksum of a list of bytes is their sum modulo 255, so that it is never 255.
pub check_all_lem :
    (bytes : List ℕ)
    → All IsByte bytes
    → (check_all 0 bytes ≡ sum bytes % 255) × (check_all 0 bytes < 255)
check_all_lem bytes h = let e = check_all-sum 0 bytes (omega arith) h in (omega arith, omega arith)
