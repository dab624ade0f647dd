-- ===== src/Buffer/Runs.antt =====
-- An allocator that fills with zeros, concrete runs over it, and the theorems at concrete inputs.
use libspectrum.Base.{ℕ, zero, suc, ◌+◌, ◌*◌, ◌≤◌, ◌≡◌, ◌↔◌, refl, ap, arith, true, not}
use libspectrum.Base.{List, [], ◌∷◌, ◌++◌, Option, none, some, length, take}
use libspectrum.Bytes.{make_room}
use libspectrum.Buffer.{Allocator, Buffer, Block, alloc, write}
use libspectrum.Buffer.{append, block_make_room}
use libspectrum.Buffer.{reallocate_to_new_size}
use libspectrum.Buffer.Laws.{IsValid, contents}
use libspectrum.Buffer.Refine.{Op, word, bytes, fill, reset, spec, run, run_refines, run_of_alloc}
use libspectrum.Buffer.Refine.{append_lem, BlockIsValid}

abbrev resize : List ℕ → ℕ → List ℕ
resize xs zero = []
resize [] (suc n) = 0 ∷ resize [] n
resize (x ∷ xs) (suc n) = x ∷ resize xs n

length-resize : (xs : List ℕ) (n : ℕ) → length (resize xs n) ≡ n
length-resize xs zero = refl
length-resize [] (suc n) = ap suc (length-resize [] n)
length-resize (x ∷ xs) (suc n) = ap suc (length-resize xs n)

take-resize : (xs : List ℕ) (n k : ℕ) → k ≤ n → k ≤ length xs → take k (resize xs n) ≡ take k xs
take-resize xs n zero h l = refl
take-resize [] n (suc k) h l = absurd (omega arith)
take-resize (x ∷ xs) zero (suc k) h l = absurd (omega arith)
take-resize (x ∷ xs) (suc n) (suc k) h l =
    ap (λ r. x ∷ r) (take-resize xs n k (omega arith) (omega arith))

abbrev zeroed : Allocator
zeroed = record { realloc = resize; length-realloc = length-resize; take-realloc = take-resize }

-- Four bytes, two of them in use.
abbrev four : Buffer
four = record { buffer = 7 ∷ 8 ∷ 0 ∷ 0 ∷ []; buffer_size = 4; bytes_used = 2 }

abbrev calls : List Op
calls = word 0x1234 ∷ reset ∷ fill 9 3 ∷ bytes (1 ∷ 2 ∷ []) ∷ []

four-IsValid : IsValid four
four-IsValid = record {
  storage = refl;
  within = omega arith;
  positive = omega arith;
  representable = omega arith;
}

spec-calls : spec [] calls ≡ 9 ∷ 9 ∷ 9 ∷ 1 ∷ 2 ∷ []
unfolding spec
spec-calls = refl

-- Five bytes do not fit behind two in four: the size is doubled once.
write_grows :
    write zeroed four (1 ∷ 2 ∷ 3 ∷ 4 ∷ 5 ∷ [])
    ≡ some (record { buffer = 7 ∷ 8 ∷ 1 ∷ 2 ∷ 3 ∷ 4 ∷ 5 ∷ 0 ∷ []; buffer_size = 8; bytes_used = 7 })
unfolding write libspectrum.Base.Memory.memcpy reallocate_to_new_size
write_grows = refl

run_refines_example :
    (b : Buffer) × (run zeroed four calls ≡ some b)
    × IsValid b
    × (contents b ≡ spec (7 ∷ 8 ∷ []) calls)
run_refines_example =
    run_refines zeroed calls four four-IsValid (unfold libspectrum.Bytes.write_word in omega arith)

run_of_alloc_example :
    (b : Buffer) × (run zeroed (alloc zeroed) calls ≡ some b)
    × IsValid b
    × (contents b ≡ spec [] calls)
run_of_alloc_example =
    run_of_alloc zeroed calls (unfold libspectrum.Bytes.write_word in omega arith)

-- A block of three bytes with the pointer behind the first.
abbrev block : Block
block = record { bytes = 5 ∷ 0 ∷ []; allocated = 2; position = 1 }

block-IsValid : BlockIsValid block
block-IsValid = record { storage = refl; inside = omega arith }

append_runs :
    append zeroed block four ≡ record { bytes = 5 ∷ 7 ∷ 8 ∷ 0 ∷ []; allocated = 4; position = 3 }
unfolding append block_make_room libspectrum.Base.Memory.memcpy
append_runs = refl

append_lem_example :
    let d' = append zeroed block four in
    (take d'.position d'.bytes ≡ 5 ∷ 7 ∷ 8 ∷ []) × (d'.position ≡ 1 + 2) × BlockIsValid d'
append_lem_example = append_lem zeroed block four block-IsValid four-IsValid (omega arith)
