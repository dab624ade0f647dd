-- ===== src/Tap/Blocks.antt =====
-- One block of a file: what is written of it is read back.
use libspectrum.Base.{
  ℕ, zero, suc, ◌+◌, ◌-◌, ◌*◌, ◌/◌, ◌^◌, ◌≤◌, ◌<◌, ◌≡◌, refl, ap, ap₂, ◌∙◌, sym, arith, ltb, le→ltb,
}
use libspectrum.Base.{◌==◌, ne→==, false, bit_xor}
use libspectrum.Base.{
  List, [], ◌∷◌, ◌++◌, length, length-append, get_or, set, take, take-append, drop-append,
}
use libspectrum.Base.{Option, some, Result, ok}
use libspectrum.Base.Bits.{bit_xor_cancel}
use libspectrum.Bytes.{byte}
use libspectrum.Tap.{
  TapType, tap, spc, sta, ltp, uncounted, stored, xor_all, fix_parity, read_block, final_byte,
  write_tap_block,
}

-- The data without their last byte, which is the parity: what a file of each type can hold.
abbrev pub IsStored : TapType → List ℕ → ℕ → Type 0
IsStored tap front last = length front + 1 < 2 ^ 16
IsStored spc front last =
    (1 ≤ length front) × (length front < 2 ^ 16 + 1) × (get_or front 0 0 < 256) × (last < 256)
IsStored ltp front last = (1 ≤ length front) × (length front < 2 ^ 16 + 1)
IsStored sta front last =
    (1 ≤ length front) × (length front < 2 ^ 16 + 1) × (last ≡ xor_all 0 front)

-- The bytes of the file behind the length.
abbrev pub file_bytes : TapType → List ℕ → ℕ → List ℕ
file_bytes tap front last = front ++ (last ∷ [])
file_bytes ltp front last = front ++ (last ∷ [])
file_bytes sta front last = front
file_bytes spc front last = front ++ (bit_xor last (get_or front 0 0) ∷ [])

get_or_last : (front : List ℕ) (last : ℕ) → get_or (front ++ (last ∷ [])) (length front) 0 ≡ last
get_or_last [] last = refl
get_or_last (x ∷ front) last = get_or_last front last

set_last :
    (front : List ℕ) (last v : ℕ) → set (front ++ (last ∷ [])) (length front) v ≡ front ++ (v ∷ [])
set_last [] last v = refl
set_last (x ∷ front) last v = ap (λ r. x ∷ r) (set_last front last v)

get_or_first :
    (front : List ℕ) (last : ℕ)
    → 1 ≤ length front
    → get_or (front ++ (last ∷ [])) 0 0 ≡ get_or front 0 0
get_or_first [] last h = absurd (omega arith)
get_or_first (x ∷ front) last h = refl

fix_parity_lem :
    (type : TapType) (front : List ℕ) (last : ℕ)
    → IsStored type front last
    → fix_parity type (file_bytes type front last) ≡ front ++ (last ∷ [])
unfolding fix_parity
fix_parity_lem tap front last h = refl
fix_parity_lem ltp front last h = refl
fix_parity_lem sta front last h = ap (λ p. front ++ (p ∷ [])) (sym h.2)
fix_parity_lem spc front last h =
    let put = bit_xor last (get_or front 0 0) in
    let size : length (front ++ (put ∷ [])) - 1 ≡ length front =
      omega (arith, length-append front (put ∷ [])) in
    rw (size, get_or_last front put, get_or_first front put h.0, set_last front put)
      (ap (λ p. front ++ (p ∷ [])) (bit_xor_cancel last (get_or front 0 0) h.3 h.2))

take_last :
    (n : ℕ) (front r : List ℕ)
    → length front ≡ suc n
    → take n (front ++ r) ++ (get_or (front ++ r) n 0 ∷ []) ≡ front
take_last n [] r h = absurd (omega arith)
take_last zero (x ∷ []) r h = refl
take_last zero (x ∷ y ∷ front) r h = absurd (omega arith)
take_last (suc n) (x ∷ front) r h = ap (λ q. x ∷ q) (take_last n front r (omega arith))

abbrev pub counted : TapType → List ℕ → ℕ
counted type front = length front + 1 - uncounted type

abbrev pub block_bytes : TapType → List ℕ → ℕ → List ℕ
block_bytes type front last =
    byte (counted type front) ∷ byte (counted type front / 0x100) ∷ file_bytes type front last

-- Where nothing is wrong, these bytes are stored.
write_ok :
    (type : TapType) (bytes : List ℕ) (n k last : ℕ)
    → length bytes ≡ n
    → uncounted type ≤ n
    → stored type n ≡ suc k
    → final_byte type (get_or bytes k 0) (get_or bytes 0 0) ≡ last
    → write_tap_block type bytes
      ≡ some (
          ok (
            byte (n - uncounted type) ∷ byte ((n - uncounted type) / 0x100) ∷ take k bytes
            ++ (last ∷ [])))
unfolding write_tap_block
write_ok type bytes n k last size enough s e =
    let l : ltb n (uncounted type) ≡ false = le→ltb _ _ enough in
    let z : (suc k == 0) ≡ false = ne→== _ _ (λ i. omega arith) in
    let p : suc k - 1 ≡ k = omega arith in rw (size, l, s, z, p, e)

abbrev written : TapType → List ℕ → ℕ → List ℕ → Option (Result (List ℕ))
written type front last r =
    some (ok (byte (counted type front) ∷ byte (counted type front / 0x100) ∷ r ++ (last ∷ [])))

-- A block that a file can hold is written without an error.
pub write_tap_block_lem :
    (type : TapType) (front : List ℕ) (last : ℕ)
    → IsStored type front last
    → write_tap_block type (front ++ (last ∷ [])) ≡ some (ok (block_bytes type front last))
write_tap_block_lem tap front last h =
    write_ok tap (front ++ (last ∷ [])) (length front + 1) (length front) last
      (length-append front (last ∷ [])) (omega arith) (omega arith) (get_or_last front last)
    ∙ ap (written tap front last) (take-append front (last ∷ []))
write_tap_block_lem ltp front last h =
    write_ok ltp (front ++ (last ∷ [])) (length front + 1) (length front) last
      (length-append front (last ∷ [])) (omega arith) (omega arith) (get_or_last front last)
    ∙ ap (written ltp front last) (take-append front (last ∷ []))
write_tap_block_lem spc front last h =
    write_ok spc (front ++ (last ∷ [])) (length front + 1) (length front)
      (bit_xor last (get_or front 0 0)) (length-append front (last ∷ [])) (omega arith)
      (omega arith) (ap₂ bit_xor (get_or_last front last) (get_or_first front last h.0))
    ∙ ap (written spc front (bit_xor last (get_or front 0 0))) (take-append front (last ∷ []))
write_tap_block_lem sta front last h =
    let k = length front - 1 in
    write_ok sta (front ++ (last ∷ [])) (length front + 1) k (get_or (front ++ (last ∷ [])) k 0)
      (length-append front (last ∷ [])) (omega arith) (omega arith) refl
    ∙ ap (λ r. some (ok (byte (counted sta front) ∷ byte (counted sta front / 0x100) ∷ r)))
        (take_last k front (last ∷ []) (omega arith))

file_size :
    (type : TapType) (front : List ℕ) (last : ℕ)
    → stored type (length front + 1) ≡ length (file_bytes type front last)
file_size tap front last = sym (length-append front (last ∷ []))
file_size ltp front last = sym (length-append front (last ∷ []))
file_size spc front last = sym (length-append front (bit_xor last (get_or front 0 0) ∷ []))
file_size sta front last = omega arith

count_lem :
    (type : TapType) (front : List ℕ) (last : ℕ)
    → IsStored type front last
    → byte (counted type front) + byte (counted type front / 0x100) * 0x100 + uncounted type
      ≡ length front + 1
count_lem tap front last h = omega arith
count_lem ltp front last h = omega arith
count_lem spc front last h = omega arith
count_lem sta front last h = omega arith

-- What was written of a block is read as its data, and what stands behind it is left.
pub read_block_lem :
    (type : TapType) (front : List ℕ) (last : ℕ) (rest : List ℕ)
    → IsStored type front last
    → read_block type (block_bytes type front last ++ rest) ≡ ok (front ++ (last ∷ []), rest)
unfolding read_block
read_block_lem type front last rest h =
    let file = file_bytes type front last in
    let more : ltb (length (file ++ rest)) (length file) ≡ false =
      le→ltb _ _ (omega (arith, length-append file rest)) in
    rw (
      count_lem type front last h,
      file_size type front last,
      more,
      take-append file rest,
      drop-append file rest,
      fix_parity_lem type front last h,
    )
