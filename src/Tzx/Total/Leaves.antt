-- ===== src/Tzx/Total/Leaves.antt =====
-- What the readers of blocks leave is the end of what they were given.
use libspectrum.Base.{ℕ, zero, suc, ◌≡◌, refl, ap, ◌∙◌, ltb, Bool, true, false, if◌then◌else◌}
use libspectrum.Base.{List, [], ◌∷◌, length, drop, Result, ok, err, ◌>>=◌}
use libspectrum.Tzx.Fields.{tzx_read_data, tzx_read_string, number}
use libspectrum.Tzx.Read.{read_selections}
use libspectrum.Tzx.Read.{read_strings}

abbrev pub Left : List ℕ → List ℕ → Type 0
Left buffer rest = (n : ℕ) × (rest ≡ drop n buffer)

drop-suc : {A : Type 0} (n : ℕ) (xs : List A) → drop 1 (drop n xs) ≡ drop (suc n) xs
drop-suc zero [] = refl
drop-suc zero (x ∷ xs) = refl
drop-suc (suc n) [] = refl
drop-suc (suc n) (x ∷ xs) = drop-suc n xs

-- The end of an end is an end.
pub drop-Left : (n : ℕ) (buffer rest : List ℕ) → Left buffer rest → Left buffer (drop n rest)
drop-Left zero buffer rest l = l
drop-Left (suc n) buffer [] l = l
drop-Left (suc n) buffer (b ∷ rest) (k, e) =
    drop-Left n buffer rest (suc k, ap (λ r. drop 1 r) e ∙ drop-suc k buffer)

-- A result leaves the end of a buffer.
abbrev pub Leaves : {A : Type 0} → List ℕ → Result (A × List ℕ) → Type 0
Leaves buffer (err e) = Unit {0}
Leaves buffer (ok (x, rest)) = Left buffer rest

pub branch-Leaves :
    {A : Type 0} (c : Bool) (buffer : List ℕ) (r s : Result (A × List ℕ))
    → Leaves buffer r
    → Leaves buffer s
    → Leaves buffer (if c then r else s)
branch-Leaves true buffer r s h k = h
branch-Leaves false buffer r s h k = k

pub chain-Leaves :
    {A : Type 0} {B : Type 0} (buffer : List ℕ) (r : Result (A × List ℕ))
    (f : A × List ℕ → Result (B × List ℕ))
    → Leaves buffer r
    → ((x : A) (rest : List ℕ) → Left buffer rest → Leaves buffer (f (x, rest)))
    → Leaves buffer (r >>= f)
chain-Leaves buffer (err e) f h k = tt
chain-Leaves buffer (ok (x, rest)) f h k = k x rest h

pub read_data-Leaves :
    (bytes : ℕ) (buffer start : List ℕ)
    → Left buffer start
    → Leaves buffer (tzx_read_data bytes start)
unfolding tzx_read_data
read_data-Leaves bytes buffer start l =
    branch-Leaves (ltb (length (drop bytes start)) (number bytes start)) buffer _ _ tt
      (drop-Left (number bytes start) buffer (drop bytes start) (drop-Left bytes buffer start l))

pub read_string-Leaves :
    (buffer start : List ℕ) → Left buffer start → Leaves buffer (tzx_read_string start)
unfolding tzx_read_string
read_string-Leaves buffer start l =
    chain-Leaves buffer (tzx_read_data 1 start) _ (read_data-Leaves 1 buffer start l)
      (λ bytes rest k. k)

pub read_selections-Leaves :
    (n : ℕ) (buffer start : List ℕ) → Left buffer start → Leaves buffer (read_selections n start)
unfolding read_selections
read_selections-Leaves zero buffer start l = l
read_selections-Leaves (suc n) buffer start l = branch-Leaves (ltb (length start) 3) buffer _ _ tt (
    chain-Leaves buffer (tzx_read_string (drop 2 start)) _
      (read_string-Leaves buffer (drop 2 start) (drop-Left 2 buffer start l))
      (λ text rest k.
        chain-Leaves buffer (read_selections n rest) _ (read_selections-Leaves n buffer rest k)
          (λ choices rest' k'. k')))

pub read_strings-Leaves :
    (n : ℕ) (buffer start : List ℕ) → Left buffer start → Leaves buffer (read_strings n start)
unfolding read_strings
read_strings-Leaves zero buffer start l = l
read_strings-Leaves (suc n) buffer start l = branch-Leaves (ltb (length start) 2) buffer _ _ tt (
    chain-Leaves buffer (tzx_read_string (drop 1 start)) _
      (read_string-Leaves buffer (drop 1 start) (drop-Left 1 buffer start l))
      (λ text rest k.
        chain-Leaves buffer (read_strings n rest) _ (read_strings-Leaves n buffer rest k)
          (λ strings rest' k'. k')))
