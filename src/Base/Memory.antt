-- ===== src/Base/Memory.antt =====
-- C memory blocks as lists: `memcpy` and `memset` to an offset. Bytes past the end of a block are
-- dropped; the callers' theorems show that none are.
use Prim.Native.Nat.{ℕ, zero, suc, ◌+◌, ◌≤◌, ◌<◌}
use mathlib.Core.Path.{◌≡◌, refl, ap, ◌∙◌}
use mathlib.Core.List.{List, [], ◌∷◌, ◌++◌, append-nil, append_assoc}
use native.Mathlib.Omega.{arith}
use native.Mathlib.Nat.{add-zero}
use libspectrum.Base.Lists.{length, set, take, replicate, length-set}

unfoldable pub memcpy : List ℕ → ℕ → List ℕ → List ℕ
memcpy xs i [] = xs
memcpy xs i (y ∷ ys) = memcpy (set xs i y) (i + 1) ys

unfoldable pub memset : List ℕ → ℕ → ℕ → ℕ → List ℕ
memset xs i v zero = xs
memset xs i v (suc n) = memset (set xs i v) (i + 1) v n

pub memset-memcpy : (xs : List ℕ) (i v n : ℕ) → memset xs i v n ≡ memcpy xs i (replicate n v)
unfolding memset memcpy
memset-memcpy xs i v zero = refl
memset-memcpy xs i v (suc n) = memset-memcpy (set xs i v) (i + 1) v n

pub length-memcpy : (xs : List ℕ) (i : ℕ) (ys : List ℕ) → length (memcpy xs i ys) ≡ length xs
unfolding memcpy
length-memcpy xs i [] = refl
length-memcpy xs i (y ∷ ys) = length-memcpy (set xs i y) (i + 1) ys ∙ length-set xs i y

take-set :
    (xs : List ℕ) (i v : ℕ) → i < length xs → take (suc i) (set xs i v) ≡ take i xs ++ (v ∷ [])
take-set [] i v h = absurd (omega arith)
take-set (x ∷ xs) zero v h = refl
take-set (x ∷ xs) (suc i) v h = ap (λ r. x ∷ r) (take-set xs i v (omega arith))

-- What precedes the copy is kept, and the copy stands behind it.
pub take-memcpy :
    (xs : List ℕ) (i : ℕ) (ys : List ℕ)
    → i + length ys ≤ length xs
    → take (i + length ys) (memcpy xs i ys) ≡ take i xs ++ ys
unfolding memcpy
take-memcpy xs i [] h = rw (add-zero, append-nil)
take-memcpy xs i (y ∷ ys) h =
    let e : i + suc (length ys) ≡ i + 1 + length ys = omega arith in
    let k : i + 1 ≡ suc i = omega arith in
    rw e (
      take-memcpy (set xs i y) (i + 1) ys (omega (arith, length-set xs i y))
      ∙ rw k (ap (λ r. r ++ ys) (take-set xs i y (omega arith)) ∙ append_assoc (take i xs) _ ys))
