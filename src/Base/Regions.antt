-- ===== src/Base/Regions.antt =====
-- Regions of a C memory block: what a copy puts into one, and the regions that it leaves alone.
use Prim.Native.Nat.{ℕ, zero, suc, ◌+◌, ◌≤◌, ◌<◌}
use mathlib.Core.Path.{◌≡◌, refl, ap, ◌∙◌, sym}
use mathlib.Core.Logic.{◌⊎◌, inl, inr}
use mathlib.Core.List.{List, [], ◌∷◌, ◌++◌}
use mathlib.Core.Option.{some}
use native.Mathlib.Omega.{arith}
use libspectrum.Base.Lists.{
  length, set, take, drop, get_or, get_elem?, length-take, drop-append, take-append,
}
use libspectrum.Base.Memory.{memcpy, take-memcpy}

module _ {ℓ} {A : Type ℓ} where
  -- What stands behind a list of a known length.
  pub get_or-append :
      (n : ℕ) (xs ys : List A) (k : ℕ) (d : A)
      → length xs ≡ n
      → get_or (xs ++ ys) (n + k) d ≡ get_or ys k d
  get_or-append n [] ys k d h = let e : n + k ≡ k = omega arith in rw e
  get_or-append zero (x ∷ xs) ys k d h = absurd (omega arith)
  get_or-append (suc n) (x ∷ xs) ys k d h =
      let e : suc n + k ≡ suc (n + k) = omega arith in
      rw e (get_or-append n xs ys k d (omega arith))

  pub get_or-append_left :
      (xs ys : List A) (k : ℕ) (d : A) → k < length xs → get_or (xs ++ ys) k d ≡ get_or xs k d
  get_or-append_left [] ys k d h = absurd (omega arith)
  get_or-append_left (x ∷ xs) ys zero d h = refl
  get_or-append_left (x ∷ xs) ys (suc k) d h = get_or-append_left xs ys k d (omega arith)

  pub drop-append_more :
      (n : ℕ) (xs ys : List A) (k : ℕ) → length xs ≡ n → drop (n + k) (xs ++ ys) ≡ drop k ys
  drop-append_more n [] ys k h = let e : n + k ≡ k = omega arith in rw e
  drop-append_more zero (x ∷ xs) ys k h = absurd (omega arith)
  drop-append_more (suc n) (x ∷ xs) ys k h =
      let e : suc n + k ≡ suc (n + k) = omega arith in
      rw e (drop-append_more n xs ys k (omega arith))

  pub take-append_first : (n : ℕ) (xs ys : List A) → length xs ≡ n → take n (xs ++ ys) ≡ xs
  take-append_first n xs ys h = ap (λ m. take m (xs ++ ys)) (sym h) ∙ take-append xs ys

  -- What a list with a known rest has in front of it.
  pub get_or-drop :
      (k : ℕ) (xs : List A) (y : A) (ys : List A) (d : A)
      → drop k xs ≡ y ∷ ys
      → (get_or xs k d ≡ y) × (drop (suc k) xs ≡ ys)
  get_or-drop zero [] y ys d h = absurd (cc h)
  get_or-drop (suc k) [] y ys d h = absurd (cc h)
  get_or-drop zero (x ∷ xs) y ys d h = (cc h, cc h)
  get_or-drop (suc k) (x ∷ xs) y ys d h = get_or-drop k xs y ys d h

  -- The same of the element that is read with a test.
  pub get_elem?-drop :
      (k : ℕ) (xs : List A) (y : A) (ys : List A)
      → drop k xs ≡ y ∷ ys
      → (get_elem? xs k ≡ some y) × (drop (suc k) xs ≡ ys) × (length xs ≡ k + suc (length ys))
  get_elem?-drop zero [] y ys h = absurd (cc h)
  get_elem?-drop (suc k) [] y ys h = absurd (cc h)
  get_elem?-drop zero (x ∷ xs) y ys h = let e : xs ≡ ys = cc h in (cc h, e, rw e (omega arith))
  get_elem?-drop (suc k) (x ∷ xs) y ys h =
      let (here, rest, l) = get_elem?-drop k xs y ys h in (here, rest, omega (arith, l))

  pub drop_behind :
      (n : ℕ) (xs ys zs : List A) → drop n xs ≡ ys ++ zs → drop (n + length ys) xs ≡ zs
  drop_behind zero xs ys zs h =
      let e : 0 + length ys ≡ length ys = omega arith in rw (e, h) (drop-append ys zs)
  drop_behind (suc n) [] [] zs h = let e : suc n + 0 ≡ suc n = omega arith in rw e h
  drop_behind (suc n) [] (y ∷ ys) zs h = absurd (cc h)
  drop_behind (suc n) (x ∷ xs) ys zs h =
      let e : suc n + length ys ≡ suc (n + length ys) = omega arith in
      rw e (drop_behind n xs ys zs h)

  -- An index inside a list has an element and a rest behind it.
  pub drop_inside :
      (k : ℕ) (xs : List A) → k < length xs → (y : A) × (ys : List A) × (drop k xs ≡ y ∷ ys)
  drop_inside k [] h = absurd (omega arith)
  drop_inside zero (x ∷ xs) h = (x, xs, refl)
  drop_inside (suc k) (x ∷ xs) h = drop_inside k xs (omega arith)

  take_nil : (n : ℕ) → take {A = A} n [] ≡ []
  take_nil zero = refl
  take_nil (suc n) = refl

  take-drop : (n i : ℕ) (xs : List A) → take n (drop i xs) ≡ drop i (take (i + n) xs)
  take-drop n zero xs = let e : 0 + n ≡ n = omega arith in rw e
  take-drop n (suc i) [] = take_nil n ∙ ap (drop (suc i)) (sym (take_nil (suc i + n)))
  take-drop n (suc i) (x ∷ xs) =
      let e : suc i + n ≡ suc (i + n) = omega arith in rw e (take-drop n i xs)

  pub get_or-take : (n k : ℕ) (xs : List A) (d : A) → k < n → get_or (take n xs) k d ≡ get_or xs k d
  get_or-take zero k xs d h = absurd (omega arith)
  get_or-take (suc n) k [] d h = refl
  get_or-take (suc n) zero (x ∷ xs) d h = refl
  get_or-take (suc n) (suc k) (x ∷ xs) d h = get_or-take n k xs d (omega arith)

  take-take : (n m : ℕ) (xs : List A) → n ≤ m → take n (take m xs) ≡ take n xs
  take-take zero m xs h = refl
  take-take (suc n) zero xs h = absurd (omega arith)
  take-take (suc n) (suc m) [] h = refl
  take-take (suc n) (suc m) (x ∷ xs) h = ap (λ r. x ∷ r) (take-take n m xs (omega arith))

  -- A region inside the elements that were kept.
  pub take-drop-take :
      (n j m : ℕ) (xs : List A) → j + n ≤ m → take n (drop j (take m xs)) ≡ take n (drop j xs)
  take-drop-take n j m xs h =
      take-drop n j (take m xs) ∙ ap (drop j) (take-take (j + n) m xs h) ∙ sym (take-drop n j xs)

  take-drop-set :
      (n j i : ℕ) (xs : List A) (v : A)
      → (j + n ≤ i) ⊎ (i < j)
      → take n (drop j (set xs i v)) ≡ take n (drop j xs)
  take-drop-set n j i [] v h = refl
  take-drop-set n zero zero (x ∷ xs) v (inl h) = let e : n ≡ 0 = omega arith in rw e
  take-drop-set n zero zero (x ∷ xs) v (inr h) = absurd (omega arith)
  take-drop-set zero zero (suc i) (x ∷ xs) v h = refl
  take-drop-set (suc n) zero (suc i) (x ∷ xs) v (inl h) =
      ap (λ r. x ∷ r) (take-drop-set n 0 i xs v (inl (omega arith)))
  take-drop-set (suc n) zero (suc i) (x ∷ xs) v (inr h) = absurd (omega arith)
  take-drop-set n (suc j) zero (x ∷ xs) v h = refl
  take-drop-set n (suc j) (suc i) (x ∷ xs) v (inl h) = take-drop-set n j i xs v (inl (omega arith))
  take-drop-set n (suc j) (suc i) (x ∷ xs) v (inr h) = take-drop-set n j i xs v (inr (omega arith))

-- A region that a copy does not reach.
pub outside-memcpy :
    (n j i : ℕ) (xs ys : List ℕ)
    → (j + n ≤ i) ⊎ (i + length ys ≤ j)
    → take n (drop j (memcpy xs i ys)) ≡ take n (drop j xs)
unfolding memcpy
outside-memcpy n j i xs [] h = refl
outside-memcpy n j i xs (y ∷ ys) (inl h) =
    outside-memcpy n j (i + 1) (set xs i y) ys (inl (omega arith))
    ∙ take-drop-set n j i xs y (inl h)
outside-memcpy n j i xs (y ∷ ys) (inr h) =
    outside-memcpy n j (i + 1) (set xs i y) ys (inr (omega arith))
    ∙ take-drop-set n j i xs y (inr (omega arith))

-- The region that a copy fills.
pub region-memcpy :
    (i : ℕ) (xs ys : List ℕ)
    → i + length ys ≤ length xs
    → take (length ys) (drop i (memcpy xs i ys)) ≡ ys
region-memcpy i xs ys h =
    let size : length (take i xs) ≡ i = omega (arith, length-take i xs) in
    take-drop (length ys) i (memcpy xs i ys)
    ∙ ap (drop i) (take-memcpy xs i ys h)
    ∙ ap (λ m. drop m (take i xs ++ ys)) (sym size)
    ∙ drop-append (take i xs) ys
