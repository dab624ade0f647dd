-- ===== src/Tape/Raw/Runs.antt =====
-- The runs of equal samples of raw data, and how the loop of `raw_data_next_bit` finds the end of one.
use libspectrum.Base.{ℕ, zero, suc, ◌+◌, ◌*◌, ◌<◌, ◌≡◌, refl, ◌∙◌, arith}
use libspectrum.Base.{◌==◌, Bool, true, false, not, if◌then◌else◌}
use libspectrum.Base.{List, [], ◌∷◌, length, Option, some, Bool-cases, ◌⊎◌, inl, inr}
use libspectrum.Bytes.{dword}
use libspectrum.Tape.Edges.{Edge, flags_level_low, flags_level_high}
use libspectrum.Tape.Raw.{
  RawData, RawState, samples, next_sample, sample_set, same_level, find_edge,
}
use libspectrum.Tape.Raw.Samples.{IsRaw, Ahead, next_sample-more, next_sample-end}

-- The lengths and levels of runs of equal samples, after so many of a level.
abbrev pub runs : Bool → ℕ → List Bool → List (ℕ × Bool)
runs level n [] = (n, level) ∷ []
runs level n (x ∷ xs) =
    if same_level x level then runs level (n + 1) xs else (n, level) ∷ runs x 1 xs

abbrev pub level_edge : RawData → ℕ → Bool → Edge
level_edge block n level = record {
  tstates = dword (n * block.bit_length);
  flags = if level then flags_level_high else flags_level_low;
  end_of_block = false;
}

-- The last run has the flag of the other level.
abbrev pub level_edges : RawData → List (ℕ × Bool) → List Edge
level_edges block [] = []
level_edges block ((n, level) ∷ []) = level_edge block n (not level) ∷ []
level_edges block ((n, level) ∷ r ∷ rs) = level_edge block n level ∷ level_edges block (r ∷ rs)

same_level_refl : (b : Bool) → same_level b b ≡ true
same_level_refl true = refl
same_level_refl false = refl

same_level-not : (x b : Bool) → same_level x b ≡ false → same_level x (not b) ≡ true
same_level-not true true h = absurd (cc h)
same_level-not true false h = refl
same_level-not false true h = refl
same_level-not false false h = absurd (cc h)

same_level-eq : (x b : Bool) → same_level x b ≡ true → (x ≡ b) × (same_level x (not b) ≡ false)
same_level-eq true true h = (refl, refl)
same_level-eq true false h = absurd (cc h)
same_level-eq false true h = absurd (cc h)
same_level-eq false false h = (refl, refl)

module _ (block : RawData) (v : IsRaw block) where
  abbrev pub Over : RawState → Type 0
  Over s = (s.bytes_through_block == length (samples block)) ≡ true

  -- What the loop finds: the end of the run before the level it looks for, and a state behind it.
  abbrev pub Found : Bool → ℕ → List Bool → RawState → Option (ℕ × RawState) → Type 0
  Found level n xs s found =
      (k : ℕ) × (s' : RawState) × (found ≡ some (k, s'))
      × (s'.last_bit ≡ level)
      × (s'.state ≡ s.state)
      × (((runs (not level) n xs ≡ (k, not level) ∷ []) × Over s')
          ⊎ ((ys : List Bool) × (runs (not level) n xs ≡ (k, not level) ∷ runs level 1 ys)
              × Ahead block ys s'
              × (length ys < length xs)))

  find_edge-suc :
      (level x same : Bool) (rounds n : ℕ) (s : RawState)
      → s.last_bit ≡ level
      → ((next_sample block s).bytes_through_block == length (samples block)) ≡ false
      → sample_set block (next_sample block s) ≡ x
      → same_level x level ≡ same
      → find_edge (suc rounds) block s n ≡ (
          if same
          then some (n + 1, next_sample block s)
          else find_edge rounds block (next_sample block s) (n + 1))
  unfolding find_edge
  find_edge-suc level x same rounds n s l inside here e = rw (inside, here, l, e)

  pub find_edge_lem :
      (level : Bool) (xs : List Bool) (rounds n : ℕ) (s : RawState)
      → length xs < rounds
      → Ahead block xs s
      → s.last_bit ≡ level
      → Found level (n + 1) xs s (find_edge rounds block s n)
  unfolding find_edge
  find_edge_lem level xs zero n s h a l = absurd (omega arith)
  find_edge_lem level [] (suc rounds) n s h a l =
      let (over, kept, state) = next_sample-end block v s a in
      (n + 1, next_sample block s, rw over refl, kept ∙ l, state, inl (refl, over))
  find_edge_lem level (x ∷ xs) (suc rounds) n s h a l =
      let s' = next_sample block s in
      let (inside, here, ahead, kept, state) = next_sample-more block v x xs s a in
      let last : s'.last_bit ≡ level = kept ∙ l in
      elim (Bool-cases (same_level x level)) [
        | inl e ↦
            let (eq, differs) = same_level-eq x level e in
            (
              n + 1,
              s',
              find_edge-suc level x true rounds n s l inside here e,
              last,
              state,
              inr (xs, rw (differs, eq) refl, ahead, omega arith),
            )
        | inr e ↦
            let (k, t, found, level', state', more) =
              find_edge_lem level xs rounds (n + 1) s' (omega arith) ahead last in
            let differs = same_level-not x level e in
            (
              k,
              t,
              find_edge-suc level x false rounds n s l inside here e ∙ found,
              level',
              state' ∙ state,
              elim more [
                | inl (ran, over) ↦ inl (rw differs ran, over)
                | inr (ys, ran, ahead', shorter) ↦ inr (ys, rw differs ran, ahead', omega arith)
              ],
            )
      ]
