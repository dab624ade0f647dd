-- ===== src/Tape/Raw/Play.antt =====
-- All the edges of raw data.
use mathlib.Core.Path.{subst}
use libspectrum.Base.{ℕ, zero, suc, ◌+◌, ◌*◌, ◌<◌, ◌≡◌, refl, ap, ◌∙◌, sym, arith}
use libspectrum.Base.{◌==◌, Bool, false, not, bit_and, ne→==}
use libspectrum.Base.{List, [], ◌∷◌, ◌++◌, length, get_or, some, Bool-cases, ◌⊎◌, inl, inr}
use libspectrum.Bytes.{dword}
use libspectrum.Tape.Edges.{Edge, data1, pause, minus_one, do_tail_pause}
use libspectrum.Tape.Emits.{Emits, done, edge}
use libspectrum.Tape.Raw.{RawData, RawState, samples, find_edge, raw_data_next_bit, raw_data_init}
use libspectrum.Tape.Raw.{same_level}
use libspectrum.Tape.Raw.Samples.{raw_samples, IsRaw, Ahead}
use libspectrum.Tape.Raw.Runs.{runs, level_edge, level_edges, Over, find_edge_lem}
use libspectrum.Tape.Raw.Steps.{
  raw_step, not-not, rounds_enough, Ahead-same, found_step, Over-step, pause_step,
}

module _ (block : RawData) (v : IsRaw block) where
  level_edges-cons :
      (n k : ℕ) (level other : Bool) (ys : List Bool)
      → level_edges block ((n, level) ∷ runs other k ys)
        ≡ level_edge block n level ∷ level_edges block (runs other k ys)
  level_edges-cons n k level other [] = refl
  level_edges-cons n k level other (y ∷ ys) = elim (Bool-cases (same_level y other)) [
    | inl e ↦ rw e (level_edges-cons n (k + 1) level other ys)
    | inr e ↦ rw e
  ]

  abbrev pause_edges : List Edge
  pause_edges = do_tail_pause block.pause_tstates ∷ []

  -- The edges that follow where the end of a run has been found, with the edge of this run.
  follow :
      (m k : ℕ) (level : Bool) (xs : List Bool) (s' : RawState)
      → length xs < m
      → s'.state ≡ data1
      → s'.last_bit ≡ level
      → (((runs (not level) 1 xs ≡ (k, not level) ∷ []) × Over block v s')
          ⊎ ((ys : List Bool) × (runs (not level) 1 xs ≡ (k, not level) ∷ runs level 1 ys)
              × Ahead block ys s'
              × (length ys < length xs)))
      → (s'' : RawState) × Emits
          (raw_step block)
          (record s' { bit_tstates = dword (k * block.bit_length); last_bit = not level })
          (level_edges block (runs (not level) 1 xs) ++ pause_edges)
          s''
  follow zero k level xs s' h d l rest = absurd (omega arith)
  follow (suc m) k level xs s' h d l (inl (ran, over)) =
      let u = record s' { bit_tstates = dword (k * block.bit_length); last_bit = not level } in
      let t = record u { state = pause } in
      rw ran (
        t,
        edge t (Over-step block v k (not level) u d refl over refl)
            (edge t (pause_step block v u) (done t)),
      )
  follow (suc m) k level xs s' h d l (inr (ys, ran, behind, shorter)) =
      let u = record s' { bit_tstates = dword (k * block.bit_length); last_bit = not level } in
      let ahead = Ahead-same block v ys s' (record u { state = data1 }) refl refl behind in
      let (n, t, found, last, state, rest) =
        find_edge_lem block v (not level) ys (8 * length (samples block) + 1) 0
          (record u { state = data1 }) (rounds_enough block v ys s' behind) ahead refl in
      let step = found_step block v k n (not level) u t d refl behind.inside found last in
      let (s'', emits) = follow m n (not level) ys t (omega arith) state last rest in
      let shown =
        ap (λ b. level_edge block k (not level) ∷ level_edges block (runs b 1 ys)) (not-not level)
        ∙ sym (level_edges-cons k 1 (not level) level ys)
        ∙ sym (ap (level_edges block) ran) in
      (
        s'',
        subst (λ es. Emits (raw_step block) u (es ++ pause_edges) s'') shown (edge _ step emits),
      )

  init_next :
      (bytes : List ℕ) (s : RawState)
      → block.bytes ≡ some bytes
      → raw_data_init block s
        ≡ raw_data_next_bit block (record s {
          state = data1;
          bytes_through_block = minus_one;
          bits_through_byte = 7;
          last_bit = not (bit_and (get_or bytes 0 0) 0x80 == 0);
        })
  unfolding raw_data_init
  init_next bytes s h = rw h

  init_found :
      (bytes : List ℕ) (k : ℕ) (s s' : RawState)
      → block.bytes ≡ some bytes
      → let level = not (bit_and (get_or bytes 0 0) 0x80 == 0) in
        find_edge
            (8 * length (samples block) + 1)
            block
            (record s {
              state = data1;
              bytes_through_block = minus_one;
              bits_through_byte = 7;
              last_bit = level;
            })
            0
          ≡ some (k, s')
        → s'.last_bit ≡ level
        → raw_data_init block s
          ≡ some (record s' { bit_tstates = dword (k * block.bit_length); last_bit = not level })
  unfolding raw_data_next_bit
  init_found bytes k s s' h found l =
      let inside : (minus_one == length (samples block)) ≡ false =
        ne→== _ _ (λ i. omega (arith, v.small)) in
      init_next bytes s h ∙ rw (inside, found, l)

-- The runs of equal samples, with a sample of the opposite of the first level before them.
abbrev pub raw_runs : RawData → List ℕ → List (ℕ × Bool)
raw_runs block bytes =
    runs (not (not (bit_and (get_or bytes 0 0) 0x80 == 0))) 1
      (raw_samples block.bits_in_last_byte bytes)

abbrev pub raw_edges : RawData → List ℕ → List Edge
raw_edges block bytes =
    level_edges block (raw_runs block bytes) ++ (do_tail_pause block.pause_tstates ∷ [])

pub raw-Emits :
    (block : RawData) (bytes : List ℕ) (s : RawState)
    → block.bytes ≡ some bytes
    → IsRaw block
    → (t : RawState) × (t' : RawState) × (raw_data_init block s ≡ some t)
      × Emits (raw_step block) t (raw_edges block bytes) t'
raw-Emits block bytes s h v =
    let level = not (bit_and (get_or bytes 0 0) 0x80 == 0) in
    let all = raw_samples block.bits_in_last_byte bytes in
    let start : RawState = record s {
      state = data1;
      bytes_through_block = minus_one;
      bits_through_byte = 7;
      last_bit = level;
    } in
    let same : samples block ≡ bytes = rw h in
    let ahead : Ahead block all start = record {
      inside = ne→== _ _ (λ i. omega (arith, v.small));
      left = 0;
      rest = bytes;
      count = refl;
      size = rw same (omega arith);
      behind = rw same;
      total = rw same (omega arith);
      shown = refl;
    } in
    let (k, s', found, last, state, rest) =
      find_edge_lem block v level all (8 * length (samples block) + 1) 0 start
        (rounds_enough block v all start ahead) ahead refl in
    let (t', emits) =
      follow block v (suc (length all)) k level all s' (omega arith) state last rest in
    (_, t', init_found block v bytes k s s' h found last, emits)
