-- ===== src/Tape/Pulses/Play.antt =====
-- All the edges of a block that lists its pulses.
use libspectrum.Base.{ℕ, zero, suc, ◌+◌, ◌-◌, ◌^◌, ◌≤◌, ◌<◌, ◌≡◌, refl, arith}
use libspectrum.Base.{◌==◌, eq→==, ne→==, true, false, List, [], ◌∷◌, ◌++◌, length, drop}
use libspectrum.Base.{replicate}
use libspectrum.Base.Regions.{get_or-drop}
use libspectrum.Tape.Edges.{Edge, plain, increment, decrement}
use libspectrum.Tape.Emits.{Emits, done, edge}
use libspectrum.Base.{◌%◌, some, ok}
use libspectrum.Tape.Next.{States, block_init, pure_tone}
use libspectrum.Tape.Pulses.{PureTone, tone_edge, pulses_edge}

-- An edge that ends its block.
abbrev pub last_edge : ℕ → Edge
last_edge tstates = record { tstates = tstates; flags = 0; end_of_block = true }

abbrev pub tone_edges : PureTone → ℕ → List Edge
tone_edges block n = replicate n (plain block.length) ++ (last_edge block.length ∷ [])

-- A tone of at least one pulse gives as many edges as it has pulses, and ends with the last.
pub tone-Emits :
    (block : PureTone) (n : ℕ)
    → suc n < 2 ^ 64
    → Emits (tone_edge block) (suc n) (tone_edges block n) 0
unfolding tone_edge
tone-Emits block zero h = edge 0 refl (done 0)
tone-Emits block (suc n) h =
    let e : decrement (suc (suc n)) ≡ suc n = omega arith in
    let k : (suc n == 0) ≡ false = ne→== (suc n) 0 (λ i. omega arith) in
    edge (suc n) (rw (e, k)) (tone-Emits block n (omega arith))

-- From a count of `suc n` on, so many edges come without an end.
tone_goes_on :
    (block : PureTone) (n k : ℕ)
    → n + k < 2 ^ 64
    → 1 ≤ k
    → Emits (tone_edge block) (n + k) (replicate n (plain block.length)) k
unfolding tone_edge
tone_goes_on block zero k h l = let e : 0 + k ≡ k = omega arith in rw e (done k)
tone_goes_on block (suc n) k h l =
    let e : decrement (suc n + k) ≡ n + k = omega arith in
    let i : (n + k == 0) ≡ false = ne→== (n + k) 0 (λ j. omega arith) in
    edge (n + k) (rw (e, i)) (tone_goes_on block n k (omega arith) l)

from_zero :
    (block : PureTone) (n : ℕ)
    → n < 2 ^ 64
    → Emits (tone_edge block) 0 (replicate n (plain block.length)) ((2 ^ 64 - n) % 2 ^ 64)
unfolding tone_edge
from_zero block zero h = done 0
from_zero block (suc n) h =
    let k = 2 ^ 64 - 1 - n in
    let e : n + k ≡ 2 ^ 64 - 1 = omega arith in
    let c : (2 ^ 64 - suc n) % 2 ^ 64 ≡ k = omega arith in
    let rest = tone_goes_on block n k (omega arith) (omega arith) in
    rw c (edge (2 ^ 64 - 1) refl (simp e at rest))

-- A tone of no pulses does not end at once: from the counter that `libspectrum_tape_block_init` sets,
-- which is 0 and wraps, any number of edges below 2 ^ 64 comes without one that ends the block.
pub tone_wraps :
    (block : PureTone) (s : States) (n : ℕ)
    → block.pulses ≡ 0
    → n < 2 ^ 64
    → (s' : States) × (block_init (pure_tone block) s ≡ some (ok s'))
      × Emits
          (tone_edge block)
          s'.edge_count
          (replicate n (plain block.length))
          ((2 ^ 64 - n) % 2 ^ 64)
unfolding block_init tone_edge
tone_wraps block s n none_left h =
    (record s { edge_count = block.pulses }, refl, rw none_left (from_zero block n h))

-- The edges of pulses: the last ends the block.
abbrev pub pulse_edges : ℕ → List ℕ → List Edge
pulse_edges l [] = last_edge l ∷ []
pulse_edges l (k ∷ lengths) = plain l ∷ pulse_edges k lengths

pulses_from :
    (all : List ℕ) (i l : ℕ) (rest : List ℕ)
    → length all < 2 ^ 64
    → i + suc (length rest) ≡ length all
    → drop i all ≡ l ∷ rest
    → Emits (pulses_edge all) i (pulse_edges l rest) (length all)
unfolding pulses_edge
pulses_from all i l [] small n d =
    let e : increment i ≡ length all = omega arith in
    edge (length all) (rw (e, (get_or-drop i all l [] 0 d).0, eq→== (length all) (length all) refl))
      (done _)
pulses_from all i l (k ∷ rest) small n d =
    let e : increment i ≡ suc i = omega arith in
    let more : (suc i == length all) ≡ false = ne→== (suc i) (length all) (λ j. omega arith) in
    let (here, behind) = get_or-drop i all l (k ∷ rest) 0 d in
    edge (suc i) (rw (e, here, more)) (pulses_from all (suc i) k rest small (omega arith) behind)

-- A list of pulses gives an edge of each length in order, and ends with the last.
pub pulses-Emits :
    (l : ℕ) (rest : List ℕ)
    → suc (length rest) < 2 ^ 64
    → Emits (pulses_edge (l ∷ rest)) 0 (pulse_edges l rest) (suc (length rest))
pulses-Emits l rest small = pulses_from (l ∷ rest) 0 l rest small (omega arith) refl
