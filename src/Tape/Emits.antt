-- ===== src/Tape/Emits.antt =====
-- Taking edges one after another, from a function that gives an edge and a new state, and the steps
-- that it takes as a relation.
use libspectrum.Base.{ℕ, zero, suc, ◌≡◌, refl, List, [], ◌∷◌, ◌++◌, length, Result, ok, ◌>>=◌}
use libspectrum.Tape.Edges.{Edge}

module _ {S : Type 0} where
  unfoldable pub take_edges : (S → Result (Edge × S)) → ℕ → S → Result (List Edge × S)
  take_edges f zero s = ok ([], s)
  take_edges f (suc n) s = do (e, s') ← f s; (es, s'') ← take_edges f n s'; ok (e ∷ es, s'')

  -- From a state come just these edges, without an error, and leave another state.
  pub data Emits (f : S → Result (Edge × S)) : S → List Edge → S → Type 0 where
    done : (s : S) → Emits f s [] s
    edge :
        {s : S} {e : Edge} {es : List Edge} {s'' : S} (s' : S)
        → f s ≡ ok (e, s')
        → Emits f s' es s''
        → Emits f s (e ∷ es) s''

  pub append-Emits :
      {f : S → Result (Edge × S)} {s s' s'' : S} {xs ys : List Edge}
      → Emits f s xs s'
      → Emits f s' ys s''
      → Emits f s (xs ++ ys) s''
  append-Emits (done s) k = k
  append-Emits (edge s' h rest) k = edge s' h (append-Emits rest k)

  pub take_edges-Emits :
      {f : S → Result (Edge × S)} {s s' : S} {es : List Edge}
      → Emits f s es s'
      → take_edges f (length es) s ≡ ok (es, s')
  unfolding take_edges
  take_edges-Emits (done s) = refl
  take_edges-Emits (edge s' h rest) = rw (h, take_edges-Emits rest)
