-- ===== src/Tape/Next/Blocks.antt =====
-- The edges of one block as the tape gives them: the last is marked, and the tape goes on.
use mathlib.Core.Path.{subst}
use libspectrum.Base.{ℕ, ◌+◌, ◌-◌, ◌<◌, ◌≡◌, ap, ◌∙◌, sym, arith, ltb, lt→ltb}
use libspectrum.Base.{
  Bool, true, false, not, if◌then◌else◌, bit_and, bit_or, Bool-cases, inl, inr, map,
}
use libspectrum.Base.{List, [], ◌∷◌, ◌++◌, length, get_elem?, Option, some, Result, ok}
use libspectrum.Tape.Edges.{Edge, flags_block, flags_stop, flags_tape, flags_no_edge}
use libspectrum.Tape.Emits.{Emits, done, edge}
use libspectrum.Tape.Next.{Block, States, Tape, block_edge, advance, init_current}
use libspectrum.Tape.Next.{finish_edge, get_next_edge}

-- The edges that a tape gives one after another.
pub data Plays : Tape → List Edge → Tape → Type 0 where
  stop : (t : Tape) → Plays t [] t
  play :
      {t : Tape} {e : Edge} {es : List Edge} {t'' : Tape} (t' : Tape)
      → get_next_edge t ≡ some (ok (e, t'))
      → Plays t' es t''
      → Plays t (e ∷ es) t''

pub append-Plays :
    {t t' t'' : Tape} {xs ys : List Edge} → Plays t xs t' → Plays t' ys t'' → Plays t (xs ++ ys) t''
append-Plays (stop t) k = k
append-Plays (play t' h rest) k = play t' h (append-Plays rest k)

-- The last edge ends the block, and no edge before it.
abbrev pub EndsOnce : List Edge → Type 0
EndsOnce [] = ⊥
EndsOnce (e ∷ []) = e.end_of_block ≡ true
EndsOnce (e ∷ f ∷ es) = (e.end_of_block ≡ false) × EndsOnce (f ∷ es)

-- An edge as the tape returns it: `last` says whether its block is the last of the tape.
abbrev pub on_tape : Bool → Edge → Edge
on_tape last e =
    let flags = bit_or e.flags flags_block in
    let over = bit_or flags (flags_stop + flags_tape) in
    if e.end_of_block
    then record e { flags = if last then over - bit_and over flags_no_edge else flags }
    else e

abbrev pub is_last : List Block → ℕ → Bool
is_last blocks n = not (ltb (n + 1) (length blocks))

abbrev pub next_position : List Block → ℕ → ℕ
next_position blocks n = if is_last blocks n then 0 else n + 1

module _ (blocks : List Block) (loop_block : Option ℕ) (loop_count : ℕ) where
  -- The tape at a block.
  abbrev pub at : ℕ → States → Tape
  at n states = record {
    blocks = blocks;
    current_block = some n;
    loop_block = loop_block;
    loop_count = loop_count;
    states = states;
  }

  advance_lem :
      (n : ℕ) (e : Edge) (states : States)
      → n < length blocks
      → let over = bit_or e.flags (flags_stop + flags_tape) in
        advance e (at n states) ≡ (
          record e {
            flags = if is_last blocks n then over - bit_and over flags_no_edge else e.flags;
          },
          at (next_position blocks n) states,
        )
  unfolding advance
  advance_lem n e states inside =
      let nonempty : ltb 0 (length blocks) ≡ true = lt→ltb 0 (length blocks) (omega arith) in
      elim (Bool-cases (ltb (n + 1) (length blocks))) [
        | inl more ↦ rw (advance, more)
        | inr over ↦ rw (advance, over, nonempty)
      ]

  pub finish_last :
      (n : ℕ) (inside : n < length blocks) (tstates flags : ℕ) (states : States) (t : Tape)
      → init_current (at (next_position blocks n) states) ≡ some (ok t)
      → let e : Edge = record { tstates = tstates; flags = flags; end_of_block = true } in
        finish_edge (e, false, at n states) ≡ some (ok (on_tape (is_last blocks n) e, t))
  unfolding finish_edge
  finish_last n inside tstates flags states t start =
      let marked : Edge = record {
        tstates = tstates;
        flags = bit_or flags flags_block;
        end_of_block = true;
      } in
      rw (advance_lem n marked states inside, start) (rw (advance_lem n marked states inside))

  module _ (n : ℕ) (b : Block) {S : Type 0} (put : S → States) (f : S → Result (Edge × S))
      (inside : n < length blocks) (here : get_elem? blocks n ≡ some b)
      (step : (s s' : S) (e : Edge)
        → f s ≡ ok (e, s')
        → block_edge b n (at n (put s)) ≡ some (ok (e, false, at n (put s')))) where
    edge_inside :
        (s s' : S) (e : Edge)
        → e.end_of_block ≡ false
        → f s ≡ ok (e, s')
        → get_next_edge (at n (put s)) ≡ some (ok (e, at n (put s')))
    unfolding get_next_edge finish_edge
    edge_inside s s' e h k = rw (here, step s s' e k, h)

    edge_last :
        (s s' : S) (e : Edge) (t : Tape)
        → e.end_of_block ≡ true
        → f s ≡ ok (e, s')
        → init_current (at (next_position blocks n) (put s')) ≡ some (ok t)
        → get_next_edge (at n (put s)) ≡ some (ok (on_tape (is_last blocks n) e, t))
    unfolding get_next_edge
    edge_last s s' e t h k start =
        rw (here, step s s' e k)
          (subst
            (λ x.
              finish_edge (x, false, at n (put s')) ≡ some (ok (on_tape (is_last blocks n) x, t)))
            (ap (λ end. record e { end_of_block = end }) (sym h))
            (finish_last n inside e.tstates e.flags (put s') t start))

    -- The edges of a block, from any of its states, leave the tape at the start of the next block.
    pub block_plays :
        {s s' : S} {es : List Edge}
        → Emits f s es s'
        → EndsOnce es
        → (t : Tape) → init_current (at (next_position blocks n) (put s')) ≡ some (ok t)
        → Plays (at n (put s)) (map (on_tape (is_last blocks n)) es) t
    block_plays (done s) ends t start = absurd ends
    block_plays (edge {e = e} s' h (done u)) ends t start =
        play t (edge_last _ s' e t ends h start) (stop t)
    block_plays (edge {e = e} s' h (edge u k rest)) (mid, ends) t start =
        let out : on_tape (is_last blocks n) e ≡ e = rw mid in
        play (at n (put s'))
          (edge_inside _ s' e mid h ∙ ap (λ x. some (ok (x, at n (put s')))) (sym out))
          (block_plays (edge u k rest) ends t start)
