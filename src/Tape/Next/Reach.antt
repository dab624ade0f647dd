-- ===== src/Tape/Next/Reach.antt =====
-- The tapes that playing reaches.
use mathlib.Core.Path.{subst}
use libspectrum.Base.{ℕ, ◌≡◌, refl, ◌∙◌, Bool, true, false, bit_or}
use libspectrum.Base.{List, get_elem?, Option, none, some, Result, ok, err}
use libspectrum.Base.Partial.{◌>>=◌}
use libspectrum.Tape.Edges.{Edge, flags_block}
use libspectrum.Tape.Next.{
  Block, Tape, Step, ends, block_edge, advance, init_current, finish_edge, get_next_edge,
}
use libspectrum.Tape.Next.Blocks.{Plays, stop, play}
use libspectrum.Tape.Next.Inside.{
  IsTape, Keeps, StepKeeps, TapeKeeps, init_current-Keeps, advance-Keeps, block_edge-Keeps,
}

Keeps-trans : (t t' t'' : Tape) → Keeps t t' → Keeps t' t'' → Keeps t t''
Keeps-trans t t' t'' h k = (k.0 ∙ h.0, k.1)

abbrev EdgeKeeps : Tape → Option (Result (Edge × Tape)) → Type 0
EdgeKeeps t none = Unit {0}
EdgeKeeps t (some (err e)) = Unit {0}
EdgeKeeps t (some (ok (e, t'))) = Keeps t t'

restart-Keeps :
    (e : Edge) (t t' : Tape) (q : Option (Result Tape))
    → Keeps t t'
    → TapeKeeps t' q
    → EdgeKeeps t (q >>= λ r. elim r [ ok t'' ↦ some (ok (e, t'')) | err error ↦ some (err error) ])
restart-Keeps e t t' none h k = tt
restart-Keeps e t t' (some (ok t'')) h k = Keeps-trans t t' t'' h k
restart-Keeps e t t' (some (err error)) h k = tt

finish_fields-Keeps :
    (tstates flags : ℕ) (end stay : Bool) (t t' : Tape)
    → Keeps t t'
    → EdgeKeeps t
        (finish_edge (record { tstates = tstates; flags = flags; end_of_block = end }, stay, t'))
unfolding finish_edge
finish_fields-Keeps tstates flags false stay t t' h = h
finish_fields-Keeps tstates flags true true t t' h =
    restart-Keeps _ t t' (init_current t') h (init_current-Keeps t' h.1)
finish_fields-Keeps tstates flags true false t t' h =
    let marked : Edge = record {
      tstates = tstates;
      flags = bit_or flags flags_block;
      end_of_block = true;
    } in
    let moved = advance-Keeps marked t' h.1 in
    let there = (advance marked t').1 in
    restart-Keeps _ t there (init_current there) (Keeps-trans t t' there h moved)
      (init_current-Keeps there moved.1)

step-Keeps :
    (t : Tape) (q : Step)
    → StepKeeps t q
    → EdgeKeeps t (q >>= λ r. elim r [ ok x ↦ finish_edge x | err e ↦ some (err e) ])
step-Keeps t none h = tt
step-Keeps t (some (err e)) h = tt
step-Keeps t (some (ok (e, stay, t'))) h =
    finish_fields-Keeps e.tstates e.flags e.end_of_block stay t t' h

block-Keeps :
    (t : Tape) (n : ℕ) (o : Option Block)
    → IsTape t
    → StepKeeps t (elim o [ none ↦ some (ok (ends 0 0, false, t)) | some b ↦ block_edge b n t ])
block-Keeps t n none w = (refl, w)
block-Keeps t n (some b) w = block_edge-Keeps b n t w

here-Keeps :
    (t : Tape) (c : Option ℕ)
    → IsTape t
    → StepKeeps t (elim c [
      | none ↦ some (ok (ends 0 0, false, t))
      | some n ↦ elim (get_elem? t.blocks n) [
        | none ↦ some (ok (ends 0 0, false, t))
        | some b ↦ block_edge b n t
      ]
    ])
here-Keeps t none w = (refl, w)
here-Keeps t (some n) w = block-Keeps t n (get_elem? t.blocks n) w

get_next_edge-Keeps : (t : Tape) → IsTape t → EdgeKeeps t (get_next_edge t)
unfolding get_next_edge
get_next_edge-Keeps t w = step-Keeps t _ (here-Keeps t t.current_block w)

-- Whatever the blocks of a tape are, playing leaves its list of blocks as it is, and its current block
-- and the start of its loop, if there are any, in this list.
pub plays-IsTape :
    {t t' : Tape} {es : List Edge} → Plays t es t' → IsTape t → (t'.blocks ≡ t.blocks) × IsTape t'
plays-IsTape (stop t) w = (refl, w)
plays-IsTape {t} (play t1 h rest) w =
    let one : Keeps t t1 = subst (EdgeKeeps t) h (get_next_edge-Keeps t w) in
    let (e, v) = plays-IsTape rest one.1 in (e ∙ one.0, v)
