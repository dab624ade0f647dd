-- ===== src/Tape/Next/Program.antt =====
-- A whole tape: a list of blocks and of loops of blocks. Its edges are those of its parts in order,
-- with the loops unrolled.
use mathlib.Core.Path.{subst}
use libspectrum.Base.{ℕ, suc, ◌+◌, ◌-◌, ◌^◌, ◌≤◌, ◌<◌, ◌≡◌, ap, ◌∙◌, sym, arith}
use libspectrum.Base.{false, map, All, drop, length-append, length-drop, append_assoc, append-nil}
use libspectrum.Base.{List, [], ◌∷◌, ◌++◌, length, get_elem?, Option, none, some}
use libspectrum.Base.Regions.{drop_behind}
use libspectrum.Tape.Edges.{Edge}
use libspectrum.Tape.Next.{Block, Tape, loop_start, loop_end}
use libspectrum.Tape.Next.Blocks.{Plays, append-Plays, on_tape, is_last, next_position}
use libspectrum.Tape.Next.Whole.{block_edges, IsPlayable}
use libspectrum.Tape.Next.Stretch.{IsStartable, IsReady, stretch, next_inside, next_last}
use libspectrum.Tape.Next.Loops.{marker, rounds, loop_plays}

-- A part of a tape: a block, or a loop of `suc k` rounds.
pub data Part : Type 0 where
  one : Block → Part
  repeat : ℕ → List Block → Part

abbrev pub blocks_of : Part → List Block
blocks_of (one b) = b ∷ []
blocks_of (repeat k body) = loop_start (suc k) ∷ body ++ (loop_end ∷ [])

abbrev pub tape_blocks : List Part → List Block
tape_blocks [] = []
tape_blocks (p ∷ ps) = blocks_of p ++ tape_blocks ps

abbrev pub IsPart : Part → Type 0
IsPart (one b) = IsPlayable b
IsPart (repeat k body) = (suc k < 2 ^ 64) × All IsPlayable body

module _ (blocks : List Block) where
  abbrev pub part_edges : ℕ → Part → List Edge
  part_edges n (one b) = map (on_tape (is_last blocks n)) (block_edges b)
  part_edges n (repeat k body) = marker false ∷ rounds blocks (n + 1) body k

  -- The edges of the parts of a tape from a position on.
  abbrev pub parts_edges : ℕ → List Part → List Edge
  parts_edges n [] = []
  parts_edges n (p ∷ ps) = part_edges n p ++ parts_edges (n + length (blocks_of p)) ps

  abbrev pub IsReadyAt : ℕ → Tape → Type 0
  IsReadyAt n t =
      (loop_block : Option ℕ) × (loop_count : ℕ) × IsReady blocks loop_block loop_count n t

  module _ (startable : (n : ℕ) (b : Block) → get_elem? blocks n ≡ some b → IsStartable b) where
    part_plays :
        (n : ℕ) (p : Part) (after : List Block) (t : Tape)
        → drop n blocks ≡ blocks_of p ++ after
        → IsPart p
        → IsReadyAt n t
        → (t' : Tape) × Plays t (part_edges n p) t'
          × IsReadyAt (next_position blocks (n + (length (blocks_of p) - 1))) t'
    part_plays n (one b) after t d v (lb, lc, r) =
        let (t', run, r') = stretch blocks startable lb lc n (b ∷ []) after t d (v, tt) r in
        let e : n + (1 - 1) ≡ n = omega arith in
        (t', subst (λ es. Plays t es t') (append-nil _) run, (lb, lc, rw e r'))
    part_plays n (repeat k body) after t d v (lb, lc, r) =
        let d' = d ∙ ap (λ r. loop_start (suc k) ∷ r) (append_assoc body (loop_end ∷ []) after) in
        let (t', run, r') = loop_plays blocks startable lb lc n k body after t v.0 d' v.1 r in
        let e : n + (length (loop_start (suc k) ∷ body ++ (loop_end ∷ [])) - 1)
            ≡ n + 1 + length body =
          omega (arith, length-append body (loop_end ∷ [])) in
        (t', run, (none, 0, rw e r'))

    part_nonempty : (p : Part) → 1 ≤ length (blocks_of p)
    part_nonempty (one b) = omega arith
    part_nonempty (repeat k body) = omega arith

    -- The last part leads back to the start.
    pub parts_play :
        (n : ℕ) (p : Part) (ps : List Part) (t : Tape)
        → drop n blocks ≡ tape_blocks (p ∷ ps)
        → All IsPart (p ∷ ps)
        → IsReadyAt n t
        → (t' : Tape) × Plays t (parts_edges n (p ∷ ps)) t' × IsReadyAt 0 t'
    parts_play n p [] t d v r =
        let (t', run, r') = part_plays n p [] t d v.0 r in
        let size = sym (length-drop n blocks) ∙ ap length d ∙ length-append (blocks_of p) [] in
        let end : next_position blocks (n + (length (blocks_of p) - 1)) ≡ 0 =
          next_last blocks _ (omega (arith, size, part_nonempty p)) in
        (
          t',
          subst (λ es. Plays t es t') (sym (append-nil _)) run,
          subst (λ k. IsReadyAt k t') end r',
        )
    parts_play n p (q ∷ ps) t d v r =
        let (t', run, r') = part_plays n p (tape_blocks (q ∷ ps)) t d v.0 r in
        let behind = drop_behind n blocks (blocks_of p) (tape_blocks (q ∷ ps)) d in
        let size =
          sym (length-drop n blocks)
          ∙ ap length d
          ∙ length-append (blocks_of p) (tape_blocks (q ∷ ps)) in
        let more_parts = length-append (blocks_of q) (tape_blocks ps) in
        let next : next_position blocks (n + (length (blocks_of p) - 1))
            ≡ n + length (blocks_of p) =
          next_inside blocks _ (omega (arith, size, part_nonempty p, part_nonempty q, more_parts))
          ∙ omega (arith, part_nonempty p) in
        let (t'', more, r'') =
          parts_play (n + length (blocks_of p)) q ps t' behind v.1
            (subst (λ k. IsReadyAt k t') next r') in
        (t'', append-Plays run more, r'')
