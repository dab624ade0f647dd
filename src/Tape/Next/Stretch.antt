-- ===== src/Tape/Next/Stretch.antt =====
-- A stretch of blocks that can be played, one after another, on a tape whose blocks all start.
use libspectrum.Base.{ℕ, suc, ◌+◌, ◌<◌, ◌≡◌, arith, ltb, lt→ltb, le→ltb}
use libspectrum.Base.{true, false, map, All, drop}
use libspectrum.Base.{List, [], ◌∷◌, ◌++◌, length, get_elem?, Option, some, ok}
use libspectrum.Base.Regions.{get_elem?-drop, drop_inside}
use libspectrum.Tape.Edges.{Edge}
use libspectrum.Tape.Next.{Block, States, Tape, block_init, init_current}
use libspectrum.Tape.Next.Blocks.{Plays, stop, append-Plays, on_tape, at, is_last, next_position}
use libspectrum.Tape.Next.Whole.{block_edges, IsPlayable}
use libspectrum.Tape.Next.Through.{through}

-- A block that can be initialised from any state.
abbrev pub IsStartable : Block → Type 0
IsStartable b = (s : States) → (first : States) × (block_init b s ≡ some (ok first))

module _ (blocks : List Block) where
  -- The edges of the blocks of a stretch from a position on, and where the tape is then.
  abbrev pub stretch_edges : ℕ → List Block → List Edge
  stretch_edges n [] = []
  stretch_edges n (b ∷ rest) =
      map (on_tape (is_last blocks n)) (block_edges b) ++ stretch_edges (suc n) rest

  abbrev pub stretch_end : ℕ → List Block → ℕ
  stretch_end n [] = n
  stretch_end n (b ∷ []) = next_position blocks n
  stretch_end n (b ∷ c ∷ rest) = stretch_end (suc n) (c ∷ rest)

  -- A tape is about to play the block at a position: it has just been initialised.
  abbrev pub IsReady : Option ℕ → ℕ → ℕ → Tape → Type 0
  IsReady loop_block loop_count n t =
      (s : States) × (init_current (at blocks loop_block loop_count n s) ≡ some (ok t))

  pub stretch_end_inside :
      (n : ℕ) (mid : List Block)
      → n + length mid < length blocks
      → stretch_end n mid ≡ n + length mid
  stretch_end_inside n [] h = omega arith
  stretch_end_inside n (b ∷ []) h =
      let e : ltb (n + 1) (length blocks) ≡ true = lt→ltb (n + 1) (length blocks) (omega arith) in
      rw e
  stretch_end_inside n (b ∷ c ∷ rest) h =
      let e = stretch_end_inside (suc n) (c ∷ rest) (omega arith) in omega (arith, e)

  pub stretch_end_whole :
      (n : ℕ) (b : Block) (rest : List Block)
      → n + suc (length rest) ≡ length blocks
      → stretch_end n (b ∷ rest) ≡ 0
  stretch_end_whole n b [] h =
      let e : ltb (n + 1) (length blocks) ≡ false = le→ltb (n + 1) (length blocks) (omega arith) in
      rw e
  stretch_end_whole n b (c ∷ rest) h = stretch_end_whole (suc n) c rest (omega arith)

  pub next_inside : (n : ℕ) → n + 1 < length blocks → next_position blocks n ≡ suc n
  next_inside n h =
      let e : ltb (n + 1) (length blocks) ≡ true = lt→ltb (n + 1) (length blocks) (omega arith) in
      rw e (omega arith)

  pub next_last : (n : ℕ) → n + 1 ≡ length blocks → next_position blocks n ≡ 0
  next_last n h =
      let e : ltb (n + 1) (length blocks) ≡ false = le→ltb (n + 1) (length blocks) (omega arith) in
      rw e

  pub next_position_inside : (n : ℕ) → n < length blocks → next_position blocks n < length blocks
  next_position_inside n h = ground arith

  module _ (startable : (n : ℕ) (b : Block) → get_elem? blocks n ≡ some b → IsStartable b) where
    pub becomes_ready :
        (loop_block : Option ℕ) (loop_count n : ℕ) (s : States)
        → n < length blocks
        → (t : Tape) × (init_current (at blocks loop_block loop_count n s) ≡ some (ok t))
    unfolding init_current
    becomes_ready loop_block loop_count n s inside =
        let (b, rest, d) = drop_inside n blocks inside in
        let (here, _, _) = get_elem?-drop n blocks b rest d in
        let (first, h) = startable n b here s in
        (at blocks loop_block loop_count n first, rw (here, h))

    -- A ready tape at a known block.
    pub ready_at :
        (loop_block : Option ℕ) (loop_count n : ℕ) (b : Block) (s first : States) (t : Tape)
        → get_elem? blocks n ≡ some b
        → init_current (at blocks loop_block loop_count n s) ≡ some (ok t)
        → block_init b s ≡ some (ok first)
        → t ≡ at blocks loop_block loop_count n first
    unfolding init_current
    ready_at loop_block loop_count n b s first t here r h =
        let e : init_current (at blocks loop_block loop_count n s)
            ≡ some (ok (at blocks loop_block loop_count n first)) =
          rw (here, h) in
        cc

    block_step :
        (loop_block : Option ℕ) (loop_count n : ℕ) (b : Block) (t : Tape)
        → n < length blocks
        → get_elem? blocks n ≡ some b
        → IsPlayable b
        → IsReady loop_block loop_count n t
        → (t' : Tape) × Plays t (map (on_tape (is_last blocks n)) (block_edges b)) t'
          × IsReady loop_block loop_count (next_position blocks n) t'
    block_step loop_block loop_count n b t inside here v (s, r) =
        let (first, h) = startable n b here s in
        let (s', run) = through blocks loop_block loop_count n b s first inside here v h in
        let (t', r') =
          becomes_ready loop_block loop_count (next_position blocks n) s'
            (next_position_inside n inside) in
        (t', rw (ready_at loop_block loop_count n b s first t here r h) (run t' r'), (s', r'))

    pub stretch :
        (loop_block : Option ℕ) (loop_count n : ℕ) (mid after : List Block) (t : Tape)
        → drop n blocks ≡ mid ++ after
        → All IsPlayable mid
        → IsReady loop_block loop_count n t
        → (t' : Tape) × Plays t (stretch_edges n mid) t'
          × IsReady loop_block loop_count (stretch_end n mid) t'
    stretch loop_block loop_count n [] after t d v r = (t, stop t, r)
    stretch loop_block loop_count n (b ∷ []) after t d v r =
        let (here, _, l) = get_elem?-drop n blocks b after d in
        let (t', run, r') = block_step loop_block loop_count n b t (omega (arith, l)) here v.0 r in
        (t', append-Plays run (stop t'), r')
    stretch loop_block loop_count n (b ∷ c ∷ rest) after t d v r =
        let (here, behind, l) = get_elem?-drop n blocks b (c ∷ rest ++ after) d in
        let (t', run, r') = block_step loop_block loop_count n b t (omega (arith, l)) here v.0 r in
        let e : next_position blocks n ≡ suc n = next_inside n (omega (arith, l)) in
        let (t'', more, r'') =
          stretch loop_block loop_count (suc n) (c ∷ rest) after t' behind v.1 (simp e at r') in
        (t'', append-Plays run more, r'')
