-- ===== src/Tape/Next/Loops.antt =====
-- A loop of a tape: its body is played as often as the block at its start says.
use libspectrum.Base.{ℕ, zero, suc, ◌+◌, ◌^◌, ◌<◌, ◌≡◌, refl, ap, ◌∙◌, arith, ltb, lt→ltb}
use libspectrum.Base.{Bool, true, false, not, ◌==◌, ne→==, All, drop}
use libspectrum.Base.{List, [], ◌∷◌, ◌++◌, length, length-append, get_elem?, Option, none, some, ok}
use libspectrum.Base.Regions.{get_elem?-drop, drop_behind}
use libspectrum.Tape.Edges.{Edge, decrement, flags_no_edge}
use libspectrum.Tape.Next.{
  Block, States, Tape, block_init, init_current, block_edge, finish_edge, get_next_edge,
}
use libspectrum.Tape.Next.{loop_start, loop_end, ends}
use libspectrum.Tape.Next.Blocks.{
  Plays, stop, play, append-Plays, on_tape, at, is_last, next_position, finish_last,
}
use libspectrum.Tape.Next.Whole.{IsPlayable}
use libspectrum.Tape.Next.Stretch.{IsStartable, IsReady, stretch_edges, stretch, stretch_end_inside}
use libspectrum.Tape.Next.Stretch.{becomes_ready, ready_at, next_position_inside}

-- The edge of a block that only directs the tape.
abbrev pub marker : Bool → Edge
marker last = on_tape last (ends 0 flags_no_edge)

module _ (blocks : List Block) where
  -- The edges of `suc k` rounds of a body from a position on, with a mark behind each.
  abbrev pub rounds : ℕ → List Block → ℕ → List Edge
  rounds n body zero =
      stretch_edges blocks n body ++ (marker (is_last blocks (n + length body)) ∷ [])
  rounds n body (suc k) = stretch_edges blocks n body ++ (marker false ∷ rounds n body k)

  -- One step of the tape at a block that directs it.
  step_at :
      (loop_block : Option ℕ) (loop_count n : ℕ) (s : States) (b : Block) (x : Edge × Bool × Tape)
      → get_elem? blocks n ≡ some b
      → block_edge b n (at blocks loop_block loop_count n s) ≡ some (ok x)
      → get_next_edge (at blocks loop_block loop_count n s) ≡ finish_edge x
  unfolding get_next_edge
  step_at loop_block loop_count n s b x here h = rw (here, h)

  enter_step :
      (loop_block : Option ℕ) (loop_count n k : ℕ) (s : States)
      → n + 1 < length blocks
      → block_edge (loop_start (suc k)) n (at blocks loop_block loop_count n s)
        ≡ some (ok (ends 0 flags_no_edge, false, at blocks (some (n + 1)) (suc k) n s))
  unfolding block_edge
  enter_step loop_block loop_count n k s more =
      let l : ltb (n + 1) (length blocks) ≡ true = lt→ltb (n + 1) (length blocks) more in
      let count : (suc k == 0) ≡ false = ne→== (suc k) 0 (λ i. omega arith) in rw (l, count)

  -- The end of a loop: the last round is over, or another begins.
  leave_step :
      (n start : ℕ) (s : States)
      → block_edge loop_end n (at blocks (some start) 1 n s)
        ≡ some (ok (ends 0 flags_no_edge, false, at blocks none 0 n s))
  unfolding block_edge
  leave_step n start s = refl

  again_step :
      (n start k : ℕ) (s : States)
      → suc (suc k) < 2 ^ 64
      → block_edge loop_end n (at blocks (some start) (suc (suc k)) n s)
        ≡ some (ok (ends 0 flags_no_edge, true, at blocks (some start) (suc k) start s))
  unfolding block_edge
  again_step n start k s small =
      let e : decrement (suc (suc k)) ≡ suc k = omega arith in
      let count : (suc k == 0) ≡ false = ne→== (suc k) 0 (λ i. omega arith) in rw (e, count)

  -- A block that keeps the tape where it put it.
  finish_here :
      (loop_block : Option ℕ) (loop_count n : ℕ) (s : States) (t : Tape)
      → init_current (at blocks loop_block loop_count n s) ≡ some (ok t)
      → finish_edge (ends 0 flags_no_edge, true, at blocks loop_block loop_count n s)
        ≡ some (ok (marker false, t))
  unfolding finish_edge
  finish_here loop_block loop_count n s t r = rw r

  module _ (startable : (n : ℕ) (b : Block) → get_elem? blocks n ≡ some b → IsStartable b) where
    -- The start of a loop is noted, with the number of its rounds.
    enter :
        (loop_block : Option ℕ) (loop_count n k : ℕ) (t : Tape)
        → n + 1 < length blocks
        → get_elem? blocks n ≡ some (loop_start (suc k))
        → IsReady blocks loop_block loop_count n t
        → (t' : Tape) × Plays t (marker false ∷ []) t'
          × IsReady blocks (some (n + 1)) (suc k) (n + 1) t'
    unfolding block_init
    enter loop_block loop_count n k t more here (s, r) =
        let l : ltb (n + 1) (length blocks) ≡ true = lt→ltb (n + 1) (length blocks) more in
        let start : next_position blocks n ≡ n + 1 = rw l in
        let at_start : t ≡ at blocks loop_block loop_count n s =
          ready_at blocks startable loop_block loop_count n (loop_start (suc k)) s s t here r
            refl in
        let (t', r') = becomes_ready blocks startable (some (n + 1)) (suc k) (n + 1) s more in
        let finish : finish_edge (ends 0 flags_no_edge, false, at blocks (some (n + 1)) (suc k) n s)
            ≡ some (ok (marker false, t')) =
          finish_last blocks (some (n + 1)) (suc k) n (omega arith) 0 flags_no_edge s t'
            (rw (start, r'))
          ∙ ap (λ x. some (ok (marker (not x), t'))) l in
        let step =
          step_at loop_block loop_count n s (loop_start (suc k)) _ here
            (enter_step loop_block loop_count n k s more)
          ∙ finish in
        (t', rw at_start (play t' step (stop t')), (s, r'))

    -- The last round over, the tape goes on.
    leave :
        (start n : ℕ) (t : Tape)
        → n < length blocks
        → get_elem? blocks n ≡ some loop_end
        → IsReady blocks (some start) 1 n t
        → (t' : Tape) × Plays t (marker (is_last blocks n) ∷ []) t'
          × IsReady blocks none 0 (next_position blocks n) t'
    unfolding block_init
    leave start n t inside here (s, r) =
        let at_end : t ≡ at blocks (some start) 1 n s =
          ready_at blocks startable (some start) 1 n loop_end s s t here r refl in
        let (t', r') =
          becomes_ready blocks startable none 0 (next_position blocks n) s
            (next_position_inside blocks n inside) in
        let step =
          step_at (some start) 1 n s loop_end _ here (leave_step n start s)
          ∙ finish_last blocks none 0 n inside 0 flags_no_edge s t' r' in
        (t', rw at_end (play t' step (stop t')), (s, r'))

    -- Another round begins.
    again :
        (start n k : ℕ) (t : Tape)
        → suc (suc k) < 2 ^ 64
        → start < length blocks
        → get_elem? blocks n ≡ some loop_end
        → IsReady blocks (some start) (suc (suc k)) n t
        → (t' : Tape) × Plays t (marker false ∷ []) t'
          × IsReady blocks (some start) (suc k) start t'
    unfolding block_init
    again start n k t small inside here (s, r) =
        let at_end : t ≡ at blocks (some start) (suc (suc k)) n s =
          ready_at blocks startable (some start) (suc (suc k)) n loop_end s s t here r refl in
        let (t', r') = becomes_ready blocks startable (some start) (suc k) start s inside in
        let step =
          step_at (some start) (suc (suc k)) n s loop_end _ here (again_step n start k s small)
          ∙ finish_here (some start) (suc k) start s t' r' in
        (t', rw at_end (play t' step (stop t')), (s, r'))

    -- The rounds of a body that stands before the end of a loop.
    rounds_play :
        (start k : ℕ) (body after : List Block) (t : Tape)
        → suc k < 2 ^ 64
        → drop start blocks ≡ body ++ (loop_end ∷ after)
        → get_elem? blocks (start + length body) ≡ some loop_end
        → start + length body < length blocks
        → All IsPlayable body
        → IsReady blocks (some start) (suc k) start t
        → (t' : Tape) × Plays t (rounds start body k) t'
          × IsReady blocks none 0 (next_position blocks (start + length body)) t'
    rounds_play start zero body after t small d here inside v r =
        let end = stretch_end_inside blocks start body inside in
        let (t', run, r') =
          stretch blocks startable (some start) 1 start body (loop_end ∷ after) t d v r in
        let (t'', more, r'') = leave start (start + length body) t' inside here (simp end at r') in
        (t'', append-Plays run more, r'')
    rounds_play start (suc k) body after t small d here inside v r =
        let end = stretch_end_inside blocks start body inside in
        let (t', run, r') =
          stretch blocks startable (some start) (suc (suc k)) start body (loop_end ∷ after) t d v
            r in
        let (t'', more, r'') =
          again start (start + length body) k t' small (omega arith) here (simp end at r') in
        let (t3, last, r3) = rounds_play start k body after t'' (omega arith) d here inside v r'' in
        (t3, append-Plays run (append-Plays more last), r3)

    pub loop_plays :
        (loop_block : Option ℕ) (loop_count n k : ℕ) (body after : List Block) (t : Tape)
        → suc k < 2 ^ 64
        → drop n blocks ≡ loop_start (suc k) ∷ body ++ (loop_end ∷ after)
        → All IsPlayable body
        → IsReady blocks loop_block loop_count n t
        → (t' : Tape) × Plays t (marker false ∷ rounds (n + 1) body k) t'
          × IsReady blocks none 0 (next_position blocks (n + 1 + length body)) t'
    loop_plays loop_block loop_count n k body after t small d v r =
        let (here, behind, l) = get_elem?-drop n blocks _ _ d in
        let size = length-append body (loop_end ∷ after) in
        let next : n + 1 ≡ suc n = omega arith in
        let d' : drop (n + 1) blocks ≡ body ++ (loop_end ∷ after) = rw next behind in
        let end_here =
          (get_elem?-drop (n + 1 + length body) blocks loop_end after
            (drop_behind (n + 1) blocks body (loop_end ∷ after) d')).0 in
        let (t', run, r') = enter loop_block loop_count n k t (omega (arith, l, size)) here r in
        let (t'', more, r'') =
          rounds_play (n + 1) k body after t' small d' end_here (omega (arith, l, size)) v r' in
        (t'', append-Plays run more, r'')
