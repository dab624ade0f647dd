-- ===== src/Tape/Next/Replay.antt =====
-- A tape that is made of parts, played from its start, any number of times.
use mathlib.Core.Path.{subst}
use libspectrum.Base.{ℕ, zero, suc, ◌≡◌, refl, ap, ◌∙◌, sym}
use libspectrum.Base.{
  All, All-append, append_assoc, append-nil, List, [], ◌∷◌, ◌++◌, length, get_elem?,
}
use libspectrum.Base.{Option, none, some, Result, ok, err}
use libspectrum.Base.Partial.{◌>>=◌}
use libspectrum.Tape.Edges.{Edge}
use libspectrum.Tape.Next.{
  Block, States, Tape, block_init, init_current, loop_start, loop_end, get_next_edge,
}
use libspectrum.Tape.Next.{
  rom, turbo, pure_tone, pulses, pure_data, raw_data, generalised_data, pause_block, jump,
}
use libspectrum.Tape.Next.{stop48, set_signal_level, rle_pulse, pulse_sequence, data_block, concat}
use libspectrum.Tape.Next.{
  group_start, group_end, select, comment, message, archive_info, hardware, custom,
}
use libspectrum.Tape.Next.Blocks.{Plays, stop, play, append-Plays, at}
use libspectrum.Tape.Next.Whole.{IsPlayable}
use libspectrum.Tape.Next.Stretch.{IsStartable}
use libspectrum.Tape.Next.Program.{
  Part, one, repeat, blocks_of, tape_blocks, IsPart, parts_edges, IsReadyAt, parts_play,
}
use libspectrum.Tape.Raw.Play.{raw-Emits}
use libspectrum.Tape.Select.{tape_alloc, append_block, append_blocks}

playable-IsStartable : (b : Block) → IsPlayable b → IsStartable b
unfolding block_init
playable-IsStartable (rom b) v s = (_, refl)
playable-IsStartable (turbo b) v s = (_, refl)
playable-IsStartable (pure_tone b) v s = (_, refl)
playable-IsStartable (pulses b) v s = (_, refl)
playable-IsStartable (pure_data b) v s = (_, refl)
playable-IsStartable (pause_block ms n l) v s = (_, refl)
playable-IsStartable (set_signal_level l) v s = (_, refl)
playable-IsStartable (group_start text) v s = (s, refl)
playable-IsStartable group_end v s = (s, refl)
playable-IsStartable (select choices) v s = (s, refl)
playable-IsStartable (comment text) v s = (s, refl)
playable-IsStartable (message ms tstates text) v s = (s, refl)
playable-IsStartable (archive_info strings) v s = (s, refl)
playable-IsStartable (hardware entries) v s = (s, refl)
playable-IsStartable (custom name bytes) v s = (s, refl)
playable-IsStartable stop48 v s = (s, refl)
playable-IsStartable (raw_data b) (bytes, e, v) s =
    let (t, t', init, emits) = raw-Emits b bytes s.raw e v in (record s { raw = t }, rw init)
playable-IsStartable (generalised_data b) v s = absurd v
playable-IsStartable (jump o) v s = absurd v
playable-IsStartable (loop_start c) v s = absurd v
playable-IsStartable loop_end v s = absurd v
playable-IsStartable (rle_pulse b) v s = absurd v
playable-IsStartable (pulse_sequence b) v s = absurd v
playable-IsStartable (data_block b) v s = absurd v
playable-IsStartable concat v s = absurd v

body-IsStartable : (body : List Block) → All IsPlayable body → All IsStartable body
body-IsStartable [] v = tt
body-IsStartable (b ∷ bs) v = (playable-IsStartable b v.0, body-IsStartable bs v.1)

part-IsStartable : (p : Part) → IsPart p → All IsStartable (blocks_of p)
unfolding block_init
part-IsStartable (one b) v = (playable-IsStartable b v, tt)
part-IsStartable (repeat k body) v = (
  (λ s. (s, refl)),
  All-append IsStartable body (loop_end ∷ []) (body-IsStartable body v.1) ((λ s. (s, refl)), tt),
)

tape-IsStartable : (ps : List Part) → All IsPart ps → All IsStartable (tape_blocks ps)
tape-IsStartable [] v = tt
tape-IsStartable (p ∷ ps) v =
    All-append IsStartable (blocks_of p) (tape_blocks ps) (part-IsStartable p v.0)
      (tape-IsStartable ps v.1)

IsStartable-at :
    (blocks : List Block)
    → All IsStartable blocks
    → (n : ℕ) (b : Block) → get_elem? blocks n ≡ some b
    → IsStartable b
IsStartable-at [] v n b h = absurd (cc h)
IsStartable-at (c ∷ blocks) v zero b h = let e : c ≡ b = cc h in subst IsStartable e v.0
IsStartable-at (c ∷ blocks) v (suc n) b h = IsStartable-at blocks v.1 n b h

-- Blocks that are put on a tape with a current block stand behind the others.
append_blocks_more :
    (blocks bs : List Block) (loop_block : Option ℕ) (loop_count n : ℕ) (s : States)
    → append_blocks (at blocks loop_block loop_count n s) bs
      ≡ some (at (blocks ++ bs) loop_block loop_count n s)
unfolding append_blocks append_block
append_blocks_more blocks [] loop_block loop_count n s =
    ap (λ bs. some (at bs loop_block loop_count n s)) (sym (append-nil blocks))
append_blocks_more blocks (b ∷ bs) loop_block loop_count n s =
    append_blocks_more (blocks ++ (b ∷ [])) bs loop_block loop_count n s
    ∙ ap (λ bs. some (at bs loop_block loop_count n s)) (append_assoc blocks (b ∷ []) bs)

append_blocks_first :
    (b : Block) (bs : List Block) (loop_count : ℕ) (s first : States)
    → block_init b s ≡ some (ok first)
    → append_blocks (tape_alloc loop_count s) (b ∷ bs) ≡ some (at (b ∷ bs) none loop_count 0 first)
unfolding append_blocks append_block tape_alloc
append_blocks_first b bs loop_count s first h =
    rw h (append_blocks_more (b ∷ []) bs none loop_count 0 first)

-- A list of edges so many times.
abbrev pub times : ℕ → List Edge → List Edge
times zero es = []
times (suc k) es = es ++ times k es

-- So many edges of a tape, one after another.
unfoldable pub play_edges : ℕ → Tape → Option (Result (List Edge × Tape))
play_edges zero t = some (ok ([], t))
play_edges (suc n) t = get_next_edge t >>= λ r. elim r [
  | err error ↦ some (err error)
  | ok (e, t') ↦ play_edges n t' >>= λ q. elim q [
    | err error ↦ some (err error)
    | ok (es, t'') ↦ some (ok (e ∷ es, t''))
  ]
]

plays-play_edges :
    {t t' : Tape} {es : List Edge} → Plays t es t' → play_edges (length es) t ≡ some (ok (es, t'))
unfolding play_edges
plays-play_edges (stop t) = refl
plays-play_edges (play t' h rest) = rw (h, plays-play_edges rest)

times_play :
    (p : Part) (ps : List Part) (k : ℕ) (t : Tape)
    → All IsPart (p ∷ ps)
    → IsReadyAt (tape_blocks (p ∷ ps)) 0 t
    → (t' : Tape) × Plays t (times k (parts_edges (tape_blocks (p ∷ ps)) 0 (p ∷ ps))) t'
times_play p ps zero t v r = (t, stop t)
times_play p ps (suc k) t v r =
    let blocks = tape_blocks (p ∷ ps) in
    let startable = IsStartable-at blocks (tape-IsStartable (p ∷ ps) v) in
    let (t', run, r') = parts_play blocks startable 0 p ps t refl v r in
    let (t'', more) = times_play p ps k t' v r' in (t'', append-Plays run more)

tape_starts :
    (b : Block) (bs : List Block) (loop_count : ℕ) (s : States)
    → IsStartable b
    → (t : Tape) × (append_blocks (tape_alloc loop_count s) (b ∷ bs) ≡ some t)
      × IsReadyAt (b ∷ bs) 0 t
unfolding init_current
tape_starts b bs loop_count s start =
    let (first, h) = start s in
    (
      at (b ∷ bs) none loop_count 0 first,
      append_blocks_first b bs loop_count s first h,
      (none, loop_count, (s, rw h)),
    )

parts_start :
    (p : Part) (ps : List Part) (loop_count : ℕ) (s : States)
    → IsPart p
    → (t : Tape) × (append_blocks (tape_alloc loop_count s) (tape_blocks (p ∷ ps)) ≡ some t)
      × IsReadyAt (tape_blocks (p ∷ ps)) 0 t
parts_start (one b) ps loop_count s v =
    tape_starts b (tape_blocks ps) loop_count s (playable-IsStartable b v)
parts_start (repeat k body) ps loop_count s v =
    tape_starts (loop_start (suc k)) ((body ++ (loop_end ∷ [])) ++ tape_blocks ps) loop_count s
      (part-IsStartable (repeat k body) v).0

-- A tape to which blocks and loops of blocks have been appended, each block of a kind that is
-- listed in `IsPlayable`, gives just the edges of its blocks in order, the body of a loop as often as
-- its start says; the last edge of a block is marked, and that of the tape too; then it begins
-- again, any number of times, and no call fails.
pub tape_plays :
    (p : Part) (ps : List Part) (loop_count : ℕ) (s : States) (k : ℕ)
    → All IsPart (p ∷ ps)
    → let es = times k (parts_edges (tape_blocks (p ∷ ps)) 0 (p ∷ ps)) in
      (t : Tape) × (t' : Tape) × (append_blocks (tape_alloc loop_count s) (tape_blocks (p ∷ ps))
        ≡ some t)
      × (play_edges (length es) t ≡ some (ok (es, t')))
tape_plays p ps loop_count s k v =
    let (t, made, r) = parts_start p ps loop_count s v.0 in
    let (t', run) = times_play p ps k t v r in (t, t', made, plays-play_edges run)
