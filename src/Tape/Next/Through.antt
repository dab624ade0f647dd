-- ===== src/Tape/Next/Through.antt =====
-- Each kind of blocks that can be played, on a tape.
use mathlib.Core.Path.{subst}
use libspectrum.Base.{ℕ, suc, ◌-◌, ◌≤◌, ◌<◌, ◌≡◌, refl, ap, ◌∙◌, sym, arith}
use libspectrum.Base.{true, false, if◌then◌else◌, map, All-append, replicate}
use libspectrum.Base.{List, [], ◌∷◌, ◌++◌, length, get_elem?, Option, some, Result, ok}
use libspectrum.Tape.Edges.{
  Edge, plain, flags_no_edge, flags_stop48, flags_level_low, flags_level_high,
}
use libspectrum.Tape.Emits.{Emits, done, edge}
use libspectrum.Tape.Data.{rom_data, rom_edge, turbo_edge, pure_data_edge}
use libspectrum.Tape.Data.Play.{payload_edges, rom_pilots, pure_data-Emits, rom-Emits, turbo-Emits}
use libspectrum.Tape.Pulses.{tone_edge, pulses_edge}
use libspectrum.Tape.Raw.{raw_data_edge, samples}
use libspectrum.Tape.Raw.Steps.{raw_step, settled_ok}
use libspectrum.Tape.Raw.Play.{raw-Emits, raw_edges}
use libspectrum.Tape.Pulses.Play.{tone_edges, tone-Emits, pulses-Emits, last_edge}
use libspectrum.Tape.Next.{
  Block, States, Tape, block_edge, block_init, in_states, init_current, ends, pause_flags,
}
use libspectrum.Tape.Next.{
  rom, turbo, pure_tone, pulses, pure_data, raw_data, generalised_data, pause_block, jump,
}
use libspectrum.Tape.Next.{
  loop_start, loop_end, stop48, set_signal_level, rle_pulse, pulse_sequence, data_block, concat,
}
use libspectrum.Tape.Next.{
  group_start, group_end, select, comment, message, archive_info, hardware, custom,
}
use libspectrum.Tape.Next.Blocks.{Plays, EndsOnce, on_tape, at, is_last, next_position, block_plays}
use libspectrum.Tape.Next.Whole.{
  block_edges, IsPlayable, append-EndsOnce, cons-EndsOnce, payload-EndsOnce, raw-EndsOnce, Mid,
  plain-Mid, pulse-EndsOnce,
}

module _ (blocks : List Block) (loop_block : Option ℕ) (loop_count : ℕ) where
  -- From a state at the start of a block its edges are played, up to the start of the next.
  abbrev pub Through : ℕ → Block → States → Type 0
  Through n b s =
      (s' : States) × ((t : Tape)
        → init_current (at blocks loop_block loop_count (next_position blocks n) s') ≡ some (ok t)
        → Plays (at blocks loop_block loop_count n s)
            (map (on_tape (is_last blocks n)) (block_edges b)) t)

  -- A block that gives one edge and changes no state.
  single-Through :
      (n : ℕ) (b : Block) (s : States) (e : Edge)
      → n < length blocks
      → get_elem? blocks n ≡ some b
      → e.end_of_block ≡ true
      → block_edges b ≡ e ∷ []
      → ((s : States)
          → block_edge b n (at blocks loop_block loop_count n s)
            ≡ some (ok (e, false, at blocks loop_block loop_count n s)))
      → Through n b s
  single-Through n b s e inside here last all step = (
    s,
    λ t start.
        subst
          (λ es.
            Plays (at blocks loop_block loop_count n s) (map (on_tape (is_last blocks n)) es) t)
          (sym all)
          (block_plays blocks loop_block loop_count n b (λ s. s) (λ s. ok (e, s)) inside here
            (λ u u' e' h. step u ∙ ap (in_states (at blocks loop_block loop_count n u) (λ s. s)) h)
            (edge s refl (done s)) last t start),
  )

  -- The rest of a kind of blocks, from the edges of its function.
  Through-edges :
      {S : Type 0} (n : ℕ) (b : Block) (put : S → States) (f : S → Result (Edge × S))
      (first s : States)
      → n < length blocks
      → get_elem? blocks n ≡ some b
      → ((x x' : S) (e : Edge)
          → f x ≡ ok (e, x')
          → block_edge b n (at blocks loop_block loop_count n (put x))
            ≡ some (ok (e, false, at blocks loop_block loop_count n (put x'))))
      → (u u' : S) → block_init b s ≡ some (ok (put u))
      → block_init b s ≡ some (ok first)
      → Emits f u (block_edges b) u'
      → EndsOnce (block_edges b)
      → Through n b first
  Through-edges n b put f first s inside here step u u' h k emits last =
      let e : put u ≡ first = cc in
      subst (Through n b) e (
        put u',
        λ t start.
            block_plays blocks loop_block loop_count n b put f inside here
              (λ x x' e h. step x x' e h) emits last t start,
      )

  pub through :
      (n : ℕ) (b : Block) (s first : States)
      → n < length blocks
      → get_elem? blocks n ≡ some b
      → IsPlayable b
      → block_init b s ≡ some (ok first)
      → Through n b first
  unfolding block_init block_edge
  through n (rom b) s first inside here v h =
      let (u, emits) = rom-Emits b s.bits v in
      let signal = payload_edges (rom_data b) in
      Through-edges n (rom b) (λ x. record s { bits = x }) (rom_edge b) first s inside here
        (λ x x' e k.
          ap
            (in_states (at blocks loop_block loop_count n (record s { bits = x }))
              (λ u. record s { bits = u }))
            k)
        _ u refl h emits
        (append-EndsOnce (replicate (rom_pilots b.bytes) (plain 2168))
          (plain 667 ∷ plain 735 ∷ signal) (plain-Mid (rom_pilots b.bytes) 2168)
          (cons-EndsOnce (plain 667) (plain 735 ∷ signal) refl
            (cons-EndsOnce (plain 735) signal refl (payload-EndsOnce (rom_data b)))))
  through n (turbo b) s first inside here v h =
      let (u, emits) = turbo-Emits b s.bits v.0 v.1 in
      let signal = payload_edges b.payload in
      let pilots = replicate b.pilot_pulses (plain b.pilot_length) in
      let sync = plain b.sync1_length ∷ [] in
      let mid : Mid (pilots ++ sync) =
        All-append (λ e. e.end_of_block ≡ false) pilots sync
          (plain-Mid b.pilot_pulses b.pilot_length) (refl, tt) in
      Through-edges n (turbo b) (λ x. record s { bits = x }) (turbo_edge b) first s inside here
        (λ x x' e k.
          ap
            (in_states (at blocks loop_block loop_count n (record s { bits = x }))
              (λ u. record s { bits = u }))
            k)
        _ u refl h emits
        (append-EndsOnce (pilots ++ sync) (plain b.sync2_length ∷ signal) mid
          (cons-EndsOnce (plain b.sync2_length) signal refl (payload-EndsOnce b.payload)))
  through n (pure_data b) s first inside here v h =
      let (u, emits) = pure_data-Emits b s.bits v in
      Through-edges n (pure_data b) (λ x. record s { bits = x }) (pure_data_edge b) first s inside
        here
        (λ x x' e k.
          ap
            (in_states (at blocks loop_block loop_count n (record s { bits = x }))
              (λ u. record s { bits = u }))
            k)
        _ u refl h emits (payload-EndsOnce b)
  through n (pure_tone b) s first inside here v h =
      let e : suc (b.pulses - 1) ≡ b.pulses = omega arith in
      let emits =
        subst (λ k. Emits (tone_edge b) k (tone_edges b (b.pulses - 1)) 0) e
          (tone-Emits b (b.pulses - 1) (omega arith)) in
      Through-edges n (pure_tone b) (λ x. record s { edge_count = x }) (tone_edge b) first s inside
        here
        (λ x x' e k.
          ap
            (in_states (at blocks loop_block loop_count n (record s { edge_count = x }))
              (λ u. record s { edge_count = u }))
            k)
        _ 0 refl h emits
        (append-EndsOnce (replicate (b.pulses - 1) (plain b.length)) (last_edge b.length ∷ [])
          (plain-Mid (b.pulses - 1) b.length) refl)
  through n (pulses []) s first inside here v h =
      let low : 1 ≤ 0 = v.0 in let wrong : ⊥ = omega arith in absurd wrong
  through n (pulses (l ∷ rest)) s first inside here v h =
      Through-edges n (pulses (l ∷ rest)) (λ x. record s { edge_count = x })
        (pulses_edge (l ∷ rest)) first s inside here
        (λ x x' e k.
          ap
            (in_states (at blocks loop_block loop_count n (record s { edge_count = x }))
              (λ u. record s { edge_count = u }))
            k)
        0 (suc (length rest)) refl h (pulses-Emits l rest v.1) (pulse-EndsOnce l rest)
  through n (pause_block ms tstates level) s first inside here v h =
      single-Through n (pause_block ms tstates level) first
        (ends tstates (pause_flags tstates level)) inside here refl refl (λ x. refl)
  through n stop48 s first inside here v h =
      single-Through n stop48 first (ends 0 flags_stop48) inside here refl refl (λ x. refl)
  through n (set_signal_level level) s first inside here v h =
      single-Through n (set_signal_level level) first
        (ends 0 (if level then flags_level_low else flags_level_high)) inside here refl refl
        (λ x. refl)
  through n (group_start text) s first inside here v h =
      single-Through n (group_start text) first (ends 0 flags_no_edge) inside here refl refl
        (λ x. refl)
  through n group_end s first inside here v h =
      single-Through n group_end first (ends 0 flags_no_edge) inside here refl refl (λ x. refl)
  through n (select choices) s first inside here v h =
      single-Through n (select choices) first (ends 0 flags_no_edge) inside here refl refl
        (λ x. refl)
  through n (comment text) s first inside here v h =
      single-Through n (comment text) first (ends 0 flags_no_edge) inside here refl refl (λ x. refl)
  through n (message ms tstates text) s first inside here v h =
      single-Through n (message ms tstates text) first (ends 0 flags_no_edge) inside here refl refl
        (λ x. refl)
  through n (archive_info strings) s first inside here v h =
      single-Through n (archive_info strings) first (ends 0 flags_no_edge) inside here refl refl
        (λ x. refl)
  through n (hardware entries) s first inside here v h =
      single-Through n (hardware entries) first (ends 0 flags_no_edge) inside here refl refl
        (λ x. refl)
  through n (custom name bytes) s first inside here v h =
      single-Through n (custom name bytes) first (ends 0 flags_no_edge) inside here refl refl
        (λ x. refl)
  through n (raw_data b) s first inside here (bytes, e, v) h =
      let (t, t', init, emits) = raw-Emits b bytes s.raw e v in
      let all : samples b ≡ bytes = rw e in
      Through-edges n (raw_data b) (λ x. record s { raw = x }) (raw_step b) first s inside here
        (λ x x' e' k. rw (settled_ok (raw_data_edge b x) (e', x') k)) t t' (rw init) h
        (subst (λ bytes. Emits (raw_step b) t (raw_edges b bytes) t') (sym all) emits)
        (raw-EndsOnce b (samples b))
  through n (generalised_data b) s first inside here v h = absurd v
  through n (jump offset) s first inside here v h = absurd v
  through n (loop_start count) s first inside here v h = absurd v
  through n loop_end s first inside here v h = absurd v
  through n (rle_pulse b) s first inside here v h = absurd v
  through n (pulse_sequence b) s first inside here v h = absurd v
  through n (data_block b) s first inside here v h = absurd v
  through n concat s first inside here v h = absurd v
