-- ===== src/Tzx/RoundTrip/Sequences.antt =====
-- Pulse sequences, and single blocks, at the front of a file that is read.
use libspectrum.Base.{ℕ, ◌+◌, ◌<◌, Bool, ◌≡◌, refl, ap, arith, ltb, true, false, if◌then◌else◌}
use libspectrum.Base.{List, [], ◌∷◌, ◌++◌, length, length-append, All, All-append, drop, some, ok}
use libspectrum.Tape.Pulses.{PureTone, PulseSequence}
use libspectrum.Tape.Next.{Block, pure_tone, pulses}
use libspectrum.Tape.Reading.{Begins, one_more-Reads, append-Begins}
use libspectrum.Tzx.Read.Files.{tzx_read_block, a_block, tzx_read_blocks}
use libspectrum.Tzx.Write.{add_pure_tone_block, tzx_write_pulses, queued, sequence_bytes}
use libspectrum.Tzx.RoundTrip.Pieces.{IsWord}
use libspectrum.Tzx.RoundTrip.Pulses.{
  read_pure_tone-add_pure_tone_block, read_pulses_block-write_pulses,
}

-- The blocks of a pulse sequence in a file: a tone for repeated pulses, and a list for those between.
abbrev pub queued_blocks : List ℕ → List Block
queued_blocks [] = []
queued_blocks (l ∷ lengths) = pulses (l ∷ lengths) ∷ []

abbrev pub sequence_blocks : List ℕ → List ℕ → List ℕ → List Block
sequence_blocks queue (l ∷ lengths) (n ∷ repeats) =
    let tone = sequence_blocks [] lengths repeats in
    let wait = sequence_blocks (queue ++ (l ∷ [])) lengths repeats in
    if ltb 1 n
    then queued_blocks queue ++ (pure_tone (record { length = l; pulses = n }) ∷ []) ++ tone
    else wait
sequence_blocks queue lengths repeats = queued_blocks queue

abbrev pub IsSequence : PulseSequence → Type 0
IsSequence block =
    All IsWord block.lengths × All IsWord block.pulse_repeats × (length block.lengths < 256)

module _ (ceil_log : ℕ → ℕ) where
  -- The bytes are read as these blocks, whatever follows them.
  abbrev pub Is : List Block → List ℕ → Type 0
  Is blocks bytes = Begins (tzx_read_blocks ceil_log) blocks bytes

  pub nothing-Is : Is [] []
  nothing-Is others file r = r

  -- A block that its number and the bytes behind it are read as.
  pub block-Is :
      (id : ℕ) (b : Block) (body : List ℕ)
      → ((rest : List ℕ)
          → tzx_read_block ceil_log id (body ++ rest) ≡ some (a_block (ok (b, rest))))
      → Is (b ∷ []) (id ∷ body)
  unfolding tzx_read_blocks
  block-Is id b body h others file =
      one_more-Reads (tzx_read_blocks ceil_log) b others (id ∷ body) file (omega arith)
        (λ rounds t. rw (h file) refl)

  pub tone-Is :
      (b : PureTone)
      → IsWord b.length
      → IsWord b.pulses
      → Is (pure_tone b ∷ []) (add_pure_tone_block b.length b.pulses)
  unfolding tzx_read_block add_pure_tone_block
  tone-Is b h k =
      block-Is 0x12 (pure_tone b) (drop 1 (add_pure_tone_block b.length b.pulses))
        (λ rest. ap (λ r. some (a_block r)) (read_pure_tone-add_pure_tone_block b rest h k))

  pub pulses-Is :
      (lengths : List ℕ)
      → All IsWord lengths
      → length lengths < 256
      → Is (pulses lengths ∷ []) (tzx_write_pulses lengths)
  unfolding tzx_read_block tzx_write_pulses
  pulses-Is lengths v n =
      block-Is 0x13 (pulses lengths) (drop 1 (tzx_write_pulses lengths))
        (λ rest. ap (λ r. some (a_block r)) (read_pulses_block-write_pulses lengths rest v n))

  queued-Is :
      (queue : List ℕ)
      → All IsWord queue
      → length queue < 256
      → Is (queued_blocks queue) (queued queue)
  queued-Is [] v n = nothing-Is
  queued-Is (l ∷ queue) v n = pulses-Is (l ∷ queue) v n

  pub branch-Is :
      (c : Bool) (first second : List Block) (front behind : List ℕ)
      → Is first front
      → Is second behind
      → Is (if c then first else second) (if c then front else behind)
  branch-Is true first second front behind h k = h
  branch-Is false first second front behind h k = k

  pub sequence-Is :
      (queue lengths repeats : List ℕ)
      → All IsWord queue
      → All IsWord lengths
      → All IsWord repeats
      → length queue + length lengths < 256
      → Is (sequence_blocks queue lengths repeats) (sequence_bytes queue lengths repeats)
  unfolding sequence_bytes
  sequence-Is queue [] repeats v w r n = queued-Is queue v (omega arith)
  sequence-Is queue (l ∷ lengths) [] v w r n = queued-Is queue v (omega arith)
  sequence-Is queue (l ∷ lengths) (k ∷ repeats) v w r n =
      let tone : PureTone = record { length = l; pulses = k } in
      let waiting = queue ++ (l ∷ []) in
      let front =
        append-Begins (tzx_read_blocks ceil_log) (queued_blocks queue) (pure_tone tone ∷ [])
          (queued queue) (add_pure_tone_block l k) (queued-Is queue v (omega arith))
          (tone-Is tone (w.0) (r.0)) in
      let whole =
        append-Begins (tzx_read_blocks ceil_log) (queued_blocks queue ++ (pure_tone tone ∷ []))
          (sequence_blocks [] lengths repeats) (queued queue ++ add_pure_tone_block l k)
          (sequence_bytes [] lengths repeats) front
          (sequence-Is [] lengths repeats tt (w.1) (r.1) (omega arith)) in
      let wait =
        sequence-Is waiting lengths repeats (All-append IsWord queue (l ∷ []) v ((w.0), tt)) (w.1)
          (r.1) (omega (arith, length-append queue (l ∷ []))) in
      branch-Is (ltb 1 k)
        (queued_blocks queue ++ (pure_tone tone ∷ []) ++ sequence_blocks [] lengths repeats)
        (sequence_blocks waiting lengths repeats)
        (queued queue ++ add_pure_tone_block l k ++ sequence_bytes [] lengths repeats)
        (sequence_bytes waiting lengths repeats) whole wait
