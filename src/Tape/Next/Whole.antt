-- ===== src/Tape/Next/Whole.antt =====
-- A whole tape of blocks that are signals or carry none: the edges of its blocks in order, and the
-- end of the tape.
use libspectrum.Base.{ℕ, ◌-◌, ◌^◌, ◌≤◌, ◌<◌, ◌≡◌, refl}
use libspectrum.Base.{Bool, false, if◌then◌else◌, All, All-replicate, replicate}
use libspectrum.Base.{List, [], ◌∷◌, ◌++◌, length, some}
use libspectrum.Tape.Edges.{
  Edge, plain, do_tail_pause, flags_no_edge, flags_stop48, flags_level_low, flags_level_high,
}
use libspectrum.Tape.Data.{PureData}
use libspectrum.Tape.Data.Stream.{edges_of, data_bits}
use libspectrum.Tape.Data.Play.{IsSendable, payload_edges, rom_edges, turbo_edges}
use libspectrum.Tape.Raw.{RawData, samples}
use libspectrum.Tape.Raw.Runs.{level_edges}
use libspectrum.Tape.Raw.Samples.{IsRaw}
use libspectrum.Tape.Raw.Play.{raw_edges, raw_runs}
use libspectrum.Tape.Pulses.Play.{tone_edges, pulse_edges}
use libspectrum.Tape.Next.{Block, ends, pause_flags}
use libspectrum.Tape.Next.{
  rom, turbo, pure_tone, pulses, pure_data, raw_data, generalised_data, pause_block, jump,
}
use libspectrum.Tape.Next.{
  loop_start, loop_end, stop48, set_signal_level, rle_pulse, pulse_sequence, data_block, concat,
}
use libspectrum.Tape.Next.Blocks.{EndsOnce}

-- All edges of a block, for the kinds that `IsPlayable` lists.
abbrev pub block_edges : Block → List Edge
block_edges (rom b) = rom_edges b
block_edges (turbo b) = turbo_edges b
block_edges (pure_tone b) = tone_edges b (b.pulses - 1)
block_edges (pulses []) = []
block_edges (pulses (l ∷ rest)) = pulse_edges l rest
block_edges (pure_data b) = payload_edges b
block_edges (raw_data b) = raw_edges b (samples b)
block_edges (pause_block ms n level) = ends n (pause_flags n level) ∷ []
block_edges stop48 = ends 0 flags_stop48 ∷ []
block_edges (set_signal_level level) =
    ends 0 (if level then flags_level_low else flags_level_high) ∷ []
block_edges b = ends 0 flags_no_edge ∷ []

-- The blocks of this part: data of which the last byte has at least a bit, raw data of at least a byte,
-- tones and lists of at least a pulse, pauses, and blocks without a signal, of sizes below 2 ^ 64.
abbrev pub IsPlayable : Block → Type 0
IsPlayable (rom b) = length b.bytes < 2 ^ 64
IsPlayable (turbo b) = IsSendable b.payload × (b.pilot_pulses < 2 ^ 64)
IsPlayable (pure_tone b) = (1 ≤ b.pulses) × (b.pulses < 2 ^ 64)
IsPlayable (pulses lengths) = (1 ≤ length lengths) × (length lengths < 2 ^ 64)
IsPlayable (pure_data b) = IsSendable b
IsPlayable (raw_data b) = (bytes : List ℕ) × (b.bytes ≡ some bytes) × IsRaw b
IsPlayable (generalised_data b) = ⊥
IsPlayable (jump offset) = ⊥
IsPlayable (loop_start count) = ⊥
IsPlayable loop_end = ⊥
IsPlayable (rle_pulse b) = ⊥
IsPlayable (pulse_sequence b) = ⊥
IsPlayable (data_block b) = ⊥
IsPlayable concat = ⊥
IsPlayable b = Unit {0}

abbrev pub Mid : List Edge → Type 0
Mid = All (λ e. e.end_of_block ≡ false)

pub cons-EndsOnce :
    (e : Edge) (es : List Edge) → e.end_of_block ≡ false → EndsOnce es → EndsOnce (e ∷ es)
cons-EndsOnce e [] h k = absurd k
cons-EndsOnce e (f ∷ es) h k = (h, k)

pub append-EndsOnce : (xs ys : List Edge) → Mid xs → EndsOnce ys → EndsOnce (xs ++ ys)
append-EndsOnce [] ys h k = k
append-EndsOnce (x ∷ xs) ys h k = cons-EndsOnce x (xs ++ ys) h.0 (append-EndsOnce xs ys h.1 k)

edges_of-Mid : (block : PureData) (bits : List Bool) → Mid (edges_of block bits)
edges_of-Mid block [] = tt
edges_of-Mid block (b ∷ bits) = (refl, (refl, edges_of-Mid block bits))

pub payload-EndsOnce : (block : PureData) → EndsOnce (payload_edges block)
unfolding do_tail_pause
payload-EndsOnce block =
    let bits = data_bits block.bits_in_last_byte block.bytes in
    append-EndsOnce (edges_of block bits) (do_tail_pause block.pause_tstates ∷ [])
      (edges_of-Mid block bits) refl

pub plain-Mid : (n l : ℕ) → Mid (replicate n (plain l))
plain-Mid n l = All-replicate (λ e. e.end_of_block ≡ false) n (plain l) refl

pub pulse-EndsOnce : (l : ℕ) (rest : List ℕ) → EndsOnce (pulse_edges l rest)
pulse-EndsOnce l [] = refl
pulse-EndsOnce l (k ∷ rest) =
    cons-EndsOnce (plain l) (pulse_edges k rest) refl (pulse-EndsOnce k rest)

levels-Mid : (block : RawData) (rs : List (ℕ × Bool)) → Mid (level_edges block rs)
levels-Mid block [] = tt
levels-Mid block (r ∷ []) = (refl, tt)
levels-Mid block (r ∷ q ∷ rs) = (refl, levels-Mid block (q ∷ rs))

pub raw-EndsOnce : (block : RawData) (bytes : List ℕ) → EndsOnce (raw_edges block bytes)
unfolding do_tail_pause
raw-EndsOnce block bytes =
    append-EndsOnce (level_edges block (raw_runs block bytes))
      (do_tail_pause block.pause_tstates ∷ []) (levels-Mid block (raw_runs block bytes)) refl
