-- ===== src/Tape/Runs.antt =====
-- Small tapes, and their edges.
use libspectrum.Base.{◌≡◌, ◌-◌, ◌^◌, refl, arith, true, false, All, replicate}
use libspectrum.Base.{List, [], ◌∷◌, length, none, some, ok}
use libspectrum.Tape.Edges.{Edge, plain, do_tail_pause}
use libspectrum.Tape.Emits.{Emits}
use libspectrum.Tape.Data.{
  PureData, Rom, Turbo, DataState, rom_edge, rom_init, turbo_edge, turbo_init, pure_data_edge,
}
use libspectrum.Tape.Data.{pure_data_init}
use libspectrum.Tape.Data.Play.{
  IsSendable, payload_edges, rom_edges, turbo_edges, rom-Emits, turbo-Emits, pure_data-Emits,
}
use libspectrum.Tape.Pulses.{PureTone, tone_edge, pulses_edge}
use libspectrum.Tape.Pulses.Play.{tone_edges, tone-Emits, tone_wraps, pulse_edges, pulses-Emits}
use libspectrum.Tape.Raw.{RawData}
use libspectrum.Tape.Raw.Samples.{IsRaw}
use libspectrum.Tape.Raw.Play.{raw_edges}
use libspectrum.Tape.Next.{Tape, rom, turbo, pure_tone, raw_data, pause_block, get_next_edge}
use libspectrum.Tape.Next.Blocks.{Plays, stop, play}
use libspectrum.Tape.Next.Inside.{IsTape}
use libspectrum.Tape.Next.Reach.{plays-IsTape}
use libspectrum.Tape.Next.Program.{Part, one, repeat, tape_blocks, IsPart, parts_edges}
use libspectrum.Tape.Next.Replay.{times, play_edges, tape_plays}
use libspectrum.Base.{◌%◌, some, ok}
use libspectrum.Tape.Next.{States, block_init}
use libspectrum.Tape.Zeros.{bits, unset}
use libspectrum.Tape.Select.{tape_alloc, append_blocks}

abbrev header : Rom
header = record { bytes = 0x00 ∷ 0x5a ∷ 0x5a ∷ []; pause = 1; pause_tstates = 3500 }

abbrev short : PureData
short = record {
  bytes = 0xa5 ∷ 0xc0 ∷ [];
  bits_in_last_byte = 3;
  pause = 0;
  pause_tstates = 0;
  bit0_length = 500;
  bit1_length = 1000;
}

short-IsSendable : IsSendable short
short-IsSendable = record { small = omega arith; low = omega arith; high = omega arith }

abbrev fast : Turbo
fast = record {
  payload = short;
  pilot_length = 2000;
  pilot_pulses = 4;
  sync1_length = 600;
  sync2_length = 700;
}

abbrev tone : PureTone
tone = record { length = 100; pulses = 3 }

abbrev sampled : RawData
sampled = record {
  bytes = some (0xf0 ∷ 0x03 ∷ []);
  bits_in_last_byte = 4;
  pause = 0;
  pause_tstates = 0;
  bit_length = 79;
}

sampled-IsRaw : IsRaw sampled
sampled-IsRaw = record {
  some_byte = omega arith;
  small = omega arith;
  low = omega arith;
  high = omega arith;
}

-- The samples are four set, six reset and two set; the last edge says the low level.
sampled_edges :
    raw_edges sampled (0xf0 ∷ 0x03 ∷ [])
    ≡ record { tstates = 79; flags = 0x10; end_of_block = false }
      ∷ record { tstates = 316; flags = 0x20; end_of_block = false }
      ∷ record { tstates = 474; flags = 0x10; end_of_block = false }
      ∷ record { tstates = 158; flags = 0x10; end_of_block = false }
      ∷ record { tstates = 0; flags = 0x08; end_of_block = true }
      ∷ []
unfolding do_tail_pause
sampled_edges = refl

rom-Emits_example :
    (s' : DataState) × Emits (rom_edge header) (rom_init header bits) (rom_edges header) s'
rom-Emits_example = rom-Emits header bits (omega arith)

turbo-Emits_example :
    (s' : DataState) × Emits (turbo_edge fast) (turbo_init fast bits) (turbo_edges fast) s'
turbo-Emits_example = turbo-Emits fast bits short-IsSendable (omega arith)

pure_data-Emits_example :
    (s' : DataState) × Emits
      (pure_data_edge short)
      (pure_data_init short bits)
      (payload_edges short)
      s'
pure_data-Emits_example = pure_data-Emits short bits short-IsSendable

tone-Emits_example : Emits (tone_edge tone) 3 (tone_edges tone 2) 0
tone-Emits_example = tone-Emits tone 2 (omega arith)

abbrev silent : PureTone
silent = record { length = 100; pulses = 0 }

tone_wraps_example :
    (s' : States) × (block_init (pure_tone silent) unset ≡ some (ok s'))
    × Emits (tone_edge silent) s'.edge_count (replicate 8 (plain 100)) ((2 ^ 64 - 8) % 2 ^ 64)
tone_wraps_example = tone_wraps silent unset 8 refl (omega arith)

pulses-Emits_example : Emits (pulses_edge (10 ∷ 20 ∷ 30 ∷ [])) 0 (pulse_edges 10 (20 ∷ 30 ∷ [])) 3
pulses-Emits_example = pulses-Emits 10 (20 ∷ 30 ∷ []) (omega arith)

-- A loop of two rounds between a header and a pause.
abbrev first_part : Part
first_part = one (rom header)

abbrev other_parts : List Part
other_parts =
    repeat 1 (pure_tone tone ∷ raw_data sampled ∷ [])
    ∷ one (turbo fast)
    ∷ one (pause_block 0 0 none)
    ∷ []

All-playable : All IsPart (first_part ∷ other_parts)
All-playable = (
  omega arith,
  (
    (omega arith, ((omega arith, omega arith), ((0xf0 ∷ 0x03 ∷ [], refl, sampled-IsRaw), tt))),
    ((short-IsSendable, omega arith), (tt, tt)),
  ),
)

tape_plays_example :
    let es =
      times 2 (parts_edges (tape_blocks (first_part ∷ other_parts)) 0 (first_part ∷ other_parts)) in
    (t : Tape) × (t' : Tape) × (append_blocks
        (tape_alloc 0 unset)
        (tape_blocks (first_part ∷ other_parts))
      ≡ some t)
    × (play_edges (length es) t ≡ some (ok (es, t')))
tape_plays_example = tape_plays first_part other_parts 0 unset 2 All-playable

-- A tape of one pause that stops it.
abbrev paused : Tape
paused = record {
  blocks = pause_block 0 0 none ∷ [];
  current_block = some 0;
  loop_block = none;
  loop_count = 0;
  states = unset;
}

abbrev stopped : Edge
stopped = record { tstates = 0; flags = 0x103; end_of_block = true }

paused_plays : Plays paused (stopped ∷ []) paused
unfolding get_next_edge
paused_plays = play paused refl (stop paused)

plays-IsTape_example : (paused.blocks ≡ paused.blocks) × IsTape paused
plays-IsTape_example = plays-IsTape paused_plays (omega arith, tt)
