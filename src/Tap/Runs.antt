-- ===== src/Tap/Runs.antt =====
-- A tape of a ROM block, a tone and a turbo block, in a file.
use libspectrum.Base.{ℕ, ◌≡◌, refl, arith, All, map}
use libspectrum.Base.{List, [], ◌∷◌, Option, none, some, Error, ok}
use libspectrum.Base.Partial.{◌>>=◌}
use libspectrum.Tape.Next.{Block, Tape, turbo, pure_tone, stop48}
use libspectrum.Tape.Next.Blocks.{at}
use libspectrum.Tape.Zeros.{unset}
use libspectrum.Tape.Select.{append_blocks, tape_alloc}
use libspectrum.Tap.{tap, sta, rom_block, internal_tap_read, internal_tap_write}
use libspectrum.Tap.RoundTrip.{saved, IsSaved, tap_read-tap_write}
use libspectrum.Tap.Total.{IsRead, internal_tap_read-Ends}

abbrev fast : Block
fast = turbo (record {
  payload = record {
    bytes = 0xff ∷ 0x12 ∷ 0xed ∷ [];
    bits_in_last_byte = 8;
    pause = 0;
    pause_tstates = 0;
    bit0_length = 500;
    bit1_length = 1000;
  };
  pilot_length = 2000;
  pilot_pulses = 4;
  sync1_length = 600;
  sync2_length = 700;
})

abbrev tape : List Block
tape =
    rom_block (0x00 ∷ 0x5a ∷ 0x5a ∷ [])
    ∷ pure_tone (record { length = 100; pulses = 3 })
    ∷ fast
    ∷ []

tape-All : All (IsSaved sta) tape
tape-All = (
  (0x00 ∷ 0x5a ∷ [], 0x5a, refl, (omega arith, omega arith, refl)),
  (tt, ((0xff ∷ 0x12 ∷ [], 0xed, refl, (omega arith, omega arith, refl)), tt)),
)

-- The file has no parity bytes, and lengths without the flag and the parity.
written : internal_tap_write sta tape ≡ some (ok (1 ∷ 0 ∷ 0x00 ∷ 0x5a ∷ 1 ∷ 0 ∷ 0xff ∷ 0x12 ∷ []))
unfolding internal_tap_write
written = refl

tap_read-tap_write_example :
    (file : List ℕ) × (internal_tap_write sta tape ≡ some (ok file))
    × (internal_tap_read sta file (tape_alloc 0 unset) ≡ (
        append_blocks (tape_alloc 0 unset) (map rom_block (saved tape)) >>= λ t'. some (none, t')))
tap_read-tap_write_example = tap_read-tap_write sta tape (tape_alloc 0 unset) tape-All

internal_tap_read-Ends_example :
    (r : Option Error × Tape) × (internal_tap_read tap
        (1 ∷ 0 ∷ 0x55 ∷ 9 ∷ 0 ∷ 0x00 ∷ [])
        (at (stop48 ∷ []) none 0 0 unset)
      ≡ some r)
    × IsRead none 0 0 unset (stop48 ∷ []) r
internal_tap_read-Ends_example =
    internal_tap_read-Ends none 0 0 unset tap (1 ∷ 0 ∷ 0x55 ∷ 9 ∷ 0 ∷ 0x00 ∷ []) (stop48 ∷ [])
