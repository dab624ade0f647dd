-- ===== src/Tape/Edges.antt =====
-- An edge as the functions of tape.c return it, its flags, and the counters of the C code.
use libspectrum.Base.{◌≤◌, ◌≡◌, arith}
use libspectrum.Base.{ℕ, ◌+◌, ◌-◌, ◌^◌, ◌%◌, ◌==◌, Bool, true, false, if◌then◌else◌}

-- `*tstates`, the bits that are set in `*flags`, which is 0 before, and `*end_of_block`.
pub record Edge : Type 0 where
  pub tstates : ℕ
  pub flags : ℕ
  pub end_of_block : Bool

-- The flags in the order of their bits.
abbrev pub flags_block : ℕ
flags_block = 0x01

abbrev pub flags_stop : ℕ
flags_stop = 0x02

abbrev pub flags_stop48 : ℕ
flags_stop48 = 0x04

abbrev pub flags_no_edge : ℕ
flags_no_edge = 0x08

abbrev pub flags_level_low : ℕ
flags_level_low = 0x10

abbrev pub flags_level_high : ℕ
flags_level_high = 0x20

abbrev pub flags_length_short : ℕ
flags_length_short = 0x40

abbrev pub flags_length_long : ℕ
flags_length_long = 0x80

abbrev pub flags_tape : ℕ
flags_tape = 0x100

-- `libspectrum_tape_state_type`
pub data Phase : Type 0 where
  invalid_state pilot sync1 sync2 data1 data2 pause tail : Phase

-- `++` and `--` on a `size_t`, whose -1 is the largest number.
abbrev pub minus_one : ℕ
minus_one = 2 ^ 64 - 1

abbrev pub increment : ℕ → ℕ
increment n = (n + 1) % 2 ^ 64

abbrev pub decrement : ℕ → ℕ
decrement n = (n + minus_one) % 2 ^ 64

-- `8 - bits_in_last_byte` as a `size_t`: the bits of the last byte that are not used.
abbrev pub unused_bits : ℕ → ℕ
unused_bits bits = (8 + 2 ^ 64 - bits) % 2 ^ 64

pub unused_bits_lem : (bits : ℕ) → bits ≤ 8 → unused_bits bits ≡ 8 - bits
unused_bits_lem bits h = omega arith

-- The edge at the end of a block: without a duration it is none.
unfoldable pub do_tail_pause : ℕ → Edge
do_tail_pause tstates = record {
  tstates = tstates;
  flags = if tstates == 0 then flags_no_edge else 0;
  end_of_block = true;
}

-- An edge in the middle of a block, without flags.
abbrev pub plain : ℕ → Edge
plain tstates = record { tstates = tstates; flags = 0; end_of_block = false }
