-- ===== src/Tzx/Runs.antt =====
-- Concrete runs of the reader and the writer of .tzx files, and their theorems at concrete inputs.
use libspectrum.Base.{ℕ, ◌≡◌, refl, arith}
use libspectrum.Base.{List, [], ◌∷◌, ◌++◌, drop, none, some, corrupt, logic, ok, err}
use libspectrum.Base.Partial.{◌>>=◌}
use libspectrum.Tape.Pulses.{rle_pulse_edge}
use libspectrum.Utilities.{set_pause_ms, ms_to_tstates}
use libspectrum.Base.{Option, Error, ◌⊎◌}
use libspectrum.Tape.Next.Blocks.{at}
use libspectrum.Tzx.Total.Files.{IsRead, ReadsPast, internal_tzx_read-Ends}
use libspectrum.Tape.Generalised.{SymbolTable, symbol_edge, symbol_low}
use libspectrum.Tzx.Read.Generalised.{symbol_table_parameters, read_symbol_table}
use libspectrum.Tzx.Write.Generalised.{
  serialise_generalised_data_table, serialise_generalised_data_symbols,
}
use libspectrum.Tzx.RoundTrip.Tables.{read_symbol_table-serialise}
use libspectrum.Tzx.Read.Generalised.{tzx_read_generalised_data}
use libspectrum.Tape.Zeros.{unset}
use libspectrum.Tape.Select.{append_blocks}
use libspectrum.Tape.Next.{Block, Tape, rom, concat, rle_pulse, jump, backward}
use libspectrum.Tzx.Read.{tzx_read_rom_block, tzx_read_select}
use libspectrum.Tzx.Read.Files.{internal_tzx_read}
use libspectrum.Tzx.Write.{tzx_write_select}
use libspectrum.Tzx.Write.Files.{internal_tzx_write, tzx_write_block}
use libspectrum.Tzx.RoundTrip.Files.{internal_tzx_read-tzx_write, stored_all}
use libspectrum.Tzx.RoundTrip.Selections.{read_select-write_select}

abbrev two_blocks : List Block
two_blocks =
    rom (record { bytes = 0 ∷ 0xff ∷ []; pause = 1000; pause_tstates = 3500000 })
    ∷ jump (backward 2)
    ∷ []

abbrev empty_tape : Tape
empty_tape = record {
  blocks = [];
  current_block = none;
  loop_block = none;
  loop_count = 0;
  states = unset;
}

-- A file of a ROM block and a jump.
two_blocks_file :
    internal_tzx_write unset two_blocks
    ≡ some (
        ok (
          0x5a ∷ 0x58 ∷ 0x54 ∷ 0x61 ∷ 0x70 ∷ 0x65 ∷ 0x21 ∷ 0x1a ∷ 1 ∷ 20 ∷ 0x10 ∷ 0xe8 ∷ 3 ∷ 2 ∷ 0
          ∷ 0 ∷ 0xff ∷ 0x23 ∷ 0xfe ∷ 0xff ∷ []))
unfolding internal_tzx_write
two_blocks_file = refl

-- Run-length coded pulses of 3 and 2 samples become five bits, the first three of them low.
rle_file :
    tzx_write_block unset
      (rle_pulse (record { bytes = 3 ∷ 2 ∷ []; scale = 79 }) ∷ [])
      0
      (rle_pulse (record { bytes = 3 ∷ 2 ∷ []; scale = 79 }))
    ≡ some (ok (0x15 ∷ 79 ∷ 0 ∷ 0 ∷ 0 ∷ 5 ∷ 1 ∷ 0 ∷ 0 ∷ 0x18 ∷ []))
unfolding tzx_write_block rle_pulse_edge
rle_file = refl

-- A block of another kind is an error.
concat_file : internal_tzx_write unset (concat ∷ []) ≡ some (err logic)
unfolding internal_tzx_write
concat_file = refl

internal_tzx_read-tzx_write_example :
    (file : List ℕ) × (internal_tzx_write unset two_blocks ≡ some (ok file))
    × (internal_tzx_read (λ n. n) file empty_tape
        ≡ (append_blocks empty_tape (stored_all two_blocks) >>= λ t'. some (none, t')))
unfolding set_pause_ms ms_to_tstates
internal_tzx_read-tzx_write_example =
    internal_tzx_read-tzx_write (λ n. n) unset two_blocks empty_tape
      (((omega arith, refl), omega arith), ((omega arith, omega arith), tt))

read_select-write_select_example :
    tzx_read_select (drop 1 (tzx_write_select ((7, 0x41 ∷ []) ∷ [])) ++ []) ≡ err corrupt
read_select-write_select_example =
    read_select-write_select ((7, 0x41 ∷ []) ∷ []) []
      ((omega arith, (((λ e. omega arith, λ e. omega arith), tt), omega arith)), tt) (omega arith)
      (omega arith)

-- A file whose only block has no bytes.
abbrev short_file : List ℕ
short_file =
    0x5a ∷ 0x58 ∷ 0x54 ∷ 0x61 ∷ 0x70 ∷ 0x65 ∷ 0x21 ∷ 0x1a ∷ 1 ∷ 20 ∷ 0x25 ∷ 0x10 ∷ 0xe8 ∷ []

-- It is corrupt, and the tape is cleared.
short_file_verdict :
    internal_tzx_read (λ n. n) short_file (at two_blocks none 0 1 unset)
    ≡ some (
      some corrupt,
      record {
        blocks = [];
        current_block = none;
        loop_block = none;
        loop_count = 0;
        states = unset;
      },
    )
unfolding internal_tzx_read tzx_read_rom_block
short_file_verdict = refl

-- The data of a ROM block that would be read past their end as a generalised data block.
abbrev misleading : List ℕ
misleading =
    0x19 ∷ 0x11 ∷ 0 ∷ 0 ∷ 0 ∷ 0 ∷ 0 ∷ 2 ∷ 0 ∷ 0 ∷ 0 ∷ 1 ∷ 1 ∷ 0 ∷ 0 ∷ 0 ∷ 0 ∷ 0 ∷ 0 ∷ 0 ∷ 0 ∷ 0 ∷ []

abbrev misleading_file : List ℕ
misleading_file =
    0x5a ∷ 0x58 ∷ 0x54 ∷ 0x61 ∷ 0x70 ∷ 0x65 ∷ 0x21 ∷ 0x1a ∷ 1 ∷ 20 ∷ 0x10 ∷ 0 ∷ 0 ∷ 22 ∷ 0
    ∷ misleading

misleading_past : tzx_read_generalised_data (λ n. n) (drop 1 misleading) ≡ none
unfolding tzx_read_generalised_data
misleading_past = refl

misleading_verdict :
    internal_tzx_read (λ n. n) misleading_file (at [] none 0 1 unset)
    ≡ some (
      none,
      at (rom (record { bytes = misleading; pause = 0; pause_tstates = 0 }) ∷ []) none 0 1 unset,
    )
unfolding internal_tzx_read tzx_read_rom_block set_pause_ms
misleading_verdict = refl

internal_tzx_read-Ends_example :
    ((r : Option Error × Tape) × (internal_tzx_read
          (λ n. n)
          short_file
          (at two_blocks none 0 1 unset)
        ≡ some r)
      × (IsRead (λ n. n) none 0 1 unset two_blocks r
          ⊎ ((e : Error) × (r ≡ (some e, at two_blocks none 0 1 unset)))))
    ⊎ ((internal_tzx_read (λ n. n) short_file (at two_blocks none 0 1 unset) ≡ none)
        × ReadsPast (λ n. n) (drop 10 short_file))
internal_tzx_read-Ends_example =
    internal_tzx_read-Ends (λ n. n) none 0 1 unset short_file two_blocks

-- A table of two symbols of one pulse.
abbrev two_symbols : SymbolTable
two_symbols = record {
  symbols_in_block = 8;
  max_pulses = 1;
  symbols_in_table = 2;
  symbols =
      record { edge_type = symbol_edge; lengths = 855 ∷ [] }
      ∷ record { edge_type = symbol_low; lengths = 1710 ∷ [] }
      ∷ [];
}

read_symbol_table-serialise_example :
    (header : List ℕ) × (bytes : List ℕ) × (serialise_generalised_data_table two_symbols
      ≡ ok header)
    × (serialise_generalised_data_symbols two_symbols ≡ some (ok bytes))
    × (read_symbol_table (symbol_table_parameters (header ++ (1 ∷ []))) (bytes ++ (2 ∷ [])) 6
        ≡ some (ok (two_symbols, 2 ∷ [])))
read_symbol_table-serialise_example =
    read_symbol_table-serialise two_symbols (1 ∷ []) (2 ∷ []) 6
      (
        (omega arith, omega arith),
        omega arith,
        (omega arith, omega arith),
        refl,
        ((tt, refl, (omega arith, tt)), ((tt, refl, (omega arith, tt)), tt)),
      )
      (omega arith)
