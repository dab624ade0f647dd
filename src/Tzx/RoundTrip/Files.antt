-- ===== src/Tzx/RoundTrip/Files.antt =====
-- Whole files that are written and read again.
use libspectrum.Base.{ℕ, zero, suc, ◌+◌, ◌≡◌, refl, arith, le→ltb, All}
use libspectrum.Base.{List, [], ◌∷◌, ◌++◌, length, none, some, ok}
use libspectrum.Base.Partial.{◌>>=◌}
use libspectrum.Tape.Next.{Block, States, Tape}
use libspectrum.Tape.Reading.{Reads}
use libspectrum.Tape.Select.{append_blocks}
use libspectrum.Tzx.Fields.{tzx_signature}
use libspectrum.Tzx.Read.Files.{tzx_read_blocks, internal_tzx_read}
use libspectrum.Tzx.Write.Files.{tzx_write_blocks, internal_tzx_write}
use libspectrum.Tzx.RoundTrip.Stored.{stored, IsStorable}
use libspectrum.Tzx.RoundTrip.Blocks.{block-Stored}

-- What is read of a tape.
abbrev pub stored_all : List Block → List Block
stored_all [] = []
stored_all (b ∷ blocks) = stored b ++ stored_all blocks

module _ (ceil_log : ℕ → ℕ) (states : States) where
  abbrev Saves : List Block → ℕ → List Block → Type 0
  Saves all n blocks =
      (file : List ℕ) × (tzx_write_blocks states all n blocks ≡ some (ok file))
      × Reads (tzx_read_blocks ceil_log) (stored_all blocks) file

  cons-Saves :
      (all : List Block) (n : ℕ) (b : Block) (blocks : List Block)
      → IsStorable b
      → Saves all (n + 1) blocks
      → Saves all n (b ∷ blocks)
  unfolding tzx_write_blocks
  cons-Saves all n b blocks v (file, written, reads) =
      let (bytes, h, begins) = block-Stored ceil_log states all n b v in
      (bytes ++ file, rw (h, written), begins (stored_all blocks) file reads)

  nothing-Reads : Reads (tzx_read_blocks ceil_log) [] []
  unfolding tzx_read_blocks append_blocks
  nothing-Reads zero t h = absurd (omega arith)
  nothing-Reads (suc rounds) t h = refl

  All-Saves :
      (all : List Block) (n : ℕ) (blocks : List Block) → All IsStorable blocks → Saves all n blocks
  unfolding tzx_write_blocks
  All-Saves all n [] v = ([], refl, nothing-Reads)
  All-Saves all n (b ∷ blocks) v =
      cons-Saves all n b blocks (v.0) (All-Saves all (n + 1) blocks (v.1))

-- A tape of blocks that a .tzx file can hold is written without an error. The file is read, on to any
-- tape and without an error, as what `stored_all` makes of the blocks, in their order: most blocks as
-- they were; a pause that is not low as a tone of one pulse, behind a signal level where it is high; a
-- message with a time of as many seconds as it had milliseconds; a pulse sequence as a signal level,
-- tones and lists of pulses; and a data block as a signal level, pure data and a tone. A block can be
-- held where each of its numbers fits its bytes and its pause is a whole number of milliseconds; the
-- last byte of data has 1 to 8 bits, and texts hold no 0 and no carriage return. Generalised data,
-- selections, run-length coded pulses, and data blocks whose bits are not two equal pulses are left
-- out.
pub internal_tzx_read-tzx_write :
    (ceil_log : ℕ → ℕ) (states : States) (blocks : List Block) (t : Tape)
    → All IsStorable blocks
    → (file : List ℕ) × (internal_tzx_write states blocks ≡ some (ok file))
      × (internal_tzx_read ceil_log file t
          ≡ (append_blocks t (stored_all blocks) >>= λ t'. some (none, t')))
unfolding internal_tzx_read internal_tzx_write
internal_tzx_read-tzx_write ceil_log states blocks t v =
    let (file, written, reads) = All-Saves ceil_log states blocks 0 blocks v in
    let whole = tzx_signature ++ (1 ∷ 20 ∷ []) ++ file in
    (
      whole,
      rw written refl,
      rw (le→ltb (length whole) 10 (omega arith)) (reads (suc (length whole)) t (omega arith)),
    )
