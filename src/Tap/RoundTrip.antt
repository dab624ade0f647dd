-- ===== src/Tap/RoundTrip.antt =====
-- A tape that is written to a file and read again.
use libspectrum.Base.{ℕ, zero, suc, ◌≡◌, refl, arith, map, All}
use libspectrum.Base.{List, [], ◌∷◌, ◌++◌, length, none, some, ok}
use libspectrum.Base.Partial.{◌>>=◌}
use libspectrum.Tape.Next.{
  Block, Tape, rom, turbo, pure_tone, pulses, pure_data, raw_data, generalised_data, pause_block,
  jump,
}
use libspectrum.Tape.Next.{
  loop_start, loop_end, stop48, set_signal_level, rle_pulse, pulse_sequence, data_block, concat,
}
use libspectrum.Tape.Next.{
  group_start, group_end, select, comment, message, archive_info, hardware, custom,
}
use libspectrum.Tape.Reading.{Reads, one_more-Reads}
use libspectrum.Tape.Select.{append_block, append_blocks}
use libspectrum.Tap.{
  TapType, rom_block, read_block, tap_read, internal_tap_read, write_block, internal_tap_write,
}
use libspectrum.Tap.Blocks.{IsStored, block_bytes, write_tap_block_lem, read_block_lem}

-- The data that a file keeps of a tape.
abbrev pub saved : List Block → List (List ℕ)
saved [] = []
saved (rom b ∷ blocks) = b.bytes ∷ saved blocks
saved (turbo b ∷ blocks) = b.payload.bytes ∷ saved blocks
saved (pure_data b ∷ blocks) = b.bytes ∷ saved blocks
saved (b ∷ blocks) = saved blocks

abbrev pub CanHold : TapType → List ℕ → Type 0
CanHold type bytes =
    (front : List ℕ) × (last : ℕ) × (bytes ≡ front ++ (last ∷ [])) × IsStored type front last

-- A block that can be written: its data, if it has some, fit the file.
abbrev pub IsSaved : TapType → Block → Type 0
IsSaved type (rom b) = CanHold type b.bytes
IsSaved type (turbo b) = CanHold type b.payload.bytes
IsSaved type (pure_data b) = CanHold type b.bytes
IsSaved type concat = ⊥
IsSaved type b = Unit {0}

module _ (type : TapType) where
  -- A file is read as blocks of these data.
  abbrev HoldsData : List (List ℕ) → List ℕ → Type 0
  HoldsData datas file =
      Reads (λ rounds buffer t. tap_read rounds type buffer t) (map rom_block datas) file

  nothing-HoldsData : HoldsData [] []
  unfolding tap_read append_blocks
  nothing-HoldsData zero t h = absurd (omega arith)
  nothing-HoldsData (suc rounds) t h = refl

  tap_read_step :
      (rounds b : ℕ) (buffer bytes rest : List ℕ) (t : Tape)
      → read_block type (b ∷ buffer) ≡ ok (bytes, rest)
      → tap_read (suc rounds) type (b ∷ buffer) t
        ≡ (append_block t (rom_block bytes) >>= λ t'. tap_read rounds type rest t')
  unfolding tap_read
  tap_read_step rounds b buffer bytes rest t h = rw (tap_read, h)

  block-HoldsData :
      (bytes : List ℕ) (datas : List (List ℕ)) (file : List ℕ) (c : CanHold type bytes)
      → HoldsData datas file
      → HoldsData (bytes ∷ datas) (block_bytes type c.0 c.1 ++ file)
  block-HoldsData bytes datas file (front, last, e, h) rest = rw e (
      one_more-Reads (λ rounds buffer t. tap_read rounds type buffer t)
        (rom_block (front ++ (last ∷ []))) (map rom_block datas) (block_bytes type front last) file
        (omega arith)
        (λ rounds t.
          tap_read_step rounds _ _ (front ++ (last ∷ [])) file t
            (read_block_lem type front last file h))
        rest)

  write_cons :
      (b : Block) (blocks : List Block) (bytes file : List ℕ)
      → write_block type b ≡ some (ok bytes)
      → internal_tap_write type blocks ≡ some (ok file)
      → internal_tap_write type (b ∷ blocks) ≡ some (ok (bytes ++ file))
  unfolding internal_tap_write
  write_cons b blocks bytes file h k = rw (h, k)

  abbrev Saves : List Block → Type 0
  Saves blocks =
      (file : List ℕ) × (internal_tap_write type blocks ≡ some (ok file))
      × HoldsData (saved blocks) file

  data-Saves :
      (b : Block) (blocks : List Block) (bytes : List ℕ) (c : CanHold type bytes)
      → write_block type b ≡ some (ok (block_bytes type c.0 c.1))
      → saved (b ∷ blocks) ≡ bytes ∷ saved blocks
      → Saves blocks
      → Saves (b ∷ blocks)
  data-Saves b blocks bytes c h k (file, written, reads) = (
    block_bytes type c.0 c.1 ++ file,
    write_cons b blocks (block_bytes type c.0 c.1) file h written,
    rw k (block-HoldsData bytes (saved blocks) file c reads),
  )

  skip-Saves :
      (b : Block) (blocks : List Block)
      → write_block type b ≡ some (ok [])
      → saved (b ∷ blocks) ≡ saved blocks
      → Saves blocks
      → Saves (b ∷ blocks)
  skip-Saves b blocks h k (file, written, reads) =
      (file, write_cons b blocks [] file h written, rw k reads)

  All-Saves : (blocks : List Block) → All (IsSaved type) blocks → Saves blocks
  unfolding internal_tap_write write_block
  All-Saves [] v = ([], refl, nothing-HoldsData)
  All-Saves (rom b ∷ blocks) v =
      let (front, last, e, h) = v.0 in
      data-Saves (rom b) blocks (b.bytes) v.0 (rw e (write_tap_block_lem type front last h)) refl
        (All-Saves blocks v.1)
  All-Saves (turbo b ∷ blocks) v =
      let (front, last, e, h) = v.0 in
      data-Saves (turbo b) blocks (b.payload.bytes) v.0
        (rw e (write_tap_block_lem type front last h)) refl (All-Saves blocks v.1)
  All-Saves (pure_data b ∷ blocks) v =
      let (front, last, e, h) = v.0 in
      data-Saves (pure_data b) blocks (b.bytes) v.0 (rw e (write_tap_block_lem type front last h))
        refl (All-Saves blocks v.1)
  All-Saves (pure_tone b ∷ blocks) v =
      skip-Saves (pure_tone b) blocks refl refl (All-Saves blocks v.1)
  All-Saves (pulses b ∷ blocks) v = skip-Saves (pulses b) blocks refl refl (All-Saves blocks v.1)
  All-Saves (raw_data b ∷ blocks) v =
      skip-Saves (raw_data b) blocks refl refl (All-Saves blocks v.1)
  All-Saves (generalised_data b ∷ blocks) v =
      skip-Saves (generalised_data b) blocks refl refl (All-Saves blocks v.1)
  All-Saves (pause_block ms n l ∷ blocks) v =
      skip-Saves (pause_block ms n l) blocks refl refl (All-Saves blocks v.1)
  All-Saves (jump o ∷ blocks) v = skip-Saves (jump o) blocks refl refl (All-Saves blocks v.1)
  All-Saves (loop_start c ∷ blocks) v =
      skip-Saves (loop_start c) blocks refl refl (All-Saves blocks v.1)
  All-Saves (loop_end ∷ blocks) v = skip-Saves loop_end blocks refl refl (All-Saves blocks v.1)
  All-Saves (stop48 ∷ blocks) v = skip-Saves stop48 blocks refl refl (All-Saves blocks v.1)
  All-Saves (set_signal_level l ∷ blocks) v =
      skip-Saves (set_signal_level l) blocks refl refl (All-Saves blocks v.1)
  All-Saves (group_start text ∷ blocks) v =
      skip-Saves (group_start text) blocks refl refl (All-Saves blocks v.1)
  All-Saves (group_end ∷ blocks) v = skip-Saves group_end blocks refl refl (All-Saves blocks v.1)
  All-Saves (select choices ∷ blocks) v =
      skip-Saves (select choices) blocks refl refl (All-Saves blocks v.1)
  All-Saves (comment text ∷ blocks) v =
      skip-Saves (comment text) blocks refl refl (All-Saves blocks v.1)
  All-Saves (message ms tstates text ∷ blocks) v =
      skip-Saves (message ms tstates text) blocks refl refl (All-Saves blocks v.1)
  All-Saves (archive_info strings ∷ blocks) v =
      skip-Saves (archive_info strings) blocks refl refl (All-Saves blocks v.1)
  All-Saves (hardware entries ∷ blocks) v =
      skip-Saves (hardware entries) blocks refl refl (All-Saves blocks v.1)
  All-Saves (custom name bytes ∷ blocks) v =
      skip-Saves (custom name bytes) blocks refl refl (All-Saves blocks v.1)
  All-Saves (rle_pulse b ∷ blocks) v =
      skip-Saves (rle_pulse b) blocks refl refl (All-Saves blocks v.1)
  All-Saves (pulse_sequence b ∷ blocks) v =
      skip-Saves (pulse_sequence b) blocks refl refl (All-Saves blocks v.1)
  All-Saves (data_block b ∷ blocks) v =
      skip-Saves (data_block b) blocks refl refl (All-Saves blocks v.1)
  All-Saves (concat ∷ blocks) v = absurd v.0

-- A tape whose blocks with data fit the file type is written without an error. The file is read, on to
-- any tape, as a ROM block for each of these blocks, with the same data and a pause of a second, and
-- without an error: data of 1 to 65535 bytes for .tap and of 2 to 65537 for the others, of which .sta
-- files want the right parity in the last byte.
pub tap_read-tap_write :
    (type : TapType) (blocks : List Block) (t : Tape)
    → All (IsSaved type) blocks
    → (file : List ℕ) × (internal_tap_write type blocks ≡ some (ok file))
      × (internal_tap_read type file t
          ≡ (append_blocks t (map rom_block (saved blocks)) >>= λ t'. some (none, t')))
unfolding internal_tap_read
tap_read-tap_write type blocks t v =
    let (file, written, reads) = All-Saves type blocks v in
    (file, written, reads (suc (length file)) t (omega arith))
