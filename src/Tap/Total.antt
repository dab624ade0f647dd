-- ===== src/Tap/Total.antt =====
-- Reading of any file at all ends.
use libspectrum.Base.{
  ℕ, zero, suc, ◌+◌, ◌*◌, ◌<◌, ◌≡◌, refl, ap, ◌∙◌, sym, arith, map, ltb, Bool-cases, inl, inr, ◌⊎◌,
}
use libspectrum.Base.{List, [], ◌∷◌, ◌++◌, length, length-drop, append_assoc, append-nil}
use libspectrum.Base.{Option, none, some, Error, corrupt, Result, ok, err}
use libspectrum.Tape.Next.{Block, States, Tape}
use libspectrum.Tape.Next.Blocks.{at}
use libspectrum.Tape.Select.{append_block, tape_clear}
use libspectrum.Tap.{TapType, uncounted, stored, read_block, rom_block, tap_read, internal_tap_read}

-- A block is read, and at least two bytes are gone, or the data are corrupt.
abbrev BlockRead : List ℕ → Result (List ℕ × List ℕ) → Type 0
BlockRead buffer (err e) = e ≡ corrupt
BlockRead buffer (ok (bytes, rest)) = length rest < length buffer

read_block-BlockRead :
    (type : TapType) (buffer : List ℕ) → BlockRead buffer (read_block type buffer)
unfolding read_block
read_block-BlockRead type [] = refl
read_block-BlockRead type (low ∷ []) = refl
read_block-BlockRead type (low ∷ high ∷ rest) =
    let n = stored type (low + high * 0x100 + uncounted type) in
    elim (Bool-cases (ltb (length rest) n)) [
      | inl e ↦ rw e refl
      | inr e ↦ rw e (omega (arith, length-drop n rest))
    ]

module _ (loop_block : Option ℕ) (loop_count n : ℕ) (states : States) where
  -- A tape with a current block.
  abbrev loaded : List Block → Tape
  loaded blocks = at blocks loop_block loop_count n states

  append_loaded :
      (blocks : List Block) (b : Block)
      → append_block (loaded blocks) b ≡ some (loaded (blocks ++ (b ∷ [])))
  unfolding append_block
  append_loaded blocks b = refl

  -- Blocks have been put behind the others, or the data were corrupt and the tape is empty.
  abbrev pub IsRead : List Block → Option Error × Tape → Type 0
  IsRead blocks (verdict, t) =
      ((verdict ≡ none) × ((datas : List (List ℕ)) × (t ≡ loaded (blocks ++ map rom_block datas))))
      ⊎ ((verdict ≡ some corrupt) × (t.blocks ≡ []) × (t.current_block ≡ none))

  abbrev Ends : List Block → Option (Option Error × Tape) → Type 0
  Ends blocks found = (r : Option Error × Tape) × (found ≡ some r) × IsRead blocks r

  one_more :
      (blocks : List Block) (bytes : List ℕ) (r : Option Error × Tape)
      → IsRead (blocks ++ (rom_block bytes ∷ [])) r
      → IsRead blocks r
  one_more blocks bytes r (inl (e, (datas, h))) = inl (
    e,
    (
      bytes ∷ datas,
      h ∙ ap loaded (append_assoc blocks (rom_block bytes ∷ []) (map rom_block datas)),
    ),
  )
  one_more blocks bytes r (inr h) = inr h

  after_block :
      (rounds : ℕ) (type : TapType) (b : ℕ) (buffer : List ℕ) (blocks : List Block)
      (found : Result (List ℕ × List ℕ))
      → read_block type (b ∷ buffer) ≡ found
      → BlockRead (b ∷ buffer) found
      → ((bytes rest : List ℕ)
          → length rest < length (b ∷ buffer)
          → Ends
              (blocks ++ (rom_block bytes ∷ []))
              (tap_read rounds type rest (loaded (blocks ++ (rom_block bytes ∷ [])))))
      → Ends blocks (tap_read (suc rounds) type (b ∷ buffer) (loaded blocks))
  unfolding tap_read append_block tape_clear
  after_block rounds type b buffer blocks (err e) h c rest =
      ((some e, tape_clear (loaded blocks)), rw (tap_read, h), inr (ap some c, refl, refl))
  after_block rounds type b buffer blocks (ok (bytes, left)) h c rest =
      let (r, found, read) = rest bytes left c in
      (r, rw (tap_read, h) found, one_more blocks bytes r read)

  tap_read-Ends :
      (rounds : ℕ) (type : TapType) (buffer : List ℕ) (blocks : List Block)
      → length buffer < rounds
      → Ends blocks (tap_read rounds type buffer (loaded blocks))
  unfolding tap_read
  tap_read-Ends zero type buffer blocks h = absurd (omega arith)
  tap_read-Ends (suc rounds) type [] blocks h =
      ((none, loaded blocks), refl, inl (refl, ([], ap loaded (sym (append-nil blocks)))))
  tap_read-Ends (suc rounds) type (b ∷ buffer) blocks h =
      after_block rounds type b buffer blocks (read_block type (b ∷ buffer)) refl
        (read_block-BlockRead type (b ∷ buffer))
        (λ bytes rest l.
          tap_read-Ends rounds type rest (blocks ++ (rom_block bytes ∷ [])) (omega arith))

-- Reading ends for every list of bytes and every tape with a current block: either without an error,
-- and ROM blocks stand behind the blocks of the tape, whose other fields are as they were, or the
-- verdict is that the file is corrupt, and the tape has no blocks and no current block.
pub internal_tap_read-Ends :
    (loop_block : Option ℕ) (loop_count n : ℕ) (states : States) (type : TapType) (buffer : List ℕ)
    (blocks : List Block)
    → (r : Option Error × Tape) × (internal_tap_read type buffer
          (at blocks loop_block loop_count n states)
        ≡ some r)
      × IsRead loop_block loop_count n states blocks r
unfolding internal_tap_read
internal_tap_read-Ends loop_block loop_count n states type buffer blocks =
    tap_read-Ends loop_block loop_count n states (suc (length buffer)) type buffer blocks
      (omega arith)
