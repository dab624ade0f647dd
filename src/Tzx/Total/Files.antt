-- ===== src/Tzx/Total/Files.antt =====
-- The loop over the blocks of a file ends, whatever the file is.
use libspectrum.Base.{
  ℕ, zero, suc, ◌≤◌, ◌<◌, ◌≡◌, refl, ap, sym, ◌∙◌, arith, ltb, Bool-cases, ◌⊎◌, inl, inr,
}
use libspectrum.Base.{
  List, [], ◌∷◌, ◌++◌, length, length-drop, append_assoc, append-nil, drop, take, Option, none,
  some, Error, corrupt, signature, ok, err,
}
use libspectrum.Tape.Next.{Block, States, Tape}
use libspectrum.Tape.Next.Blocks.{at}
use libspectrum.Tape.Select.{append_block, tape_clear}
use libspectrum.Tzx.Fields.{tzx_signature}
use libspectrum.Tzx.Read.Generalised.{tzx_read_generalised_data}
use libspectrum.Tzx.Read.Files.{
  Found, tzx_read_block, tzx_read_blocks, equal_bytes, internal_tzx_read,
}
use libspectrum.Tzx.Total.Leaves.{Left}
use libspectrum.Tzx.Total.Numbers.{Outcome, read_block-Outcome}

-- The loop over the blocks of a file, from some bytes on, comes to others.
pub data Reaches (ceil_log : ℕ → ℕ) : List ℕ → List ℕ → Type 0 where
  here : {buffer : List ℕ} → Reaches ceil_log buffer buffer
  next :
      {id : ℕ} {found : Option Block} {buffer rest end : List ℕ}
      → tzx_read_block ceil_log id buffer ≡ some (ok (found, rest))
      → Reaches ceil_log rest end
      → Reaches ceil_log (id ∷ buffer) end

-- The loop comes to a generalised data block that is read past the end of the file.
abbrev pub ReadsPast : (ℕ → ℕ) → List ℕ → Type 0
ReadsPast ceil_log buffer =
    (rest : List ℕ) × Reaches ceil_log buffer (0x19 ∷ rest)
    × (tzx_read_generalised_data ceil_log rest ≡ none)

module _ (ceil_log : ℕ → ℕ) (loop_block : Option ℕ) (loop_count n : ℕ) (states : States) where
  -- A tape with a current block.
  abbrev loaded : List Block → Tape
  loaded blocks = at blocks loop_block loop_count n states

  -- Blocks stand behind those of the tape, or there is an error and the tape is empty.
  abbrev pub IsRead : List Block → Option Error × Tape → Type 0
  IsRead blocks (verdict, t) =
      ((verdict ≡ none) × ((more : List Block) × (t ≡ loaded (blocks ++ more))))
      ⊎ ((e : Error) × (verdict ≡ some e) × (t.blocks ≡ []) × (t.current_block ≡ none))

  abbrev Ends : List ℕ → List Block → Option (Option Error × Tape) → Type 0
  Ends buffer blocks found =
      ((r : Option Error × Tape) × (found ≡ some r) × IsRead blocks r)
      ⊎ ((found ≡ none) × ReadsPast ceil_log buffer)

  one_more :
      (buffer : List ℕ) (blocks : List Block) (b : Block) (found : Option (Option Error × Tape))
      → Ends buffer (blocks ++ (b ∷ [])) found
      → Ends buffer blocks found
  one_more buffer blocks b found (inl (r, h, inl (e, (more, k)))) =
      inl (r, h, inl (e, (b ∷ more, k ∙ ap loaded (append_assoc blocks (b ∷ []) more))))
  one_more buffer blocks b found (inl (r, h, inr k)) = inl (r, h, inr k)
  one_more buffer blocks b found (inr h) = inr h

  one_before :
      (id : ℕ) (o : Option Block) (buffer rest : List ℕ) (blocks : List Block)
      (found : Option (Option Error × Tape))
      → tzx_read_block ceil_log id buffer ≡ some (ok (o, rest))
      → Ends rest blocks found
      → Ends (id ∷ buffer) blocks found
  one_before id o buffer rest blocks found h (inl ended) = inl ended
  one_before id o buffer rest blocks found h (inr (n, (behind, reached, past))) =
      inr (n, (behind, next h reached, past))

  Left-length : (buffer rest : List ℕ) → Left buffer rest → length rest ≤ length buffer
  Left-length buffer rest (k, e) =
      let size = length-drop k buffer in
      let same : length rest ≡ length (drop k buffer) = ap length e in omega (arith, size, same)

  -- The loop from `id ∷ buffer` on, after what the block there was read as.
  after_block :
      (rounds id : ℕ) (buffer : List ℕ) (blocks : List Block) (o : Option Found)
      → tzx_read_block ceil_log id buffer ≡ o
      → Outcome ceil_log id buffer o
      → ((rest : List ℕ) (blocks' : List Block)
          → length rest < length (id ∷ buffer)
          → Ends rest blocks' (tzx_read_blocks ceil_log rounds rest (loaded blocks')))
      → Ends
          (id ∷ buffer)
          blocks
          (tzx_read_blocks ceil_log (suc rounds) (id ∷ buffer) (loaded blocks))
  unfolding tzx_read_blocks append_block tape_clear
  after_block rounds id buffer blocks none h (i, g) rest = inr (rw h refl, (buffer, rw i here, g))
  after_block rounds id buffer blocks (some (err e)) h c rest =
      inl ((some e, tape_clear (loaded blocks)), rw h refl, inr (e, refl, refl, refl))
  after_block rounds id buffer blocks (some (ok (none, left))) h l rest =
      let more = rest left blocks (omega (arith, Left-length buffer left l)) in
      rw h (one_before id none buffer left blocks _ h more)
  after_block rounds id buffer blocks (some (ok (some b, left))) h l rest =
      let more = rest left (blocks ++ (b ∷ [])) (omega (arith, Left-length buffer left l)) in
      rw h (one_before id (some b) buffer left blocks _ h (one_more left blocks b _ more))

  blocks-Ends :
      (rounds : ℕ) (buffer : List ℕ) (blocks : List Block)
      → length buffer < rounds
      → Ends buffer blocks (tzx_read_blocks ceil_log rounds buffer (loaded blocks))
  unfolding tzx_read_blocks
  blocks-Ends zero buffer blocks h = absurd (omega arith)
  blocks-Ends (suc rounds) [] blocks h =
      inl ((none, loaded blocks), refl, inl (refl, ([], ap loaded (sym (append-nil blocks)))))
  blocks-Ends (suc rounds) (id ∷ buffer) blocks h =
      after_block rounds id buffer blocks (tzx_read_block ceil_log id buffer) refl
        (read_block-Outcome ceil_log id buffer)
        (λ rest blocks' k. blocks-Ends rounds rest blocks' (omega arith))

-- Reading ends for every list of bytes, on to every tape with a current block, unless the loop over the
-- blocks, which starts behind the ten bytes of the signature and the version, comes to a generalised data
-- block that is read past the end of the file, which the code does not define. It ends in one of three
-- ways: without an error, and blocks stand behind those of the tape, whose other fields are as they
-- were; with an error and a tape that has no blocks and no current block; or with an error and the tape
-- as it was, as the file is too short or has another signature.
pub internal_tzx_read-Ends :
    (ceil_log : ℕ → ℕ) (loop_block : Option ℕ) (loop_count n : ℕ) (states : States) (file : List ℕ)
    (blocks : List Block)
    → let t = at blocks loop_block loop_count n states in
      ((r : Option Error × Tape) × (internal_tzx_read ceil_log file t ≡ some r)
        × (IsRead ceil_log loop_block loop_count n states blocks r
            ⊎ ((e : Error) × (r ≡ (some e, t)))))
      ⊎ ((internal_tzx_read ceil_log file t ≡ none) × ReadsPast ceil_log (drop 10 file))
unfolding internal_tzx_read
internal_tzx_read-Ends ceil_log loop_block loop_count n states file blocks =
    let t = at blocks loop_block loop_count n states in
    elim (Bool-cases (ltb (length file) 10)) [
      | inl e ↦ rw e (inl ((some corrupt, t), refl, inr (corrupt, refl)))
      | inr e ↦ rw e (elim (Bool-cases (equal_bytes (take 8 file) tzx_signature)) [
        | inl s ↦
            rw s
              (elim (blocks-Ends ceil_log loop_block loop_count n states (suc (length file))
                (drop 10 file) blocks (omega (arith, length-drop 10 file))) [
                  | inl (r, h, k) ↦ inl (r, h, inl k)
                  | inr past ↦ inr past
                ])
        | inr s ↦ rw s (inl ((some signature, t), refl, inr (signature, refl)))
      ])
    ]
