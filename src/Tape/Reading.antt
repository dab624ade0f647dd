-- ===== src/Tape/Reading.antt =====
-- The loops that read a file on to a tape, block by block.
use libspectrum.Base.{ℕ, zero, suc, ◌≤◌, ◌<◌, ◌≡◌, refl, ◌∙◌, arith, length-append, append_assoc}
use libspectrum.Base.{List, ◌∷◌, ◌++◌, length, Option, none, some, Error}
use libspectrum.Base.Partial.{◌>>=◌}
use libspectrum.Tape.Next.{Block, Tape}
use libspectrum.Tape.Select.{append_block, append_blocks}

after :
    (o : Option Tape) (f : Tape → Option (Option Error × Tape)) (g : Tape → Option Tape)
    → ((t : Tape) → f t ≡ (g t >>= λ t'. some (none, t')))
    → (o >>= f) ≡ ((o >>= g) >>= λ t'. some (none, t'))
after none f g h = refl
after (some t) f g h = h t

-- A loop, with the number of its rounds first.
module _ (read : ℕ → List ℕ → Tape → Option (Option Error × Tape)) where
  -- A file is read as these blocks, on to any tape and without an error.
  abbrev pub Reads : List Block → List ℕ → Type 0
  Reads blocks file =
      (rounds : ℕ) (t : Tape)
      → length file < rounds
      → read rounds file t ≡ (append_blocks t blocks >>= λ t'. some (none, t'))

  -- A round of the loop that reads a block from so many bytes.
  pub one_more-Reads :
      (b : Block) (blocks : List Block) (bytes file : List ℕ)
      → 1 ≤ length bytes
      → ((rounds : ℕ) (t : Tape)
          → read (suc rounds) (bytes ++ file) t ≡ (append_block t b >>= λ t'. read rounds file t'))
      → Reads blocks file
      → Reads (b ∷ blocks) (bytes ++ file)
  unfolding append_blocks
  one_more-Reads b blocks bytes file n step rest zero t l = absurd (omega arith)
  one_more-Reads b blocks bytes file n step rest (suc rounds) t l =
      step rounds t
      ∙ after (append_block t b) (read rounds file) (λ t'. append_blocks t' blocks)
          (λ t'. rest rounds t' (omega (arith, length-append bytes file)))

  -- The bytes are read as these blocks, whatever follows them.
  abbrev pub Begins : List Block → List ℕ → Type 0
  Begins blocks bytes =
      (others : List Block) (file : List ℕ)
      → Reads others file
      → Reads (blocks ++ others) (bytes ++ file)

  pub append-Begins :
      (first second : List Block) (front behind : List ℕ)
      → Begins first front
      → Begins second behind
      → Begins (first ++ second) (front ++ behind)
  append-Begins first second front behind h k others file r =
      rw (append_assoc first second others, append_assoc front behind file)
        (h (second ++ others) (behind ++ file) (k others file r))
