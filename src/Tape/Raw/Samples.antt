-- ===== src/Tape/Raw/Samples.antt =====
-- The samples of raw data, and how a state steps through them.
use libspectrum.Base.{ℕ, zero, suc, ◌+◌, ◌-◌, ◌*◌, ◌^◌, ◌≤◌, ◌<◌, ◌≡◌, refl, ap, ◌∙◌, arith}
use libspectrum.Base.{◌==◌, eq→==, ne→==, Bool, true, false, not, if◌then◌else◌, bit_and}
use libspectrum.Base.{List, [], ◌∷◌, ◌++◌, length, drop, get_or}
use libspectrum.Base.Regions.{get_or-drop}
use libspectrum.Tape.Edges.{unused_bits, unused_bits_lem, increment}
use libspectrum.Tape.Raw.{RawData, RawState, samples, next_sample, sample_set}

abbrev pub sample : ℕ → ℕ → Bool
sample b offset = not (bit_and (b * 2 ^ offset) 0x80 == 0)

-- So many samples of a byte from an offset on.
abbrev pub byte_samples : ℕ → ℕ → ℕ → List Bool
byte_samples zero offset b = []
byte_samples (suc n) offset b = sample b offset ∷ byte_samples n (offset + 1) b

abbrev pub samples_in : ℕ → List ℕ → ℕ
samples_in last [] = last
samples_in last (b ∷ rest) = 8

-- The last byte counts with its lowest bits.
abbrev pub raw_samples : ℕ → List ℕ → List Bool
raw_samples last [] = []
raw_samples last (b ∷ rest) =
    byte_samples (samples_in last rest) (8 - samples_in last rest) b ++ raw_samples last rest

-- Raw data that can be played: the last byte has a sample at least.
pub record IsRaw (block : RawData) : Type 0 where
  pub some_byte : 1 ≤ length (samples block)
  pub small : length (samples block) + 1 < 2 ^ 64
  pub low : 1 ≤ block.bits_in_last_byte
  pub high : block.bits_in_last_byte ≤ 8

module _ (block : RawData) where
  -- The samples that a state has before it.
  pub record Ahead (xs : List Bool) (s : RawState) : Type 0 where
    pub inside : (s.bytes_through_block == length (samples block)) ≡ false
    pub left : ℕ
    pub rest : List ℕ
    pub count : s.bits_through_byte + left ≡ 7
    pub size : increment s.bytes_through_block + length rest ≡ length (samples block)
    pub behind : drop (increment s.bytes_through_block) (samples block) ≡ rest
    pub total : left + 8 * length rest ≤ 8 * length (samples block)
    pub shown :
        byte_samples left (s.bits_through_byte + 1) (get_or (samples block) s.bytes_through_block 0)
          ++ raw_samples block.bits_in_last_byte rest
        ≡ xs

  module _ (v : IsRaw block) where
    positive :
        (rest : List ℕ) → (m : ℕ) × (samples_in block.bits_in_last_byte rest ≡ suc m) × (m < 8)
    positive [] = (block.bits_in_last_byte - 1, omega (arith, v.low), omega (arith, v.high, v.low))
    positive (b ∷ rest) = (7, refl, omega arith)

    -- What a step to the sample `x` leaves.
    abbrev pub Steps : Bool → List Bool → RawState → RawState → Type 0
    Steps x xs s s' =
        ((s'.bytes_through_block == length (samples block)) ≡ false)
        × (sample_set block s' ≡ x)
        × Ahead xs s'
        × (s'.last_bit ≡ s.last_bit)
        × (s'.state ≡ s.state)

    same_byte :
        (r : ℕ) (rest : List ℕ) (x : Bool) (xs : List Bool) (s : RawState)
        → s.bits_through_byte + suc r ≡ 7
        → suc r + 8 * length rest ≤ 8 * length (samples block)
        → increment s.bytes_through_block + length rest ≡ length (samples block)
        → (s.bytes_through_block == length (samples block)) ≡ false
        → drop (increment s.bytes_through_block) (samples block) ≡ rest
        → byte_samples
              (suc r)
              (s.bits_through_byte + 1)
              (get_or (samples block) s.bytes_through_block 0)
            ++ raw_samples block.bits_in_last_byte rest
          ≡ x ∷ xs
        → Steps x xs s (next_sample block s)
    unfolding next_sample sample_set
    same_byte r rest x xs s count total size inside behind shown =
        let e : increment s.bits_through_byte ≡ s.bits_through_byte + 1 = omega arith in
        let k : (s.bits_through_byte + 1 == 8) ≡ false = ne→== _ 8 (λ i. omega arith) in
        rw (e, k)
          (
            inside,
            cc shown,
            record {
              inside = inside;
              left = r;
              rest = rest;
              count = omega arith;
              size = size;
              behind = behind;
              total = omega arith;
              shown = cc shown;
            },
            refl,
            refl,
          )

    first_sample :
        (n : ℕ) (rest : List ℕ)
        → n + suc (length rest) ≡ length (samples block)
        → (if n + 1 == length (samples block) then unused_bits block.bits_in_last_byte else 0)
          ≡ 8 - samples_in block.bits_in_last_byte rest
    first_sample n [] h =
        let e : (n + 1 == length (samples block)) ≡ true = eq→== _ _ (omega arith) in
        rw e (unused_bits_lem block.bits_in_last_byte (v.high))
    first_sample n (b ∷ rest) h =
        let e : (n + 1 == length (samples block)) ≡ false = ne→== _ _ (λ i. omega arith) in rw e

    next_byte :
        (b : ℕ) (rest : List ℕ) (x : Bool) (xs : List Bool) (s : RawState)
        → s.bits_through_byte ≡ 7
        → increment s.bytes_through_block + suc (length rest) ≡ length (samples block)
        → drop (increment s.bytes_through_block) (samples block) ≡ b ∷ rest
        → raw_samples block.bits_in_last_byte (b ∷ rest) ≡ x ∷ xs
        → Steps x xs s (next_sample block s)
    unfolding next_sample sample_set
    next_byte b rest x xs s count size behind shown =
        let last = block.bits_in_last_byte in
        let small = v.small in
        let (m, e, l) = positive rest in
        let bits : (increment s.bits_through_byte == 8) ≡ true = eq→== _ 8 (omega arith) in
        let inside : (increment s.bytes_through_block == length (samples block)) ≡ false =
          ne→== _ _ (λ i. omega arith) in
        let (here, after) =
          get_or-drop (increment s.bytes_through_block) (samples block) b rest 0 behind in
        let next : increment (increment s.bytes_through_block)
            ≡ suc (increment s.bytes_through_block) =
          omega arith in
        let at : (if increment s.bytes_through_block + 1 == length (samples block)
              then unused_bits last
              else 0)
            ≡ 8 - suc m =
          first_sample (increment s.bytes_through_block) rest size ∙ ap (λ k. 8 - k) e in
        let shown' : sample b (8 - suc m) ∷ byte_samples m (8 - suc m + 1) b
              ++ raw_samples last rest
            ≡ x ∷ xs =
          simp e at shown in
        rw (bits, at)
          (
            inside,
            rw here (cc shown'),
            record {
              inside = inside;
              left = m;
              rest = rest;
              count = omega arith;
              size = omega arith;
              behind = rw next after;
              total = omega arith;
              shown = rw here (cc shown');
            },
            refl,
            refl,
          )

    sample_step :
        (left : ℕ) (rest : List ℕ) (x : Bool) (xs : List Bool) (s : RawState)
        → s.bits_through_byte + left ≡ 7
        → left + 8 * length rest ≤ 8 * length (samples block)
        → increment s.bytes_through_block + length rest ≡ length (samples block)
        → (s.bytes_through_block == length (samples block)) ≡ false
        → drop (increment s.bytes_through_block) (samples block) ≡ rest
        → byte_samples left
              (s.bits_through_byte + 1)
              (get_or (samples block) s.bytes_through_block 0)
            ++ raw_samples block.bits_in_last_byte rest
          ≡ x ∷ xs
        → Steps x xs s (next_sample block s)
    sample_step zero [] x xs s count total size inside behind shown = absurd (cc shown)
    sample_step zero (b ∷ rest) x xs s count total size inside behind shown =
        next_byte b rest x xs s (omega arith) size behind shown
    sample_step (suc r) rest x xs s count total size inside behind shown =
        same_byte r rest x xs s count total size inside behind shown

    pub next_sample-more :
        (x : Bool) (xs : List Bool) (s : RawState)
        → Ahead (x ∷ xs) s
        → Steps x xs s (next_sample block s)
    next_sample-more x xs s a =
        sample_step a.left a.rest x xs s a.count a.total a.size a.inside a.behind a.shown

    end_step :
        (left : ℕ) (rest : List ℕ) (s : RawState)
        → s.bits_through_byte + left ≡ 7
        → increment s.bytes_through_block + length rest ≡ length (samples block)
        → byte_samples left
              (s.bits_through_byte + 1)
              (get_or (samples block) s.bytes_through_block 0)
            ++ raw_samples block.bits_in_last_byte rest
          ≡ []
        → let s' = next_sample block s in
          ((s'.bytes_through_block == length (samples block)) ≡ true)
          × (s'.last_bit ≡ s.last_bit)
          × (s'.state ≡ s.state)
    unfolding next_sample
    end_step zero [] s count size shown =
        let bits : (increment s.bits_through_byte == 8) ≡ true = eq→== _ 8 (omega arith) in
        let over : (increment s.bytes_through_block == length (samples block)) ≡ true =
          eq→== _ _ (omega arith) in
        rw bits (over, refl, refl)
    end_step zero (b ∷ rest) s count size shown =
        let (m, e, l) = positive rest in let shown' = simp e at shown in absurd (cc shown')
    end_step (suc r) rest s count size shown = absurd (cc shown)

    -- Behind the last sample the data end.
    pub next_sample-end :
        (s : RawState)
        → Ahead [] s
        → let s' = next_sample block s in
          ((s'.bytes_through_block == length (samples block)) ≡ true)
          × (s'.last_bit ≡ s.last_bit)
          × (s'.state ≡ s.state)
    next_sample-end s a = end_step a.left a.rest s a.count a.size a.shown
