-- ===== src/Tape/Raw/Steps.antt =====
-- Single edges of raw data: a run that has been found, the last run, and the pause.
use libspectrum.Base.{ℕ, zero, suc, ◌+◌, ◌-◌, ◌*◌, ◌≤◌, ◌<◌, ◌≡◌, refl, ap, sym, arith}
use libspectrum.Base.{◌==◌, Bool, true, false, not, if◌then◌else◌, length-append}
use libspectrum.Base.{List, [], ◌∷◌, length, get_or, Option, none, some, Result, ok, err, logic}
use libspectrum.Bytes.{dword}
use libspectrum.Tape.Edges.{Edge, data1, pause, flags_level_low, flags_level_high, do_tail_pause}
use libspectrum.Tape.Raw.{RawData, RawState, samples, find_edge, raw_data_next_bit}
use libspectrum.Tape.Raw.{raw_data_edge}
use libspectrum.Tape.Raw.Samples.{byte_samples, raw_samples, IsRaw, Ahead}
use libspectrum.Tape.Raw.Runs.{level_edge, Over}

-- A loop that does not end counts as an error.
abbrev pub settled : {A : Type 0} → Option (Result A) → Result A
settled none = err logic
settled (some r) = r

pub settled_ok : {A : Type 0} (r : Option (Result A)) (x : A) → settled r ≡ ok x → r ≡ some (ok x)
settled_ok none x h = absurd (cc h)
settled_ok (some r) x h = ap some h

abbrev pub raw_step : RawData → RawState → Result (Edge × RawState)
raw_step block s = settled (raw_data_edge block s)

pub not-not : (b : Bool) → not (not b) ≡ b
not-not true = refl
not-not false = refl

flag_not :
    (b : Bool)
    → (if not b then flags_level_low else flags_level_high)
      ≡ (if b then flags_level_high else flags_level_low)
flag_not true = refl
flag_not false = refl

flag_same :
    (b : Bool)
    → (if b then flags_level_low else flags_level_high)
      ≡ (if not b then flags_level_high else flags_level_low)
flag_same true = refl
flag_same false = refl

length-byte_samples : (n offset b : ℕ) → length (byte_samples n offset b) ≡ n
length-byte_samples zero offset b = refl
length-byte_samples (suc n) offset b = ap suc (length-byte_samples n (offset + 1) b)

module _ (block : RawData) (v : IsRaw block) where
  raw_samples_bound :
      (rest : List ℕ) → length (raw_samples block.bits_in_last_byte rest) ≤ 8 * length rest
  raw_samples_bound [] = omega arith
  raw_samples_bound (b ∷ []) =
      let last = block.bits_in_last_byte in
      let e = length-append (byte_samples last (8 - last) b) [] in
      omega (arith, e, length-byte_samples last (8 - last) b, v.high)
  raw_samples_bound (b ∷ c ∷ rest) =
      let e =
        length-append (byte_samples 8 (8 - 8) b) (raw_samples block.bits_in_last_byte (c ∷ rest)) in
      omega (arith, e, length-byte_samples 8 (8 - 8) b, raw_samples_bound (c ∷ rest))

  -- The rounds are enough for the samples that are left.
  pub rounds_enough :
      (xs : List Bool) (s : RawState)
      → Ahead block xs s
      → length xs < 8 * length (samples block) + 1
  rounds_enough xs s a =
      let front =
        byte_samples a.left (s.bits_through_byte + 1)
          (get_or (samples block) s.bytes_through_block 0) in
      let back = raw_samples block.bits_in_last_byte a.rest in
      let e = length-append front back in
      let shown = ap length a.shown in
      let l =
        length-byte_samples a.left (s.bits_through_byte + 1)
          (get_or (samples block) s.bytes_through_block 0) in
      omega (arith, e, shown, l, raw_samples_bound a.rest, a.total)

  -- The samples before a state hang on its place only.
  pub Ahead-same :
      (xs : List Bool) (s t : RawState)
      → s.bytes_through_block ≡ t.bytes_through_block
      → s.bits_through_byte ≡ t.bits_through_byte
      → Ahead block xs s
      → Ahead block xs t
  Ahead-same xs s t e i a = record {
    inside = rw (sym e) a.inside;
    left = a.left;
    rest = a.rest;
    count = rw (sym i) a.count;
    size = rw (sym e) a.size;
    behind = rw (sym e) a.behind;
    total = a.total;
    shown = rw (sym e, sym i) a.shown;
  }

  pub found_step :
      (n k : ℕ) (level : Bool) (s s' : RawState)
      → s.state ≡ data1
      → s.bit_tstates ≡ dword (n * block.bit_length)
      → (s.bytes_through_block == length (samples block)) ≡ false
      → find_edge (8 * length (samples block) + 1) block (record s { state = data1 }) 0
        ≡ some (k, s')
      → s'.last_bit ≡ level
      → raw_step block s
        ≡ ok (
          level_edge block n level,
          record s' { bit_tstates = dword (k * block.bit_length); last_bit = not level },
        )
  unfolding raw_data_edge raw_data_next_bit
  found_step n k level s s' d t inside found l =
      rw (raw_data_edge, d, raw_data_next_bit, inside, found, l, t, flag_not level)

  pub Over-step :
      (n : ℕ) (level : Bool) (s : RawState)
      → s.state ≡ data1
      → s.bit_tstates ≡ dword (n * block.bit_length)
      → Over block v s
      → s.last_bit ≡ level
      → raw_step block s ≡ ok (level_edge block n (not level), record s { state = pause })
  unfolding raw_data_edge raw_data_next_bit
  Over-step n level s d t over l =
      rw (raw_data_edge, d, raw_data_next_bit, over, l, t, flag_same level)

  pub pause_step :
      (s : RawState)
      → raw_step block (record s { state = pause })
        ≡ ok (do_tail_pause block.pause_tstates, record s { state = pause })
  unfolding raw_data_edge
  pause_step s = refl
