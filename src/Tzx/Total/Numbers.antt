-- ===== src/Tzx/Total/Numbers.antt =====
-- What the reader of a block gives, by the number of the block.
use libspectrum.Base.{map}
use libspectrum.Base.{
  ℕ, ◌+◌, ◌-◌, ◌*◌, ◌/◌, ◌==◌, ==→eq, ◌≡◌, refl, ltb, Bool, true, false, if◌then◌else◌,
}
use libspectrum.Base.{List, [], length, drop, Option, none, some, corrupt, Result, ok, err}
use libspectrum.Base.Partial.{◌>>=◌}
use libspectrum.Bytes.{dword}
use libspectrum.Tape.Generalised.{GeneralisedData, SymbolTable}
use libspectrum.Tzx.Fields.{of_ms, word_at, number}
use libspectrum.Tzx.Read.{Parse, tzx_read_concat}
use libspectrum.Tzx.Read.Generalised.{
  symbol_table_parameters, table_bytes, read_symbol_table, read_pilot, read_generalised_bits,
  read_generalised_pilot, table_or_empty, tzx_read_generalised_data,
}
use libspectrum.Tzx.Read.Files.{Found, a_block, no_block, tzx_read_block}
use libspectrum.Tzx.Total.Leaves.{Left, drop-Left, Leaves, branch-Leaves}
use libspectrum.Tzx.Total.Blocks.{
  read_rom_block-Leaves, read_turbo_block-Leaves, read_pure_tone-Leaves, read_pulses_block-Leaves,
  read_pure_data-Leaves, read_raw_data-Leaves, read_pause-Leaves, read_group_start-Leaves,
  read_jump-Leaves, read_loop_start-Leaves, read_select-Leaves, read_stop-Leaves,
  read_set_signal_level-Leaves, read_comment-Leaves, read_message-Leaves, read_archive_info-Leaves,
  read_hardware-Leaves, read_custom-Leaves,
}

-- A result, if there is one, leaves the end of a buffer.
abbrev MaybeLeaves : {A : Type 0} → List ℕ → Option (Result (A × List ℕ)) → Type 0
MaybeLeaves buffer none = Unit {0}
MaybeLeaves buffer (some r) = Leaves buffer r

branch-MaybeLeaves :
    {A : Type 0} (c : Bool) (buffer : List ℕ) (x y : Option (Result (A × List ℕ)))
    → MaybeLeaves buffer x
    → MaybeLeaves buffer y
    → MaybeLeaves buffer (if c then x else y)
branch-MaybeLeaves true buffer x y h k = h
branch-MaybeLeaves false buffer x y h k = k

symbol_table-MaybeLeaves :
    (parameters : ℕ × ℕ × ℕ) (buffer start : List ℕ) (n : ℕ)
    → Left buffer start
    → MaybeLeaves buffer (read_symbol_table parameters start n)
unfolding read_symbol_table
symbol_table-MaybeLeaves (in_block, max_pulses, in_table) buffer start n l =
    let size = (2 * max_pulses + 1) * in_table in
    branch-MaybeLeaves (in_block == 0) buffer _ _ l (
      branch-MaybeLeaves (ltb n size) buffer _ _ tt (
        branch-MaybeLeaves (ltb (length start) size) buffer _ _ tt (drop-Left size buffer start l)))

then-MaybeLeaves :
    {A : Type 0} {B : Type 0} (buffer : List ℕ) (o : Option (Result (A × List ℕ)))
    (f : Result (A × List ℕ) → Option (Result (B × List ℕ)))
    → MaybeLeaves buffer o
    → ((r : Result (A × List ℕ)) → Leaves buffer r → MaybeLeaves buffer (f r))
    → MaybeLeaves buffer (o >>= f)
then-MaybeLeaves buffer none f h k = tt
then-MaybeLeaves buffer (some r) f h k = k r h

found-MaybeLeaves :
    {A : Type 0} {B : Type 0} (buffer : List ℕ) (r : Result (A × List ℕ))
    (f : A × List ℕ → Option (Result (B × List ℕ)))
    → Leaves buffer r
    → ((x : A) (rest : List ℕ) → Left buffer rest → MaybeLeaves buffer (f (x, rest)))
    → MaybeLeaves buffer (elim r [ err e ↦ some (err e) | ok found ↦ f found ])
found-MaybeLeaves buffer (err e) f h k = tt
found-MaybeLeaves buffer (ok (x, rest)) f h k = k x rest h

module _ (ceil_log : ℕ → ℕ) where
  bits-Leaves :
      (block : GeneralisedData) (left : ℕ) (buffer start : List ℕ)
      → Left buffer start
      → Leaves buffer (read_generalised_bits ceil_log block left start)
  unfolding read_generalised_bits
  bits-Leaves block left buffer start l =
      let bits = ceil_log block.data_table.symbols_in_table in
      let count = dword (bits * block.data_table.symbols_in_block + 7) / 8 in
      branch-Leaves (ltb (length start) count) buffer _ _ tt (
        branch-Leaves (length (drop count start) == left) buffer _ _
          (drop-Left count buffer start l) tt)

  table_or_empty-Left :
      (parameters : ℕ × ℕ × ℕ) (buffer behind : List ℕ) (r : Result (SymbolTable × List ℕ))
      → Left buffer behind
      → Leaves buffer r
      → Left buffer (table_or_empty parameters behind r).1
  table_or_empty-Left parameters buffer behind (ok found) l h = h
  table_or_empty-Left parameters buffer behind (err e) l h = l

  abbrev with_tables : GeneralisedData → List ℕ → SymbolTable → GeneralisedData
  with_tables block start table =
      let pilot = read_pilot block.pilot_table.symbols_in_block start in
      record block {
        data_table = table;
        pilot_symbols = map (λ p. p.0) pilot;
        pilot_repeats = map (λ p. p.1) pilot;
      }

  pilot-MaybeLeaves :
      (block : GeneralisedData) (parameters : ℕ × ℕ × ℕ) (n left : ℕ) (buffer start : List ℕ)
      → Left buffer start
      → MaybeLeaves buffer (read_generalised_pilot ceil_log block parameters n left start)
  unfolding read_generalised_pilot
  pilot-MaybeLeaves block parameters n left buffer start l =
      let size = 3 * block.pilot_table.symbols_in_block in
      let behind = drop size start in
      let k = drop-Left size buffer start l in
      branch-MaybeLeaves (ltb n (dword size)) buffer _ _ tt (
        branch-MaybeLeaves (ltb (length start) size) buffer _ _ tt (
          then-MaybeLeaves buffer (read_symbol_table parameters behind (n - dword size)) _
            (symbol_table-MaybeLeaves parameters buffer behind (n - dword size) k)
            (λ r h.
              bits-Leaves (with_tables block start (table_or_empty parameters behind r).0) left
                buffer (table_or_empty parameters behind r).1
                (table_or_empty-Left parameters buffer behind r k h))))

  abbrev with_pilot : List ℕ → SymbolTable → GeneralisedData
  with_pilot start table =
      let set = of_ms (word_at start 0) in
      record {
        pause = set.pause;
        pause_tstates = set.pause_tstates;
        pilot_table = table;
        data_table = table;
        pilot_symbols = [];
        pilot_repeats = [];
        bits_per_data_symbol = 0;
        bytes = [];
      }

  generalised-MaybeLeaves :
      (buffer : List ℕ) → MaybeLeaves buffer (tzx_read_generalised_data ceil_log buffer)
  unfolding tzx_read_generalised_data
  generalised-MaybeLeaves buffer =
      let n = number 4 buffer in
      let start = drop 4 buffer in
      let pilot = symbol_table_parameters (drop 2 start) in
      let parameters = symbol_table_parameters (drop 8 start) in
      let l = drop-Left 14 buffer start (4, refl) in
      branch-MaybeLeaves (ltb (length buffer) 4) buffer _ _ tt (
        branch-MaybeLeaves (ltb n 14) buffer _ _ tt (
          branch-MaybeLeaves (ltb (length start) n) buffer _ _ tt (
            then-MaybeLeaves buffer (read_symbol_table pilot (drop 14 start) (n - 14)) _
              (symbol_table-MaybeLeaves pilot buffer (drop 14 start) (n - 14) l)
              (λ r h. found-MaybeLeaves buffer r _ h (λ table rest k.
                pilot-MaybeLeaves (with_pilot start table) parameters
                  (dword (n - 14 + table_bytes pilot)) (length start - n) buffer rest k)))))

  -- A block, or none, whose number and bytes it was read from.
  abbrev pub Outcome : ℕ → List ℕ → Option Found → Type 0
  Outcome id buffer none = (id ≡ 0x19) × (tzx_read_generalised_data ceil_log buffer ≡ none)
  Outcome id buffer (some r) = Leaves buffer r

  branch-Outcome :
      (c : Bool) (id : ℕ) (buffer : List ℕ) (x y : Option Found)
      → (c ≡ true → Outcome id buffer x)
      → Outcome id buffer y
      → Outcome id buffer (if c then x else y)
  branch-Outcome true id buffer x y h k = h refl
  branch-Outcome false id buffer x y h k = k

  a_block-Leaves : (buffer : List ℕ) (r : Parse) → Leaves buffer r → Leaves buffer (a_block r)
  a_block-Leaves buffer (ok (b, rest)) h = h
  a_block-Leaves buffer (err e) h = tt

  no_block-Leaves :
      (n : ℕ) (buffer : List ℕ) (c : Bool)
      → Leaves buffer (no_block (if c then err corrupt else ok (drop n buffer)))
  no_block-Leaves n buffer true = tt
  no_block-Leaves n buffer false = (n, refl)

  generalised-Outcome :
      (buffer : List ℕ) (o : Option Parse)
      → tzx_read_generalised_data ceil_log buffer ≡ o
      → MaybeLeaves buffer o
      → Outcome 0x19 buffer (o >>= λ r. some (a_block r))
  generalised-Outcome buffer none e h = (refl, e)
  generalised-Outcome buffer (some r) e h = a_block-Leaves buffer r h

  pub read_block-Outcome :
      (id : ℕ) (buffer : List ℕ) → Outcome id buffer (tzx_read_block ceil_log id buffer)
  unfolding tzx_read_block tzx_read_concat
  read_block-Outcome id buffer =
      branch-Outcome (id == 0x10) id buffer _ _
        (λ e. a_block-Leaves buffer _ (read_rom_block-Leaves buffer))
        (branch-Outcome (id == 0x11) id buffer _ _
          (λ e. a_block-Leaves buffer _ (read_turbo_block-Leaves buffer))
          (branch-Outcome (id == 0x12) id buffer _ _
            (λ e. a_block-Leaves buffer _ (read_pure_tone-Leaves buffer))
            (branch-Outcome (id == 0x13) id buffer _ _
              (λ e. a_block-Leaves buffer _ (read_pulses_block-Leaves buffer))
              (branch-Outcome (id == 0x14) id buffer _ _
                (λ e. a_block-Leaves buffer _ (read_pure_data-Leaves buffer))
                (branch-Outcome (id == 0x15) id buffer _ _
                  (λ e. a_block-Leaves buffer _ (read_raw_data-Leaves buffer))
                  (branch-Outcome (id == 0x19) id buffer _ _
                    (λ e. rw (==→eq id 0x19 e) (
                      generalised-Outcome buffer (tzx_read_generalised_data ceil_log buffer) refl
                        (generalised-MaybeLeaves buffer)))
                    (branch-Outcome (id == 0x20) id buffer _ _
                      (λ e. a_block-Leaves buffer _ (read_pause-Leaves buffer))
                      (branch-Outcome (id == 0x21) id buffer _ _
                        (λ e. a_block-Leaves buffer _ (read_group_start-Leaves buffer))
                        (branch-Outcome (id == 0x22) id buffer _ _ (λ e. (0, refl))
                          (branch-Outcome (id == 0x23) id buffer _ _
                            (λ e. a_block-Leaves buffer _ (read_jump-Leaves buffer))
                            (branch-Outcome (id == 0x24) id buffer _ _
                              (λ e. a_block-Leaves buffer _ (read_loop_start-Leaves buffer))
                              (branch-Outcome (id == 0x25) id buffer _ _ (λ e. (0, refl))
                                (branch-Outcome (id == 0x28) id buffer _ _
                                  (λ e. a_block-Leaves buffer _ (read_select-Leaves buffer))
                                  (branch-Outcome (id == 0x2a) id buffer _ _
                                    (λ e. a_block-Leaves buffer _ (read_stop-Leaves buffer))
                                    (branch-Outcome (id == 0x2b) id buffer _ _
                                      (λ e.
                                        a_block-Leaves buffer _
                                          (read_set_signal_level-Leaves buffer))
                                      (branch-Outcome (id == 0x30) id buffer _ _
                                        (λ e. a_block-Leaves buffer _ (read_comment-Leaves buffer))
                                        (branch-Outcome (id == 0x31) id buffer _ _
                                          (λ e.
                                            a_block-Leaves buffer _ (read_message-Leaves buffer))
                                          (branch-Outcome (id == 0x32) id buffer _ _
                                            (λ e.
                                              a_block-Leaves buffer _
                                                (read_archive_info-Leaves buffer))
                                            (branch-Outcome (id == 0x33) id buffer _ _
                                              (λ e.
                                                a_block-Leaves buffer _
                                                  (read_hardware-Leaves buffer))
                                              (branch-Outcome (id == 0x35) id buffer _ _
                                                (λ e.
                                                  a_block-Leaves buffer _
                                                    (read_custom-Leaves buffer))
                                                (branch-Outcome (id == 0x5a) id buffer _ _
                                                  (λ e.
                                                    no_block-Leaves 9 buffer
                                                      (ltb (length buffer) 9))
                                                  tt)))))))))))))))))))))
