-- ===== src/Tape/Data/Play.antt =====
-- All the edges of a block whose bytes are sent bit by bit.
use mathlib.Core.Path.{subst}
use libspectrum.Base.{ℕ, zero, suc, ◌^◌, ◌≤◌, ◌<◌, ◌≡◌, refl, ap, sym, arith}
use libspectrum.Base.{◌==◌, ne→==, false, not, ◌&&◌, if◌then◌else◌, bit_and, Bool-cases, inl, inr}
use libspectrum.Base.{List, [], ◌∷◌, ◌++◌, length, drop, get_or, replicate, Result, ok}
use libspectrum.Tape.Edges.{Edge, pilot, sync1, sync2, plain, do_tail_pause, decrement}
use libspectrum.Tape.Edges.{minus_one, increment}
use libspectrum.Tape.Emits.{Emits, done, edge, append-Emits}
use libspectrum.Tape.Data.{PureData, Rom, Turbo, DataState, rom_data, next_bit, before_data}
use libspectrum.Tape.Data.{
  pure_data_edge, pure_data_init, rom_edge, rom_init, turbo_edge, turbo_init,
}
use libspectrum.Tape.Data.Stream.{Sends, data_bits, edges_of, send_rest}

-- Data that can be sent: the last byte has a bit at least.
pub record IsSendable (block : PureData) : Type 0 where
  pub small : length block.bytes < 2 ^ 64
  pub low : 1 ≤ block.bits_in_last_byte
  pub high : block.bits_in_last_byte ≤ 8

-- The edges of the data and the pause behind them.
abbrev pub payload_edges : PureData → List Edge
payload_edges block =
    edges_of block (data_bits block.bits_in_last_byte block.bytes)
    ++ (do_tail_pause block.pause_tstates ∷ [])

module _ (block : PureData) (f : DataState → Result (Edge × DataState))
    (sends : Sends block f) where
  payload-Emits :
      (s : DataState)
      → IsSendable block
      → s.bits_through_byte ≡ 7
      → s.bytes_through_block ≡ minus_one
      → (s' : DataState) × Emits f (next_bit block s) (payload_edges block) s'
  payload-Emits s v h k =
      let start : increment s.bytes_through_block ≡ 0 = omega arith in
      let (t, emits, p) =
        send_rest block f sends v.small v.low v.high 0 block.bytes s (omega arith)
          (omega arith, ap (λ n. drop n block.bytes) start) in
      let end : f t ≡ ok (do_tail_pause block.pause_tstates, t) =
        subst
          (λ q.
            f (record t { state = q })
            ≡ ok (do_tail_pause block.pause_tstates, record t { state = q }))
          (sym p) (sends.third t) in
      (t, append-Emits emits (edge t end (done t)))

pure_data-Sends : (block : PureData) → Sends block (pure_data_edge block)
unfolding pure_data_edge
pure_data-Sends block = record { first = λ s. refl; second = λ s. refl; third = λ s. refl }

rom-Sends : (block : Rom) → Sends (rom_data block) (rom_edge block)
unfolding rom_edge
rom-Sends block = record { first = λ s. refl; second = λ s. refl; third = λ s. refl }

turbo-Sends : (block : Turbo) → Sends block.payload (turbo_edge block)
unfolding turbo_edge
turbo-Sends block = record { first = λ s. refl; second = λ s. refl; third = λ s. refl }

-- A block of pure data gives two edges for every bit of its bytes, the highest bit of a byte first,
-- then its pause, with which it ends.
pub pure_data-Emits :
    (block : PureData) (s : DataState)
    → IsSendable block
    → (s' : DataState) × Emits
        (pure_data_edge block)
        (pure_data_init block s)
        (payload_edges block)
        s'
unfolding pure_data_init
pure_data-Emits block s v =
    payload-Emits block (pure_data_edge block) (pure_data-Sends block) (before_data s) v refl refl

-- The pilot of a ROM block.
rom_pilot :
    (block : Rom) (n : ℕ) (s : DataState)
    → suc n < 2 ^ 64
    → Emits
        (rom_edge block)
        (record s { edge_count = suc n; state = pilot })
        (replicate (suc n) (plain 2168))
        (record s { edge_count = 0; state = sync1 })
unfolding rom_edge
rom_pilot block zero s h = edge _ refl (done _)
rom_pilot block (suc n) s h =
    let e : decrement (suc (suc n)) ≡ suc n = omega arith in
    let k : (suc n == 0) ≡ false = ne→== (suc n) 0 (λ i. omega arith) in
    edge (record s { edge_count = suc n; state = pilot }) (rw (e, k))
      (rom_pilot block n s (omega arith))

abbrev pub rom_pilots : List ℕ → ℕ
rom_pilots bytes =
    if not (length bytes == 0) && not (bit_and (get_or bytes 0 0) 0x80 == 0) then 0x0c97 else 0x1f7f

abbrev pub rom_edges : Rom → List Edge
rom_edges block =
    replicate (rom_pilots block.bytes) (plain 2168)
    ++ (plain 667 ∷ plain 735 ∷ payload_edges (rom_data block))

pilots_positive : (bytes : List ℕ) → (n : ℕ) × (rom_pilots bytes ≡ suc n) × (suc n < 2 ^ 64)
pilots_positive bytes =
    elim (Bool-cases (not (length bytes == 0) && not (bit_and (get_or bytes 0 0) 0x80 == 0))) [
      | inl e ↦ (0x0c96, rw e, omega arith)
      | inr e ↦ (0x1f7e, rw e, omega arith)
    ]

-- A ROM block gives its pilot, 8063 edges or 3223 where the first byte has its high bit set, then
-- the two edges of the synchronisation, two edges for every bit of its bytes, and its pause, with
-- which it ends.
pub rom-Emits :
    (block : Rom) (s : DataState)
    → length block.bytes < 2 ^ 64
    → (s' : DataState) × Emits (rom_edge block) (rom_init block s) (rom_edges block) s'
unfolding rom_init
rom-Emits block s small =
    let (n, e, h) = pilots_positive block.bytes in
    let f = rom_edge block in
    let sync = record (before_data s) { edge_count = 0; state = sync1 } in
    let data_start = record (before_data s) { edge_count = 0; state = sync2 } in
    let (s', emits) =
      payload-Emits (rom_data block) f (rom-Sends block) data_start
        (record { small = small; low = omega arith; high = omega arith }) refl refl in
    let behind : Emits f sync (plain 667 ∷ plain 735 ∷ payload_edges (rom_data block)) s' =
      unfold rom_edge in
      edge data_start refl (edge (next_bit (rom_data block) data_start) refl emits) in
    (
      s',
      subst
          (λ k.
            Emits f (record (before_data s) { edge_count = k; state = pilot })
              (replicate k (plain 2168) ++ (plain 667 ∷ plain 735 ∷ payload_edges (rom_data block)))
              s')
          (sym e) (append-Emits (rom_pilot block n (before_data s) h) behind),
    )

-- The pilot of a turbo block, and the edge of its first synchronisation pulse.
turbo_pilot :
    (block : Turbo) (n : ℕ) (s : DataState)
    → n < 2 ^ 64
    → Emits
        (turbo_edge block)
        (record s { edge_count = n; state = pilot })
        (replicate n (plain block.pilot_length) ++ (plain block.sync1_length ∷ []))
        (record s { edge_count = minus_one; state = sync2 })
unfolding turbo_edge
turbo_pilot block zero s h = edge _ refl (done _)
turbo_pilot block (suc n) s h =
    let e : decrement (suc n) ≡ n = omega arith in
    let k : (suc n == 0) ≡ false = ne→== (suc n) 0 (λ i. omega arith) in
    edge (record s { edge_count = n; state = pilot }) (rw (e, k))
      (turbo_pilot block n s (omega arith))

abbrev pub turbo_edges : Turbo → List Edge
turbo_edges block =
    (replicate block.pilot_pulses (plain block.pilot_length) ++ (plain block.sync1_length ∷ []))
    ++ (plain block.sync2_length ∷ payload_edges block.payload)

-- A turbo block gives as many pilot edges as it says, none included, then the two edges of the
-- synchronisation, two edges for every bit of its bytes, and its pause, with which it ends.
pub turbo-Emits :
    (block : Turbo) (s : DataState)
    → IsSendable block.payload
    → block.pilot_pulses < 2 ^ 64
    → (s' : DataState) × Emits (turbo_edge block) (turbo_init block s) (turbo_edges block) s'
unfolding turbo_init
turbo-Emits block s v h =
    let f = turbo_edge block in
    let data_start = record (before_data s) { edge_count = minus_one; state = sync2 } in
    let (s', emits) = payload-Emits block.payload f (turbo-Sends block) data_start v refl refl in
    let behind : Emits f data_start (plain block.sync2_length ∷ payload_edges block.payload) s' =
      unfold turbo_edge in edge (next_bit block.payload data_start) refl emits in
    (s', append-Emits (turbo_pilot block block.pilot_pulses (before_data s) h) behind)
