-- ===== src/Tape/Data/Stream.antt =====
-- The bits of a block's bytes, and the edges that they become.
use mathlib.Core.Path.{subst}
use libspectrum.Base.{ap₂, ℕ, zero, suc, ◌+◌, ◌-◌, ◌*◌, ◌^◌, ◌≤◌, ◌<◌, ◌≡◌, refl, ap, sym, arith}
use libspectrum.Base.{◌==◌, eq→==, ne→==, Bool, true, false, not, if◌then◌else◌, bit_and}
use libspectrum.Base.{List, [], ◌∷◌, ◌++◌, length, drop, Result, ok}
use libspectrum.Base.Regions.{get_or-drop}
use libspectrum.Bytes.{byte}
use libspectrum.Tape.Edges.{unused_bits_lem}
use libspectrum.Tape.Edges.{
  Edge, data1, data2, pause, flags_length_short, flags_length_long, increment, do_tail_pause,
}
use libspectrum.Tape.Emits.{Emits, done, edge}
use libspectrum.Tape.Data.{PureData, DataState, take_bit, load_byte, next_bit, bit_edge}

-- The first bits of a byte, the highest first.
abbrev pub bits_of : ℕ → ℕ → List Bool
bits_of zero b = []
bits_of (suc n) b = not (bit_and b 0x80 == 0) ∷ bits_of n (byte (b * 2))

-- How many bits a byte sends that others follow, or that is the last.
abbrev pub bits_in : ℕ → List ℕ → ℕ
bits_in last [] = last
bits_in last (b ∷ rest) = 8

-- The bits of bytes, of which the last counts only so many.
abbrev pub data_bits : ℕ → List ℕ → List Bool
data_bits last [] = []
data_bits last (b ∷ rest) = bits_of (bits_in last rest) b ++ data_bits last rest

abbrev pub bit_length : PureData → Bool → ℕ
bit_length block set = if set then block.bit1_length else block.bit0_length

-- One of the two edges of a bit.
abbrev pub edge_of : PureData → Bool → Edge
edge_of block set = record {
  tstates = bit_length block set;
  flags =
      if bit_length block set == block.bit0_length then flags_length_short else flags_length_long;
  end_of_block = false;
}

abbrev pub edges_of : PureData → List Bool → List Edge
edges_of block [] = []
edges_of block (set ∷ bits) = edge_of block set ∷ edge_of block set ∷ edges_of block bits

edges_of-append :
    (block : PureData) (xs ys : List Bool)
    → edges_of block (xs ++ ys) ≡ edges_of block xs ++ edges_of block ys
edges_of-append block [] ys = refl
edges_of-append block (x ∷ xs) ys =
    ap (λ l. edge_of block x ∷ edge_of block x ∷ l) (edges_of-append block xs ys)

-- An edge function that sends the data of a block as the pure data are sent.
pub record Sends (block : PureData) (f : DataState → Result (Edge × DataState)) : Type 0 where
  pub first :
      (s : DataState)
      → f (record s { state = data1 }) ≡ ok (bit_edge block s, record s { state = data2 })
  pub second :
      (s : DataState)
      → f (record s { state = data2 })
        ≡ ok (bit_edge block s, next_bit block (record s { state = data2 }))
  pub third :
      (s : DataState)
      → f (record s { state = pause })
        ≡ ok (do_tail_pause block.pause_tstates, record s { state = pause })

module _ (block : PureData) (f : DataState → Result (Edge × DataState))
    (sends : Sends block f) where
  -- The state in which a bit is about to be sent, after `take_bit`.
  two_edges :
      (s : DataState) (es : List Edge) (s' : DataState)
      → Emits f (next_bit block (record (take_bit block s) { state = data2 })) es s'
      → Emits f
          (take_bit block s)
          (edges_of block (not (bit_and s.current_byte 0x80 == 0) ∷ []) ++ es)
          s'
  unfolding take_bit bit_edge
  two_edges s es s' rest =
      let t = take_bit block s in
      edge (record t { state = data2 }) (sends.first t)
        (edge (next_bit block (record t { state = data2 })) (sends.second t) rest)

  -- The counters of a state that has read the bytes before `rest`.
  abbrev At : List ℕ → DataState → Type 0
  At rest s =
      (increment s.bytes_through_block + length rest ≡ length block.bytes)
      × (drop (increment s.bytes_through_block) block.bytes ≡ rest)

  -- The end of the data.
  abbrev Paused : DataState → List Edge → Type 0
  Paused s es = (s' : DataState) × Emits f s es s' × (s'.state ≡ pause)

  next_bit-same :
      (s : DataState) (r : ℕ)
      → s.bits_through_byte + suc r ≡ 7
      → next_bit block s ≡ take_bit block (record s { bits_through_byte = s.bits_through_byte + 1 })
  unfolding next_bit
  next_bit-same s r h =
      let e : increment s.bits_through_byte ≡ s.bits_through_byte + 1 = omega arith in
      let n : (s.bits_through_byte + 1 == 8) ≡ false = ne→== _ 8 (λ k. omega arith) in rw (e, n)

  next_bit-end :
      (s : DataState) → s.bits_through_byte ≡ 7 → At [] s → (next_bit block s).state ≡ pause
  unfolding next_bit
  next_bit-end s h (n, d) =
      let e : increment s.bits_through_byte ≡ 8 = omega arith in
      let k : (increment s.bytes_through_block == length block.bytes) ≡ true =
        eq→== _ _ (omega arith) in
      rw (e, k)

  next_bit-load :
      (s : DataState) (b : ℕ) (rest : List ℕ)
      → s.bits_through_byte ≡ 7
      → At (b ∷ rest) s
      → next_bit block s
        ≡ take_bit block (
            load_byte block (record s {
              bits_through_byte = 8;
              bytes_through_block = increment s.bytes_through_block;
            }))
  unfolding next_bit
  next_bit-load s b rest h (n, d) =
      let e : increment s.bits_through_byte ≡ 8 = omega arith in
      let k : (increment s.bytes_through_block == length block.bytes) ≡ false =
        ne→== _ _ (λ i. omega arith) in
      rw (e, k)

  load_byte_lem :
      (s : DataState) (b : ℕ) (rest : List ℕ)
      → At (b ∷ rest) s
      → block.bits_in_last_byte ≤ 8
      → let t = load_byte block (record s {
        bits_through_byte = 8;
        bytes_through_block = increment s.bytes_through_block;
      }) in
        (t.current_byte ≡ b) × (t.bits_through_byte ≡ 8 - bits_in block.bits_in_last_byte rest)
  unfolding load_byte
  load_byte_lem s b [] (n, d) high =
      let k : (increment s.bytes_through_block + 1 == length block.bytes) ≡ true =
        eq→== _ _ (omega arith) in
      (
        (get_or-drop (increment s.bytes_through_block) block.bytes b [] 0 d).0,
        rw k (unused_bits_lem block.bits_in_last_byte high),
      )
  load_byte_lem s b (c ∷ rest) (n, d) high =
      let k : (increment s.bytes_through_block + 1 == length block.bytes) ≡ false =
        ne→== _ _ (λ e. omega arith) in
      ((get_or-drop (increment s.bytes_through_block) block.bytes b (c ∷ rest) 0 d).0, rw k)

  module _ (small : length block.bytes < 2 ^ 64) (low : 1 ≤ block.bits_in_last_byte)
      (high : block.bits_in_last_byte ≤ 8) where
    bits_in-positive :
        (rest : List ℕ) → (m : ℕ) × (bits_in block.bits_in_last_byte rest ≡ suc m) × (m < 8)
    bits_in-positive [] = (block.bits_in_last_byte - 1, omega arith, omega arith)
    bits_in-positive (b ∷ rest) = (7, refl, omega arith)

    At-tail :
        (s t : DataState) (b : ℕ) (rest : List ℕ)
        → At (b ∷ rest) s
        → t.bytes_through_block ≡ increment s.bytes_through_block
        → At rest t
    At-tail s t b rest (n, d) e =
        let k : increment t.bytes_through_block ≡ suc (increment s.bytes_through_block) =
          omega arith in
        (omega arith, rw k (get_or-drop (increment s.bytes_through_block) block.bytes b rest 0 d).1)

    -- From any point of the data, the bits that are left in the byte and those of the other bytes
    -- are sent, and then the data have ended.
    pub send_rest :
        (r : ℕ) (rest : List ℕ) (s : DataState)
        → s.bits_through_byte + r ≡ 7
        → At rest s
        → Paused
            (next_bit block s)
            (edges_of block (bits_of r s.current_byte ++ data_bits block.bits_in_last_byte rest))
    unfolding take_bit
    send_rest zero [] s h a = (next_bit block s, done _, next_bit-end s (omega arith) a)
    send_rest zero (b ∷ rest) s h a =
        let last = block.bits_in_last_byte in
        let t = load_byte block (record s {
          bits_through_byte = 8;
          bytes_through_block = increment s.bytes_through_block;
        }) in
        let u = record (take_bit block t) { state = data2 } in
        let (m, e, n) = bits_in-positive rest in
        let (current, bits) = load_byte_lem s b rest a high in
        let at = At-tail s u b rest a (unfold load_byte take_bit in refl) in
        let count : u.bits_through_byte + m ≡ 7 = unfold take_bit in omega arith in
        let (s', emits, p) = send_rest m rest u count at in
        let shown =
          ap₂ (λ c k. edges_of block (bits_of k c ++ data_bits last rest)) current (sym e) in
        subst
          (λ x. Paused x (edges_of block (bits_of (bits_in last rest) b ++ data_bits last rest)))
          (sym (next_bit-load s b rest (omega arith) a))
          (s', subst (λ es. Emits f (take_bit block t) es s') shown (two_edges t _ s' emits), p)
    send_rest (suc r) rest s h a =
        let t = record s { bits_through_byte = s.bits_through_byte + 1 } in
        let u = record (take_bit block t) { state = data2 } in
        let count : u.bits_through_byte + r ≡ 7 = unfold take_bit in omega arith in
        let (s', emits, p) = send_rest r rest u count a in
        subst
          (λ x. Paused x (
            edges_of block
              (bits_of (suc r) s.current_byte ++ data_bits block.bits_in_last_byte rest)))
          (sym (next_bit-same s r h)) (s', two_edges t _ s' emits, p)
