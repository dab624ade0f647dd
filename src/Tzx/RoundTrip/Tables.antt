-- ===== src/Tzx/RoundTrip/Tables.antt =====
-- Symbol tables of generalised data, written and read again.
use libspectrum.Base.{
  ℕ, suc, ◌+◌, ◌*◌, ◌^◌, ◌≤◌, ◌<◌, ◌≡◌, refl, ap, sym, ◌∙◌, arith, le→ltb, ◌==◌, ne→==, false,
  if◌then◌else◌, Bool-cases, ==→eq, inl, inr,
}
use libspectrum.Base.{
  List, [], ◌∷◌, ◌++◌, length, length-append, drop-append, drop, All, append_assoc, some, ok,
}
use libspectrum.Bytes.{byte, write_dword}
use libspectrum.Tape.Generalised.{
  EdgeType, symbol_edge, symbol_no_edge, symbol_low, symbol_high, symbol_other, Symbol, SymbolTable,
}
use libspectrum.Tzx.Fields.{number}
use libspectrum.Tzx.Read.{words}
use libspectrum.Tzx.Read.Generalised.{
  edge_type_of, symbol_table_parameters, read_symbols, read_symbol_table,
}
use libspectrum.Tzx.Write.{word_bytes}
use libspectrum.Tzx.Write.Generalised.{
  edge_byte, pulse_bytes, symbols_bytes, serialise_generalised_data_table,
  serialise_generalised_data_symbols,
}
use libspectrum.Tzx.RoundTrip.Pieces.{IsWord, byte_lem, words-word_bytes}

abbrev pub IsEdgeType : EdgeType → Type 0
IsEdgeType (symbol_other n) = (4 ≤ n) × (n < 256)
IsEdgeType e = Unit {0}

edge_type_lem : (e : EdgeType) → IsEdgeType e → edge_type_of (byte (edge_byte e)) ≡ e
edge_type_lem symbol_edge v = refl
edge_type_lem symbol_no_edge v = refl
edge_type_lem symbol_low v = refl
edge_type_lem symbol_high v = refl
edge_type_lem (symbol_other n) (low, high) = rw (
  byte_lem n high,
  ne→== n 0 (λ e. omega arith),
  ne→== n 1 (λ e. omega arith),
  ne→== n 2 (λ e. omega arith),
  ne→== n 3 (λ e. omega arith),
)

-- A symbol with so many pulses.
abbrev pub IsSymbol : ℕ → Symbol → Type 0
IsSymbol max_pulses s =
    IsEdgeType s.edge_type × (length s.lengths ≡ max_pulses) × All IsWord s.lengths

abbrev symbols_written : List Symbol → List ℕ
symbols_written [] = []
symbols_written (s ∷ symbols) =
    byte (edge_byte s.edge_type) ∷ word_bytes s.lengths ++ symbols_written symbols

pulse_bytes_lem :
    (lengths : List ℕ) → pulse_bytes (length lengths) lengths ≡ some (ok (word_bytes lengths))
pulse_bytes_lem [] = refl
pulse_bytes_lem (l ∷ lengths) = rw (pulse_bytes_lem lengths) refl

module _ (max_pulses : ℕ) where
  symbols_bytes_lem :
      (symbols : List Symbol)
      → All (IsSymbol max_pulses) symbols
      → symbols_bytes (length symbols) max_pulses symbols ≡ some (ok (symbols_written symbols))
  symbols_bytes_lem [] v = refl
  symbols_bytes_lem (s ∷ symbols) ((e, n, ws), v) =
      let pulses : pulse_bytes max_pulses s.lengths ≡ some (ok (word_bytes s.lengths)) =
        ap (λ k. pulse_bytes k s.lengths) (sym n) ∙ pulse_bytes_lem s.lengths in
      rw (pulses, symbols_bytes_lem symbols v) refl

  length-symbols_written :
      (symbols : List Symbol)
      → All (IsSymbol max_pulses) symbols
      → length (symbols_written symbols) ≡ (2 * max_pulses + 1) * length symbols
  length-symbols_written [] v = omega arith
  length-symbols_written (s ∷ symbols) ((e, n, ws), v) =
      let (read, left, size) = words-word_bytes s.lengths [] ws in
      let more : (2 * max_pulses + 1) * suc (length symbols)
          ≡ 2 * max_pulses + 1 + (2 * max_pulses + 1) * length symbols =
        omega arith in
      omega (
        arith,
        more,
        size,
        n,
        length-append (word_bytes s.lengths) (symbols_written symbols),
        length-symbols_written symbols v,
      )

  read_symbols_lem :
      (symbols : List Symbol) (rest : List ℕ)
      → All (IsSymbol max_pulses) symbols
      → read_symbols (length symbols) max_pulses (symbols_written symbols ++ rest) ≡ symbols
  read_symbols_lem [] rest v = refl
  read_symbols_lem (s ∷ symbols) rest ((e, n, ws), v) =
      let behind = symbols_written symbols ++ rest in
      let (read, left, size) = words-word_bytes s.lengths behind ws in
      let found : words max_pulses (word_bytes s.lengths ++ behind) ≡ s.lengths =
        ap (λ k. words k (word_bytes s.lengths ++ behind)) (sym n) ∙ read in
      let next : drop (2 * max_pulses) (word_bytes s.lengths ++ behind) ≡ behind =
        ap (λ k. drop (2 * k) (word_bytes s.lengths ++ behind)) (sym n) ∙ left in
      let one : 2 * max_pulses + 1 ≡ suc (2 * max_pulses) = omega arith in
      rw (
        append_assoc (word_bytes s.lengths) (symbols_written symbols) rest,
        one,
        found,
        next,
        edge_type_lem s.edge_type e,
        read_symbols_lem symbols rest v,
      )

-- A table that is used, with 1 to 256 symbols.
abbrev pub IsTable : SymbolTable → Type 0
IsTable t =
    ((1 ≤ t.symbols_in_block) × (t.symbols_in_block < 2 ^ 32))
    × (t.max_pulses < 256)
    × ((1 ≤ t.symbols_in_table) × (t.symbols_in_table ≤ 256))
    × (length t.symbols ≡ t.symbols_in_table)
    × All (IsSymbol t.max_pulses) t.symbols

-- The number of symbols as a byte, in which 256 is 0.
abbrev count_byte : ℕ → ℕ
count_byte n = byte (if n == 256 then 0 else n)

count_byte_lem :
    (n in_block : ℕ)
    → 1 ≤ in_block
    → 1 ≤ n
    → n ≤ 256
    → (if count_byte n == 0 then if in_block == 0 then 0 else 256 else count_byte n) ≡ n
count_byte_lem n in_block used low high =
    let some_block : (in_block == 0) ≡ false = ne→== in_block 0 (λ e. omega arith) in
    elim (Bool-cases (n == 256)) [
      | inl e ↦ rw (e, some_block) (sym (==→eq n 256 e))
      | inr e ↦
          let less : n < 256 = ground arith in
          rw (e, byte_lem n less, ne→== n 0 (λ z. omega arith)) refl
    ]

header_of : SymbolTable → List ℕ
unfolding write_dword
header_of t =
    write_dword t.symbols_in_block ++ (byte t.max_pulses ∷ count_byte t.symbols_in_table ∷ [])

serialise_table_lem :
    (t : SymbolTable) → IsTable t → serialise_generalised_data_table t ≡ ok (header_of t)
unfolding serialise_generalised_data_table header_of
serialise_table_lem t ((used, small), m, (low, high), n, v) = rw (
  ne→== t.symbols_in_block 0 (λ e. omega arith),
  ne→== t.symbols_in_table 0 (λ e. omega arith),
  le→ltb 256 t.symbols_in_table high,
)

parameters_lem :
    (t : SymbolTable) (rest : List ℕ)
    → IsTable t
    → symbol_table_parameters (header_of t ++ rest)
      ≡ (t.symbols_in_block, t.max_pulses, t.symbols_in_table)
unfolding header_of
parameters_lem t rest ((used, small), m, (low, high), n, v) =
    let block : number 4 (header_of t ++ rest) ≡ t.symbols_in_block = omega arith in
    rw (
      block,
      byte_lem t.max_pulses m,
      count_byte_lem t.symbols_in_table t.symbols_in_block used low high,
    )

-- A symbol table that is used, whose numbers fit their bytes and whose symbols have all the same number
-- of pulses, is written without an error: its parameters and its symbols. From what is written, whatever
-- follows it, the parameters are read back, and with them the same table, where the length that the
-- block is said to have leaves room for it.
pub read_symbol_table-serialise :
    (t : SymbolTable) (behind rest : List ℕ) (n : ℕ)
    → IsTable t
    → (2 * t.max_pulses + 1) * t.symbols_in_table ≤ n
    → (header : List ℕ) × (bytes : List ℕ) × (serialise_generalised_data_table t ≡ ok header)
      × (serialise_generalised_data_symbols t ≡ some (ok bytes))
      × (read_symbol_table (symbol_table_parameters (header ++ behind)) (bytes ++ rest) n
          ≡ some (ok (t, rest)))
unfolding read_symbol_table serialise_generalised_data_symbols
read_symbol_table-serialise t behind rest n v room =
    let ((used, small), m, (low, high), k, symbols_ok) = v in
    let bytes = symbols_written t.symbols in
    let size : length bytes ≡ (2 * t.max_pulses + 1) * t.symbols_in_table =
      length-symbols_written t.max_pulses t.symbols symbols_ok
      ∙ ap (λ c. (2 * t.max_pulses + 1) * c) k in
    let some_block : (t.symbols_in_block == 0) ≡ false =
      ne→== t.symbols_in_block 0 (λ e. omega arith) in
    let written : symbols_bytes t.symbols_in_table t.max_pulses t.symbols ≡ some (ok bytes) =
      ap (λ c. symbols_bytes c t.max_pulses t.symbols) (sym k)
      ∙ symbols_bytes_lem t.max_pulses t.symbols symbols_ok in
    let symbols : read_symbols t.symbols_in_table t.max_pulses (bytes ++ rest) ≡ t.symbols =
      ap (λ c. read_symbols c t.max_pulses (bytes ++ rest)) (sym k)
      ∙ read_symbols_lem t.max_pulses t.symbols rest symbols_ok in
    let left : drop ((2 * t.max_pulses + 1) * t.symbols_in_table) (bytes ++ rest) ≡ rest =
      ap (λ c. drop c (bytes ++ rest)) (sym size) ∙ drop-append bytes rest in
    (
      header_of t,
      bytes,
      serialise_table_lem t v,
      rw (some_block, written) refl,
      ap (λ p. read_symbol_table p (bytes ++ rest) n) (parameters_lem t behind v)
          ∙ rw
              (
                some_block,
                le→ltb n ((2 * t.max_pulses + 1) * t.symbols_in_table) room,
                le→ltb (length (bytes ++ rest)) ((2 * t.max_pulses + 1) * t.symbols_in_table)
                    (omega (arith, size, length-append bytes rest)),
                symbols,
                left,
              )
              refl,
    )
