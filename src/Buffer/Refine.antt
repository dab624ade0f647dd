-- ===== src/Buffer/Refine.antt =====
-- A buffer seen from outside is the list of the bytes written to it since it was last cleared.
use libspectrum.Base.{◌<◌}
use libspectrum.Base.{ℕ, ◌+◌, ◌^◌, ◌≤◌, ◌≡◌, refl, ap, ◌∙◌, sym, arith, Bool-cases}
use libspectrum.Base.{
  List, [], ◌∷◌, ◌++◌, append-nil, Option, none, some, ◌==◌, ==→eq, eq→==, inl, inr, true, not, ◌↔◌,
}
use libspectrum.Base.{length, take, replicate}
use libspectrum.Base.Partial.{◌>>=◌}
use libspectrum.Base.Memory.{take-memcpy, length-memcpy}
use native.Mathlib.Nat.{add-zero}
use libspectrum.Bytes.{write_word, write_dword, make_room}
use libspectrum.Buffer.{Allocator, Buffer, Block, alloc, write, set, clear, write_byte}
use libspectrum.Buffer.{
  buffer_write_word, buffer_write_dword, write_buffer, append, block_make_room,
}
use libspectrum.Buffer.{is_empty, is_not_empty, get_data_size}
use libspectrum.Buffer.Laws.{IsValid, alloc-IsValid, contents, write_lem, set_lem, length-contents}

-- The calls that change a buffer.
pub data Op : Type 0 where
  byte word dword : ℕ → Op
  bytes : List ℕ → Op
  fill : ℕ → ℕ → Op
  copy : Option Buffer → Op
  reset : Op

-- What a call puts behind the bytes that are there. A source buffer gives its contents.
abbrev pub written : Op → List ℕ
written (byte v) = v ∷ []
written (word v) = write_word v
written (dword v) = write_dword v
written (bytes l) = l
written (fill v n) = replicate n v
written (copy none) = []
written (copy (some b)) = contents b
written reset = []

-- The bytes after a call.
abbrev pub after : List ℕ → Op → List ℕ
after l reset = []
after l op = l ++ written op

unfoldable pub spec : List ℕ → List Op → List ℕ
spec l [] = l
spec l (op ∷ ops) = spec (after l op) ops

-- How many bytes the calls write in all, counting what a later `reset` drops.
abbrev pub volume : List Op → ℕ
volume [] = 0
volume (op ∷ ops) = length (written op) + volume ops

module _ (a : Allocator) where
  unfoldable pub step : Buffer → Op → Option Buffer
  step b (byte v) = write_byte a b v
  step b (word v) = buffer_write_word a b v
  step b (dword v) = buffer_write_dword a b v
  step b (bytes l) = write a b l
  step b (fill v n) = set a b v n
  step b (copy src) = write_buffer a b src
  step b reset = some (clear b)

  unfoldable pub run : Buffer → List Op → Option Buffer
  run b [] = some b
  run b (op ∷ ops) = do b' ← step b op; run b' ops

  -- What one call does to a valid buffer.
  pub record Did (b : Buffer) (op : Op) (b' : Buffer) : Type 0 where
    pub valid : IsValid b'
    pub bytes : contents b' ≡ after (contents b) op
    pub grows : b'.bytes_used ≤ b.bytes_used + length (written op)

  written-Did :
      (b : Buffer) (op : Op)
      → after (contents b) op ≡ contents b ++ written op
      → IsValid b
      → b.bytes_used + length (written op) ≤ 2 ^ 63
      → (b' : Buffer) × (write a b (written op) ≡ some b') × Did b op b'
  written-Did b op same v h =
      let (b', e, v', c, u) = write_lem a b (written op) v h in
      (b', e, record { valid = v'; bytes = c ∙ sym same; grows = omega (arith, u) })

  step-Did :
      (b : Buffer) (op : Op)
      → IsValid b
      → b.bytes_used + length (written op) ≤ 2 ^ 63
      → (b' : Buffer) × (step b op ≡ some b') × Did b op b'
  unfolding step write_byte buffer_write_word buffer_write_dword write_buffer clear
  step-Did b (byte v) valid h = written-Did b (byte v) refl valid h
  step-Did b (word v) valid h = written-Did b (word v) refl valid h
  step-Did b (dword v) valid h = written-Did b (dword v) refl valid h
  step-Did b (bytes l) valid h = written-Did b (bytes l) refl valid h
  step-Did b (fill v n) valid h = rw (set_lem a b v n) (written-Did b (fill v n) refl valid h)
  step-Did b (copy none) valid h =
      (b, refl, record { valid = valid; bytes = sym (append-nil _); grows = omega arith })
  step-Did b (copy (some src)) valid h = written-Did b (copy (some src)) refl valid h
  step-Did b reset valid h =
      (clear b, refl, record { valid = cleared; bytes = refl; grows = omega arith })
    where
      cleared : IsValid (clear b)
      cleared = record {
        storage = valid.storage;
        within = omega arith;
        positive = valid.positive;
        representable = valid.representable;
      }

  -- On a valid buffer every sequence of calls that keeps within 2 ^ 63 bytes succeeds, and leaves a
  -- valid buffer that holds what the list of bytes holds after the same calls.
  pub run_refines :
      (ops : List Op) (b : Buffer)
      → IsValid b
      → b.bytes_used + volume ops ≤ 2 ^ 63
      → (b' : Buffer) × (run b ops ≡ some b') × IsValid b' × (contents b' ≡ spec (contents b) ops)
  unfolding run spec
  run_refines [] b v h = (b, refl, v, refl)
  run_refines (op ∷ ops) b v h =
      let (c, e, d) = step-Did b op v (omega arith) in
      let (b', e', v', s) = run_refines ops c d.valid (omega (arith, d.grows)) in
      (b', rw e e', v', s ∙ ap (λ l. spec l ops) d.bytes)

  -- From a new buffer on, every sequence of calls that writes at most 2 ^ 63 bytes succeeds, and
  -- leaves exactly the bytes written since the last `libspectrum_buffer_clear`.
  pub run_of_alloc :
      (ops : List Op)
      → volume ops ≤ 2 ^ 63
      → (b : Buffer) × (run (alloc a) ops ≡ some b) × IsValid b × (contents b ≡ spec [] ops)
  run_of_alloc ops h =
      let (v, e) = alloc-IsValid a in
      let (b, r, v', s) = run_refines ops (alloc a) v (unfold alloc in omega arith) in
      (b, r, v', s ∙ ap (λ l. spec l ops) e)

-- The observers of a valid buffer are those of its contents.
pub observers :
    (b : Buffer)
    → IsValid b
    → ((is_empty b ≡ true) ↔ (contents b ≡ []))
      × (is_not_empty b ≡ not (is_empty b))
      × (get_data_size (some b) ≡ length (contents b))
unfolding is_empty is_not_empty get_data_size
observers b v = (
  (
    λ h. ap (λ n. take n b.buffer) (==→eq _ 0 h),
    λ h. eq→== _ 0 (omega (arith, length-contents v, ap length h)),
  ),
  ground arith,
  omega (arith, length-contents v),
)

-- A block that a pointer runs through: its bytes are those allocated, and the pointer is inside.
pub record BlockIsValid (d : Block) : Type 0 where
  pub storage : length d.bytes ≡ d.allocated
  pub inside : d.position ≤ d.allocated

-- `libspectrum_make_room` keeps what stands before the pointer and leaves room behind it.
pub block_make_room_lem :
    (a : Allocator) (d : Block) (n : ℕ)
    → BlockIsValid d
    → d.position + n < 2 ^ 64
    → let d' = block_make_room a d n in
      BlockIsValid d'
      × (take d'.position d'.bytes ≡ take d.position d.bytes)
      × (d'.position ≡ d.position)
      × (d'.position + n ≤ d'.allocated)
unfolding block_make_room
block_make_room_lem a d n v h =
    let size = make_room d.allocated d.position n in
    ground (
      arith,
      a.length-realloc [] size,
      a.length-realloc d.bytes size,
      a.take-realloc d.bytes size d.position,
    )

-- `libspectrum_buffer_append` puts the contents of a valid buffer behind what stands before the
-- pointer of a valid block, moves the pointer behind them, and leaves a block that is valid. What
-- stands before the pointer and the contents, which are in memory side by side, have less than
-- 2 ^ 64 bytes together.
pub append_lem :
    (a : Allocator) (d : Block) (src : Buffer)
    → BlockIsValid d
    → IsValid src
    → d.position + src.bytes_used < 2 ^ 64
    → let d' = append a d src in
      (take d'.position d'.bytes ≡ take d.position d.bytes ++ contents src)
      × (d'.position ≡ d.position + length (contents src))
      × BlockIsValid d'
unfolding append
append_lem a d src w v h = elim (Bool-cases (src.bytes_used == 0)) [
  | inl e ↦
      let z : src.bytes_used ≡ 0 = ==→eq _ 0 e in
      let nothing : contents src ≡ [] = ap (λ n. take n src.buffer) z in
      rw (e, nothing) (sym (append-nil _), sym (add-zero _), w)
  | inr e ↦
      let room = block_make_room a d src.bytes_used in
      let (w', same, at, fits) = block_make_room_lem a d src.bytes_used w h in
      let n : length (contents src) ≡ src.bytes_used = length-contents v in
      let copied =
        take-memcpy room.bytes room.position (contents src) (omega (arith, w'.storage)) in
      rw (e, n)
        (
          rw n at copied ∙ ap (λ l. l ++ contents src) same,
          omega arith,
          record {
            storage = length-memcpy room.bytes room.position (contents src) ∙ w'.storage;
            inside = fits;
          },
        )
]
