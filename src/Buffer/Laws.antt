-- ===== src/Buffer/Laws.antt =====
-- The invariant of a buffer, and that a write appends: the growth loop ends, no `size_t` wraps, and
-- what was in the buffer stays in front.
use libspectrum.Base.{ℕ, zero, suc, ◌+◌, ◌*◌, ◌^◌, ◌≤◌, ◌<◌, ◌≡◌, refl, ap, ◌∙◌, arith, inl, inr}
use libspectrum.Base.{Bool-cases, ltb, ltb→lt, ltb→le, List, [], ◌++◌, some}
use libspectrum.Base.{length, take, replicate, length-replicate, length-take}
use libspectrum.Base.Partial.{◌>>=◌}
use native.Mathlib.Nat.{pow-suc}
use mathlib.Core.Path.{fun_ext}
use libspectrum.Base.Memory.{memcpy, memset, take-memcpy, length-memcpy, memset-memcpy}
use libspectrum.Bytes.{double_size}
use libspectrum.Buffer.{Allocator, Buffer, sub_size, realloc_rounds, alloc, reallocate}
use libspectrum.Buffer.{reallocate_to_new_size, write, set}

abbrev pub contents : Buffer → List ℕ
contents b = take b.bytes_used b.buffer

pub record IsValid (b : Buffer) : Type 0 where
  pub storage : length b.buffer ≡ b.buffer_size
  pub within : b.bytes_used ≤ b.buffer_size
  pub positive : 1 ≤ b.buffer_size
  pub representable : b.buffer_size < 2 ^ 64

pub length-contents : {b : Buffer} → IsValid b → length (contents b) ≡ b.bytes_used
length-contents {b} v = omega (arith, length-take b.bytes_used b.buffer)

-- What the growth loop leaves: room for `size` bytes behind the same contents.
pub record Grown (b : Buffer) (size : ℕ) (b' : Buffer) : Type 0 where
  pub valid : IsValid b'
  pub room : b.bytes_used + size ≤ b'.buffer_size
  pub used : b'.bytes_used ≡ b.bytes_used
  pub kept : contents b' ≡ contents b

double_step : (m r : ℕ) → m * 2 ^ suc r ≡ 2 * m * 2 ^ r
double_step m r = rw pow-suc (omega arith)

module _ (a : Allocator) where
  reallocate-IsValid :
      {b : Buffer} (n : ℕ)
      → IsValid b
      → b.buffer_size ≤ n
      → n < 2 ^ 64
      → IsValid (reallocate a b n) × (contents (reallocate a b n) ≡ contents b)
  unfolding reallocate
  reallocate-IsValid {b} n v h k = (
    record {
      storage = a.length-realloc b.buffer n;
      within = omega arith;
      positive = omega arith;
      representable = k;
    },
    a.take-realloc b.buffer n b.bytes_used (omega arith) (omega arith),
  )

  loop-Grown :
      (rounds : ℕ) (b : Buffer) (size : ℕ)
      → IsValid b
      → b.bytes_used + size ≤ 2 ^ 63
      → b.bytes_used + size ≤ b.buffer_size * 2 ^ rounds
      → (b' : Buffer) × (reallocate_to_new_size a (suc rounds) b size ≡ some b') × Grown b size b'
  unfolding reallocate_to_new_size
  loop-Grown zero b size v h k =
      elim (Bool-cases (ltb (sub_size b.buffer_size b.bytes_used) size)) [
        | inl more ↦ absurd (omega (arith, ltb→lt _ _ more))
        | inr done ↦ (
          b,
          rw done refl,
          record { valid = v; room = omega (arith, ltb→le _ _ done); used = refl; kept = refl },
        )
      ]
  loop-Grown (suc rounds) b size v h k =
      elim (Bool-cases (ltb (sub_size b.buffer_size b.bytes_used) size)) [
        | inr done ↦ (
          b,
          rw done refl,
          record { valid = v; room = omega (arith, ltb→le _ _ done); used = refl; kept = refl },
        )
        | inl more ↦
            let n = double_size b.buffer_size in
            let twice : n ≡ 2 * b.buffer_size = omega (arith, ltb→lt _ _ more) in
            let (v', same) = reallocate-IsValid n v (omega arith) (omega arith) in
            let enough : b.bytes_used + size ≤ n * 2 ^ rounds =
              omega
                (arith, ap (λ (t : ℕ). t * 2 ^ rounds) twice, double_step b.buffer_size rounds) in
            let (b', e, g) = loop-Grown rounds (reallocate a b n) size v' h enough in
            (
              b',
              rw more e,
              record { valid = g.valid; room = g.room; used = g.used; kept = g.kept ∙ same },
            )
      ]

  -- Within 64 rounds the loop has made room for every size up to half the address space.
  pub reallocate_to_new_size-Grown :
      (b : Buffer) (size : ℕ)
      → IsValid b
      → b.bytes_used + size ≤ 2 ^ 63
      → (b' : Buffer) × (reallocate_to_new_size a realloc_rounds b size ≡ some b') × Grown b size b'
  reallocate_to_new_size-Grown b size v h = loop-Grown 63 b size v h (omega arith)

  pub write_lem :
      (b : Buffer) (bytes : List ℕ)
      → IsValid b
      → b.bytes_used + length bytes ≤ 2 ^ 63
      → (b' : Buffer) × (write a b bytes ≡ some b')
        × IsValid b'
        × (contents b' ≡ contents b ++ bytes)
        × (b'.bytes_used ≡ b.bytes_used + length bytes)
  unfolding write
  write_lem b bytes v h =
      let (g, e, w) = reallocate_to_new_size-Grown b (length bytes) v h in
      let fits : g.bytes_used + length bytes ≤ length g.buffer =
        omega (arith, w.used, w.room, w.valid.storage) in
      (
        record g {
          buffer = memcpy g.buffer g.bytes_used bytes;
          bytes_used = g.bytes_used + length bytes;
        },
        rw e,
        record {
          storage = length-memcpy g.buffer g.bytes_used bytes ∙ w.valid.storage;
          within = omega (arith, w.used, w.room);
          positive = w.valid.positive;
          representable = w.valid.representable;
        },
        take-memcpy g.buffer g.bytes_used bytes fits ∙ ap (λ r. r ++ bytes) w.kept,
        omega (arith, w.used),
      )

  -- Filling is writing that many copies of the byte.
  pub set_lem :
      (b : Buffer) (value size : ℕ) → set a b value size ≡ write a b (replicate size value)
  unfolding set write
  set_lem b value size = rw (length-replicate size value) (
      ap (◌>>=◌ (reallocate_to_new_size a realloc_rounds b size)) (fun_ext λ g. ap some (filled g)))
    where
      filled :
          (g : Buffer)
          → record g {
            buffer = memset g.buffer g.bytes_used value size;
            bytes_used = g.bytes_used + size;
          }
            ≡ record g {
              buffer = memcpy g.buffer g.bytes_used (replicate size value);
              bytes_used = g.bytes_used + size;
            }
      filled g = rw memset-memcpy

  pub alloc-IsValid : IsValid (alloc a) × (contents (alloc a) ≡ [])
  unfolding alloc
  alloc-IsValid = (
    record {
      storage = a.length-realloc [] 65536;
      within = omega arith;
      positive = omega arith;
      representable = omega arith;
    },
    refl,
  )
