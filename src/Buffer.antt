-- ===== src/Buffer.antt =====
-- buffer.c: the self-inflating buffer that every writer of the library fills.
-- A block of memory is the list of its bytes. The C library's `realloc` is a parameter with what
-- its documentation promises; a failed allocation ends the process and is not modelled.
pub mod Laws
pub mod Refine
mod Runs
use libspectrum.Base.{ℕ, zero, suc, ◌+◌, ◌-◌, ◌*◌, ◌%◌, ◌^◌, ◌≤◌, ◌≡◌, Bool, true, false}
use libspectrum.Base.{
  ltb, leb, ◌==◌, if◌then◌else◌, List, [], ◌∷◌, Option, none, some, take, length,
}
use libspectrum.Base.Partial.{◌>>=◌}
use libspectrum.Base.Memory.{memcpy, memset}
use libspectrum.Bytes.{write_word, write_dword, make_room, add_size, double_size}

-- `realloc` returns a block of the size asked for that begins as the old one did. The rest of the
-- new block is whatever the C library puts there.
pub record Allocator : Type 0 where
  pub realloc : List ℕ → ℕ → List ℕ
  pub length-realloc : (xs : List ℕ) (n : ℕ) → length (realloc xs n) ≡ n
  pub take-realloc :
      (xs : List ℕ) (n k : ℕ) → k ≤ n → k ≤ length xs → take k (realloc xs n) ≡ take k xs

pub record Buffer : Type 0 where
  pub buffer : List ℕ
  pub buffer_size : ℕ
  pub bytes_used : ℕ

-- Subtraction of `size_t`.
abbrev pub sub_size : ℕ → ℕ → ℕ
sub_size a b = (a + 2 ^ 64 - b) % 2 ^ 64

-- 64 rounds double a buffer of one byte beyond every size that a buffer can need.
abbrev pub realloc_rounds : ℕ
realloc_rounds = 64

unfoldable pub is_empty : Buffer → Bool
is_empty b = b.bytes_used == 0

unfoldable pub is_not_empty : Buffer → Bool
is_not_empty b = ltb 0 b.bytes_used

-- `NULL` is `none`.
unfoldable pub get_data_size : Option Buffer → ℕ
get_data_size none = 0
get_data_size (some b) = b.bytes_used

unfoldable pub get_data : Option Buffer → Option (List ℕ)
get_data none = none
get_data (some b) = some b.buffer

unfoldable pub clear : Buffer → Buffer
clear b = record b { bytes_used = 0 }

-- A block that a caller of `libspectrum_buffer_append` owns: its bytes, the size that it was
-- allocated with, and the offset of the pointer into it.
pub record Block : Type 0 where
  pub bytes : List ℕ
  pub allocated : ℕ
  pub position : ℕ

module _ (a : Allocator) where
  unfoldable pub reallocate : Buffer → ℕ → Buffer
  reallocate b new_size = record b { buffer = a.realloc b.buffer new_size; buffer_size = new_size }

  unfoldable pub alloc : Buffer
  unfolding reallocate
  alloc = reallocate (record { buffer = []; buffer_size = 0; bytes_used = 0 }) 65536

  -- `none` is a loop that has not ended after so many rounds.
  unfoldable pub reallocate_to_new_size : ℕ → Buffer → ℕ → Option Buffer
  unfolding reallocate
  reallocate_to_new_size zero b size = none
  reallocate_to_new_size (suc rounds) b size =
      let more = reallocate_to_new_size rounds (reallocate b (double_size b.buffer_size)) size in
      if ltb (sub_size b.buffer_size b.bytes_used) size then more else some b

  unfoldable pub write : Buffer → List ℕ → Option Buffer
  write b bytes = do
    b' ← reallocate_to_new_size realloc_rounds b (length bytes)
    some (record b' {
      buffer = memcpy b'.buffer b'.bytes_used bytes;
      bytes_used = b'.bytes_used + length bytes;
    })

  -- The source's `libspectrum_buffer_set`.
  unfoldable pub set : Buffer → ℕ → ℕ → Option Buffer
  set b value size = do
    b' ← reallocate_to_new_size realloc_rounds b size
    some (record b' {
      buffer = memset b'.buffer b'.bytes_used value size;
      bytes_used = b'.bytes_used + size;
    })

  unfoldable pub write_byte : Buffer → ℕ → Option Buffer
  write_byte b value = write b (value ∷ [])

  unfoldable pub buffer_write_word : Buffer → ℕ → Option Buffer
  buffer_write_word b value = write b (write_word value)

  unfoldable pub buffer_write_dword : Buffer → ℕ → Option Buffer
  buffer_write_dword b value = write b (write_dword value)

  unfoldable pub write_buffer : Buffer → Option Buffer → Option Buffer
  write_buffer dest none = some dest
  write_buffer dest (some src) = write dest (take src.bytes_used src.buffer)

  -- `libspectrum_make_room`. Where nothing was allocated there is a new block, and the pointer is
  -- put at its start.
  unfoldable pub block_make_room : Block → ℕ → Block
  unfolding make_room
  block_make_room d requested =
      let size = make_room d.allocated d.position requested in
      if d.allocated == 0
      then record { bytes = a.realloc [] size; allocated = size; position = 0 }
      else if leb (add_size d.position requested) d.allocated
      then d
      else record d { bytes = a.realloc d.bytes size; allocated = size }

  unfoldable pub append : Block → Buffer → Block
  append d src =
      let room = block_make_room d src.bytes_used in
      if src.bytes_used == 0 then d else record room {
        bytes = memcpy room.bytes room.position (take src.bytes_used src.buffer);
        position = room.position + src.bytes_used;
      }
