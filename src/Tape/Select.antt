-- ===== src/Tape/Select.antt =====
-- The list of blocks of a tape and the block that is played: how a tape is made and wound.
use libspectrum.Base.{ℕ, ◌+◌, ltb, Bool, true, false, not, if◌then◌else◌, length, get_elem?}
use libspectrum.Base.{List, [], ◌∷◌, ◌++◌, Option, none, some, corrupt, Result, ok, err}
use libspectrum.Base.Partial.{◌>>=◌}
use libspectrum.Tape.Next.{Block, States, Tape, block_init, init_current}

-- A tape without blocks; the states are those of memory that nobody has set.
unfoldable pub tape_alloc : ℕ → States → Tape
tape_alloc loop_count states = record {
  blocks = [];
  current_block = none;
  loop_block = none;
  loop_count = loop_count;
  states = states;
}

unfoldable pub tape_clear : Tape → Tape
tape_clear t = record t { blocks = []; current_block = none }

unfoldable pub tape_present : Tape → Bool
tape_present t = not (elim t.blocks [ [] ↦ true | _ ∷ _ ↦ false ])

abbrev pub first_block : List Block → Option ℕ
first_block blocks = if ltb 0 (length blocks) then some 0 else none

-- `none` is NULL.
unfoldable pub current_block : Tape → Option Block
current_block t = t.current_block >>= get_elem? t.blocks

-- The block behind the current one, or the first.
unfoldable pub peek_next_block : Tape → Option Block
peek_next_block t = t.current_block >>= λ n. elim (get_elem? t.blocks (n + 1)) [
  | some b ↦ some b
  | none ↦ get_elem? t.blocks 0
]

-- The outer `none` is undefined behaviour; on an error the tape is not returned.
unfoldable pub nth_block : ℕ → Tape → Option (Result Tape)
unfolding init_current
nth_block n t = elim (get_elem? t.blocks n) [
  | none ↦ some (err corrupt)
  | some b ↦ init_current (record t { current_block = some n })
]

-- `none` is an undefined initialisation, and `some (none, ..)` the NULL that is returned without a
-- current block, or for one that cannot be initialised, with the states as they were.
unfoldable pub select_next_block : Tape → Option (Option Block × Tape)
unfolding block_init
select_next_block t = elim t.current_block [
  | none ↦ some (none, t)
  | some n ↦
      let next = if ltb (n + 1) (length t.blocks) then some (n + 1) else first_block t.blocks in
      let t' = record t { current_block = next } in
      elim (next >>= get_elem? t.blocks) [
        | none ↦ some (none, t')
        | some b ↦ block_init b t.states >>= λ r. elim r [
          | ok s ↦ some (some b, record t' { states = s })
          | err e ↦ some (none, t')
        ]
      ]
]

-- A block is put behind the others; the first block of a tape without a current one becomes it, and
-- an error of its initialisation is not seen.
unfoldable pub append_block : Tape → Block → Option Tape
unfolding block_init
append_block t b =
    let blocks = t.blocks ++ (b ∷ []) in
    elim t.current_block [
      | some n ↦ some (record t { blocks = blocks })
      | none ↦ elim (get_elem? blocks 0) [
        | none ↦ none
        | some b' ↦ block_init b' t.states >>= λ r. elim r [
          | ok s ↦ some (record t { blocks = blocks; current_block = some 0; states = s })
          | err e ↦ some (record t { blocks = blocks; current_block = some 0 })
        ]
      ]
    ]

-- A tape from a list of blocks.
unfoldable pub append_blocks : Tape → List Block → Option Tape
unfolding append_block
append_blocks t [] = some t
append_blocks t (b ∷ bs) = append_block t b >>= λ t'. append_blocks t' bs
