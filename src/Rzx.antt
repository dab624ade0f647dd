-- ===== src/Rzx.antt =====
-- rzx.c: the frames of an input recording, how they are recorded, and how they are played back.
pub mod Record
pub mod Playback
mod Runs
use libspectrum.Base.{
  ℕ, zero, suc, ◌+◌, ◌*◌, ◌==◌, ltb, leb, Bool, true, false, not, ◌&&◌, if◌then◌else◌,
}
use libspectrum.Base.{List, [], ◌∷◌, ◌++◌, Option, none, some, length, get_or}
use libspectrum.Base.{Error, memory, corrupt, invalid, Result, ok, err, ◌>>=◌}

-- The field `count` of the source is the length of `in_bytes`.
pub record Frame : Type 0 where
  pub instructions : ℕ
  pub repeat_last : Bool
  pub in_bytes : List ℕ

-- The frames in use: `count` of the source is their number, and `allocated` the size of the array.
pub record Input : Type 0 where
  pub frames : List Frame
  pub allocated : ℕ
  pub tstates : ℕ
  pub non_repeat : ℕ

-- The input block that `libspectrum_rzx_start_input` puts behind the others.
unfoldable pub new_input : ℕ → Input
new_input tstates = record { frames = []; allocated = 0; tstates = tstates; non_repeat = 0 }

-- What an array gives at an index that was never stored.
abbrev pub unset : Frame
unset = record { instructions = 0; repeat_last = false; in_bytes = [] }

abbrev pub same_bytes : List ℕ → List ℕ → Bool
same_bytes [] [] = true
same_bytes (a ∷ xs) (b ∷ ys) = a == b && same_bytes xs ys
same_bytes [] (b ∷ ys) = false
same_bytes (a ∷ xs) [] = false

-- `renew` says whether `libspectrum_renew` gives memory for so many frames.
module _ (renew : ℕ → Bool) where
  unfoldable pub input_block_resize : Input → ℕ → Result Input
  input_block_resize input new_count =
      let doubled = if leb 25 input.allocated then 2 * input.allocated else 50 in
      let new_allocated = if ltb doubled new_count then new_count else doubled in
      if ltb input.allocated new_count
      then if renew new_allocated
        then ok (record input { allocated = new_allocated })
        else err memory
      else ok input

  -- The frame that is stored behind those of `input`.
  unfoldable pub new_frame : Input → ℕ → List ℕ → Frame
  new_frame input instructions in_bytes =
      let last = get_or input.frames input.non_repeat unset in
      if not (length input.frames == 0)
        && (not (length in_bytes == 0) && same_bytes in_bytes last.in_bytes)
      then record { instructions = instructions; repeat_last = true; in_bytes = [] }
      else record { instructions = instructions; repeat_last = false; in_bytes = in_bytes }

  -- `none` is a recording without an active input block.
  unfoldable pub store_frame : Option Input → ℕ → List ℕ → Result Input
  unfolding input_block_resize new_frame
  store_frame none instructions in_bytes = err invalid
  store_frame (some input) instructions in_bytes = do
    input' ←
        if input.allocated == length input.frames
        then input_block_resize input (length input.frames + 1)
        else ok input
    ok (record input' {
      frames = input'.frames ++ (new_frame input' instructions in_bytes ∷ []);
      non_repeat =
          if (new_frame input' instructions in_bytes).repeat_last
          then input'.non_repeat
          else length input'.frames;
    })

module _ (Snap : Type 0) where
  -- The blocks of a recording: other blocks are those that playback passes over.
  pub data Block : Type 0 where
    input_block : Input → Block
    snapshot_block : Snap → Block
    other_block : Block

  -- The playback variables: the blocks behind the current one, and the frame that `data_frame`
  -- points to, as playback does not change the frames.
  pub record Player : Type 0 where
    pub later : List Block
    pub frames : List Frame
    pub current_frame : ℕ
    pub data_frame : Frame
    pub in_count : ℕ

module _ {Snap : Type 0} where
  unfoldable pub play_input : Input → List (Block Snap) → Player Snap
  play_input input later = record {
    later = later;
    frames = input.frames;
    current_frame = 0;
    data_frame = get_or input.frames 0 unset;
    in_count = 0;
  }

  abbrev pub snapshot_of : Option (Block Snap) → Option Snap
  snapshot_of (some (snapshot_block s)) = some s
  snapshot_of b = none

  -- The input block number `which`, with the snapshot that stands just before it.
  unfoldable pub start_playback :
      ℕ → Option (Block Snap) → List (Block Snap) → Result (Option Snap × Player Snap)
  unfolding play_input
  start_playback which previous [] = err invalid
  start_playback zero previous (input_block i ∷ list) = ok (snapshot_of previous, play_input i list)
  start_playback (suc which) previous (input_block i ∷ list) =
      start_playback which (some (input_block i)) list
  start_playback which previous (snapshot_block s ∷ list) =
      start_playback which (some (snapshot_block s)) list
  start_playback which previous (other_block ∷ list) = start_playback which (some other_block) list

  -- The next input block, and the last snapshot before it.
  unfoldable pub next_input :
      Option Snap → List (Block Snap) → Option Snap × Option (Input × List (Block Snap))
  next_input snap [] = (snap, none)
  next_input snap (input_block i ∷ it) = (snap, some (i, it))
  next_input snap (snapshot_block s ∷ it) = next_input (some s) it
  next_input snap (other_block ∷ it) = next_input snap it

  -- Whether the recording is finished, the snapshot to be loaded, and the player.
  unfoldable pub playback_frame : Player Snap → Result (Bool × Option Snap × Player Snap)
  unfolding next_input play_input
  playback_frame rzx =
      let next = rzx.current_frame + 1 in
      let frame = get_or rzx.frames next unset in
      let (snap, found) = next_input none rzx.later in
      let moved = record rzx { current_frame = next } in
      if not (rzx.in_count == length rzx.data_frame.in_bytes)
      then err corrupt
      else if leb (length rzx.frames) next
      then elim found [
        | some (i, it) ↦ ok (false, snap, play_input i it)
        | none ↦ ok (true, snap, moved)
      ]
      else ok (
        false,
        none,
        record moved {
          data_frame = if frame.repeat_last then rzx.data_frame else frame;
          in_count = 0;
        },
      )

  unfoldable pub playback : Player Snap → Result (ℕ × Player Snap)
  playback rzx =
      if leb (length rzx.data_frame.in_bytes) rzx.in_count
      then err corrupt
      else ok (
        get_or rzx.data_frame.in_bytes rzx.in_count 0,
        record rzx { in_count = rzx.in_count + 1 },
      )
