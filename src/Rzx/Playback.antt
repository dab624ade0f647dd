-- ===== src/Rzx/Playback.antt =====
-- Playback: the INs of a frame give the bytes that the frame stands for.
use mathlib.Core.Path.{subst}
use libspectrum.Base.{
  ℕ, zero, suc, ◌+◌, ◌≤◌, ◌<◌, ◌≡◌, refl, ap, ap₂, ◌∙◌, sym, arith, Bool, true, false,
}
use libspectrum.Base.{◌==◌, eq→==, leb, if◌then◌else◌, Option, none, some, map, append_assoc}
use libspectrum.Base.{
  List, [], ◌∷◌, ◌++◌, length, get_or, take, drop, take_all, take-drop-suc, length-append,
}
use libspectrum.Base.{Result, ok, ◌>>=◌}
use libspectrum.Base.Regions.{get_or-append}
use libspectrum.Rzx.{new_input, start_playback, snapshot_block, input_block}
use libspectrum.Rzx.{
  Frame, Input, Block, Player, unset, play_input, next_input, playback, playback_frame,
}
use libspectrum.Rzx.Record.{shown, decode, record_all, record_all_lem, new_input-Tracks}

chosen :
    (b : Bool) (d g : Frame)
    → (if b then d else g).in_bytes ≡ (if b then d.in_bytes else g.in_bytes)
chosen true d g = refl
chosen false d g = refl

-- The frame that the data are taken from shows what the next frame stands for.
shown_next : (g d : Frame) → (if g.repeat_last then d else g).in_bytes ≡ shown g d.in_bytes
shown_next g d = chosen g.repeat_last d g

module _ {Snap : Type 0} where
  -- So many INs in a row.
  unfoldable pub read_ins : ℕ → Player Snap → Result (List ℕ × Player Snap)
  read_ins zero rzx = ok ([], rzx)
  read_ins (suc k) rzx = do
    (b, rzx') ← playback rzx
    (bytes, rzx'') ← read_ins k rzx'
    ok (b ∷ bytes, rzx'')

  -- Frames with the numbers of INs in each, as the emulated program makes them.
  unfoldable pub replay : List ℕ → Player Snap → Result (List (List ℕ))
  unfolding read_ins
  replay [] rzx = ok []
  replay (k ∷ ks) rzx = do
    (bytes, rzx') ← read_ins k rzx
    (finished, snap, rzx'') ← playback_frame rzx'
    rest ← replay ks rzx''
    ok (bytes ∷ rest)

  read_ins_lem :
      (k i : ℕ) (rzx : Player Snap)
      → i + k ≤ length rzx.data_frame.in_bytes
      → read_ins k (record rzx { in_count = i })
        ≡ ok (take k (drop i rzx.data_frame.in_bytes), record rzx { in_count = i + k })
  unfolding read_ins playback
  read_ins_lem zero i rzx h =
      ap (λ n. ok ([], record rzx { in_count = n })) {x = i} {y = i + 0} (omega arith)
  read_ins_lem (suc k) i rzx h =
      let bytes = rzx.data_frame.in_bytes in
      let inside : leb (length bytes) i ≡ false = ground arith in
      let e : i + 1 ≡ suc i = omega arith in
      let n : suc i + k ≡ i + suc k = omega arith in
      rw (inside, e, read_ins_lem k (suc i) rzx (omega arith), n)
        (ap (λ l. ok (l, record rzx { in_count = i + suc k }))
          (sym (take-drop-suc k i bytes 0 (omega arith))))

  -- A player in the middle of an input block, at the start of a frame.
  abbrev player : List (Block Snap) → List Frame → ℕ → Frame → Player Snap
  player later frames current data_frame = record {
    later = later;
    frames = frames;
    current_frame = current;
    data_frame = data_frame;
    in_count = 0;
  }

  -- The bytes of the frame are read, and leave the player at its end.
  read_frame :
      (later : List (Block Snap)) (frames : List Frame) (current : ℕ) (d : Frame)
      → read_ins (length d.in_bytes) (player later frames current d)
        ≡ ok (d.in_bytes, record (player later frames current d) { in_count = length d.in_bytes })
  read_frame later frames current d =
      let p = player later frames current d in
      let k = length d.in_bytes in
      let e : 0 + k ≡ k = omega arith in
      read_ins_lem k 0 p (omega arith)
      ∙ ap₂ (λ l n. ok (l, record p { in_count = n })) (take_all k d.in_bytes (omega arith)) e

  abbrev at_end :
      List (Block Snap)
      → Player Snap
      → Option (Input × List (Block Snap))
      → Result (Bool × Option Snap × Player Snap)
  at_end later rzx (some (i, it)) = ok (false, (next_input none later).0, play_input i it)
  at_end later rzx none = ok (true, (next_input none later).0, rzx)

  at_end-ok :
      (later : List (Block Snap)) (rzx : Player Snap) (o : Option (Input × List (Block Snap)))
      → (r : Bool × Option Snap × Player Snap) × (at_end later rzx o ≡ ok r)
  at_end-ok later rzx (some (i, it)) = ((false, (next_input none later).0, play_input i it), refl)
  at_end-ok later rzx none = ((true, (next_input none later).0, rzx), refl)

  -- The end of the last frame, whatever block follows.
  frame_last :
      (later : List (Block Snap)) (frames : List Frame) (current : ℕ) (d : Frame)
      → length frames ≡ current + 1
      → (r : Bool × Option Snap × Player Snap) × (playback_frame
            (record (player later frames current d) { in_count = length d.in_bytes })
          ≡ ok r)
  unfolding playback_frame
  frame_last later frames current d h =
      let n : (length d.in_bytes == length d.in_bytes) ≡ true = eq→== _ _ refl in
      let end : leb (length frames) (current + 1) ≡ true = ground arith in
      let rzx = record (player later frames (current + 1) d) { in_count = length d.in_bytes } in
      let (r, e) = at_end-ok later rzx (next_input none later).1 in (r, rw (n, end) e)

  -- The end of a frame that others follow.
  frame_next :
      (later : List (Block Snap)) (frames : List Frame) (current : ℕ) (d : Frame)
      → current + 1 < length frames
      → let g = get_or frames (current + 1) unset in
        playback_frame (record (player later frames current d) { in_count = length d.in_bytes })
        ≡ ok (false, none, player later frames (current + 1) (if g.repeat_last then d else g))
  unfolding playback_frame
  frame_next later frames current d h =
      let n : (length d.in_bytes == length d.in_bytes) ≡ true = eq→== _ _ refl in
      let more : leb (length frames) (current + 1) ≡ false = ground arith in rw (n, more)

  -- From the start of a frame on, the frames that follow in its block are played.
  replay_from :
      (later : List (Block Snap)) (pre fs : List Frame) (f d : Frame)
      → let left = d.in_bytes ∷ decode fs d.in_bytes in
        replay (map length left) (player later (pre ++ (f ∷ fs)) (length pre) d) ≡ ok left
  unfolding replay
  replay_from later pre [] f d =
      let frames = pre ++ (f ∷ []) in
      let (r, e) = frame_last later frames (length pre) d (length-append pre (f ∷ [])) in
      rw (read_frame later frames (length pre) d) (rw e)
  replay_from later pre (g ∷ fs) f d =
      let frames = pre ++ (f ∷ g ∷ fs) in
      let size = length-append pre (f ∷ g ∷ fs) in
      let next = frame_next later frames (length pre) d (omega arith) in
      let found = get_or-append (length pre) pre (f ∷ g ∷ fs) 1 unset refl in
      let d' = if g.repeat_last then d else g in
      let moved =
        next
        ∙ ap
            (λ h.
              ok (
                false,
                none,
                player later frames (length pre + 1) (if h.repeat_last then d else h),
              ))
            found in
      let p = player later frames (length pre + 1) d' in
      let from = replay_from later (pre ++ (f ∷ [])) fs g d' in
      let place =
        ap₂ (λ l n. player later l n d') (append_assoc pre (f ∷ []) (g ∷ fs))
          (length-append pre (f ∷ [])) in
      let rest : replay (map length (decode (g ∷ fs) d.in_bytes)) p
          ≡ ok (decode (g ∷ fs) d.in_bytes) =
        subst (λ c. replay (map length (c ∷ decode fs c)) p ≡ ok (c ∷ decode fs c)) (shown_next g d)
          (ap (replay (map length (d'.in_bytes ∷ decode fs d'.in_bytes))) (sym place) ∙ from) in
      rw (read_frame later frames (length pre) d) (rw moved (rw rest))

  replay_decoded :
      (later : List (Block Snap)) (frames : List Frame) (l : List ℕ) (ls : List (List ℕ))
      → decode frames [] ≡ l ∷ ls
      → (get_or frames 0 unset).repeat_last ≡ false
      → replay (map length (l ∷ ls)) (player later frames 0 (get_or frames 0 unset)) ≡ ok (l ∷ ls)
  replay_decoded later [] l ls h k = absurd (cc h)
  replay_decoded later (f ∷ fs) l ls h k =
      let own : shown f [] ≡ f.in_bytes = ap (λ b. if b then [] else f.in_bytes) k in
      let all : f.in_bytes ∷ decode fs f.in_bytes ≡ l ∷ ls =
        ap (λ c. c ∷ decode fs c) (sym own) ∙ h in
      subst (λ s. replay (map length s) (player later (f ∷ fs) 0 f) ≡ ok s) all
        (replay_from later [] fs f f)

  -- Where memory is given, any sequence of frames but the empty one that is recorded into a new
  -- input block is played back without an error: with the snapshot before the block, and with as
  -- many INs in each frame as were recorded, they give the bytes recorded, whether frames repeat or
  -- not.
  pub replay-record_all :
      (renew : ℕ → Bool) (tstates n : ℕ) (bytes : List ℕ) (given : List (ℕ × List ℕ)) (s : Snap)
      (later : List (Block Snap))
      → ((k : ℕ) → renew k ≡ true)
      → let recorded = bytes ∷ map (λ x. x.1) given in
        (input : Input) × (record_all renew (new_input tstates) ((n, bytes) ∷ given) ≡ ok input)
        × (rzx : Player Snap) × (start_playback 0 none
              (snapshot_block s ∷ input_block input ∷ later)
            ≡ ok (some s, rzx))
        × (replay (map length recorded) rzx ≡ ok recorded)
  unfolding start_playback
  replay-record_all renew tstates n bytes given s later h =
      let (input, e, t) =
        record_all_lem renew (new_input tstates) [] ((n, bytes) ∷ given) h
          (new_input-Tracks tstates) in
      (
        input,
        e,
        player later input.frames 0 (get_or input.frames 0 unset),
        refl,
        replay_decoded later input.frames bytes (map (λ x. x.1) given) t.stands_for t.first_own,
      )
