-- ===== src/Rzx/Record.antt =====
-- Recording: the frames that are stored stand for the bytes that were given, also where a frame
-- only says that it repeats the last one.
use mathlib.Core.Path.{subst}
use libspectrum.Base.{
  map, ℕ, ◌+◌, ◌*◌, ◌<◌, ◌≡◌, refl, ap, ap₂, ◌∙◌, sym, arith, Bool, true, false, not,
}
use libspectrum.Base.{◌==◌, ==→eq, ltb, leb, ◌&&◌, if◌then◌else◌, Bool-cases, inl, inr, some}
use libspectrum.Base.{
  List, [], ◌∷◌, ◌++◌, length, get_or, length-append, Result, ok, ◌>>=◌, append-nil, append_assoc,
}
use libspectrum.Base.Regions.{get_or-append, get_or-append_left}
use libspectrum.Rzx.{Frame, Input, new_input, unset, same_bytes, new_frame, store_frame}

-- What a frame shows behind one that showed `last`.
abbrev pub shown : Frame → List ℕ → List ℕ
shown f last = if f.repeat_last then last else f.in_bytes

abbrev pub decode : List Frame → List ℕ → List (List ℕ)
decode [] last = []
decode (f ∷ fs) last = shown f last ∷ decode fs (shown f last)

abbrev pub final : List Frame → List ℕ → List ℕ
final [] last = last
final (f ∷ fs) last = final fs (shown f last)

decode-append :
    (fs : List Frame) (g : Frame) (last : List ℕ)
    → decode (fs ++ (g ∷ [])) last ≡ decode fs last ++ (shown g (final fs last) ∷ [])
decode-append [] g last = refl
decode-append (f ∷ fs) g last = ap (λ r. shown f last ∷ r) (decode-append fs g (shown f last))

final-append :
    (fs : List Frame) (g : Frame) (last : List ℕ)
    → final (fs ++ (g ∷ [])) last ≡ shown g (final fs last)
final-append [] g last = refl
final-append (f ∷ fs) g last = final-append fs g (shown f last)

same_bytes→eq : (xs ys : List ℕ) → same_bytes xs ys ≡ true → xs ≡ ys
same_bytes→eq [] [] h = refl
same_bytes→eq [] (y ∷ ys) h = absurd (ground arith)
same_bytes→eq (x ∷ xs) [] h = absurd (ground arith)
same_bytes→eq (x ∷ xs) (y ∷ ys) h = elim (Bool-cases (x == y)) [
  | inl e ↦ ap₂ (λ a l. a ∷ l) (==→eq x y e) (same_bytes→eq xs ys (ground arith))
  | inr e ↦ absurd (ground arith)
]

-- The frames of an input block stand for what was recorded, and the last frame with bytes of its
-- own is known.
pub record Tracks (input : Input) (recorded : List (List ℕ)) : Type 0 where
  pub stands_for : decode input.frames [] ≡ recorded
  pub last_own : (get_or input.frames input.non_repeat unset).in_bytes ≡ final input.frames []
  pub first_own : (get_or input.frames 0 unset).repeat_last ≡ false
  pub inside : (length input.frames == 0) ≡ false → input.non_repeat < length input.frames

pub new_input-Tracks : (tstates : ℕ) → Tracks (new_input tstates) []
unfolding new_input
new_input-Tracks tstates = record {
  stands_for = refl;
  last_own = refl;
  first_own = refl;
  inside = λ e. absurd (ground arith);
}

first_kept :
    (fs : List Frame) (g : Frame)
    → (get_or fs 0 unset).repeat_last ≡ false
    → (g.repeat_last ≡ true → (length fs == 0) ≡ false)
    → (get_or (fs ++ (g ∷ [])) 0 unset).repeat_last ≡ false
first_kept (f ∷ fs) g h k = h
first_kept [] g h k = elim (Bool-cases g.repeat_last) [
  | inl again ↦ absurd (let e : true ≡ false = k again in ground arith)
  | inr own ↦ own
]

-- A frame that is put behind the others, where a first one does not repeat.
append-Tracks :
    (input : Input) (n : ℕ) (again : Bool) (own : List ℕ) (recorded : List (List ℕ)) (allocated : ℕ)
    → Tracks input recorded
    → (again ≡ true → (length input.frames == 0) ≡ false)
    → let g : Frame = record { instructions = n; repeat_last = again; in_bytes = own } in
      Tracks
        (record input {
          frames = input.frames ++ (g ∷ []);
          allocated = allocated;
          non_repeat = if again then input.non_repeat else length input.frames;
        })
        (recorded ++ (shown g (final input.frames []) ∷ []))
append-Tracks input n true own recorded allocated t h =
    let g : Frame = record { instructions = n; repeat_last = true; in_bytes = own } in
    let i = t.inside (h refl) in
    record {
      stands_for =
          decode-append input.frames g []
          ∙ ap (λ l. l ++ (final input.frames [] ∷ [])) t.stands_for;
      last_own =
          ap (λ f. f.in_bytes) (get_or-append_left input.frames (g ∷ []) input.non_repeat unset i)
          ∙ t.last_own
          ∙ sym (final-append input.frames g []);
      first_own = first_kept input.frames g t.first_own h;
      inside = λ _. omega (arith, length-append input.frames (g ∷ []));
    }
append-Tracks input n false own recorded allocated t h =
    let g : Frame = record { instructions = n; repeat_last = false; in_bytes = own } in
    let end : length input.frames ≡ length input.frames + 0 = omega arith in
    record {
      stands_for = decode-append input.frames g [] ∙ ap (λ l. l ++ (own ∷ [])) t.stands_for;
      last_own =
          ap (λ k. (get_or (input.frames ++ (g ∷ [])) k unset).in_bytes) end
          ∙ ap (λ f. f.in_bytes)
              (get_or-append (length input.frames) input.frames (g ∷ []) 0 unset refl)
          ∙ sym (final-append input.frames g []);
      first_own = first_kept input.frames g t.first_own h;
      inside = λ _. omega (arith, length-append input.frames (g ∷ []));
    }

module _ (renew : ℕ → Bool) where
  -- A frame shows the bytes that it was made of.
  shown-new_frame :
      (input : Input) (n : ℕ) (bytes : List ℕ) (recorded : List (List ℕ))
      → Tracks input recorded
      → shown (new_frame renew input n bytes) (final input.frames []) ≡ bytes
  unfolding new_frame
  shown-new_frame input n bytes recorded t =
      let last = get_or input.frames input.non_repeat unset in
      let test =
        not (length input.frames == 0)
        && (not (length bytes == 0) && same_bytes bytes last.in_bytes) in
      elim (Bool-cases test) [
        | inl again ↦
            rw again (sym t.last_own ∙ sym (same_bytes→eq bytes last.in_bytes (ground arith)))
        | inr own ↦ rw own
      ]

  new_frame_repeats :
      (input : Input) (n : ℕ) (bytes : List ℕ)
      → (new_frame renew input n bytes).repeat_last ≡ true
      → (length input.frames == 0) ≡ false
  unfolding new_frame
  new_frame_repeats input n bytes h = ground arith

  -- The block after a frame was stored, with whatever room.
  abbrev stored : Input → ℕ → List ℕ → ℕ → Input
  stored input n bytes allocated =
      let g = new_frame renew input n bytes in
      record input {
        frames = input.frames ++ (g ∷ []);
        allocated = allocated;
        non_repeat = if g.repeat_last then input.non_repeat else length input.frames;
      }

  store_frame-stored :
      (input : Input) (n : ℕ) (bytes : List ℕ)
      → ((k : ℕ) → renew k ≡ true)
      → (allocated : ℕ) × (store_frame renew (some input) n bytes
          ≡ ok (stored input n bytes allocated))
  unfolding store_frame
  store_frame-stored input n bytes h = elim (Bool-cases (input.allocated == length input.frames)) [
    | inr room ↦ (input.allocated, rw room)
    | inl full ↦
        let doubled = if leb 25 input.allocated then 2 * input.allocated else 50 in
        let size =
          if ltb doubled (length input.frames + 1) then length input.frames + 1 else doubled in
        let more : ltb input.allocated (length input.frames + 1) ≡ true = ground arith in
        (size, rw (full, more, h size))
  ]

  stored-Tracks :
      (input : Input) (n : ℕ) (bytes : List ℕ) (recorded : List (List ℕ)) (allocated : ℕ)
      → Tracks input recorded
      → Tracks (stored input n bytes allocated) (recorded ++ (bytes ∷ []))
  stored-Tracks input n bytes recorded allocated t =
      let g = new_frame renew input n bytes in
      subst (λ b. Tracks (stored input n bytes allocated) (recorded ++ (b ∷ [])))
        (shown-new_frame input n bytes recorded t)
        (append-Tracks input g.instructions g.repeat_last g.in_bytes recorded allocated t
          (new_frame_repeats input n bytes))

  unfoldable pub record_all : Input → List (ℕ × List ℕ) → Result Input
  unfolding store_frame
  record_all input [] = ok input
  record_all input ((n, bytes) ∷ rest) = do
    input' ← store_frame renew (some input) n bytes
    record_all input' rest

  -- Where memory is given, and the frames of an input block stand for what was recorded before,
  -- recording succeeds for every sequence of frames, and the frames then stand for the bytes of
  -- each behind those recorded before.
  pub record_all_lem :
      (input : Input) (recorded : List (List ℕ)) (given : List (ℕ × List ℕ))
      → ((k : ℕ) → renew k ≡ true)
      → Tracks input recorded
      → (input' : Input) × (record_all input given ≡ ok input')
        × Tracks input' (recorded ++ map (λ x. x.1) given)
  unfolding record_all
  record_all_lem input recorded [] h t =
      (input, refl, subst (Tracks input) (sym (append-nil recorded)) t)
  record_all_lem input recorded ((n, bytes) ∷ given) h t =
      let (allocated, e) = store_frame-stored input n bytes h in
      let next = stored input n bytes allocated in
      let (input', e', t') =
        record_all_lem next (recorded ++ (bytes ∷ [])) given h
          (stored-Tracks input n bytes recorded allocated t) in
      (
        input',
        ap (λ r. r >>= λ i. record_all i given) e ∙ e',
        subst (Tracks input') (append_assoc recorded (bytes ∷ []) (map (λ x. x.1) given)) t',
      )
