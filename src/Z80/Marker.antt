-- ===== src/Z80/Marker.antt =====
-- The end marker of version 1 blocks: coded data never contains it, so that `read_v1_block` finds
-- the one that ends the data, and reads back every 48K image.
use libspectrum.Base.{ℕ, zero, suc, ◌+◌, ◌-◌, ◌≤◌, ◌≡◌, refl, ap, ◌∙◌, arith}
use libspectrum.Base.{Bool, true, false, ◌&&◌, ◌||◌, not, leb, ◌==◌, Bool-cases, inl, inr}
use libspectrum.Base.{
  List, [], ◌∷◌, ◌++◌, some, Option, length, length-append, append_assoc, take, drop, take-append,
  drop-append, replicate,
}
use libspectrum.Base.{ok, none, ◌≢◌}
use mathlib.Core.Path.{subst}
use libspectrum.Base.Partial.{◌>>=◌}
use libspectrum.Bytes.{byte}
use libspectrum.Z80.Compress.{run_tail, store_run, compress_loop, compress_block, uncompress_block}
use libspectrum.Z80.RoundTrip.{
  uncompress_block-compress_block, starts_ed, compress_loop-run, compress_loop-single,
}
use libspectrum.Z80.RoundTrip.{run_tail-Run}
use libspectrum.Z80.Pages.{
  Marker, seen0, seen1, seen2, seen3, seen4, marker_step, find_marker, read_v1_block,
}

-- The state after a list, where the search does not stop at the end of a marker.
abbrev pub state_after : Marker → List ℕ → Marker
state_after s [] = s
state_after s (b ∷ l) = state_after (marker_step s b) l

-- States in which a run can start, and those in which a byte other than 0xed can stand.
abbrev is_fresh : Marker → Bool
is_fresh seen0 = true
is_fresh seen1 = true
is_fresh _ = false

abbrev is_open : Marker → Bool
is_open seen3 = false
is_open seen4 = false
is_open _ = true

abbrev Fresh : Marker → Type 0
Fresh s = is_fresh s ≡ true

abbrev pub Open : Marker → Type 0
Open s = is_open s ≡ true

-- The states between two rounds of the coder: after a single 0xed, or not.
abbrev Ready : Bool → Marker → Type 0
Ready true s = Open s
Ready false s = Fresh s

Fresh-Open : (s : Marker) → Fresh s → Open s
Fresh-Open s h = ground arith

Ready-Open : (flag : Bool) (s : Marker) → Ready flag s → Open s
Ready-Open true s h = h
Ready-Open false s h = Fresh-Open s h

Ready-Fresh : (flag : Bool) (s : Marker) → flag ≡ false → Ready flag s → Fresh s
Ready-Fresh true s e h = cc
Ready-Fresh false s e h = h

state_after-append :
    (s : Marker) (l m : List ℕ) → state_after s (l ++ m) ≡ state_after (state_after s l) m
state_after-append s [] m = refl
state_after-append s (b ∷ l) m = state_after-append (marker_step s b) l m

-- A byte other than 0xed leads from every open state to one in which a run can start.
step-Fresh : (s : Marker) (x : ℕ) → (x == 0xed) ≡ false → Open s → Fresh (marker_step s x)
unfolding marker_step
step-Fresh s x h k = ground arith

step-Open : (s : Marker) (x : ℕ) → Fresh s → Open (marker_step s x)
unfolding marker_step
step-Open s x k = ground arith

replicate-Fresh :
    (s : Marker) (n x : ℕ) → (x == 0xed) ≡ false → Fresh s → Fresh (state_after s (replicate n x))
replicate-Fresh s zero x h k = k
replicate-Fresh s (suc n) x h k =
    replicate-Fresh (marker_step s x) n x h (step-Fresh s x h (Fresh-Open s k))

-- The count of a coded run is not 0, so the pair of 0xed before it does not go on to the marker.
coded-Fresh :
    (s : Marker) (n x : ℕ)
    → 2 ≤ n
    → n ≤ 255
    → Fresh s
    → Fresh (state_after s (0xed ∷ 0xed ∷ byte n ∷ x ∷ []))
unfolding marker_step
coded-Fresh s n x h k f = ground arith

store_run-Fresh :
    (s : Marker) (n x : ℕ) → 2 ≤ n → n ≤ 255 → Fresh s → Fresh (state_after s (store_run n x))
unfolding store_run
store_run-Fresh s n x h k f = elim (Bool-cases (leb 5 n || x == 0xed)) [
  | inl long ↦ rw long (coded-Fresh s n x h k f)
  | inr short ↦ rw short (replicate-Fresh s n x (ground arith) f)
]

single-Fresh :
    (flag : Bool) (s : Marker) (x : ℕ)
    → (x == 0xed) ≡ true
    → (flag && x == 0xed) ≡ false
    → Ready flag s
    → Fresh s
single-Fresh true s x e h r = cc
single-Fresh false s x e h r = r

single-Ready :
    (flag : Bool) (s : Marker) (x : ℕ)
    → (flag && x == 0xed) ≡ false
    → Ready flag s
    → Ready (x == 0xed) (marker_step s x)
single-Ready flag s x h r = elim (Bool-cases (x == 0xed)) [
  | inl ed ↦ rw ed (step-Open s x (single-Fresh flag s x ed h r))
  | inr other ↦ rw other (step-Fresh s x other (Ready-Open flag s r))
]

-- What the search does on the coder's output, where there is one.
abbrev OpenOutput : Marker → Option (List ℕ) → Type 0
OpenOutput s none = Unit
OpenOutput s (some out) = Open (state_after s out)

OpenOutput-bind :
    (s : Marker) (l : List ℕ) (m : Option (List ℕ))
    → OpenOutput (state_after s l) m
    → OpenOutput s (m >>= λ out. some (l ++ out))
OpenOutput-bind s l none h = tt
OpenOutput-bind s l (some out) h = rw (state_after-append s l out) h

compress_loop-Open :
    (rounds : ℕ) (src : List ℕ) (flag : Bool) (s : Marker)
    → (flag && starts_ed src) ≡ false
    → Ready flag s
    → OpenOutput s (compress_loop rounds src flag)
compress_loop-Open zero src flag s h r = unfold compress_loop in tt
compress_loop-Open (suc rounds) [] flag s h r = unfold compress_loop in Ready-Open flag s r
compress_loop-Open (suc rounds) (x ∷ []) flag s h r =
    unfold compress_loop in Ready-Open (x == 0xed) (marker_step s x) (single-Ready flag s x h r)
compress_loop-Open (suc rounds) (x ∷ y ∷ rest) flag s h r = elim (Bool-cases (x == y && not flag)) [
  | inl run ↦
      let found = run_tail x 2 rest in
      let t = run_tail-Run x 2 rest (omega arith) in
      let fresh = store_run-Fresh s found.0 x t.longer t.capped (not_flagged run) in
      rw (compress_loop-run rounds x y rest flag run) (
        OpenOutput-bind s (store_run found.0 x) (compress_loop rounds found.1 false) (
          compress_loop-Open rounds found.1 false (state_after s (store_run found.0 x)) refl fresh))
  | inr single ↦ rw (compress_loop-single rounds x y rest flag single) (
      OpenOutput-bind s (x ∷ []) (compress_loop rounds (y ∷ rest) (x == 0xed)) (
        compress_loop-Open rounds (y ∷ rest) (x == 0xed) (marker_step s x) (ground arith)
          (single-Ready flag s x h r)))
]
  where
    not_flagged : (x == y && not flag) ≡ true → Fresh s
    not_flagged e = Ready-Fresh flag s (ground arith) r

compress_block-Open :
    (src out : List ℕ) → compress_block src ≡ some out → Open (state_after seen0 out)
unfolding compress_block
compress_block-Open src out e =
    subst (OpenOutput seen0) e (compress_loop-Open (suc (length src)) src false seen0 refl refl)

find_marker-step :
    (s : Marker) (n b : ℕ) (l : List ℕ)
    → s ≢ seen4
    → find_marker s n (b ∷ l) ≡ find_marker (marker_step s b) (n + 1) l
unfolding find_marker
find_marker-step seen0 n b l h = refl
find_marker-step seen1 n b l h = refl
find_marker-step seen2 n b l h = refl
find_marker-step seen3 n b l h = refl
find_marker-step seen4 n b l h = absurd (h refl)

Open-disjoint : (s : Marker) → Open s → is_open s ≡ false → ⊥
Open-disjoint s h k = cc

-- A marker that has been seen stays seen.
state_after-seen4 : (l : List ℕ) → state_after seen4 l ≡ seen4
unfolding marker_step
state_after-seen4 [] = refl
state_after-seen4 (b ∷ l) = state_after-seen4 l

not_seen4 : (s : Marker) (l : List ℕ) → Open (state_after s l) → s ≢ seen4
not_seen4 s l h e =
    let k : Open (state_after seen4 l) = subst (λ t. Open (state_after t l)) e h in
    let f : Open seen4 = subst Open (state_after-seen4 l) k in cc f

abbrev pub end_marker : List ℕ
end_marker = 0 ∷ 0xed ∷ 0xed ∷ 0 ∷ []

-- The first three bytes of a marker lead from every state to one that is not open.
marker_start : (s : Marker) → is_open (state_after s (0 ∷ 0xed ∷ 0xed ∷ [])) ≡ false
unfolding marker_step
marker_start seen0 = refl
marker_start seen1 = refl
marker_start seen2 = refl
marker_start seen3 = refl
marker_start seen4 = refl

marker_whole : (s : Marker) → state_after s end_marker ≡ seen4
unfolding marker_step
marker_whole seen0 = refl
marker_whole seen1 = refl
marker_whole seen2 = refl
marker_whole seen3 = refl
marker_whole seen4 = refl

-- The output of `compress_block` does not contain the end marker 00 ed ed 00, and does not end in
-- 00 ed ed.
pub compress_block-end_marker :
    (src out front behind : List ℕ)
    → compress_block src ≡ some out
    → (out ≢ front ++ (end_marker ++ behind)) × (out ≢ front ++ (0 ∷ 0xed ∷ 0xed ∷ []))
compress_block-end_marker src out front behind e =
    let outside = compress_block-Open src out e in
    let s = state_after seen0 front in
    (
      λ h.
          let whole = state_after-append seen0 front (end_marker ++ behind) in
          let seen = state_after-append s end_marker behind in
          let last : state_after seen0 out ≡ seen4 =
            ap (state_after seen0) h
            ∙ whole
            ∙ seen
            ∙ ap (λ t. state_after t behind) (marker_whole s)
            ∙ state_after-seen4 behind in
          Open-disjoint seen4 (subst Open last outside) refl,
      λ h.
          let last : state_after seen0 out ≡ state_after s (0 ∷ 0xed ∷ 0xed ∷ []) =
            ap (state_after seen0) h ∙ state_after-append seen0 front (0 ∷ 0xed ∷ 0xed ∷ []) in
          Open-disjoint _ (subst Open last outside) (marker_start s),
    )

find_marker-end :
    (s : Marker) (n : ℕ) (rest : List ℕ)
    → Open s
    → find_marker s n (end_marker ++ rest) ≡ some (n + 4)
unfolding find_marker marker_step
find_marker-end seen0 n rest h = ap some (omega arith)
find_marker-end seen1 n rest h = ap some (omega arith)
find_marker-end seen2 n rest h = ap some (omega arith)
find_marker-end seen3 n rest h = cc
find_marker-end seen4 n rest h = cc

find_marker_first :
    (s : Marker) (n : ℕ) (l rest : List ℕ)
    → Open (state_after s l)
    → find_marker s n (l ++ (end_marker ++ rest)) ≡ some (n + length l + 4)
find_marker_first s n [] rest h = find_marker-end s n rest h ∙ ap some (omega arith)
find_marker_first s n (b ∷ l) rest h =
    find_marker-step s n b (l ++ (end_marker ++ rest)) (not_seen4 s (b ∷ l) h)
    ∙ find_marker_first (marker_step s b) (n + 1) l rest h
    ∙ ap some (omega arith)

drop_marker : (l rest : List ℕ) → drop (0 + length l + 4) (l ++ (end_marker ++ rest)) ≡ rest
drop_marker l rest =
    let n : 0 + length l + 4 ≡ length (l ++ end_marker) =
      omega (arith, length-append l end_marker) in
    rw (n, ← append_assoc) (drop-append (l ++ end_marker) rest)

read_v1_at :
    (buffer : List ℕ) (n : ℕ) (image : List ℕ)
    → find_marker seen0 0 buffer ≡ some n
    → uncompress_block (take (n - 4) buffer) ≡ some image
    → length image ≡ 0xc000
    → read_v1_block buffer true ≡ some (ok (image, drop n buffer))
unfolding read_v1_block
read_v1_at buffer n image e u h = rw (e, read_v1_block) (rw (u, h))

-- What `compress_block` makes of 48K, with the end marker behind it, is read back by
-- `read_v1_block` as those bytes, with the pointer at what follows the marker.
pub read_v1_block-compress_block :
    (image rest : List ℕ)
    → length image ≡ 0xc000
    → (out : List ℕ) × (compress_block image ≡ some out)
      × (read_v1_block (out ++ (end_marker ++ rest)) true ≡ some (ok (image, rest)))
read_v1_block-compress_block image rest h =
    let (out, e, back, short) = uncompress_block-compress_block image in
    let buffer = out ++ (end_marker ++ rest) in
    let n = 0 + length out + 4 in
    let first = find_marker_first seen0 0 out rest (compress_block-Open image out e) in
    let data_end : take (n - 4) buffer ≡ out =
      ap (λ m. take m buffer) (omega arith) ∙ take-append out _ in
    (
      out,
      e,
      read_v1_at buffer n image first (ap uncompress_block data_end ∙ back) h
          ∙ ap (λ r. some (ok (image, r))) (drop_marker out rest),
    )
