-- ===== src/Rzx/Runs.antt =====
-- A recording of three frames, the second of which repeats the first.
use libspectrum.Base.{ℕ, ◌≡◌, refl, true, List, [], ◌∷◌, none, some, ok}
use libspectrum.Rzx.{
  Input, Player, new_input, start_playback, snapshot_block, input_block, other_block,
}
use libspectrum.Rzx.Record.{Tracks, record_all, record_all_lem, new_input-Tracks}
use libspectrum.Rzx.Playback.{replay, replay-record_all}

abbrev frames : List (ℕ × List ℕ)
frames = (11, 1 ∷ 2 ∷ []) ∷ (12, 3 ∷ []) ∷ []

record_all_lem_example :
    (input : Input) × (record_all (λ k. true) (new_input 69888) frames ≡ ok input)
    × Tracks input ((1 ∷ 2 ∷ []) ∷ (3 ∷ []) ∷ [])
record_all_lem_example =
    record_all_lem (λ k. true) (new_input 69888) [] frames (λ k. refl) (new_input-Tracks 69888)

replay-record_all_example :
    (input : Input) × (record_all (λ k. true) (new_input 69888) ((10, 1 ∷ 2 ∷ []) ∷ frames)
      ≡ ok input)
    × (rzx : Player ℕ) × (start_playback 0 none
          (snapshot_block 7 ∷ input_block input ∷ other_block ∷ [])
        ≡ ok (some 7, rzx))
    × (replay (2 ∷ 2 ∷ 1 ∷ []) rzx ≡ ok ((1 ∷ 2 ∷ []) ∷ (1 ∷ 2 ∷ []) ∷ (3 ∷ []) ∷ []))
replay-record_all_example =
    replay-record_all (λ k. true) 69888 10 (1 ∷ 2 ∷ []) frames 7 (other_block ∷ []) (λ k. refl)
