-- ===== src/Examples/Streams.antt =====
-- The theorems on the streamer of splits, at runs over one split.
use fq_connector_go.Common.{
  ℕ, ◌+◌, ◌*◌, ◌≤◌, ◌<◌, length, true, false, List, [], ◌∷◌, ◌++◌, count_from, ◌⊎◌, some, none, ◌≡◌,
  refl, arith,
}
use fq_connector_go.Errors.{opaque}
use fq_connector_go.Streaming.{
  Streamer, new_streamer, send_result_to_stream, Step, lists, reports, closes, receives,
  receives_nil, sees_closed, waits_over, Steps, stay, step,
}
use fq_connector_go.Streaming.Delivers.{numbered, run-delivers}
use fq_connector_go.Streaming.Ends.{CanStep, IsBlocked, run-returns}
use fq_connector_go.Streaming.Blocks.{send_failure-blocks}
use fq_connector_go.Streaming.Refines.{HandsAll, server_of, run-HandsAll}
use fq_connector_go.Streaming.Loses.{error-lost}

-- One split is listed and sent, and Run sees the nil error before the end of the results.
one_split_run :
    (s : Streamer ℕ) × Steps (new_streamer (7 ∷ []) none) 7 s
    × (s.run ≡ some none)
    × (s.cancelled ≡ false)
    × (s.waited ≡ true)
unfolding new_streamer send_result_to_stream
one_split_run =
    let room : 0 < 32 = omega arith in
    let s1 = step (new_streamer (7 ∷ []) none) _ stay (lists _ 7 [] refl refl room) in
    let s2 = step _ _ s1 (receives _ 7 [] refl refl) in
    let s3 = step _ _ s2 (reports _ refl refl) in
    let s4 = step _ _ s3 (receives_nil _ [] refl refl) in
    let s5 = step _ _ s4 (closes _ refl) in
    let s6 = step _ _ s5 (sees_closed _ refl refl refl) in
    let s7 = step _ _ s6 (waits_over _ none refl refl refl) in (_, s7, refl, refl, refl)

run-delivers_example : one_split_run.0.stream ≡ numbered 0 (7 ∷ [])
run-delivers_example =
    run-delivers (7 ∷ []) none 7 (one_split_run.0) (one_split_run.1) (one_split_run.2)
      (one_split_run.3)

run-returns_example :
    (7 ≤ 2 * length {A = ℕ} (7 ∷ []) + 6)
    × ((one_split_run.0.waited ≡ true) ⊎ (CanStep (one_split_run.0) ⊎ IsBlocked (one_split_run.0)))
run-returns_example = run-returns (7 ∷ []) none 7 (one_split_run.0) (one_split_run.1)

abbrev filling : List ℕ
filling = count_from 1 32

send_failure-blocks_example :
    (n : ℕ) × (s : Streamer ℕ) × Steps (new_streamer (0 ∷ (filling ++ 33 ∷ [])) none) n s
    × (s.run ≡ some (some opaque))
    × (s.waited ≡ false)
    × ((t : Streamer ℕ) → Step s t → t ≡ record s { cancelled = true })
send_failure-blocks_example = send_failure-blocks none opaque 0 filling 33 [] refl

error-lost_example :
    (n : ℕ) × (s : Streamer ℕ) × Steps (new_streamer (7 ∷ []) (some opaque)) n s
    × (s.run ≡ some none)
    × (s.cancelled ≡ false)
    × (s.waited ≡ true)
error-lost_example = error-lost opaque (7 ∷ [])

run-HandsAll_example :
    HandsAll (record { messages = []; left = 7 ∷ [] }) (server_of (one_split_run.0))
run-HandsAll_example = run-HandsAll (7 ∷ []) none 7 (one_split_run.0) (one_split_run.1)
