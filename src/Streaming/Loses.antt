-- ===== src/Streaming/Loses.antt =====
-- list_splits_streamer.go: the select of Run takes any case that is ready, also the end of the
-- results before the error.
use fq_connector_go.Common.{
  ℕ, ◌+◌, ◌<◌, true, false, List, [], ◌∷◌, ◌++◌, none, some, ◌≡◌, refl, arith,
}
use fq_connector_go.Errors.{Error}
use fq_connector_go.Streaming.{
  listing, Streamer, new_streamer, send_result_to_stream, lists, reports, closes, receives,
  sees_closed, waits_over, Steps, stay, step,
}

module _ {Split : Type 0} (e : Error) where
  -- While the data source, which will fail, lists its splits, and each has been sent so far.
  abbrev listing_state : List Split → List (ℕ × Split) → ℕ → Streamer Split
  listing_state pending stream counter = record {
    pending = pending;
    outcome = some e;
    phase = listing;
    result_chan = [];
    err_chan = [];
    stream = stream;
    split_counter = counter;
    unsent = [];
    cancelled = false;
    run = none;
    waited = false;
  }

  abbrev EndsWithoutError : Streamer Split → Type 0
  EndsWithoutError start =
      (n : ℕ) × (s : Streamer Split) × Steps start n s
      × (s.run ≡ some none)
      × (s.cancelled ≡ false)
      × (s.waited ≡ true)

  closed_first :
      (start : Streamer Split) (pending : List Split) (stream : List (ℕ × Split)) (counter n : ℕ)
      → Steps start n (listing_state pending stream counter)
      → EndsWithoutError start
  unfolding send_result_to_stream
  closed_first start [] stream counter n before =
      let s = listing_state [] stream counter in
      let reported_state = step s _ before (reports s refl refl) in
      let closed_state = step _ _ reported_state (closes _ refl) in
      let ended_state = step _ _ closed_state (sees_closed _ refl refl refl) in
      (_, _, step _ _ ended_state (waits_over _ none refl refl refl), refl, refl, refl)
  closed_first start (x ∷ pending) stream counter n before =
      let s = listing_state (x ∷ pending) stream counter in
      let room : 0 < 32 = omega arith in
      let listed_state = step s _ before (lists s x pending refl refl room) in
      closed_first start pending (stream ++ (counter, x) ∷ []) (counter + 1) _
        (step _ _ listed_state (receives _ x [] refl refl))

  -- For every list of splits, Run can return nil although ListSplits of the data source fails after
  -- it has listed them and the context of the stream is not done.
  pub error-lost :
      (splits : List Split)
      → (n : ℕ) × (s : Streamer Split) × Steps (new_streamer splits (some e)) n s
        × (s.run ≡ some none)
        × (s.cancelled ≡ false)
        × (s.waited ≡ true)
  unfolding new_streamer
  error-lost splits = closed_first (listing_state splits [] 0) splits [] 0 0 stay
