-- ===== src/Streaming.antt =====
-- app/server/streaming/list_splits_streamer.go: Run as a step relation between the goroutine of the
-- data source, which lists splits into a channel, and the loop that sends them to the client.
pub mod Blocks
pub mod Delivers
pub mod Ends
pub mod Loses
pub mod Refines
use fq_connector_go.Common.{
  ℕ, ◌+◌, ◌<◌, length, Bool, true, false, List, [], ◌∷◌, ◌++◌, Option, none, some, ◌≡◌,
}
use fq_connector_go.Errors.{Error, opaque}

-- How far the goroutine is: in ListSplits of the data source, past `errChan <-`, past
-- `close(resultChan)`.
pub data Phase : Type 0 where
  listing reported closed : Phase

-- ListSplitsStreamer with the variables of Run. `pending` and `outcome` are the splits that the data
-- source has yet to list and what it returns then; `result_chan` and `err_chan` are what the channels
-- hold; `stream` is what was sent to the client; `unsent` is the split whose sending failed;
-- `cancelled` is whether the context of the stream is done; `run` is what the loop of Run ended with;
-- `waited` is whether the deferred `wg.Wait()` is over too, so that Run has returned that.
pub record Streamer (Split : Type 0) : Type 0 where
  pub pending : List Split
  pub outcome : Option Error
  pub phase : Phase
  pub result_chan : List Split
  pub err_chan : List (Option Error)
  pub stream : List (ℕ × Split)
  pub split_counter : ℕ
  pub unsent : List Split
  pub cancelled : Bool
  pub run : Option (Option Error)
  pub waited : Bool

module _ {Split : Type 0} where
  -- The start of Run, for a data source that lists so many splits and then returns.
  unfoldable pub new_streamer : List Split → Option Error → Streamer Split
  new_streamer splits outcome = record {
    pending = splits;
    outcome = outcome;
    phase = listing;
    result_chan = [];
    err_chan = [];
    stream = [];
    split_counter = 0;
    unsent = [];
    cancelled = false;
    run = none;
    waited = false;
  }

  -- sendResultToStream, when stream.Send succeeds.
  unfoldable pub send_result_to_stream : Split → Streamer Split → Streamer Split
  send_result_to_stream split s = record s {
    stream = s.stream ++ (s.split_counter, split) ∷ [];
    split_counter = s.split_counter + 1;
  }

  pub data Step : Streamer Split → Streamer Split → Type 0 where
    -- `resultChan <- result` in the data source; the channel has room for 32.
    lists :
        (s : Streamer Split) (split : Split) (splits : List Split)
        → s.phase ≡ listing
        → s.pending ≡ split ∷ splits
        → length s.result_chan < 32
        → Step s (record s { pending = splits; result_chan = s.result_chan ++ split ∷ [] })
    -- `errChan <- ...ListSplits(...)`, of which the buffer has room for it.
    reports :
        (s : Streamer Split)
        → s.phase ≡ listing
        → s.pending ≡ []
        → Step s (record s { phase = reported; err_chan = s.outcome ∷ [] })
    -- ... when the data source has seen that the context is done.
    gives_up :
        (s : Streamer Split) (e : Error)
        → s.phase ≡ listing
        → s.cancelled ≡ true
        → Step s (record s { phase = reported; err_chan = some e ∷ [] })
    -- `close(resultChan)`
    closes : (s : Streamer Split) → s.phase ≡ reported → Step s (record s { phase = closed })
    -- The cases of the select in Run, any of which may be taken when it is ready.
    receives :
        (s : Streamer Split) (split : Split) (splits : List Split)
        → s.run ≡ none
        → s.result_chan ≡ split ∷ splits
        → Step s (send_result_to_stream split (record s { result_chan = splits }))
    send_fails :
        (s : Streamer Split) (split : Split) (splits : List Split) (e : Error)
        → s.run ≡ none
        → s.result_chan ≡ split ∷ splits
        → Step s (record s { result_chan = splits; unsent = split ∷ []; run = some (some e) })
    sees_closed :
        (s : Streamer Split)
        → s.run ≡ none
        → s.result_chan ≡ []
        → s.phase ≡ closed
        → Step s (record s { run = some none })
    receives_error :
        (s : Streamer Split) (e : Error) (rest : List (Option Error))
        → s.run ≡ none
        → s.err_chan ≡ some e ∷ rest
        → Step s (record s { err_chan = rest; run = some (some e) })
    receives_nil :
        (s : Streamer Split) (rest : List (Option Error))
        → s.run ≡ none
        → s.err_chan ≡ none ∷ rest
        → Step s (record s { err_chan = rest })
    sees_done :
        (s : Streamer Split)
        → s.run ≡ none
        → s.cancelled ≡ true
        → Step s (record s { run = some (some opaque) })
    -- `wg.Wait()`: behind its `return` Run waits until the goroutine has closed the channel.
    waits_over :
        (s : Streamer Split) (r : Option Error)
        → s.run ≡ some r
        → s.phase ≡ closed
        → s.waited ≡ false
        → Step s (record s { waited = true })
    -- The context of the stream ends.
    cancels : (s : Streamer Split) → s.cancelled ≡ false → Step s (record s { cancelled = true })

  -- What can happen from a state on, in so many steps.
  pub data Steps (s : Streamer Split) : ℕ → Streamer Split → Type 0 where
    stay : Steps s 0 s
    step : {n : ℕ} (t u : Streamer Split) → Steps s n t → Step t u → Steps s (n + 1) u
