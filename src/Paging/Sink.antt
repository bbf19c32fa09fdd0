-- ===== src/Paging/Sink.antt =====
-- app/server/paging/sink.go and read_limiter.go: one sink of a request. The state is the sink with
-- the objects that it shares with the others, the read limiter and the queue of results; a send to
-- the queue is an append. `cancelled` says that the request's context is done, in which case what
-- is sent is lost. The buffers, which hold arrow builders, are an interface.
use fq_connector_go.Common.{
  ℕ, ◌+◌, Bool, true, false, List, [], ◌∷◌, ◌++◌, Option, none, some, ◌≡◌, leb, ◌==◌, if◌then◌else◌,
}
use fq_connector_go.Errors.{wraps, read_limit_exceeded, Error, Result, ok, err}
use fq_connector_go.Paging.Size.{Acceptor, add_u64}
use fq_connector_go.Paging.Tracker.{
  PagingConfig, Stats, TrafficTracker, refresh_counters, dump_stats, try_add_row,
}

-- ReadLimiter: `readLimiterNoop` or `readLimiterRows`.
pub data ReadLimiter : Type 0 where
  no_limit : ReadLimiter
  rows : ℕ → ℕ → ReadLimiter

-- ReadLimiter.addRow; `rows` holds `rowsRead` and `rowsLimit`.
unfoldable pub limiter_add_row : ReadLimiter → Result ReadLimiter
limiter_add_row no_limit = ok no_limit
limiter_add_row (rows rows_read rows_limit) =
    if leb rows_limit rows_read
    then err (wraps read_limit_exceeded)
    else ok (rows (add_u64 rows_read 1) rows_limit)

-- ColumnarBuffer and ColumnarBufferFactory: a new buffer is empty, and a row that is added with
-- success makes it longer by one.
pub record Buffers : Type 1 where
  pub Buffer : Type 0
  pub make_buffer : Result Buffer
  pub buffer_add_row : List Acceptor → Buffer → Result (Unit {0}) × Buffer
  pub total_rows : Buffer → ℕ
  pub total_rows-make : (b : Buffer) → make_buffer ≡ ok b → total_rows b ≡ 0
  pub total_rows-add :
      (row : List Acceptor) (b b' : Buffer)
      → buffer_add_row row b ≡ (ok tt, b')
      → total_rows b' ≡ total_rows b + 1

pub data SinkState : Type 0 where
  operational failed finished : SinkState

-- What a method does: it returns, returns an error, or panics.
pub data Outcome (A : Type 0) : Type 0 where
  returns : A → Outcome A
  fails : Error → Outcome A
  panics : Outcome A

module _ (buffers : Buffers) where
  open buffers use {Buffer, make_buffer, buffer_add_row, total_rows}

  -- ReadResult
  pub record Message : Type 0 where
    pub buffer : Option Buffer
    pub stats : Option Stats
    pub error : Option Error
    pub is_terminal : Bool

  -- sinkImpl with the limiter and the queue.
  pub record Sink : Type 0 where
    pub curr_buffer : Option Buffer
    pub queue : List Message
    pub tracker : TrafficTracker
    pub limiter : ReadLimiter
    pub state : SinkState
    pub terminated : Bool
    pub cancelled : Bool

  abbrev pub Act : Type 0 → Type 0
  Act A = Sink → Outcome A × Sink

  abbrev pub proceed : {A B : Type 0} → Outcome A → (A → Act B) → Act B
  proceed (returns a) f s = f a s
  proceed (fails e) f s = (fails e, s)
  proceed panics f s = (panics, s)

  infixl 5 ◌>>=◌ ◌>>◌
  abbrev pub ◌>>=◌ : {A B : Type 0} → Act A → (A → Act B) → Act B
  ◌>>=◌ m f s = let r = m s in proceed r.0 f r.1

  abbrev pub ◌>>◌ : {B : Type 0} → Act (Unit {0}) → Act B → Act B
  ◌>>◌ m n = m >>= λ _. n

  abbrev pub done : Act (Unit {0})
  done s = (returns tt, s)

  abbrev pub outcome_of : {A : Type 0} → Result A → Outcome A
  outcome_of (ok a) = returns a
  outcome_of (err e) = fails e

  -- sinkImpl.respondWith
  unfoldable pub respond_with : Message → Act (Unit {0})
  respond_with m s = (returns tt, if s.cancelled then s else record s { queue = s.queue ++ m ∷ [] })

  -- `s.currBuffer, err = s.bufferFactory.MakeBuffer()`
  unfoldable pub replace_buffer : Result Buffer → Act (Unit {0})
  replace_buffer (ok b) s = (returns tt, record s { curr_buffer = some b })
  replace_buffer (err e) s = (fails e, record s { curr_buffer = none })

  unfoldable pub make_new_buffer : Bool → Act (Unit {0})
  unfolding replace_buffer
  make_new_buffer true = replace_buffer make_buffer
  make_new_buffer false = done

  -- flush of a buffer that is not empty.
  unfoldable pub flush_rows : Bool → Bool → Buffer → Act (Unit {0})
  unfolding respond_with make_new_buffer dump_stats refresh_counters
  flush_rows make_new is_terminal b = do
    (λ s.
        respond_with
          (record {
            buffer = some b;
            stats = some (dump_stats false s.tracker);
            error = none;
            is_terminal = is_terminal;
          })
          s)
    (λ s. (returns tt, record s { curr_buffer = none; tracker = refresh_counters s.tracker }))
    make_new_buffer make_new

  unfoldable pub flush_buffer : Bool → Bool → Option Buffer → Act (Unit {0})
  unfolding flush_rows
  flush_buffer make_new is_terminal none s = (panics, s)
  flush_buffer make_new is_terminal (some b) s =
      if total_rows b == 0 then (returns tt, s) else flush_rows make_new is_terminal b s

  -- sinkImpl.flush; to ask a nil buffer for its rows is a panic.
  unfoldable pub flush : Bool → Bool → Act (Unit {0})
  unfolding flush_buffer
  flush make_new is_terminal s = flush_buffer make_new is_terminal s.curr_buffer s

  unfoldable pub set_limiter : Result ReadLimiter → Act (Unit {0})
  set_limiter (ok l) s = (returns tt, record s { limiter = l })
  set_limiter (err e) s = (fails e, s)

  -- `s.readLimiter.addRow()`
  unfoldable pub limit_row : Act (Unit {0})
  unfolding limiter_add_row set_limiter
  limit_row s = set_limiter (limiter_add_row s.limiter) s

  module _ (cfg : PagingConfig) where
    -- `s.trafficTracker.tryAddRow(rowTransformer.GetAcceptors())`
    unfoldable pub track_row : List Acceptor → Act Bool
    unfolding try_add_row
    track_row row s =
        let r = try_add_row cfg row s.tracker in (outcome_of r.0, record s { tracker = r.1 })

    -- The flush of a page that is full, and the second tryAddRow, whose answer is not looked at.
    unfoldable pub make_room : List Acceptor → Bool → Act (Unit {0})
    unfolding flush track_row
    make_room row true = done
    make_room row false = flush true false >> (track_row row >>= λ _. done)

    unfoldable pub append_to : List Acceptor → Option Buffer → Act (Unit {0})
    append_to row none s = (panics, s)
    append_to row (some b) s =
        let r = buffer_add_row row b in (outcome_of r.0, record s { curr_buffer = some r.1 })

    -- `s.currBuffer.addRow(rowTransformer)`
    unfoldable pub append_row : List Acceptor → Act (Unit {0})
    unfolding append_to
    append_row row s = append_to row s.curr_buffer s

    -- sinkImpl.AddRow in the state `sinkOperational`.
    unfoldable pub add_row_operational : List Acceptor → Act (Unit {0})
    unfolding limit_row track_row make_room append_row
    add_row_operational row = do limit_row; ok' ← track_row row; make_room row ok'; append_row row

    unfoldable pub add_row_in : SinkState → List Acceptor → Act (Unit {0})
    unfolding add_row_operational
    add_row_in operational row = add_row_operational row
    add_row_in _ row = λ s. (panics, s)

    -- sinkImpl.AddRow
    unfoldable pub add_row : List Acceptor → Act (Unit {0})
    unfolding add_row_in
    add_row row s = add_row_in s.state row s

  unfoldable pub respond_error : Error → Act (Unit {0})
  unfolding respond_with
  respond_error e =
      respond_with (record { buffer = none; stats = none; error = some e; is_terminal = true })

  unfoldable pub set_state : SinkState → Act (Unit {0})
  set_state state s = (returns tt, record s { state = state })

  -- Finish after the flush of what is left.
  unfoldable pub finish_flushed : Outcome (Unit {0}) → Act (Unit {0})
  unfolding respond_error set_state
  finish_flushed (returns _) = set_state finished
  finish_flushed (fails e) = respond_error e >> set_state failed
  finish_flushed panics = λ s. (panics, s)

  -- The notification of the factory: `s.terminateChan <- s`, unless the context is done.
  unfoldable pub notify_factory : Act (Unit {0})
  notify_factory s = (returns tt, if s.cancelled then s else record s { terminated = true })

  unfoldable pub finish_flush : Act (Unit {0})
  unfolding flush finish_flushed
  finish_flush s = let r = flush false true s in finish_flushed r.0 r.1

  unfoldable pub finish_in : SinkState → Act (Unit {0})
  unfolding finish_flush notify_factory
  finish_in operational = finish_flush >> notify_factory
  finish_in failed = notify_factory
  finish_in finished = λ s. (panics, s)

  -- sinkImpl.Finish
  unfoldable pub finish : Act (Unit {0})
  unfolding finish_in
  finish s = finish_in s.state s
