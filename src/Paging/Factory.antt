-- ===== src/Paging/Factory.antt =====
-- app/server/paging/sink_factory.go: the factory of the sinks of one request, the goroutine that
-- awaits their termination, and the interleavings of the sinks with it. The channels are counts of
-- what they hold. A sink is here whether it has notified the factory, which is the last that Finish
-- does; before, it may send pages to the queue of results.
use fq_connector_go.Common.{ℕ, ◌+◌, length, Bool, true, false, List, [], ◌∷◌, ◌++◌, ◌≡◌, ◌==◌}
use fq_connector_go.Errors.{opaque, Result, ok, err}
use fq_connector_go.Paging.Size.{add_u64}
use fq_connector_go.Paging.Tracker.{Stats, TrafficTracker, dump_stats}

pub data FactoryState : Type 0 where
  idle sinks_generated failed finished : FactoryState

-- sinkFactoryImpl, with the goroutine that MakeSinks starts: whether it runs, and its
-- `terminatedSinks`. `notified` has one entry for each sink that was made.
pub record Factory : Type 0 where
  pub state : FactoryState
  pub total_sinks : ℕ
  pub notified : List Bool
  pub terminate_chan : ℕ
  pub handler_runs : Bool
  pub terminated_sinks : ℕ
  pub queue_closed : Bool

-- NewSinkFactory
abbrev pub new_sink_factory : Factory
new_sink_factory = record {
  state = idle;
  total_sinks = 0;
  notified = [];
  terminate_chan = 0;
  handler_runs = false;
  terminated_sinks = 0;
  queue_closed = false;
}

-- The loop of MakeSinks over what MakeBuffer returns, and the start of the handler behind it.
unfoldable pub make_all : List (Result (Unit {0})) → Factory → Result (Unit {0}) × Factory
make_all [] f = (ok tt, record f { state = sinks_generated; handler_runs = true })
make_all (ok _ ∷ buffers) f = make_all buffers (record f { notified = f.notified ++ false ∷ [] })
make_all (err e ∷ buffers) f = (err e, record f { state = failed })

unfoldable pub make_in :
    FactoryState → List (Result (Unit {0})) → Factory → Result (Unit {0}) × Factory
unfolding make_all
make_in idle buffers f = make_all buffers (record f { total_sinks = length buffers })
make_in _ buffers f = (err opaque, f)

-- MakeSinks, for as many parameters as there are results of MakeBuffer.
unfoldable pub make_sinks : List (Result (Unit {0})) → Factory → Result (Unit {0}) × Factory
unfolding make_in
make_sinks buffers f = make_in f.state buffers f

-- sinkTerminationHandler when it has counted the sink that it received, the last one or not.
unfoldable pub count_terminated : Bool → Factory → Factory
count_terminated true f = record f {
  state = finished;
  terminated_sinks = f.terminated_sinks + 1;
  handler_runs = false;
  queue_closed = true;
}
count_terminated false f = record f { terminated_sinks = f.terminated_sinks + 1 }

-- sinkTerminationHandler when it has received a sink.
unfoldable pub sink_terminated : Factory → Factory
unfolding count_terminated
sink_terminated f = count_terminated (f.terminated_sinks + 1 == f.total_sinks) f

-- What happens between the sinks and the handler: a sink notifies the factory, the handler receives
-- that, or it sees that the context is done.
pub data Step : Factory → Factory → Type 0 where
  sink_notifies :
      (f : Factory) (before after : List Bool)
      → f.notified ≡ before ++ false ∷ after
      → Step f
          (record f { notified = before ++ true ∷ after; terminate_chan = f.terminate_chan + 1 })
  handler_receives :
      (f : Factory) (waiting : ℕ)
      → f.handler_runs ≡ true
      → f.terminate_chan ≡ waiting + 1
      → Step f (sink_terminated (record f { terminate_chan = waiting }))
  context_done : (f : Factory) → f.handler_runs ≡ true → Step f (record f { handler_runs = false })

-- What can happen from a state on.
pub data Steps (f : Factory) : Factory → Type 0 where
  stay : Steps f f
  step : (g h : Factory) → Steps f g → Step g h → Steps f h

-- The states that a new factory can get into once MakeSinks has made so many sinks.
pub record Reachable (n : ℕ) (f : Factory) : Type 0 where
  pub buffers : List (Result (Unit {0}))
  pub generated : Factory
  pub sinks : length buffers ≡ n
  pub made : make_sinks buffers new_sink_factory ≡ (ok tt, generated)
  pub steps : Steps generated f

-- FinalStats
unfoldable pub final_stats : List TrafficTracker → Stats → Stats
unfolding dump_stats
final_stats [] overall = overall
final_stats (t ∷ ts) overall =
    let partial = dump_stats true t in
    final_stats ts (record {
      rows = add_u64 overall.rows partial.rows;
      bytes = add_u64 overall.bytes partial.bytes;
    })
