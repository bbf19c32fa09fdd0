-- ===== src/Examples/Pages.antt =====
-- Tests, and the theorems on sinks, their factory and the size of rows at concrete ones.
use fq_connector_go.Common.{All, ◌%◌, true, false, List, [], ◌∷◌, none, some, ◌≡◌, inr, refl, arith}
use fq_connector_go.Errors.{Result, ok}
use fq_connector_go.Paging.Size.{
  Acceptor, fixed, string, direct, FixedType, SizePattern, new_size_pattern, estimate, u64_mod,
}
use fq_connector_go.Paging.Tracker.{PagingConfig, new_traffic_tracker, try_add_row}
use fq_connector_go.Paging.Estimate.{fixed_type, string_type, row_size, new_size_pattern-estimate}
use fq_connector_go.Paging.Limits.{Answered, try_add_row-Answered}
use fq_connector_go.Paging.Sink.{Sink, rows, operational, returns, add_row, finish}
use fq_connector_go.Paging.Buffer.{empty_columns, add_row_empty}
use fq_connector_go.Paging.Pages.{Paged}
use fq_connector_go.Paging.AddRow.{add_row-Paged}
use fq_connector_go.Paging.Tracked.{Opens}
use fq_connector_go.Paging.Factory.{
  Factory, make_sinks, new_sink_factory, sink_terminated, sink_notifies, handler_receives, Steps,
  stay, step, Reachable,
}
use fq_connector_go.Paging.Closing.{closed-All_notified, no_sinks_never_closed, notified-closes}
use fq_connector_go.Paging.Finish.{Finished, finish-Finished}

abbrev one_row_pages : PagingConfig
one_row_pages = record { bytes_per_page = 100; rows_per_page = 1 }

abbrev number_row : List Acceptor
number_row = fixed FixedType.int32 ∷ []

abbrev new_sink : Sink empty_columns
new_sink = record {
  curr_buffer = some 0;
  queue = [];
  tracker = new_traffic_tracker;
  limiter = rows 0 10;
  state = operational;
  terminated = false;
  cancelled = false;
}

abbrev after_row : Sink empty_columns → Sink empty_columns
after_row s = (add_row empty_columns one_row_pages number_row s).1

abbrev number_pattern : SizePattern
number_pattern = record { varying_size_ix = []; fixed_size_total = 4 }

number_row-Opens : Opens number_pattern [] number_row
unfolding new_size_pattern
number_row-Opens h = refl

new_sink-Paged : Paged empty_columns one_row_pages number_pattern [] none new_sink
new_sink-Paged = record {
  connected = refl;
  buffer = 0;
  has_buffer = refl;
  sent = [];
  current = [];
  all_here = refl;
  holds = refl;
  tracks = record {
    counts = refl;
    weighs = refl;
    respects = (inr (omega arith), inr (omega arith));
  };
  opened = inr (refl, refl);
  pages = tt;
}

test_first_row :
    add_row empty_columns one_row_pages number_row new_sink ≡ (returns tt, after_row new_sink)
unfolding add_row add_row_empty
test_first_row = refl

one_row-Paged :
    Paged empty_columns one_row_pages number_pattern (number_row ∷ []) none (after_row new_sink)
one_row-Paged =
    add_row-Paged empty_columns one_row_pages number_pattern [] number_row new_sink
      (after_row new_sink) number_row-Opens new_sink-Paged test_first_row

test_operational : (after_row new_sink).state ≡ operational
unfolding add_row add_row_empty
test_operational = refl

finish-Finished_example :
    (s' : Sink empty_columns) × (finish empty_columns (after_row new_sink) ≡ (returns tt, s'))
    × Finished empty_columns one_row_pages number_pattern (number_row ∷ []) s'
finish-Finished_example =
    finish-Finished empty_columns one_row_pages number_pattern (number_row ∷ [])
      (after_row new_sink) one_row-Paged test_operational

try_add_row-Answered_example :
    Answered one_row_pages number_row new_traffic_tracker
      (try_add_row one_row_pages number_row new_traffic_tracker)
try_add_row-Answered_example = try_add_row-Answered one_row_pages number_row new_traffic_tracker

-- A number and a string of three bytes, and then one of five.
abbrev first_row : List Acceptor
first_row = fixed FixedType.int64 ∷ string (direct 3) ∷ []

abbrev later_row : List Acceptor
later_row = fixed FixedType.int64 ∷ string (direct 5) ∷ []

abbrev pattern_of_rows : SizePattern
pattern_of_rows = record { varying_size_ix = 1 ∷ []; fixed_size_total = 8 }

test_pattern : new_size_pattern first_row ≡ ok pattern_of_rows
unfolding new_size_pattern
test_pattern = refl

new_size_pattern-estimate_example :
    estimate pattern_of_rows later_row ≡ ok (row_size later_row % u64_mod)
new_size_pattern-estimate_example =
    new_size_pattern-estimate first_row later_row pattern_of_rows
      (fixed_type FixedType.int64, (string_type (direct 3) (direct 5), tt)) test_pattern

-- A factory of one sink, which then notifies it, and the handler receives that.
abbrev one_sink : List (Result (Unit {0}))
one_sink = ok tt ∷ []

abbrev one_made : Factory
one_made = (make_sinks one_sink new_sink_factory).1

abbrev one_notified : Factory
one_notified = record one_made { notified = true ∷ []; terminate_chan = 1 }

abbrev one_received : Factory
one_received = sink_terminated (record one_notified { terminate_chan = 0 })

one_notified-Reachable : Reachable 1 one_notified
unfolding make_sinks
one_notified-Reachable = record {
  buffers = one_sink;
  generated = one_made;
  sinks = refl;
  made = refl;
  steps = step one_made one_notified stay (sink_notifies one_made [] [] refl);
}

one_received-Reachable : Reachable 1 one_received
unfolding make_sinks
one_received-Reachable = record {
  buffers = one_sink;
  generated = one_made;
  sinks = refl;
  made = refl;
  steps =
      step one_notified one_received
        (step one_made one_notified stay (sink_notifies one_made [] [] refl))
        (handler_receives one_notified 0 refl refl);
}

abbrev none_made : Factory
none_made = (make_sinks [] new_sink_factory).1

none_made-Reachable : Reachable 0 none_made
unfolding make_sinks
none_made-Reachable = record {
  buffers = [];
  generated = none_made;
  sinks = refl;
  made = refl;
  steps = stay;
}

test_closed : one_received.queue_closed ≡ true
unfolding make_sinks sink_terminated
test_closed = refl

test_runs : one_notified.handler_runs ≡ true
unfolding make_sinks
test_runs = refl

test_received_notified : one_received.notified ≡ true ∷ []
unfolding make_sinks sink_terminated
test_received_notified = refl

closed-All_notified_example : All (λ b. b ≡ true) one_received.notified
closed-All_notified_example = closed-All_notified 1 one_received one_received-Reachable test_closed

notified-closes_example : (g : Factory) × Steps one_notified g × (g.queue_closed ≡ true)
notified-closes_example = notified-closes 0 one_notified one_notified-Reachable test_runs (refl, tt)

no_sinks_never_closed_example : none_made.queue_closed ≡ false
no_sinks_never_closed_example = no_sinks_never_closed none_made none_made-Reachable
