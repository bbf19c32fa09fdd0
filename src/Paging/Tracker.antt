-- ===== src/Paging/Tracker.antt =====
-- app/server/paging/traffic_tracker.go and app/server/utils/counter.go: how many rows and bytes
-- passed a sink since it was created, and since its last page. The current counter is a child of
-- the total one, and `Add` on the child adds to both; `MakeChild` gives a child that starts at 0.
use fq_connector_go.Common.{
  ℕ, Bool, true, false, not, ◌&&◌, List, Option, none, some, ltb, ◌==◌, if◌then◌else◌,
}
use fq_connector_go.Errors.{wraps, page_size_exceeded, Result, ok, err}
use fq_connector_go.Paging.Size.{Acceptor, add_u64, SizePattern, estimate, new_size_pattern}

-- A counter with the child that is in use.
pub record Counter : Type 0 where
  pub total : ℕ
  pub current : ℕ

-- NewCounter, with a first child.
abbrev pub new_counter : Counter
new_counter = record { total = 0; current = 0 }

-- Counter.Add on the child.
unfoldable pub add : Counter → ℕ → Counter
add c delta = record { total = add_u64 c.total delta; current = add_u64 c.current delta }

-- Counter.MakeChild on the parent; the new child replaces the one in use.
unfoldable pub make_child : Counter → Counter
make_child c = record c { current = 0 }

-- The fields of TPagingConfig that limit a page; 0 is no limit.
pub record PagingConfig : Type 0 where
  pub bytes_per_page : ℕ
  pub rows_per_page : ℕ

-- TReadSplitsResponse_TStats
pub record Stats : Type 0 where
  pub rows : ℕ
  pub bytes : ℕ

pub record TrafficTracker : Type 0 where
  pub size_pattern : Option SizePattern
  pub byte_counter : Counter
  pub row_counter : Counter

-- newTrafficTracker
abbrev pub new_traffic_tracker : TrafficTracker
new_traffic_tracker = record {
  size_pattern = none;
  byte_counter = new_counter;
  row_counter = new_counter;
}

-- trafficTracker.refreshCounters
unfoldable pub refresh_counters : TrafficTracker → TrafficTracker
unfolding make_child
refresh_counters tt' = record tt' {
  byte_counter = make_child tt'.byte_counter;
  row_counter = make_child tt'.row_counter;
}

-- trafficTracker.DumpStats
unfoldable pub dump_stats : Bool → TrafficTracker → Stats
dump_stats true tt' = record { rows = tt'.row_counter.total; bytes = tt'.byte_counter.total }
dump_stats false tt' = record { rows = tt'.row_counter.current; bytes = tt'.byte_counter.current }

-- trafficTracker.maybeInit: the pattern in use, which is made from the first row.
unfoldable pub maybe_init : List Acceptor → Option SizePattern → Result SizePattern
unfolding new_size_pattern
maybe_init row none = new_size_pattern row
maybe_init row (some sp) = ok sp

-- Whether the current value and the delta exceed a limit.
abbrev pub exceeds : ℕ → ℕ → ℕ → Bool
exceeds limit current delta = not (limit == 0) && ltb limit (add_u64 current delta)

-- trafficTracker.checkPageSizeLimit
unfoldable pub check_page_size_limit : PagingConfig → TrafficTracker → ℕ → ℕ → Result Bool
check_page_size_limit cfg tt' bytes_delta rows_delta =
    if not (cfg.bytes_per_page == 0) && ltb cfg.bytes_per_page bytes_delta
    then err (wraps page_size_exceeded)
    else if exceeds cfg.bytes_per_page tt'.byte_counter.current bytes_delta
    then ok true
    else ok (exceeds cfg.rows_per_page tt'.row_counter.current rows_delta)

-- tryAddRow after checkPageSizeLimit; the answer of that is whether the page is full.
unfoldable pub count_row : ℕ → Result Bool → TrafficTracker → Result Bool × TrafficTracker
unfolding add
count_row total_bytes (err e) tt' = (err e, tt')
count_row total_bytes (ok true) tt' = (ok false, tt')
count_row total_bytes (ok false) tt' = (
  ok true,
  record tt' {
    byte_counter = add tt'.byte_counter total_bytes;
    row_counter = add tt'.row_counter 1;
  },
)

-- tryAddRow after estimate.
unfoldable pub add_if_fits : PagingConfig → Result ℕ → TrafficTracker → Result Bool × TrafficTracker
unfolding check_page_size_limit count_row
add_if_fits cfg (err e) tt' = (err e, tt')
add_if_fits cfg (ok total_bytes) tt' =
    count_row total_bytes (check_page_size_limit cfg tt' total_bytes 1) tt'

-- tryAddRow after maybeInit.
unfoldable pub try_initialised :
    PagingConfig
    → List Acceptor
    → Result SizePattern
    → TrafficTracker
    → Result Bool × TrafficTracker
unfolding add_if_fits estimate
try_initialised cfg row (err e) tt' = (err e, record tt' { size_pattern = none })
try_initialised cfg row (ok sp) tt' =
    add_if_fits cfg (estimate sp row) (record tt' { size_pattern = some sp })

-- trafficTracker.tryAddRow
unfoldable pub try_add_row :
    PagingConfig → List Acceptor → TrafficTracker → Result Bool × TrafficTracker
unfolding try_initialised maybe_init
try_add_row cfg row tt' = try_initialised cfg row (maybe_init row tt'.size_pattern) tt'
