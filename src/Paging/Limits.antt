-- ===== src/Paging/Limits.antt =====
-- traffic_tracker.go: what tryAddRow does to the counters, and the limits of a page.
use fq_connector_go.Common.{ℕ, ◌≤◌, Bool, true, false, List, some, ◌≡◌, ◌⊎◌, inr, refl, arith}
use fq_connector_go.Errors.{Result, ok, err}
use fq_connector_go.Paging.Size.{Acceptor, add_u64, SizePattern, estimate}
use fq_connector_go.Paging.Tracker.{
  add, PagingConfig, TrafficTracker, exceeds, check_page_size_limit, count_row, add_if_fits,
  try_initialised, maybe_init, try_add_row,
}

-- A limit is not set, or it is not exceeded.
abbrev pub Within : ℕ → ℕ → Type 0
Within limit n = (limit ≡ 0) ⊎ (n ≤ limit)

-- The counts of a page are within the limits of the configuration.
abbrev pub Respects : PagingConfig → ℕ → ℕ → Type 0
Respects cfg n_rows n_bytes = Within cfg.rows_per_page n_rows × Within cfg.bytes_per_page n_bytes

-- The pattern of the sizes in use is the one that was there, or that of this row if there was none.
abbrev pub Patterned : List Acceptor → TrafficTracker → TrafficTracker → SizePattern → Type 0
Patterned row before after sp =
    (maybe_init row before.size_pattern ≡ ok sp) × (after.size_pattern ≡ some sp)

-- The counters before and after a row is taken: a row more, and the bytes that it is estimated at.
pub record Took (cfg : PagingConfig) (row : List Acceptor) (before after : TrafficTracker)
    : Type 0 where
  pub pattern : SizePattern
  pub patterned : Patterned row before after pattern
  pub size : ℕ
  pub estimated : estimate pattern row ≡ ok size
  pub row_counted : after.row_counter.current ≡ add_u64 before.row_counter.current 1
  pub bytes_counted : after.byte_counter.current ≡ add_u64 before.byte_counter.current size
  pub within : Respects cfg after.row_counter.current after.byte_counter.current

-- The counters are as they were.
pub record Kept (before after : TrafficTracker) : Type 0 where
  pub rows_kept : after.row_counter ≡ before.row_counter
  pub bytes_kept : after.byte_counter ≡ before.byte_counter

-- The current counters are not both at 0.
abbrev pub Started : TrafficTracker → Type 0
Started t = t.row_counter.current ≡ 0 → t.byte_counter.current ≡ 0 → ⊥

-- An answer that is no error took the row, or refused it, and an error changes no counter.
abbrev pub Answered :
    PagingConfig → List Acceptor → TrafficTracker → Result Bool × TrafficTracker → Type 0
Answered cfg row before (err e, after) = Kept before after
Answered cfg row before (ok true, after) = Took cfg row before after
Answered cfg row before (ok false, after) =
    Kept before after × Started before × ((sp : SizePattern) × Patterned row before after sp)

exceeds-false :
    (limit current delta : ℕ)
    → exceeds limit current delta ≡ false
    → Within limit (add_u64 current delta)
exceeds-false limit current delta h = ground arith

check-ok-false :
    (cfg : PagingConfig) (t : TrafficTracker) (size : ℕ)
    → check_page_size_limit cfg t size 1 ≡ ok false
    → Respects cfg (add_u64 t.row_counter.current 1) (add_u64 t.byte_counter.current size)
unfolding check_page_size_limit
check-ok-false cfg t size h = (ground arith, ground arith)

check-ok-true :
    (cfg : PagingConfig) (t : TrafficTracker) (size : ℕ)
    → check_page_size_limit cfg t size 1 ≡ ok true
    → t.row_counter.current ≡ 0
    → t.byte_counter.current ≡ 0
    → ⊥
unfolding check_page_size_limit
check-ok-true cfg t size h hr hb = ground arith

module _ (cfg : PagingConfig) (row : List Acceptor) (t : TrafficTracker) where
  -- The tracker once it has a pattern.
  abbrev initialised : SizePattern → TrafficTracker
  initialised sp = record t { size_pattern = some sp }

  count_row-Answered :
      (sp : SizePattern) (size : ℕ) (full : Result Bool)
      → maybe_init row t.size_pattern ≡ ok sp
      → estimate sp row ≡ ok size
      → check_page_size_limit cfg (initialised sp) size 1 ≡ full
      → Answered cfg row t (count_row size full (initialised sp))
  unfolding count_row add
  count_row-Answered sp size (err e) chosen estimated h = record {
    rows_kept = refl;
    bytes_kept = refl;
  }
  count_row-Answered sp size (ok true) chosen estimated h = (
    record { rows_kept = refl; bytes_kept = refl },
    check-ok-true cfg (initialised sp) size h,
    (sp, (chosen, refl)),
  )
  count_row-Answered sp size (ok false) chosen estimated h = record {
    pattern = sp;
    patterned = (chosen, refl);
    size = size;
    estimated = estimated;
    row_counted = refl;
    bytes_counted = refl;
    within = check-ok-false cfg (initialised sp) size h;
  }

  add_if_fits-Answered :
      (sp : SizePattern) (size : Result ℕ)
      → maybe_init row t.size_pattern ≡ ok sp
      → estimate sp row ≡ size
      → Answered cfg row t (add_if_fits cfg size (initialised sp))
  unfolding add_if_fits
  add_if_fits-Answered sp (err e) chosen estimated = record { rows_kept = refl; bytes_kept = refl }
  add_if_fits-Answered sp (ok size) chosen estimated =
      count_row-Answered sp size (check_page_size_limit cfg (initialised sp) size 1) chosen
        estimated refl

  initialised-Answered :
      (sp : Result SizePattern)
      → maybe_init row t.size_pattern ≡ sp
      → Answered cfg row t (try_initialised cfg row sp t)
  unfolding try_initialised
  initialised-Answered (err e) chosen = record { rows_kept = refl; bytes_kept = refl }
  initialised-Answered (ok sp) chosen = add_if_fits-Answered sp (estimate sp row) chosen refl

  -- An answer `true` of tryAddRow counts one row more in the current page, and the bytes that the row
  -- is estimated at (modulo 2^64), by the pattern in use, which is that of this row if there was none;
  -- the counts are then within the limits. An error, or an answer `false`, leaves the counters as they
  -- were. `false` is never given when the current counters are 0, so no row is refused right after a
  -- page was sent.
  pub try_add_row-Answered : Answered cfg row t (try_add_row cfg row t)
  unfolding try_add_row
  try_add_row-Answered = initialised-Answered (maybe_init row t.size_pattern) refl

-- The current counters are at 0.
abbrev pub Fresh : TrafficTracker → Type 0
Fresh t = (t.row_counter.current ≡ 0) × (t.byte_counter.current ≡ 0)

pub Fresh-Respects :
    (cfg : PagingConfig) (t : TrafficTracker)
    → Fresh t
    → Respects cfg t.row_counter.current t.byte_counter.current
Fresh-Respects cfg t (hr, hb) = (inr (omega arith), inr (omega arith))
