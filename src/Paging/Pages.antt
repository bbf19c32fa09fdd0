-- ===== src/Paging/Pages.antt =====
-- sink.go: the pages of a sink. A page is a message of the queue with a buffer and with its stats.
use fq_connector_go.Errors.{Result, ok, err}
use fq_connector_go.Common.{
  length, length-append, append-nil, append_assoc, ap, sym, ◌∙◌, ◌⊎◌, refl, ℕ, ◌+◌, ◌%◌, false,
  List, [], ◌∷◌, ◌++◌, Option, none, some, ◌≡◌, arith,
}
use fq_connector_go.Paging.Size.{Acceptor, SizePattern, estimate, u64_mod}
use fq_connector_go.Paging.Tracker.{PagingConfig, TrafficTracker, Stats}
use fq_connector_go.Paging.Limits.{Respects}
use fq_connector_go.Paging.Sink.{Buffers, Message, Sink}

abbrev pub Row : Type 0
Row = List Acceptor

-- The bytes that a pattern estimates a row at; a row that has no estimate is never taken.
abbrev pub size_or_zero : Result ℕ → ℕ
size_or_zero (ok n) = n
size_or_zero (err e) = 0

abbrev pub bytes_under : SizePattern → List Row → ℕ
bytes_under sp [] = 0
bytes_under sp (row ∷ rows) = size_or_zero (estimate sp row) + bytes_under sp rows

pub bytes_under-snoc :
    (sp : SizePattern) (rows : List Row) (row : Row) {size : ℕ}
    → estimate sp row ≡ ok size
    → bytes_under sp (rows ++ row ∷ []) ≡ bytes_under sp rows + size
bytes_under-snoc sp [] row h = let e = ap size_or_zero h in omega arith
bytes_under-snoc sp (r ∷ rows) row h = omega (arith, bytes_under-snoc sp rows row h)

-- The rows of all pages, in order.
abbrev pub all_rows : List (List Row) → List Row
all_rows [] = []
all_rows (page ∷ pages) = page ++ all_rows pages

pub all_rows-snoc :
    (pages : List (List Row)) (page : List Row)
    → all_rows (pages ++ page ∷ []) ≡ all_rows pages ++ page
all_rows-snoc [] page = append-nil page
all_rows-snoc (p ∷ pages) page =
    ap (λ l. p ++ l) (all_rows-snoc pages page) ∙ sym (append_assoc p (all_rows pages) page)

-- The rows that the tracker has counted: those of the buffer, and one that is not in it yet.
abbrev pub with_pending : List Row → Option Row → List Row
with_pending rows none = rows
with_pending rows (some row) = rows ++ row ∷ []

-- The tracker has its pattern, or has not counted a row.
abbrev pub Opened : SizePattern → List Row → Option Row → Option SizePattern → Type 0
Opened sp taken none pattern = (pattern ≡ some sp) ⊎ ((pattern ≡ none) × (taken ≡ []))
Opened sp taken (some row) pattern = pattern ≡ some sp

module _ (buffers : Buffers) where
  open buffers use {
    Buffer, make_buffer, buffer_add_row, total_rows, total_rows-make, total_rows-add,
  }

  abbrev pub rows_of : Option Buffer → ℕ
  rows_of none = 0
  rows_of (some b) = total_rows b

  -- The rows of the messages of a queue.
  abbrev pub rows_sent : List (Message buffers) → ℕ
  rows_sent [] = 0
  rows_sent (m ∷ ms) = rows_of m.buffer + rows_sent ms

  pub rows_sent-snoc :
      (ms : List (Message buffers)) (m : Message buffers)
      → rows_sent (ms ++ m ∷ []) ≡ rows_sent ms + rows_of m.buffer
  rows_sent-snoc [] m = omega arith
  rows_sent-snoc (x ∷ ms) m = omega (arith, rows_sent-snoc ms m)

module _ (buffers : Buffers) (cfg : PagingConfig) (sp : SizePattern) where
  open buffers use {
    Buffer, make_buffer, buffer_add_row, total_rows, total_rows-make, total_rows-add,
  }

  -- A page of these rows: the stats count the rows of its buffer and the bytes at which the pattern
  -- estimates them, and respect the limits.
  pub record IsPage (rows : List Row) (m : Message buffers) : Type 0 where
    pub buffer : Buffer
    pub stats : Stats
    pub has_buffer : m.buffer ≡ some buffer
    pub has_stats : m.stats ≡ some stats
    pub holds : total_rows buffer ≡ length rows
    pub counts : stats.rows ≡ total_rows buffer % u64_mod
    pub weighs : stats.bytes ≡ bytes_under sp rows % u64_mod
    pub respects : Respects cfg stats.rows stats.bytes

  abbrev pub ArePages : List (List Row) → List (Message buffers) → Type 0
  ArePages [] [] = Unit
  ArePages [] (m ∷ ms) = ⊥
  ArePages (rows ∷ pages) [] = ⊥
  ArePages (rows ∷ pages) (m ∷ ms) = IsPage rows m × ArePages pages ms

  -- What the tracker knows of the rows that it has counted since the last page.
  pub record Tracks (rows : List Row) (t : TrafficTracker) : Type 0 where
    pub counts : t.row_counter.current ≡ length rows % u64_mod
    pub weighs : t.byte_counter.current ≡ bytes_under sp rows % u64_mod
    pub respects : Respects cfg t.row_counter.current t.byte_counter.current

  -- A sink that took some rows, each of which is, in their order, in a page of the queue or in the
  -- buffer, and counted a further row or none.
  pub record Paged (taken : List Row) (pending : Option Row) (s : Sink buffers) : Type 0 where
    pub connected : s.cancelled ≡ false
    pub buffer : Buffer
    pub has_buffer : s.curr_buffer ≡ some buffer
    pub sent : List (List Row)
    pub current : List Row
    pub all_here : all_rows sent ++ current ≡ taken
    pub holds : total_rows buffer ≡ length current
    pub tracks : Tracks (with_pending current pending) s.tracker
    pub opened : Opened sp taken pending s.tracker.size_pattern
    pub pages : ArePages sent s.queue

  pub pages-snoc :
      (sent : List (List Row)) (ms : List (Message buffers)) (rows : List Row) (m : Message buffers)
      → ArePages sent ms
      → IsPage rows m
      → ArePages (sent ++ rows ∷ []) (ms ++ m ∷ [])
  pages-snoc [] [] rows m h p = (p, tt)
  pages-snoc [] (x ∷ ms) rows m h p = absurd h
  pages-snoc (page ∷ sent) [] rows m h p = absurd h
  pages-snoc (page ∷ sent) (x ∷ ms) rows m (q, h) p = (q, pages-snoc sent ms rows m h p)

  pub rows_sent-ArePages :
      (sent : List (List Row)) (ms : List (Message buffers))
      → ArePages sent ms
      → rows_sent buffers ms ≡ length (all_rows sent)
  rows_sent-ArePages [] [] h = refl
  rows_sent-ArePages [] (x ∷ ms) h = absurd h
  rows_sent-ArePages (page ∷ sent) [] h = absurd h
  rows_sent-ArePages (page ∷ sent) (x ∷ ms) (q, h) =
      let rest = rows_sent-ArePages sent ms h in
      let here : rows_of buffers x.buffer ≡ total_rows q.buffer =
        ap (rows_of buffers) q.has_buffer in
      let held = q.holds in omega (arith, length-append page (all_rows sent))
