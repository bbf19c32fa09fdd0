-- ===== src/Paging/Tracked.antt =====
-- sink.go: the pages of a sink after the read limit and the traffic tracker have seen a row.
use fq_connector_go.Common.{
  Bool, true, false, List, [], ◌∷◌, length-append, Option, none, some, inl, inr, ◌≡◌, sym, ap, ◌∙◌,
  arith,
}
use fq_connector_go.Errors.{Result, ok, err}
use fq_connector_go.Paging.Size.{SizePattern, estimate, new_size_pattern}
use fq_connector_go.Paging.Tracker.{PagingConfig, TrafficTracker, maybe_init, try_add_row}
use fq_connector_go.Paging.Limits.{
  Patterned, Kept, Took, Started, Fresh, Answered, try_add_row-Answered,
}
use fq_connector_go.Paging.Sink.{
  ReadLimiter, set_limiter, Buffers, Sink, outcome_of, limit_row, limiter_add_row, track_row,
}
use fq_connector_go.Paging.Ensures.{Ensures, Post}
use fq_connector_go.Paging.Pages.{Row, bytes_under-snoc, with_pending, Opened, Tracks, Paged}

-- The pattern is that of the first row.
abbrev pub Opens : SizePattern → List Row → Row → Type 0
Opens sp taken row = taken ≡ [] → new_size_pattern row ≡ ok sp

-- The pattern that tryAddRow uses.
maybe_init-Opened :
    (sp : SizePattern) (taken : List Row) (row : Row) (pattern : Option SizePattern)
    → Opens sp taken row
    → Opened sp taken none pattern
    → maybe_init row pattern ≡ ok sp
unfolding maybe_init
maybe_init-Opened sp taken row none first (inl h) = absurd (cc h)
maybe_init-Opened sp taken row none first (inr (p, h)) = first h
maybe_init-Opened sp taken row (some q) first (inl h) = cc
maybe_init-Opened sp taken row (some q) first (inr (h, k)) = absurd (cc h)

module _ (buffers : Buffers) (cfg : PagingConfig) (sp : SizePattern) where
  open buffers use {
    Buffer, make_buffer, buffer_add_row, total_rows, total_rows-make, total_rows-add,
  }

  limiter-Paged :
      (taken : List Row) (r : Result ReadLimiter) (s : Sink buffers)
      → Paged buffers cfg sp taken none s
      → Post (λ a s. Paged buffers cfg sp taken none s) (set_limiter buffers r s)
  unfolding set_limiter
  limiter-Paged taken (ok l) s p = record {
    connected = p.connected;
    buffer = p.buffer;
    has_buffer = p.has_buffer;
    sent = p.sent;
    current = p.current;
    all_here = p.all_here;
    holds = p.holds;
    tracks = p.tracks;
    opened = p.opened;
    pages = p.pages;
  }
  limiter-Paged taken (err e) s p = tt

  pub limit_row-Paged :
      (taken : List Row)
      → Ensures
          (Paged buffers cfg sp taken none)
          (limit_row buffers)
          (λ a s. Paged buffers cfg sp taken none s)
  unfolding limit_row
  limit_row-Paged taken = record { at = λ s p. limiter-Paged taken (limiter_add_row s.limiter) s p }

  module _ (taken : List Row) (row : Row) (first : Opens sp taken row) where
    -- After tryAddRow: the row is counted, or the page is full and not empty.
    abbrev pub Tracked : Bool → Sink buffers → Type 0
    Tracked true s = Paged buffers cfg sp taken (some row) s
    Tracked false s = Paged buffers cfg sp taken none s × Started s.tracker

    retrack :
        {s : Sink buffers} (p : Paged buffers cfg sp taken none s) (pending : Option Row)
        (t : TrafficTracker)
        → Tracks buffers cfg sp (with_pending p.current pending) t
        → Opened sp taken pending t.size_pattern
        → Paged buffers cfg sp taken pending (record s { tracker = t })
    retrack p pending t h o = record {
      connected = p.connected;
      buffer = p.buffer;
      has_buffer = p.has_buffer;
      sent = p.sent;
      current = p.current;
      all_here = p.all_here;
      holds = p.holds;
      tracks = h;
      opened = o;
      pages = p.pages;
    }

    -- The pattern in use is the one of the sink.
    same_pattern :
        {s : Sink buffers} (p : Paged buffers cfg sp taken none s) (t : TrafficTracker)
        (q : SizePattern)
        → Patterned row s.tracker t q
        → sp ≡ q
    same_pattern {s = s} p t q (chosen, kept) =
        let mine = maybe_init-Opened sp taken row s.tracker.size_pattern first p.opened in cc

    counted :
        (s : Sink buffers) (t : TrafficTracker)
        → Paged buffers cfg sp taken none s
        → Took cfg row s.tracker t
        → Paged buffers cfg sp taken (some row) (record s { tracker = t })
    counted s t p h =
        let same = same_pattern p t h.pattern h.patterned in
        let estimated : estimate sp row ≡ ok h.size = ap (λ q. estimate q row) same ∙ h.estimated in
        retrack p (some row) t
          (record {
            counts =
                let e = p.tracks.counts in
                let l = length-append p.current (row ∷ []) in let r = h.row_counted in omega arith;
            weighs =
                let e = p.tracks.weighs in
                let l = bytes_under-snoc sp p.current row estimated in
                let r = h.bytes_counted in omega arith;
            respects = h.within;
          })
          (h.patterned.1 ∙ ap (λ q. some q) (sym same))

    refused :
        (s : Sink buffers) (t : TrafficTracker) (q : SizePattern)
        → Paged buffers cfg sp taken none s
        → Kept s.tracker t
        → Patterned row s.tracker t q
        → Paged buffers cfg sp taken none (record s { tracker = t })
    refused s t q p k patterned =
        retrack p none t
          (record {
            counts = ap (λ c. c.current) k.rows_kept ∙ p.tracks.counts;
            weighs = ap (λ c. c.current) k.bytes_kept ∙ p.tracks.weighs;
            respects = rw (k.rows_kept, k.bytes_kept) p.tracks.respects;
          })
          (inl (patterned.1 ∙ ap (λ q. some q) (sym (same_pattern p t q patterned))))

    tracked :
        (s : Sink buffers) (r : Result Bool × TrafficTracker)
        → Paged buffers cfg sp taken none s
        → Answered cfg row s.tracker r
        → Post Tracked (outcome_of buffers r.0, record s { tracker = r.1 })
    tracked s (err e, t) p h = tt
    tracked s (ok true, t) p h = counted s t p h
    tracked s (ok false, t) p (k, h, (q, patterned)) = (
      refused s t q p k patterned,
      λ hr hb.
          h (ap (λ c. c.current) (sym k.rows_kept) ∙ hr)
            (ap (λ c. c.current) (sym k.bytes_kept) ∙ hb),
    )

    -- Right after a flush the row is counted.
    retracked :
        (s : Sink buffers) (r : Result Bool × TrafficTracker)
        → Paged buffers cfg sp taken none s
        → Fresh s.tracker
        → Answered cfg row s.tracker r
        → Post
            (λ a s. Paged buffers cfg sp taken (some row) s)
            (outcome_of buffers r.0, record s { tracker = r.1 })
    retracked s (err e, t) p f h = tt
    retracked s (ok true, t) p f h = counted s t p h
    retracked s (ok false, t) p (hr, hb) (k, h, q) = absurd (h hr hb)

    pub track_row-Tracked :
        Ensures (Paged buffers cfg sp taken none) (track_row buffers cfg row) Tracked
    unfolding track_row
    track_row-Tracked = record {
      at = λ s p.
          tracked s (try_add_row cfg row s.tracker) p (try_add_row-Answered cfg row s.tracker);
    }

    pub retrack_row-Paged :
        Ensures
          (λ s. Paged buffers cfg sp taken none s × Fresh s.tracker)
          (track_row buffers cfg row)
          (λ a s. Paged buffers cfg sp taken (some row) s)
    unfolding track_row
    retrack_row-Paged = record {
      at = λ s p.
          retracked s (try_add_row cfg row s.tracker) p.0 p.1
            (try_add_row-Answered cfg row s.tracker);
    }
