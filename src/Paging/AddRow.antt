-- ===== src/Paging/AddRow.antt =====
-- sink.go: the pages of a sink after AddRow.
use fq_connector_go.Common.{
  ◌+◌, Bool, true, false, List, [], ◌∷◌, ◌++◌, append_assoc, length-append, none, inl, sym, ap, ◌∙◌,
  some, ◌≡◌, refl, arith,
}
use fq_connector_go.Errors.{Result, ok, err}
use fq_connector_go.Paging.Size.{SizePattern}
use fq_connector_go.Paging.Tracker.{PagingConfig}
use fq_connector_go.Paging.Sink.{
  append_to, add_row_in, Buffers, returns, Sink, SinkState, operational, failed, finished,
  outcome_of, flush, limit_row, track_row, make_room, append_row, add_row_operational, add_row,
}
use fq_connector_go.Paging.Ensures.{Ensures, Post, Ensures-bind}
use fq_connector_go.Paging.Pages.{Row, all_rows, Paged}
use fq_connector_go.Paging.Tracked.{
  Opens, Tracked, limit_row-Paged, track_row-Tracked, retrack_row-Paged,
}
use fq_connector_go.Paging.Flushed.{flush-Paged}

module _ (buffers : Buffers) (cfg : PagingConfig) (sp : SizePattern) where
  open buffers use {
    Buffer, make_buffer, buffer_add_row, total_rows, total_rows-make, total_rows-add,
  }

  module _ (taken : List Row) (row : Row) (first : Opens sp taken row) where
    -- The sink took the row too.
    abbrev Added : Sink buffers → Type 0
    Added = Paged buffers cfg sp (taken ++ row ∷ []) none

    make_room-Paged :
        (ok' : Bool)
        → Ensures
            (Tracked buffers cfg sp taken row first ok')
            (make_room buffers cfg row ok')
            (λ a s. Paged buffers cfg sp taken (some row) s)
    unfolding make_room
    make_room-Paged true = record { at = λ s p. p }
    make_room-Paged false =
        Ensures-bind (flush buffers true false) _ (flush-Paged buffers cfg sp taken) (λ _.
          Ensures-bind (track_row buffers cfg row) _
            (retrack_row-Paged buffers cfg sp taken row first) (λ _. record { at = λ s p. p }))

    appended :
        (s : Sink buffers) (p : Paged buffers cfg sp taken (some row) s)
        (r : Result (Unit {0}) × Buffer)
        → buffer_add_row row p.buffer ≡ r
        → Post (λ a s. Added s) (outcome_of buffers r.0, record s { curr_buffer = some r.1 })
    appended s p (err e, b) h = tt
    appended s p (ok _, b) h = record {
      connected = p.connected;
      buffer = b;
      has_buffer = refl;
      sent = p.sent;
      current = p.current ++ row ∷ [];
      all_here =
          sym (append_assoc (all_rows p.sent) p.current (row ∷ []))
          ∙ ap (λ l. l ++ row ∷ []) p.all_here;
      holds =
          let more : total_rows b ≡ total_rows p.buffer + 1 = total_rows-add row p.buffer b h in
          let held = p.holds in omega (arith, length-append p.current (row ∷ []));
      tracks = p.tracks;
      opened = inl p.opened;
      pages = p.pages;
    }

    append_row-Paged :
        Ensures
          (Paged buffers cfg sp taken (some row))
          (append_row buffers cfg row)
          (λ a s. Added s)
    unfolding append_row append_to
    append_row-Paged = record {
      at = λ s p. rw (p.has_buffer) (appended s p (buffer_add_row row p.buffer) refl);
    }

    add_row_operational-Paged :
        Ensures
          (Paged buffers cfg sp taken none)
          (add_row_operational buffers cfg row)
          (λ a s. Added s)
    unfolding add_row_operational
    add_row_operational-Paged =
        Ensures-bind (limit_row buffers) _ (limit_row-Paged buffers cfg sp taken) (λ _.
          Ensures-bind (track_row buffers cfg row) _
            (track_row-Tracked buffers cfg sp taken row first)
            (λ ok'.
              Ensures-bind (make_room buffers cfg row ok') _ (make_room-Paged ok')
                (λ _. append_row-Paged)))

    add_row_in-Paged :
        (state : SinkState)
        → Ensures
            (Paged buffers cfg sp taken none)
            (add_row_in buffers cfg state row)
            (λ a s. Added s)
    unfolding add_row_in
    add_row_in-Paged operational = add_row_operational-Paged
    add_row_in-Paged failed = record { at = λ s p. tt }
    add_row_in-Paged finished = record { at = λ s p. tt }

  pub add_row-Paged :
      (taken : List Row) (row : Row) (s s' : Sink buffers)
      → Opens sp taken row
      → Paged buffers cfg sp taken none s
      → add_row buffers cfg row s ≡ (returns tt, s')
      → Paged buffers cfg sp (taken ++ row ∷ []) none s'
  unfolding add_row
  add_row-Paged taken row s s' first p h =
      rw h at ((add_row_in-Paged taken row first s.state).at s p)
