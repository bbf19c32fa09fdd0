-- ===== src/Paging/Finish.antt =====
-- sink.go: the pages of a sink after Finish.
use fq_connector_go.Common.{
  true, false, List, [], ◌∷◌, ◌++◌, length, append-nil, none, some, ◌≡◌, inl, inr, refl, sym, ap,
  ◌∙◌, subst, ◌==◌, ==0-cases,
}
use fq_connector_go.Paging.Size.{SizePattern}
use fq_connector_go.Paging.Tracker.{PagingConfig}
use fq_connector_go.Paging.Sink.{
  finish_flush, finish_flushed, finish_in, set_state, flush_buffer, Buffers, Outcome, returns, Sink,
  operational, finished, proceed, ◌>>◌, make_new_buffer, flush_rows, flush, notify_factory, finish,
}
use fq_connector_go.Paging.Pages.{Row, all_rows, rows_sent, ArePages, Paged, rows_sent-ArePages}
use fq_connector_go.Paging.Flushed.{
  length-zero, paged_out, flush_rows-paged_out, paged_out-ArePages, all_rows-paged_out,
}

module _ (buffers : Buffers) (cfg : PagingConfig) (sp : SizePattern) where
  open buffers use {
    Buffer, make_buffer, buffer_add_row, total_rows, total_rows-make, total_rows-add,
  }

  -- What Finish leaves: all rows that were taken are in pages, and the factory is notified.
  pub record Finished (taken : List Row) (s : Sink buffers) : Type 0 where
    pub is_finished : s.state ≡ finished
    pub notified : s.terminated ≡ true
    pub sent : List (List Row)
    pub all_sent : all_rows sent ≡ taken
    pub counted : rows_sent buffers s.queue ≡ length taken
    pub pages : ArePages buffers cfg sp sent s.queue

  -- A step returns, with the condition.
  abbrev Returns : (Sink buffers → Type 0) → Outcome (Unit {0}) × Sink buffers → Type 0
  Returns Q r = (s : Sink buffers) × (r ≡ (returns tt, s)) × Q s

  notified :
      (taken : List Row) (sent : List (List Row)) (s : Sink buffers)
      → s.cancelled ≡ false
      → s.state ≡ finished
      → all_rows sent ≡ taken
      → ArePages buffers cfg sp sent s.queue
      → Returns (Finished taken) (notify_factory buffers s)
  unfolding notify_factory
  notified taken sent s hc hs hn hp = (
    record s { terminated = true },
    rw hc refl,
    record {
      is_finished = hs;
      notified = refl;
      sent = sent;
      all_sent = hn;
      counted = rows_sent-ArePages buffers cfg sp sent s.queue hp ∙ ap length hn;
      pages = hp;
    },
  )

  flush-empty :
      (b : Buffer) (s : Sink buffers)
      → (total_rows b == 0) ≡ true
      → flush_buffer buffers false true (some b) s ≡ (returns tt, s)
  unfolding flush_buffer
  flush-empty b s e = rw e refl

  flush-rows :
      (b : Buffer) (s : Sink buffers)
      → s.cancelled ≡ false
      → (total_rows b == 0) ≡ false
      → flush_buffer buffers false true (some b) s ≡ (returns tt, paged_out buffers cfg sp s b true)
  unfolding flush_buffer make_new_buffer
  flush-rows b s c e =
      let k : flush_buffer buffers false true (some b) s ≡ flush_rows buffers false true b s =
        rw e refl in
      k ∙ flush_rows-paged_out buffers cfg sp false true b s c

  -- The flush of the current buffer, and Finish after it.
  after_flush :
      (taken : List Row) (s out : Sink buffers) (b : Buffer)
      → s.curr_buffer ≡ some b
      → flush_buffer buffers false true (some b) s ≡ (returns tt, out)
      → Returns (Finished taken) (notify_factory buffers (record out { state = finished }))
      → Returns (Finished taken) ((◌>>◌ buffers (finish_flush buffers) (notify_factory buffers)) s)
  unfolding finish_flush finish_flushed flush set_state
  after_flush taken s out b hb e h =
      let f : flush buffers false true s ≡ (returns tt, out) =
        ap (λ o. flush_buffer buffers false true o s) hb ∙ e in
      let k : finish_flush buffers s ≡ (returns tt, record out { state = finished }) =
        ap (λ r. finish_flushed buffers r.0 r.1) f in
      subst (λ r. Returns (Finished taken) (proceed buffers r.0 (λ _. notify_factory buffers) r.1))
        (sym k) h

  flushed_notified :
      (taken : List Row) (s : Sink buffers)
      → Paged buffers cfg sp taken none s
      → Returns (Finished taken) ((◌>>◌ buffers (finish_flush buffers) (notify_factory buffers)) s)
  flushed_notified taken s p = elim (==0-cases (total_rows p.buffer)) [
    | inl (z, e) ↦
        let empty : p.current ≡ [] = length-zero p.current (sym p.holds ∙ z) in
        let here : all_rows p.sent ≡ taken =
          sym (append-nil (all_rows p.sent))
          ∙ ap (λ l. all_rows p.sent ++ l) (sym empty)
          ∙ p.all_here in
        after_flush taken s s p.buffer p.has_buffer (flush-empty p.buffer s e)
          (notified taken p.sent (record s { state = finished }) p.connected refl here p.pages)
    | inr e ↦
        let out : Sink buffers = paged_out buffers cfg sp s p.buffer true in
        after_flush taken s out p.buffer p.has_buffer (flush-rows p.buffer s p.connected e) (
          notified taken (p.sent ++ p.current ∷ []) (record out { state = finished }) p.connected
            refl (all_rows-paged_out buffers cfg sp taken s p)
            (paged_out-ArePages buffers cfg sp taken s p true))
  ]

  -- Finish of an operational sink that took some rows, whose context is not done, returns. All those
  -- rows are then, in order, in the pages of the queue, as many as the buffers have, and the stats of
  -- each page count its rows, and the bytes at which the pattern estimates them (both modulo 2^64),
  -- and are within the limits. The sink is finished and the factory is notified.
  pub finish-Finished :
      (taken : List Row) (s : Sink buffers)
      → Paged buffers cfg sp taken none s
      → s.state ≡ operational
      → (s' : Sink buffers) × (finish buffers s ≡ (returns tt, s')) × Finished taken s'
  unfolding finish finish_in
  finish-Finished taken s p h =
      subst (λ state. Returns (Finished taken) (finish_in buffers state s)) (sym h)
        (flushed_notified taken s p)
