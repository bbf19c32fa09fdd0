-- ===== src/Paging/Flushed.antt =====
-- sink.go: the pages of a sink after `flush`.
use fq_connector_go.Common.{
  ◌%◌, Bool, true, false, List, length, append-nil, ap, [], ◌∷◌, ◌++◌, none, some, ◌≡◌, inl, inr,
  refl, sym, ◌∙◌, subst, arith, ==0-cases,
}
use fq_connector_go.Errors.{Result, ok, err}
use fq_connector_go.Paging.Size.{SizePattern, u64_mod}
use fq_connector_go.Paging.Tracker.{PagingConfig, dump_stats, refresh_counters, make_child}
use fq_connector_go.Paging.Limits.{Started, Fresh, Fresh-Respects}
use fq_connector_go.Paging.Sink.{
  flush_buffer, Buffers, Message, Sink, respond_with, replace_buffer, make_new_buffer, flush_rows,
  flush,
}
use fq_connector_go.Paging.Ensures.{Ensures, Post}
use fq_connector_go.Paging.Pages.{
  Row, bytes_under, all_rows, all_rows-snoc, Opened, IsPage, ArePages, Paged, pages-snoc,
}

pub length-zero : {A : Type 0} (l : List A) → length l ≡ 0 → l ≡ []
length-zero [] h = refl
length-zero (x ∷ l) h = absurd (omega arith)

module _ (buffers : Buffers) (cfg : PagingConfig) (sp : SizePattern) where
  open buffers use {
    Buffer, make_buffer, buffer_add_row, total_rows, total_rows-make, total_rows-add,
  }

  replaced :
      (taken : List Row) (sent : List (List Row)) (s : Sink buffers) (r : Result Buffer)
      → make_buffer ≡ r
      → s.cancelled ≡ false
      → all_rows sent ≡ taken
      → ArePages buffers cfg sp sent s.queue
      → Opened sp taken none s.tracker.size_pattern
      → Fresh s.tracker
      → Post
          (λ a s. Paged buffers cfg sp taken none s × Fresh s.tracker)
          (replace_buffer buffers r s)
  unfolding replace_buffer
  replaced taken sent s (err e) made hc hn hp o f = tt
  replaced taken sent s (ok b) made hc hn hp o f = (
    record {
      connected = hc;
      buffer = b;
      has_buffer = refl;
      sent = sent;
      current = [];
      all_here = append-nil (all_rows sent) ∙ hn;
      holds = total_rows-make b made;
      tracks = record { counts = f.0; weighs = f.1; respects = Fresh-Respects cfg s.tracker f };
      opened = o;
      pages = hp;
    },
    f,
  )

  -- The page that a flush sends, and the sink behind it.
  abbrev pub page_of : Sink buffers → Buffer → Bool → Message buffers
  page_of s b is_terminal = record {
    buffer = some b;
    stats = some (dump_stats false s.tracker);
    error = none;
    is_terminal = is_terminal;
  }

  abbrev pub paged_out : Sink buffers → Buffer → Bool → Sink buffers
  paged_out s b is_terminal = record s {
    curr_buffer = none;
    queue = s.queue ++ page_of s b is_terminal ∷ [];
    tracker = refresh_counters s.tracker;
  }

  pub flush_rows-paged_out :
      (make_new is_terminal : Bool) (b : Buffer) (s : Sink buffers)
      → s.cancelled ≡ false
      → flush_rows buffers make_new is_terminal b s
        ≡ make_new_buffer buffers make_new (paged_out s b is_terminal)
  unfolding flush_rows respond_with
  flush_rows-paged_out make_new is_terminal b s h = rw h

  module _ (taken : List Row) (s : Sink buffers) (p : Paged buffers cfg sp taken none s) where
    pub page_of-IsPage :
        (is_terminal : Bool) → IsPage buffers cfg sp p.current (page_of s p.buffer is_terminal)
    unfolding dump_stats
    page_of-IsPage is_terminal = record {
      buffer = p.buffer;
      stats = dump_stats false s.tracker;
      has_buffer = refl;
      has_stats = refl;
      holds = p.holds;
      counts = p.tracks.counts ∙ ap (λ n. n % u64_mod) (sym p.holds);
      weighs = p.tracks.weighs;
      respects = p.tracks.respects;
    }

    -- The pages of the queue with the one that is sent.
    pub paged_out-ArePages :
        (is_terminal : Bool)
        → ArePages buffers cfg sp
            (p.sent ++ p.current ∷ [])
            (paged_out s p.buffer is_terminal).queue
    paged_out-ArePages is_terminal =
        pages-snoc buffers cfg sp p.sent s.queue p.current (page_of s p.buffer is_terminal) p.pages
          (page_of-IsPage is_terminal)

    pub all_rows-paged_out : all_rows (p.sent ++ p.current ∷ []) ≡ taken
    all_rows-paged_out = all_rows-snoc p.sent p.current ∙ p.all_here

    flushed_rows-Paged :
        Post
          (λ a s. Paged buffers cfg sp taken none s × Fresh s.tracker)
          (flush_rows buffers true false p.buffer s)
    unfolding make_new_buffer refresh_counters make_child
    flushed_rows-Paged = rw (flush_rows-paged_out true false p.buffer s p.connected) (
        replaced taken (p.sent ++ p.current ∷ []) (paged_out s p.buffer false) make_buffer refl
          p.connected all_rows-paged_out (paged_out-ArePages false) p.opened (refl, refl))

    flushed-Paged :
        Started s.tracker
        → Post
            (λ a s. Paged buffers cfg sp taken none s × Fresh s.tracker)
            (flush_buffer buffers true false (some p.buffer) s)
    unfolding flush_buffer
    flushed-Paged h = elim (==0-cases (total_rows p.buffer)) [
      | inl (z, e) ↦
          let empty : p.current ≡ [] = length-zero p.current (sym p.holds ∙ z) in
          absurd (
            h (p.tracks.counts ∙ ap (λ l. length l % u64_mod) empty)
              (p.tracks.weighs ∙ ap (λ l. bytes_under sp l % u64_mod) empty))
      | inr e ↦ rw e flushed_rows-Paged
    ]

  pub flush-Paged :
      (taken : List Row)
      → Ensures
          (λ s. Paged buffers cfg sp taken none s × Started s.tracker)
          (flush buffers true false)
          (λ a s. Paged buffers cfg sp taken none s × Fresh s.tracker)
  unfolding flush
  flush-Paged taken = record {
    at = λ s (p, h).
        subst
          (λ o.
            Post (λ a s. Paged buffers cfg sp taken none s × Fresh s.tracker)
              (flush_buffer buffers true false o s))
          (sym p.has_buffer) (flushed-Paged taken s p h);
  }
