-- ===== src/Streaming/Blocks.antt =====
-- list_splits_streamer.go: the deferred wg.Wait waits for a goroutine that nobody receives from.
use fq_connector_go.Common.{
  ℕ, ◌+◌, ◌<◌, length, true, false, List, [], ◌∷◌, ◌++◌, append_assoc, append-nil, length-append,
  Option, some, ◌≡◌, refl, arith, sym, subst,
}
use fq_connector_go.Errors.{Error}
use fq_connector_go.Streaming.{
  listing, Streamer, new_streamer, Step, lists, reports, gives_up, closes, receives, send_fails,
  sees_closed, receives_error, receives_nil, sees_done, waits_over, cancels, Steps, stay, step,
}
use fq_connector_go.Streaming.Ends.{IsBlocked}

module _ {Split : Type 0} where
  -- Nothing happens in a blocked state but the end of the context.
  blocked_only : (s t : Streamer Split) → IsBlocked s → Step s t → t ≡ record s { cancelled = true }
  blocked_only s _ b (lists _ split splits p q l) = absurd (let f = b.full in omega arith)
  blocked_only s _ b (reports _ p q) = absurd (b.has_more q)
  blocked_only s _ b (gives_up _ e p c) = absurd (let a = b.alive in cc c)
  blocked_only s _ b (closes _ p) = absurd (let a = b.listing_on in cc p)
  blocked_only s _ b (receives _ split splits r q) = absurd (let a = b.ended in cc r)
  blocked_only s _ b (send_fails _ split splits e r q) = absurd (let a = b.ended in cc r)
  blocked_only s _ b (sees_closed _ r q p) = absurd (let a = b.ended in cc r)
  blocked_only s _ b (receives_error _ e rest r q) = absurd (let a = b.ended in cc r)
  blocked_only s _ b (receives_nil _ rest r q) = absurd (let a = b.ended in cc r)
  blocked_only s _ b (sees_done _ r c) = absurd (let a = b.ended in cc r)
  blocked_only s _ b (waits_over _ r h p w) = absurd (let a = b.listing_on in cc p)
  blocked_only s _ b (cancels _ c) = refl

  module _ (outcome : Option Error) (e : Error) (x : Split) where
    -- The loop has ended because `x` could not be sent; the goroutine goes on.
    abbrev failed_state : List Split → List Split → Streamer Split
    failed_state chan pending = record {
      pending = pending;
      outcome = outcome;
      phase = listing;
      result_chan = chan;
      err_chan = [];
      stream = [];
      split_counter = 0;
      unsent = x ∷ [];
      cancelled = false;
      run = some (some e);
      waited = false;
    }

    fills :
        (start : Streamer Split) (chan more rest : List Split) (n : ℕ)
        → length chan + length more ≡ 32
        → Steps start n (failed_state chan (more ++ rest))
        → (m : ℕ) × Steps start m (failed_state (chan ++ more) rest)
    fills start chan [] rest n h before =
        (n, subst (λ c. Steps start n (failed_state c rest)) (sym (append-nil chan)) before)
    fills start chan (y ∷ more) rest n h before =
        let room : length chan < 32 = omega arith in
        let longer : length (chan ++ y ∷ []) + length more ≡ 32 =
          omega (arith, length-append chan (y ∷ [])) in
        let listed = step _ _ before (lists _ y (more ++ rest) refl refl room) in
        let (m, filled) = fills start (chan ++ y ∷ []) more rest _ longer listed in
        (
          m,
          subst (λ c. Steps start m (failed_state c rest)) (append_assoc chan (y ∷ []) more) filled,
        )

    -- If sending the first split fails and more than 32 are left, Run can come to wait in wg.Wait
    -- for the goroutine, which waits at the full channel: then nothing can happen any more but the
    -- end of the context.
    pub send_failure-blocks :
        (full : List Split) (y : Split) (rest : List Split)
        → length full ≡ 32
        → (n : ℕ) × (s : Streamer Split) × Steps (new_streamer (x ∷ (full ++ y ∷ rest)) outcome) n s
          × (s.run ≡ some (some e))
          × (s.waited ≡ false)
          × ((t : Streamer Split) → Step s t → t ≡ record s { cancelled = true })
    unfolding new_streamer
    send_failure-blocks full y rest h =
        let room : 0 < 32 = omega arith in
        let sum : 0 + length full ≡ 32 = omega arith in
        let start = new_streamer (x ∷ (full ++ y ∷ rest)) outcome in
        let listed = step start _ stay (lists _ x (full ++ y ∷ rest) refl refl room) in
        let failed = step _ _ listed (send_fails _ x [] e refl refl) in
        let (n, filled) = fills start [] full (y ∷ rest) _ sum failed in
        let blocked : IsBlocked (failed_state full (y ∷ rest)) = record {
          error = e;
          ended = refl;
          listing_on = refl;
          has_more = λ k. cc;
          full = omega arith;
          alive = refl;
        } in
        (
          n,
          failed_state full (y ∷ rest),
          filled,
          refl,
          refl,
          λ t move. blocked_only _ t blocked move,
        )
