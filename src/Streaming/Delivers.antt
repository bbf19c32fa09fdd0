-- ===== src/Streaming/Delivers.antt =====
-- list_splits_streamer.go: what the client has got when Run returns.
use fq_connector_go.Common.{
  ℕ, suc, ◌+◌, length, false, List, [], ◌∷◌, ◌++◌, append_assoc, append-nil, Option, none, some,
  ◌≡◌, ◌≢◌, refl, arith, ap, sym, ◌∙◌, subst,
}
use fq_connector_go.Errors.{Error}
use fq_connector_go.Streaming.{
  Phase, listing, closed, Streamer, new_streamer, send_result_to_stream, Step, lists, reports,
  gives_up, closes, receives, send_fails, sees_closed, receives_error, receives_nil, sees_done,
  waits_over, cancels, Steps, stay, step,
}

module _ {Split : Type 0} where
  -- The splits with their ids, from an id on.
  abbrev pub numbered : ℕ → List Split → List (ℕ × Split)
  numbered n [] = []
  numbered n (x ∷ xs) = (n, x) ∷ numbered (n + 1) xs

  pub numbered-append :
      (n : ℕ) (x : Split) (xs : List Split)
      → numbered n (xs ++ x ∷ []) ≡ numbered n xs ++ (n + length xs, x) ∷ []
  numbered-append n x [] = let e : n ≡ n + 0 = omega arith in ap (λ k. (k, x) ∷ []) e
  numbered-append n x (y ∷ xs) =
      let e : (n + 1) + length xs ≡ n + suc (length xs) = omega arith in
      ap (λ l. (n, y) ∷ l)
        (numbered-append (n + 1) x xs ∙ ap (λ k. numbered (n + 1) xs ++ (k, x) ∷ []) e)

  -- What the loop of Run ended with goes with the split that was not sent, the channel and the phase: if it is
  -- nil, nothing is left.
  abbrev pub Fits : Option (Option Error) → List Split → List Split → Phase → Type 0
  Fits none unsent chan phase = unsent ≡ []
  Fits (some none) unsent chan phase = (unsent ≡ []) × (chan ≡ []) × (phase ≡ closed)
  Fits (some (some e)) unsent chan phase = Unit

  -- Every split is sent, failed to be sent, in the channel, or yet to be listed.
  pub record Accounts (splits : List Split) (s : Streamer Split) : Type 0 where
    pub taken : List Split
    pub delivered : s.stream ≡ numbered 0 taken
    pub counted : s.split_counter ≡ length taken
    pub conserved : taken ++ (s.unsent ++ (s.result_chan ++ s.pending)) ≡ splits
    pub listed : s.cancelled ≡ false → s.phase ≢ listing → s.pending ≡ []
    pub fits : Fits s.run s.unsent s.result_chan s.phase

  length-append_one : (x : Split) (xs : List Split) → length (xs ++ x ∷ []) ≡ length xs + 1
  length-append_one x [] = refl
  length-append_one x (y ∷ xs) = let h = length-append_one x xs in omega arith

  -- Before the channel is closed, the loop has not ended with nil, and what is in the channel may change.
  Fits-unclosed :
      (r : Option (Option Error)) (u c d : List Split) (p q : Phase)
      → p ≢ closed
      → Fits r u c p
      → Fits r u d q
  Fits-unclosed none u c d p q n h = h
  Fits-unclosed (some none) u c d p q n h = absurd (n (h.2))
  Fits-unclosed (some (some e)) u c d p q n h = tt

  pub Fits-running :
      {r : Option (Option Error)} (u c : List Split) (p : Phase) → r ≡ none → Fits r u c p → u ≡ []
  Fits-running u c p h f = subst (λ r. Fits r u c p) h f

  -- The next split of the channel, while nothing failed to be sent.
  pub next_left :
      {unsent chan : List Split} (split : Split) (splits pending : List Split)
      → unsent ≡ []
      → chan ≡ split ∷ splits
      → split ∷ (splits ++ pending) ≡ unsent ++ (chan ++ pending)
  next_left {chan = chan} split splits pending u q =
      sym (ap (λ v. v ++ (chan ++ pending)) u ∙ ap (λ c. c ++ pending) q)

  pub Step-Accounts :
      (all : List Split) (s t : Streamer Split) → Step s t → Accounts all s → Accounts all t
  unfolding send_result_to_stream
  Step-Accounts all _ _ (lists s split splits p q l) a = record {
    taken = a.taken;
    delivered = a.delivered;
    counted = a.counted;
    conserved =
        let e : (s.result_chan ++ split ∷ []) ++ splits ≡ s.result_chan ++ s.pending =
          append_assoc s.result_chan (split ∷ []) splits ∙ ap (λ l. s.result_chan ++ l) (sym q) in
        ap (λ l. a.taken ++ (s.unsent ++ l)) e ∙ a.conserved;
    listed = λ c n. absurd (n p);
    fits = Fits-unclosed s.run s.unsent s.result_chan _ s.phase _ (λ h. cc) a.fits;
  }
  Step-Accounts all _ _ (reports s p q) a = record {
    taken = a.taken;
    delivered = a.delivered;
    counted = a.counted;
    conserved = a.conserved;
    listed = λ c n. q;
    fits = Fits-unclosed s.run s.unsent s.result_chan _ s.phase _ (λ h. cc) a.fits;
  }
  Step-Accounts all _ _ (gives_up s e p c) a = record {
    taken = a.taken;
    delivered = a.delivered;
    counted = a.counted;
    conserved = a.conserved;
    listed = λ d n. absurd (cc d);
    fits = Fits-unclosed s.run s.unsent s.result_chan _ s.phase _ (λ h. cc) a.fits;
  }
  Step-Accounts all _ _ (closes s p) a = record {
    taken = a.taken;
    delivered = a.delivered;
    counted = a.counted;
    conserved = a.conserved;
    listed = λ c n. a.listed c (λ h. cc);
    fits = Fits-unclosed s.run s.unsent s.result_chan _ s.phase _ (λ h. cc) a.fits;
  }
  Step-Accounts all _ _ (receives s split splits r q) a = record {
    taken = a.taken ++ split ∷ [];
    delivered =
        let zero_first : length a.taken ≡ 0 + length a.taken = omega arith in
        ap (λ l. l ++ (s.split_counter, split) ∷ []) a.delivered
        ∙ ap (λ k. numbered 0 a.taken ++ (k, split) ∷ []) a.counted
        ∙ ap (λ k. numbered 0 a.taken ++ (k, split) ∷ []) zero_first
        ∙ sym (numbered-append 0 split a.taken);
    counted = ap (λ k. k + 1) a.counted ∙ sym (length-append_one split a.taken);
    conserved =
        let u = Fits-running s.unsent s.result_chan s.phase r a.fits in
        append_assoc a.taken (split ∷ []) (s.unsent ++ (splits ++ s.pending))
        ∙ ap (λ v. a.taken ++ split ∷ (v ++ (splits ++ s.pending))) u
        ∙ ap (λ l. a.taken ++ l) (next_left split splits s.pending u q)
        ∙ a.conserved;
    listed = a.listed;
    fits =
        subst (λ x. Fits x s.unsent splits s.phase) (sym r)
          (Fits-running s.unsent s.result_chan s.phase r a.fits);
  }
  Step-Accounts all _ _ (send_fails s split splits e r q) a = record {
    taken = a.taken;
    delivered = a.delivered;
    counted = a.counted;
    conserved =
        ap (λ l. a.taken ++ l)
          (next_left split splits s.pending (Fits-running s.unsent s.result_chan s.phase r a.fits)
            q)
        ∙ a.conserved;
    listed = a.listed;
    fits = tt;
  }
  Step-Accounts all _ _ (sees_closed s r q p) a = record {
    taken = a.taken;
    delivered = a.delivered;
    counted = a.counted;
    conserved = a.conserved;
    listed = a.listed;
    fits = (Fits-running s.unsent s.result_chan s.phase r a.fits, q, p);
  }
  Step-Accounts all _ _ (receives_error s e rest r q) a = record {
    taken = a.taken;
    delivered = a.delivered;
    counted = a.counted;
    conserved = a.conserved;
    listed = a.listed;
    fits = tt;
  }
  Step-Accounts all _ _ (receives_nil s rest r q) a = record {
    taken = a.taken;
    delivered = a.delivered;
    counted = a.counted;
    conserved = a.conserved;
    listed = a.listed;
    fits = a.fits;
  }
  Step-Accounts all _ _ (sees_done s r c) a = record {
    taken = a.taken;
    delivered = a.delivered;
    counted = a.counted;
    conserved = a.conserved;
    listed = a.listed;
    fits = tt;
  }
  Step-Accounts all _ _ (waits_over s r p q w) a = record {
    taken = a.taken;
    delivered = a.delivered;
    counted = a.counted;
    conserved = a.conserved;
    listed = a.listed;
    fits = a.fits;
  }
  Step-Accounts all _ _ (cancels s c) a = record {
    taken = a.taken;
    delivered = a.delivered;
    counted = a.counted;
    conserved = a.conserved;
    listed = λ d n. absurd (cc d);
    fits = a.fits;
  }

  pub Steps-Accounts :
      (all : List Split) (s : Streamer Split) (n : ℕ) (t : Streamer Split)
      → Accounts all s
      → Steps s n t
      → Accounts all t
  Steps-Accounts all s n _ a stay = a
  Steps-Accounts all s n _ a (step {n = m} t u before last) =
      Step-Accounts all t u last (Steps-Accounts all s m t a before)

  pub new_streamer-Accounts :
      (all : List Split) (outcome : Option Error) → Accounts all (new_streamer all outcome)
  unfolding new_streamer
  new_streamer-Accounts all outcome = record {
    taken = [];
    delivered = refl;
    counted = refl;
    conserved = refl;
    listed = λ c n. absurd (n refl);
    fits = refl;
  }

  finished-stream :
      (all : List Split) (s : Streamer Split)
      → Accounts all s
      → s.run ≡ some none
      → s.cancelled ≡ false
      → s.stream ≡ numbered 0 all
  finished-stream all s a r c =
      let (u, q, p) = subst (λ x. Fits x s.unsent s.result_chan s.phase) r a.fits in
      let l : s.pending ≡ [] = a.listed c (λ h. cc) in
      let nothing : s.unsent ++ (s.result_chan ++ s.pending) ≡ [] =
        ap (λ v. v ++ (s.result_chan ++ s.pending)) u ∙ ap (λ v. v ++ s.pending) q ∙ l in
      let same : a.taken ≡ all =
        sym (append-nil a.taken) ∙ ap (λ v. a.taken ++ v) (sym nothing) ∙ a.conserved in
      a.delivered ∙ ap (numbered 0) same

  -- When the loop of Run has ended with nil, as it has when Run returns nil, and the context of the
  -- stream is not done, the client has got every split that the data source listed, in order, with
  -- the ids 0, 1, 2 and so on.
  pub run-delivers :
      (splits : List Split) (outcome : Option Error) (n : ℕ) (s : Streamer Split)
      → Steps (new_streamer splits outcome) n s
      → s.run ≡ some none
      → s.cancelled ≡ false
      → s.stream ≡ numbered 0 splits
  run-delivers splits outcome n s steps = finished-stream splits s (
      Steps-Accounts splits (new_streamer splits outcome) n s (new_streamer-Accounts splits outcome)
        steps)
