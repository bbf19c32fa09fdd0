-- ===== src/Streaming/Ends.antt =====
-- list_splits_streamer.go: how Run comes to an end, in a number of steps that the splits bound.
use fq_connector_go.Common.{
  ℕ, ◌+◌, ◌*◌, ◌≤◌, ◌<◌, length, Bool, true, false, List, [], ◌∷◌, ◌++◌, Option, none, some, ◌≡◌,
  ◌≢◌, ◌⊎◌, inl, inr, dec_lt, subst, refl, arith, ap,
}
use fq_connector_go.Errors.{Error, opaque}
use fq_connector_go.Streaming.Delivers.{Fits, Accounts, Steps-Accounts, new_streamer-Accounts}
use fq_connector_go.Streaming.{
  Phase, listing, reported, closed, Streamer, new_streamer, send_result_to_stream, Step, lists,
  reports, gives_up, closes, receives, send_fails, sees_closed, receives_error, receives_nil,
  sees_done, waits_over, cancels, Steps, stay, step,
}

abbrev phase_left : Phase → ℕ
phase_left listing = 3
phase_left reported = 1
phase_left closed = 0

abbrev context_left : Bool → ℕ
context_left true = 0
context_left false = 1

abbrev run_left : Option (Option Error) → ℕ
run_left none = 1
run_left (some r) = 0

abbrev wait_left : Bool → ℕ
wait_left true = 0
wait_left false = 1

module _ {Split : Type 0} where
  -- A bound of the steps that are left.
  unfoldable pub steps_left : Streamer Split → ℕ
  steps_left s =
      2 * length s.pending
      + length s.result_chan
      + length s.err_chan
      + phase_left s.phase
      + context_left s.cancelled
      + run_left s.run
      + wait_left s.waited

  length-append_one : (x : Split) (xs : List Split) → length (xs ++ x ∷ []) ≡ length xs + 1
  length-append_one x [] = refl
  length-append_one x (y ∷ xs) = let h = length-append_one x xs in omega arith

  Step-shrinks : (s t : Streamer Split) → Step s t → steps_left t < steps_left s
  unfolding steps_left send_result_to_stream
  Step-shrinks _ _ (lists s split splits p q l) =
      let a = ap length q in let b = length-append_one split s.result_chan in omega arith
  Step-shrinks _ _ (reports s p q) = let a = ap phase_left p in omega arith
  Step-shrinks _ _ (gives_up s e p c) = let a = ap phase_left p in omega arith
  Step-shrinks _ _ (closes s p) = let a = ap phase_left p in omega arith
  Step-shrinks _ _ (receives s split splits r q) = let a = ap length q in omega arith
  Step-shrinks _ _ (send_fails s split splits e r q) =
      let a = ap length q in let b = ap run_left r in omega arith
  Step-shrinks _ _ (sees_closed s r q p) = let b = ap run_left r in omega arith
  Step-shrinks _ _ (receives_error s e rest r q) =
      let a = ap length q in let b = ap run_left r in omega arith
  Step-shrinks _ _ (receives_nil s rest r q) = let a = ap length q in omega arith
  Step-shrinks _ _ (sees_done s r c) = let b = ap run_left r in omega arith
  Step-shrinks _ _ (waits_over s r p q w) = let a = ap wait_left w in omega arith
  Step-shrinks _ _ (cancels s c) = let a = ap context_left c in omega arith

  Steps-bounded :
      (s : Streamer Split) (n : ℕ) (t : Streamer Split)
      → Steps s n t
      → n + steps_left t ≤ steps_left s
  Steps-bounded s n _ stay = omega arith
  Steps-bounded s n _ (step {n = m} t u before last) =
      let a = Steps-bounded s m t before in let b = Step-shrinks t u last in omega arith

  -- The steps that Run and its goroutine take by themselves: neither the end of the context nor what
  -- is done because of it in the loop.
  abbrev pub IsOwn : {s t : Streamer Split} → Step s t → Type 0
  IsOwn (cancels s c) = ⊥
  IsOwn (sees_done s r c) = ⊥
  IsOwn _ = Unit

  abbrev pub CanStep : Streamer Split → Type 0
  CanStep s = (t : Streamer Split) × (move : Step s t) × IsOwn move

  -- The loop of Run has ended with an error and receives no more, and the goroutine waits at a full
  -- channel with a split that it has yet to list.
  pub record IsBlocked (s : Streamer Split) : Type 0 where
    pub error : Error
    pub ended : s.run ≡ some (some error)
    pub listing_on : s.phase ≡ listing
    pub has_more : s.pending ≢ []
    pub full : 32 ≤ length s.result_chan
    pub alive : s.cancelled ≡ false

  list_or_see :
      (s : Streamer Split) (phase : Phase) (pending : List Split)
      → s.run ≡ none
      → s.result_chan ≡ []
      → s.phase ≡ phase
      → s.pending ≡ pending
      → CanStep s
  list_or_see s listing [] r q p l = (_, reports s p l, tt)
  list_or_see s listing (x ∷ xs) r q p l =
      let room : length s.result_chan < 32 = let a = ap length q in omega arith in
      (_, lists s x xs p l room, tt)
  list_or_see s reported xs r q p l = (_, closes s p, tt)
  list_or_see s closed xs r q p l = (_, sees_closed s r q p, tt)

  receive_or_list :
      (s : Streamer Split) (chan : List Split) → s.run ≡ none → s.result_chan ≡ chan → CanStep s
  receive_or_list s [] r q = list_or_see s s.phase s.pending r q refl refl
  receive_or_list s (x ∷ xs) r q = (_, receives s x xs r q, tt)

  -- At a full channel behind the loop.
  give_up_or_block :
      (all : List Split) (s : Streamer Split) (cancelled : Bool) (r : Option Error)
      → Accounts all s
      → s.run ≡ some r
      → s.phase ≡ listing
      → s.pending ≢ []
      → 32 ≤ length s.result_chan
      → s.cancelled ≡ cancelled
      → CanStep s ⊎ IsBlocked s
  give_up_or_block all s true r a h p l f c = inl (_, gives_up s opaque p c, tt)
  give_up_or_block all s false none a h p l f c =
      let (u, q, k) = subst (λ x. Fits x s.unsent s.result_chan s.phase) h a.fits in
      absurd (let e : listing ≡ closed = cc in cc e)
  give_up_or_block all s false (some e) a h p l f c =
      inr (record { error = e; ended = h; listing_on = p; has_more = l; full = f; alive = c })

  -- Behind the loop the goroutine goes on.
  close_or_block :
      (all : List Split) (s : Streamer Split) (phase : Phase) (pending : List Split)
      (r : Option Error)
      → Accounts all s
      → s.run ≡ some r
      → s.waited ≡ false
      → s.phase ≡ phase
      → s.pending ≡ pending
      → CanStep s ⊎ IsBlocked s
  close_or_block all s listing [] r a h w p l = inl (_, reports s p l, tt)
  close_or_block all s listing (x ∷ xs) r a h w p l = elim (dec_lt (length s.result_chan) 32) [
    | yes room ↦ inl (_, lists s x xs p l room, tt)
    | no full ↦ give_up_or_block all s s.cancelled r a h p (λ e. cc) (omega arith) refl
  ]
  close_or_block all s reported xs r a h w p l = inl (_, closes s p, tt)
  close_or_block all s closed xs r a h w p l = inl (_, waits_over s r h p w, tt)

  running_or_ended :
      (all : List Split) (s : Streamer Split) (run : Option (Option Error))
      → Accounts all s
      → s.run ≡ run
      → s.waited ≡ false
      → CanStep s ⊎ IsBlocked s
  running_or_ended all s none a h w = inl (receive_or_list s s.result_chan h refl)
  running_or_ended all s (some r) a h w = close_or_block all s s.phase s.pending r a h w refl refl

  returned_or_moves :
      (all : List Split) (s : Streamer Split) (waited : Bool)
      → Accounts all s
      → s.waited ≡ waited
      → (s.waited ≡ true) ⊎ (CanStep s ⊎ IsBlocked s)
  returned_or_moves all s true a w = inl w
  returned_or_moves all s false a w = inr (running_or_ended all s s.run a refl w)

  -- Run for a data source that lists so many splits takes no more than twice the number of splits
  -- and six steps, its own and those of the goroutine and the context together. After any of them it
  -- has returned, or it or its goroutine can take a step without the end of the context, or the loop
  -- has ended with an error while the goroutine waits at the full channel, with more to list, and
  -- the context is not done.
  pub run-returns :
      (splits : List Split) (outcome : Option Error) (n : ℕ) (s : Streamer Split)
      → Steps (new_streamer splits outcome) n s
      → (n ≤ 2 * length splits + 6) × ((s.waited ≡ true) ⊎ (CanStep s ⊎ IsBlocked s))
  unfolding new_streamer steps_left
  run-returns splits outcome n s steps =
      let b = Steps-bounded (new_streamer splits outcome) n s steps in
      let a =
        Steps-Accounts splits (new_streamer splits outcome) n s
          (new_streamer-Accounts splits outcome) steps in
      (omega arith, returned_or_moves splits s s.waited a refl)
