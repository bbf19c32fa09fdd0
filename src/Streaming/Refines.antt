-- ===== src/Streaming/Refines.antt =====
-- list_splits_streamer.go: Run implements a server that hands out the splits one after another.
use fq_connector_go.Common.{
  ℕ, ◌+◌, length, List, [], ◌∷◌, ◌++◌, append_assoc, Option, ◌≡◌, refl, sym, ap, ◌∙◌, arith, subst,
}
use fq_connector_go.Errors.{Error}
use fq_connector_go.Streaming.{
  Streamer, new_streamer, send_result_to_stream, Step, lists, reports, gives_up, closes, receives,
  send_fails, sees_closed, receives_error, receives_nil, sees_done, waits_over, cancels, Steps,
  stay, step,
}
use fq_connector_go.Streaming.Delivers.{
  numbered, next_left, Fits-running, Accounts, Step-Accounts, new_streamer-Accounts,
}

-- The abstract server: the messages that it has sent, and the splits that it still has.
pub record Server (Split : Type 0) : Type 0 where
  pub messages : List (ℕ × Split)
  pub left : List Split

module _ {Split : Type 0} where
  -- It sends the first split that it has, with the number of the messages before as its id.
  pub data Hands : Server Split → Server Split → Type 0 where
    hands :
        (messages : List (ℕ × Split)) (split : Split) (left : List Split)
        → Hands
            (record { messages = messages; left = split ∷ left })
            (record { messages = messages ++ (length messages, split) ∷ []; left = left })

  pub data HandsAll (start : Server Split) : Server Split → Type 0 where
    waits : HandsAll start start
    then_hands : (a b : Server Split) → HandsAll start a → Hands a b → HandsAll start b

  -- The abstract server that a streamer stands for.
  unfoldable pub server_of : Streamer Split → Server Split
  server_of s = record { messages = s.stream; left = s.unsent ++ (s.result_chan ++ s.pending) }

  length-numbered : (n : ℕ) (xs : List Split) → length (numbered n xs) ≡ length xs
  length-numbered n [] = refl
  length-numbered n (x ∷ xs) = let h = length-numbered (n + 1) xs in omega arith

  hands_after : (start a b : Server Split) → HandsAll start a → HandsAll a b → HandsAll start b
  hands_after start a _ before waits = before
  hands_after start a _ before (then_hands c b more last) =
      then_hands c b (hands_after start a c before more) last

  -- A step that does not send leaves the abstract server as it is.
  still :
      (messages : List (ℕ × Split)) {left left' : List Split}
      → left ≡ left'
      → HandsAll
          (record { messages = messages; left = left })
          (record { messages = messages; left = left' })
  still messages {left} h =
      subst
        (λ l.
          HandsAll (record { messages = messages; left = left })
            (record { messages = messages; left = l }))
        h waits

  -- Sending a split is what the abstract server does.
  sends :
      (messages : List (ℕ × Split)) (split : Split) (rest : List Split) {left left' : List Split}
      (id : ℕ)
      → split ∷ rest ≡ left
      → rest ≡ left'
      → length messages ≡ id
      → HandsAll
          (record { messages = messages; left = left })
          (record { messages = messages ++ (id, split) ∷ []; left = left' })
  sends messages split rest {left} {left'} id before after counted =
      let handed = then_hands _ _ waits (hands messages split rest) in
      let from_left =
        subst
          (λ l.
            HandsAll (record { messages = messages; left = l })
              (record { messages = messages ++ (length messages, split) ∷ []; left = rest }))
          before handed in
      let to_left =
        subst
          (λ l.
            HandsAll (record { messages = messages; left = left })
              (record { messages = messages ++ (length messages, split) ∷ []; left = l }))
          after from_left in
      subst
        (λ k.
          HandsAll (record { messages = messages; left = left })
            (record { messages = messages ++ (k, split) ∷ []; left = left' }))
        counted to_left

  Step-HandsAll :
      (all : List Split) (s t : Streamer Split)
      → Step s t
      → Accounts all s
      → HandsAll (server_of s) (server_of t)
  unfolding server_of send_result_to_stream
  Step-HandsAll all _ _ (lists s split splits p q l) a =
      let e : s.result_chan ++ s.pending ≡ (s.result_chan ++ split ∷ []) ++ splits =
        ap (λ l. s.result_chan ++ l) q ∙ sym (append_assoc s.result_chan (split ∷ []) splits) in
      still s.stream (ap (λ l. s.unsent ++ l) e)
  Step-HandsAll all _ _ (receives s split splits r q) a =
      let u = Fits-running s.unsent s.result_chan s.phase r a.fits in
      let counted : length s.stream ≡ s.split_counter =
        ap length a.delivered ∙ length-numbered 0 a.taken ∙ sym a.counted in
      sends s.stream split (splits ++ s.pending) s.split_counter
        (next_left split splits s.pending u q) (sym (ap (λ v. v ++ (splits ++ s.pending)) u))
        counted
  Step-HandsAll all _ _ (send_fails s split splits e r q) a = still s.stream (
      sym
        (next_left split splits s.pending (Fits-running s.unsent s.result_chan s.phase r a.fits) q))
  Step-HandsAll all _ _ (reports s p q) a = waits
  Step-HandsAll all _ _ (gives_up s e p c) a = waits
  Step-HandsAll all _ _ (closes s p) a = waits
  Step-HandsAll all _ _ (sees_closed s r q p) a = waits
  Step-HandsAll all _ _ (receives_error s e rest r q) a = waits
  Step-HandsAll all _ _ (receives_nil s rest r q) a = waits
  Step-HandsAll all _ _ (sees_done s r c) a = waits
  Step-HandsAll all _ _ (waits_over s r p q w) a = waits
  Step-HandsAll all _ _ (cancels s c) a = waits

  Steps-HandsAll :
      (all : List Split) (s : Streamer Split) (n : ℕ) (t : Streamer Split)
      → Accounts all s
      → Steps s n t
      → HandsAll (server_of s) (server_of t) × Accounts all t
  Steps-HandsAll all s n _ a stay = (waits, a)
  Steps-HandsAll all s n _ a (step {n = m} t u before last) =
      let (handed, b) = Steps-HandsAll all s m t a before in
      (
        hands_after (server_of s) (server_of t) (server_of u) handed (Step-HandsAll all t u last b),
        Step-Accounts all t u last b,
      )

  -- Whatever the goroutines do, also where an error ends Run, the streamer of a list of splits
  -- implements the abstract server that hands out these splits one after another, each with the
  -- number of the messages before it as its id.
  pub run-HandsAll :
      (splits : List Split) (outcome : Option Error) (n : ℕ) (s : Streamer Split)
      → Steps (new_streamer splits outcome) n s
      → HandsAll (record { messages = []; left = splits }) (server_of s)
  unfolding new_streamer server_of
  run-HandsAll splits outcome n s steps =
      (Steps-HandsAll splits (new_streamer splits outcome) n s
        (new_streamer-Accounts splits outcome) steps).0
