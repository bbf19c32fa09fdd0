-- ===== src/Paging/Closing.antt =====
-- sink_factory.go: when the queue of results is closed, in every interleaving.
use fq_connector_go.Common.{
  length-append, ℕ, zero, suc, ◌+◌, ◌≤◌, Bool, true, false, List, [], ◌∷◌, ◌++◌, ◌≡◌, ◌⊎◌, inl, inr,
  refl, sym, ap, ◌∙◌, subst, ◌-◌, arith, length, All, ◌==◌, ==_iff,
}
use fq_connector_go.Errors.{Result, ok, err}
use fq_connector_go.Paging.Factory.{
  Factory, sinks_generated, make_all, new_sink_factory, make_sinks, count_terminated,
  sink_terminated, Step, sink_notifies, handler_receives, context_done, Steps, stay, step,
  Reachable,
}

count_true : List Bool → ℕ
count_true [] = 0
count_true (true ∷ bs) = count_true bs + 1
count_true (false ∷ bs) = count_true bs

-- The notifications are in the channel or were received. The queue is closed at most once, by the
-- handler, when it received all of them, and until then the handler awaits some.
record Sound (n : ℕ) (f : Factory) : Type 0 where
  counted : count_true f.notified ≡ f.terminate_chan + f.terminated_sinks
  sized : length f.notified ≡ n
  total : f.total_sinks ≡ n
  closed_once : (f.queue_closed ≡ false) ⊎ (f.handler_runs ≡ false)
  closed_after : (f.queue_closed ≡ false) ⊎ (1 ≤ f.terminated_sinks)
  waits : (f.handler_runs ≡ false) ⊎ ((n ≡ 0) ⊎ (f.terminated_sinks + 1 ≤ n))
  closed_last : (f.queue_closed ≡ false) ⊎ (f.terminated_sinks ≡ n)

count_true-more : (bs : List Bool) → count_true (bs ++ false ∷ []) ≡ count_true bs
unfolding count_true
count_true-more [] = refl
count_true-more (true ∷ bs) = omega (arith, count_true-more bs)
count_true-more (false ∷ bs) = count_true-more bs

count_true-notify :
    (before after : List Bool)
    → count_true (before ++ true ∷ after) ≡ count_true (before ++ false ∷ after) + 1
unfolding count_true
count_true-notify [] after = refl
count_true-notify (true ∷ before) after = omega (arith, count_true-notify before after)
count_true-notify (false ∷ before) after = count_true-notify before after

length-notify :
    (before after : List Bool) → length (before ++ true ∷ after) ≡ length (before ++ false ∷ after)
length-notify [] after = refl
length-notify (b ∷ before) after = ap suc (length-notify before after)

count_true_le : (bs : List Bool) → count_true bs ≤ length bs
unfolding count_true
count_true_le [] = omega arith
count_true_le (true ∷ bs) = omega (arith, count_true_le bs)
count_true_le (false ∷ bs) = omega (arith, count_true_le bs)

every_true : (bs : List Bool) → count_true bs ≡ length bs → All (λ b. b ≡ true) bs
unfolding count_true
every_true [] h = tt
every_true (true ∷ bs) h = (refl, every_true bs (omega (arith, h)))
every_true (false ∷ bs) h = absurd (omega (arith, h, count_true_le bs))

zero_or : (n : ℕ) → (n ≡ 0) ⊎ (0 + 1 ≤ n)
zero_or zero = inl refl
zero_or (suc n) = inr (omega arith)

count_true-All : (bs : List Bool) → All (λ b. b ≡ true) bs → count_true bs ≡ length bs
unfolding count_true
count_true-All [] h = refl
count_true-All (true ∷ bs) (b, h) = omega (arith, count_true-All bs h)
count_true-All (false ∷ bs) (b, h) = cc

-- A sink that is not the last one leaves one to be received.
not_last :
    (n : ℕ) (f : Factory) (waiting : ℕ)
    → Sound n f
    → count_true f.notified ≡ waiting + (f.terminated_sinks + 1)
    → f.total_sinks ≡ n
    → (f.terminated_sinks + 1 == f.total_sinks) ≡ false
    → f.terminated_sinks + 1 + 1 ≤ n
not_last n f waiting h count total e =
    let sized : length f.notified ≡ n = h.sized in
    let bound : count_true f.notified ≤ length f.notified = count_true_le f.notified in ground arith

-- Nothing has happened, and so many sinks are still to be made.
record Starts (n left : ℕ) (f : Factory) : Type 0 where
  none_yet : count_true f.notified ≡ 0
  empty : f.terminate_chan ≡ 0
  none_counted : f.terminated_sinks ≡ 0
  not_closed : f.queue_closed ≡ false
  sized : length f.notified + left ≡ n
  total : f.total_sinks ≡ n

make_all-Sound :
    (n : ℕ) (made : List (Result (Unit {0}))) (f g : Factory)
    → Starts n (length made) f
    → make_all made f ≡ (ok tt, g)
    → Sound n g
unfolding make_all
make_all-Sound n [] f g h e =
    let same : record f { state = sinks_generated; handler_runs = true } ≡ g = ap (λ r. r.1) e in
    let none_yet : count_true f.notified ≡ 0 = h.none_yet in
    let empty : f.terminate_chan ≡ 0 = h.empty in
    let none_counted : f.terminated_sinks ≡ 0 = h.none_counted in
    let sized : length f.notified + 0 ≡ n = h.sized in
    subst (λ g. Sound n g) same
      (record {
        counted = omega arith;
        sized = omega arith;
        total = h.total;
        closed_once = inl (h.not_closed);
        closed_after = inl (h.not_closed);
        waits = inr (rw none_counted (zero_or n));
        closed_last = inl (h.not_closed);
      })
make_all-Sound n (ok _ ∷ made) f g h e =
    let sized : length f.notified + suc (length made) ≡ n = h.sized in
    let longer : length (f.notified ++ false ∷ []) ≡ length f.notified + 1 =
      length-append f.notified (false ∷ []) in
    make_all-Sound n made (record f { notified = f.notified ++ false ∷ [] }) g
      (record {
        none_yet = count_true-more f.notified ∙ h.none_yet;
        empty = h.empty;
        none_counted = h.none_counted;
        not_closed = h.not_closed;
        sized = omega arith;
        total = h.total;
      })
      e
make_all-Sound n (err x ∷ made) f g h e = cc

make_sinks-Sound :
    (made : List (Result (Unit {0}))) (g : Factory)
    → make_sinks made new_sink_factory ≡ (ok tt, g)
    → Sound (length made) g
unfolding make_sinks
make_sinks-Sound made g e =
    make_all-Sound (length made) made (record new_sink_factory { total_sinks = length made }) g
      (record {
        none_yet = unfold count_true in refl;
        empty = refl;
        none_counted = refl;
        not_closed = refl;
        sized = omega arith;
        total = refl;
      })
      e

received-Sound :
    (n : ℕ) (f : Factory) (waiting : ℕ) (last : Bool)
    → Sound n f
    → f.handler_runs ≡ true
    → f.terminate_chan ≡ waiting + 1
    → (f.terminated_sinks + 1 == f.total_sinks) ≡ last
    → Sound n (count_terminated last (record f { terminate_chan = waiting }))
unfolding count_terminated
received-Sound n f waiting last h runs chan is_last =
    let k : count_true f.notified ≡ f.terminate_chan + f.terminated_sinks = h.counted in
    let k' : count_true f.notified ≡ waiting + (f.terminated_sinks + 1) = omega arith in
    let total : f.total_sinks ≡ n = h.total in
    let open' : f.queue_closed ≡ false = elim (h.closed_once) [ inl e ↦ e | inr e ↦ cc ] in
    elim last
        as (λ b.
          (f.terminated_sinks + 1 == f.total_sinks) ≡ b
          → Sound n (count_terminated b (record f { terminate_chan = waiting }))) [
            | true ↦ λ e. record {
              counted = k';
              sized = h.sized;
              total = total;
              closed_once = inr refl;
              closed_after = inr (omega arith);
              waits = inl refl;
              closed_last = inr ((==_iff (f.terminated_sinks + 1) f.total_sinks).0 e ∙ total);
            }
            | false ↦ λ e. record {
              counted = k';
              sized = h.sized;
              total = total;
              closed_once = inl open';
              closed_after = inl open';
              waits = inr (inr (not_last n f waiting h k' total e));
              closed_last = inl open';
            }
          ]
      is_last

Step-Sound : (n : ℕ) (f g : Factory) → Sound n f → Step f g → Sound n g
Step-Sound n _ _ h (sink_notifies f before after e) = record {
  counted =
      count_true-notify before after
      ∙ (let k : count_true f.notified ≡ f.terminate_chan + f.terminated_sinks = h.counted in
          let k' : count_true f.notified ≡ count_true (before ++ false ∷ after) = ap count_true e in
          omega arith);
  sized = length-notify before after ∙ ap length (sym e) ∙ h.sized;
  total = h.total;
  closed_once = h.closed_once;
  closed_after = h.closed_after;
  waits = h.waits;
  closed_last = h.closed_last;
}
Step-Sound n _ _ h (handler_receives f waiting runs chan) =
    unfold sink_terminated in (received-Sound n f waiting _ h runs chan refl)
Step-Sound n _ _ h (context_done f runs) = record {
  counted = h.counted;
  sized = h.sized;
  total = h.total;
  closed_once = inr refl;
  closed_after = h.closed_after;
  waits = inl refl;
  closed_last = h.closed_last;
}

Steps-Sound : (n : ℕ) (f g : Factory) → Sound n f → Steps f g → Sound n g
Steps-Sound n f _ h stay = h
Steps-Sound n f _ h (step e g r s) = Step-Sound n e g (Steps-Sound n f e h r) s

Reachable-Sound : (n : ℕ) (f : Factory) → Reachable n f → Sound n f
Reachable-Sound n f r =
    subst (λ m. Sound m f) r.sinks
      (Steps-Sound (length r.buffers) r.generated f (make_sinks-Sound r.buffers r.generated r.made)
        r.steps)

-- In every state that a factory of some number of sinks can get into: if the queue of results is
-- closed, every sink has notified the factory, so that no sink sends a page to a closed queue.
pub closed-All_notified :
    (n : ℕ) (f : Factory) → Reachable n f → f.queue_closed ≡ true → All (λ b. b ≡ true) f.notified
closed-All_notified n f r closed =
    let h = Reachable-Sound n f r in
    elim (h.closed_last) [
      | inl e ↦ cc
      | inr e ↦ every_true f.notified (
          let k : count_true f.notified ≡ f.terminate_chan + f.terminated_sinks = h.counted in
          let l : length f.notified ≡ n = h.sized in omega (arith, count_true_le f.notified))
    ]

-- A factory of no sinks never closes the queue of results.
pub no_sinks_never_closed : (f : Factory) → Reachable 0 f → f.queue_closed ≡ false
no_sinks_never_closed f r =
    let h = Reachable-Sound 0 f r in
    elim (h.closed_last) [
      | inl e ↦ e
      | inr e ↦ elim (h.closed_after) [ inl k ↦ k | inr k ↦ absurd (omega (arith, e, k)) ]
    ]

prepended : (f g h : Factory) → Step f g → Steps g h → Steps f h
prepended f g _ s stay = step f g stay s
prepended f g _ s (step j h steps t) = step j h (prepended f g j s steps) t

-- The handler that receives so many sinks, the last of which is the last of all, closes the queue.
drained :
    (k n : ℕ) (f : Factory)
    → f.handler_runs ≡ true
    → f.total_sinks ≡ n
    → f.terminate_chan ≡ k + 1
    → f.terminated_sinks + (k + 1) ≡ n
    → (g : Factory) × Steps f g × (g.queue_closed ≡ true)
unfolding sink_terminated count_terminated
drained zero n f runs total chan count =
    let e : (f.terminated_sinks + 1 == f.total_sinks) ≡ true = (==_iff _ _).1 (omega arith) in
    (
      sink_terminated (record f { terminate_chan = 0 }),
      step f _ stay (handler_receives f 0 runs chan),
      ap (λ b. (count_terminated b (record f { terminate_chan = 0 })).queue_closed) e,
    )
drained (suc k) n f runs total chan count =
    let e : (f.terminated_sinks + 1 == f.total_sinks) ≡ false = ground arith in
    let next : Factory = record f {
      terminate_chan = k + 1;
      terminated_sinks = f.terminated_sinks + 1;
    } in
    let same : sink_terminated (record f { terminate_chan = k + 1 }) ≡ next =
      ap (λ b. count_terminated b (record f { terminate_chan = k + 1 })) e in
    let (g, steps, closed) = drained k n next runs total refl (omega arith) in
    let received : Step f next =
      subst (λ h. Step f h) same (handler_receives f (k + 1) runs (omega arith)) in
    (g, prepended f next g received steps, closed)

-- From every such state in which all of one or more sinks have notified the factory, and whose
-- handler still runs, the handler can go on to close the queue of results.
pub notified-closes :
    (n : ℕ) (f : Factory)
    → Reachable (n + 1) f
    → f.handler_runs ≡ true
    → All (λ b. b ≡ true) f.notified
    → (g : Factory) × Steps f g × (g.queue_closed ≡ true)
notified-closes n f r runs all =
    let h = Reachable-Sound (n + 1) f r in
    let k : count_true f.notified ≡ f.terminate_chan + f.terminated_sinks = h.counted in
    let l : length f.notified ≡ n + 1 = h.sized in
    let m : count_true f.notified ≡ length f.notified = count_true-All f.notified all in
    let some_wait : f.terminated_sinks + 1 ≤ n + 1 = elim (h.waits) [
      | inl e ↦ cc
      | inr (inl e) ↦ absurd (omega (arith, e))
      | inr (inr e) ↦ e
    ] in
    drained (f.terminate_chan - 1) (n + 1) f runs h.total (omega arith) (omega arith)
