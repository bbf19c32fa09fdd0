-- ===== src/Paging/Ensures.antt =====
-- sink.go: what a step of a sink leaves behind when it returns, for a condition on the sink before
-- it. The rules follow the composition of the steps.
use fq_connector_go.Paging.Sink.{
  Buffers, Outcome, returns, fails, panics, Sink, Act, proceed, ◌>>=◌,
}

module _ {buffers : Buffers} where
  -- The condition at the value and the sink of a step that returned.
  abbrev pub Post : {A : Type 0} → (A → Sink buffers → Type 0) → Outcome A × Sink buffers → Type 0
  Post Q (returns a, s) = Q a s
  Post Q (fails e, s) = Unit
  Post Q (panics, s) = Unit

  pub record Ensures {A : Type 0} (P : Sink buffers → Type 0) (m : Act buffers A)
      (Q : A → Sink buffers → Type 0) : Type 0 where
    pub at : (s : Sink buffers) → P s → Post Q (m s)

  module _ {A B : Type 0} {Q : A → Sink buffers → Type 0} {R : B → Sink buffers → Type 0} where
    proceed-ensures :
        (r : Outcome A × Sink buffers) (f : A → Act buffers B)
        → Post Q r
        → ((a : A) → Ensures (Q a) (f a) R)
        → Post R (proceed buffers r.0 f r.1)
    proceed-ensures (returns a, s) f first rest = (rest a).at s first
    proceed-ensures (fails e, s) f first rest = tt
    proceed-ensures (panics, s) f first rest = tt

    pub Ensures-bind :
        {P : Sink buffers → Type 0} (m : Act buffers A) (f : A → Act buffers B)
        → Ensures P m Q
        → ((a : A) → Ensures (Q a) (f a) R)
        → Ensures P (◌>>=◌ buffers m f) R
    Ensures-bind m f first rest = record { at = λ s p. proceed-ensures (m s) f (first.at s p) rest }
