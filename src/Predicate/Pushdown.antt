-- ===== src/Predicate/Pushdown.antt =====
-- predicate_builder.go, formatWhereClause: the clause that is pushed down keeps every row that the
-- filter keeps, operands that cannot be pushed down left out.
use fq_connector_go.Common.{
  Bool, true, false, Bytes, List, [], ◌∷◌, ◌++◌, append-nil, append_assoc, some, ◌≡◌, ◌⊎◌, inl, inr,
  refl, sym, ap, ◌∙◌, arith, ℕ, Option, get_elem?, subst,
}
use fq_connector_go.Errors.{Error, Result, ok, err}
use fq_connector_go.Api.{
  DataSourceKind, Predicate, conjunction, negation, Predicates, nil, cons, Filtering,
}
use fq_connector_go.Predicate.Formatter.{QueryArg, QueryArgs, SqlFormatter}
use fq_connector_go.Predicate.Builder.{Builder, Build, ◌>>=◌}
use fq_connector_go.Predicate.Format.{
  Conjunction, conjunction_add, conjunction_round, conjunction_start, conjunction_end,
  format_predicate, format_conjunction, suppress_acceptable, filter_result, format_where_clause,
}
use fq_connector_go.Predicate.Meaning.{
  bound_truth, Truth, holds, truth_and, all_hold, Database, Entails, Entails-intro, IsFaithful,
  SqlCondition, SqlConditions, none_of, more, condition_text, condition_texts, and_of, sql_truth,
  sql_truths, meaning, meanings,
}
use fq_connector_go.Predicate.Emits.{Emits, >>=-eq-ok}
use fq_connector_go.Predicate.Joins.{conjunction_all, conjunction_end-one, conjunction_end-all}
use fq_connector_go.Predicate.Operands.{conditions}
use fq_connector_go.Predicate.Exact.{and_finish-nil, format_predicate-exact}
use fq_connector_go.Predicate.Lookup.{NumbersArguments, argument_of, argument_of-get}
use fq_connector_go.Predicate.Grows.{format_predicate-Grows}

-- The accumulated text is the same; the error of the last operand may differ.
record SameText (c c' : Conjunction) : Type 0 where
  text : c.text ≡ c'.text
  succeeded : c.succeeded ≡ c'.succeeded
  first : c.first ≡ c'.first

add-SameText :
    {c c' : Conjunction} (s : Bytes)
    → SameText c c'
    → SameText (conjunction_add c s) (conjunction_add c' s)
unfolding conjunction_add
add-SameText s h = ground arith

all-SameText :
    (ss : List Bytes) (c c' : Conjunction)
    → SameText c c'
    → SameText (conjunction_all c ss) (conjunction_all c' ss)
unfolding conjunction_all
all-SameText [] c c' h = h
all-SameText (s ∷ ss) c c' h =
    all-SameText ss (conjunction_add c s) (conjunction_add c' s) (add-SameText s h)

SameText-trans : {c c' c'' : Conjunction} → SameText c c' → SameText c' c'' → SameText c c''
SameText-trans h k = ground arith

end-SameText :
    {c c' : Conjunction} (st : Builder) {text : Bytes} {st' : Builder}
    → SameText c c'
    → conjunction_end c st ≡ (ok text, st')
    → conjunction_end c' st ≡ (ok text, st')
unfolding conjunction_end
end-SameText st h e = ground arith

and_left : (t u : Truth) → truth_and t u ≡ holds → t ≡ holds
and_left t u h = ground arith

and_right : (t u : Truth) → truth_and t u ≡ holds → u ≡ holds
and_right t u h = ground arith

and_intro : (t u : Truth) → t ≡ holds → u ≡ holds → truth_and t u ≡ holds
and_intro t u h k = rw (h, k)

module _ {Split : Type 0} (formatter : SqlFormatter Split) (kind : DataSourceKind) (d : Database)
    (faithful : IsFaithful d) where
  -- What the loop of formatConjunction keeps at the top level: some of the operands, which hold
  -- wherever all operands hold.
  record Weaker (c : Conjunction) (st : Builder) (c' : Conjunction) (st' : Builder)
      (ms : List Truth) : Type 0 where
    kept : SqlConditions
    same : SameText c' (conjunction_all c (condition_texts formatter kept))
    added : QueryArgs
    grows : st'.args ≡ st.args ++ added
    entails :
        (later : QueryArgs)
        → all_hold ms ≡ holds
        → all_hold (sql_truths d (st'.args ++ later) kept) ≡ holds

  keep_one :
      {c : Conjunction} {st s : Builder} {t : Bytes} {m : Truth} {c' : Conjunction} {st' : Builder}
      {ms : List Truth}
      → Emits (conditions formatter d) st s t m
      → Weaker (conjunction_add c t) s c' st' ms
      → Weaker c st c' st' (m ∷ ms)
  unfolding conjunction_all condition_text bound_truth
  keep_one {st = st} {s = s} {m = m} {ms = ms} x w = record {
    kept = more x.tree w.kept;
    same = rw (← x.has_text) w.same;
    added = x.added ++ w.added;
    grows = w.grows ∙ ap (λ l. l ++ w.added) x.grows ∙ append_assoc st.args x.added w.added;
    entails = λ later h.
        and_intro _ _
          (rw (w.grows, append_assoc s.args w.added later)
            (x.means (w.added ++ later) ∙ and_left m (all_hold ms) h))
          (w.entails later (and_right m (all_hold ms) h));
  }

  drop_one :
      {c : Conjunction} {st : Builder} (s : Builder) (e : Error) {m : Truth} {c' : Conjunction}
      {st' : Builder} {ms : List Truth} (added : QueryArgs)
      → s.args ≡ st.args ++ added
      → Weaker
          (record c { last_error = some e })
          (record s { conjunction_errors = s.conjunction_errors ++ e ∷ [] })
          c'
          st'
          ms
      → Weaker c st c' st' (m ∷ ms)
  unfolding conjunction_all condition_text bound_truth
  drop_one {c = c} {st = st} s e {m = m} {ms = ms} added grows w = record {
    kept = w.kept;
    same = SameText-trans w.same (
        all-SameText (condition_texts formatter w.kept) (record c { last_error = some e }) c
          (record { text = refl; succeeded = refl; first = refl }));
    added = added ++ w.added;
    grows = w.grows ∙ ap (λ l. l ++ w.added) grows ∙ append_assoc st.args added w.added;
    entails = λ later h. w.entails later (and_right m (all_hold ms) h);
  }

  round-Weaker :
      (p : Predicate) (c : Conjunction) (st : Builder) (r : Result Bytes × Builder)
      (rest : Conjunction → Build Conjunction) {c' : Conjunction} {st' : Builder} {ms : List Truth}
      → format_predicate formatter kind p false false st ≡ r
      → (conjunction_round true c r.0 >>= rest) r.1 ≡ (ok c', st')
      → ((c : Conjunction) (s : Builder) → rest c s ≡ (ok c', st') → Weaker c s c' st' ms)
      → Weaker c st c' st' (meaning d p ∷ ms)
  unfolding conjunction_round
  round-Weaker p c st (ok t, s) rest first h later =
      keep_one (format_predicate-exact formatter kind d faithful p false st t s first)
        (later (conjunction_add c t) s h)
  round-Weaker p c st (err e, s) rest first h later =
      let (added, grows) = (format_predicate-Grows formatter kind p false false).at st in
      drop_one s e added (sym (ap (λ r. r.1.args) first) ∙ grows) (later _ _ h)

  loop-Weaker :
      (ps : Predicates) (c : Conjunction) (st : Builder) (c' : Conjunction) (st' : Builder)
      → format_conjunction formatter kind ps true c st ≡ (ok c', st')
      → Weaker c st c' st' (meanings d ps)
  unfolding format_predicate conjunction_all condition_text bound_truth meaning
  loop-Weaker nil c st c' st' h = record {
    kept = none_of;
    same = let e : c' ≡ c = cc in rw e (record { text = refl; succeeded = refl; first = refl });
    added = [];
    grows = ap (λ r. r.1.args) (sym h) ∙ sym (append-nil st.args);
    entails = λ later e. refl;
  }
  loop-Weaker (cons p ps) c st c' st' h =
      round-Weaker p c st (format_predicate formatter kind p false false st)
        (λ c. format_conjunction formatter kind ps true c) refl h
        (λ c s k. loop-Weaker ps c s c' st' k)

  -- The condition that the kept operands make.
  end-Weaker :
      (kept : SqlConditions) (st st' : Builder) {text : Bytes}
      → conjunction_end (conjunction_all conjunction_start (condition_texts formatter kept)) st
        ≡ (ok text, st')
      → (tree : SqlCondition) × (text ≡ condition_text formatter tree)
        × (st' ≡ st)
        × ((args : QueryArgs)
            → all_hold (sql_truths d args kept) ≡ holds
            → sql_truth d args tree ≡ holds)
  unfolding condition_text bound_truth
  end-Weaker none_of st st' {text} h = absurd (and_finish-nil st st' text h)
  end-Weaker (more c none_of) st st' {text} h =
      let e : ◌≡◌ {A = Result Bytes × Builder} (ok (condition_text formatter c), st)
          (ok text, st') =
        sym (conjunction_end-one (condition_text formatter c) st) ∙ h in
      (c, cc e, cc e, λ args k. and_left _ holds k)
  end-Weaker (more c (more c' cs)) st st' {text} h =
      let e : ◌≡◌ {A = Result Bytes × Builder}
          (ok (condition_text formatter (and_of c (more c' cs))), st) (ok text, st') =
        sym (conjunction_end-all _ _ (condition_texts formatter cs) st) ∙ h in
      (and_of c (more c' cs), cc e, cc e, λ args k. k)

  -- A text is that of a condition that holds, with its placeholders bound like this, wherever the
  -- predicate holds.
  abbrev pub Covers : Predicate → Bytes → (ℕ → Option QueryArg) → Type 0
  Covers p text binding =
      (tree : SqlCondition) × (text ≡ condition_text formatter tree)
      × Entails (meaning d p) (bound_truth d binding tree)

  exact-Covers :
      (p : Predicate) {st st' : Builder} {text : Bytes}
      → Emits (conditions formatter d) st st' text (meaning d p)
      → Covers p text (get_elem? st'.args)
  exact-Covers p {st' = st'} x = (
    x.tree,
    x.has_text,
    Entails-intro (meaning d p) _ (λ h. rw (← append-nil st'.args) (x.means [] ∙ h)),
  )

  top_level-Covers :
      (p : Predicate) (embed_bool : Bool) (st : Builder) (text : Bytes) (st' : Builder)
      → format_predicate formatter kind p true embed_bool st ≡ (ok text, st')
      → Covers p text (get_elem? st'.args)
  unfolding format_predicate meaning
  top_level-Covers (conjunction ps) b st text st' h =
      let (c, s, loop, last) =
        >>=-eq-ok (format_conjunction formatter kind ps true conjunction_start) conjunction_end st
          h in
      let w = loop-Weaker ps conjunction_start st c s loop in
      let (tree, same_text, same_state, covers) =
        end-Weaker w.kept s st' (end-SameText s w.same last) in
      (
        tree,
        same_text,
        Entails-intro (meaning d (conjunction ps)) _
            (λ e. covers st'.args (rw same_state (rw append-nil at (w.entails [] e)))),
      )
  top_level-Covers (negation p) b st text st' h =
      exact-Covers (negation p)
        (format_predicate-exact formatter kind d faithful (negation p) b st text st' h)
  top_level-Covers p b st text st' h =
      exact-Covers p (format_predicate-exact formatter kind d faithful p b st text st' h)

  result-Covers :
      (p : Predicate) (filtering : Filtering) (r : Result Bytes × Builder) {clause : Bytes}
      {args : QueryArgs}
      → format_predicate formatter kind p true false (record { args = []; conjunction_errors = [] })
        ≡ r
      → filter_result filtering r.0 r.1.args ≡ ok (clause, args)
      → (clause ≡ []) ⊎ Covers p clause (get_elem? args)
  unfolding filter_result suppress_acceptable
  result-Covers p filtering (err e, s) formatted h = inl (ground arith)
  result-Covers p filtering (ok text, s) {clause} {args} formatted h =
      let same_text : clause ≡ text = ground arith in
      let same_args : args ≡ s.args = ground arith in
      inr (rw (same_text, same_args) (top_level-Covers p false _ text s formatted))

  -- In a dialect in which different arguments have different placeholders, which leaves out those
  -- that write `?` for each, and whatever the filtering mode, a WHERE clause that formatWhereClause
  -- returns is empty, so that no row is filtered out, or it is the text of a condition that holds, if
  -- each placeholder is bound to that argument, returned with the clause, which its text stands for,
  -- in every row in which the filter of the request holds. So no row is lost there. The database is
  -- taken to read an argument as the constant that it carries.
  pub format_where_clause-Covers :
      (p : Predicate) (filtering : Filtering) (clause : Bytes) (args : QueryArgs)
      → NumbersArguments formatter
      → format_where_clause formatter kind filtering (some p) ≡ ok (clause, args)
      → (clause ≡ [])
        ⊎ Covers p clause (λ n. argument_of formatter args (formatter.get_placeholder n))
  unfolding format_where_clause
  format_where_clause-Covers p filtering clause args numbers h =
      subst (λ binding. (clause ≡ []) ⊎ Covers p clause binding)
        (sym (argument_of-get formatter args numbers)) (result-Covers p filtering _ refl h)
