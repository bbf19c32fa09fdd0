-- ===== src/Predicate/Exact.antt =====
-- predicate_builder.go: below the top level, what is formatted with success means the same.
use fq_connector_go.Common.{
  Bool, true, false, Bytes, codes, List, [], ◌∷◌, ◌++◌, append-nil, append_assoc, Option, none,
  some, ◌≡◌, refl, sym, ap, ◌∙◌, arith,
}
use fq_connector_go.Errors.{
  Result, ok, err, wraps, unimplemented_arithmetical_expression, unimplemented_operation,
}
use fq_connector_go.Api.{
  DataSourceKind, ArithmeticalOperation, ComparisonOperation, Expression, column, typed_value,
  arithmetical, null, other_expression, Predicate, negation, conjunction, disjunction, coalesce,
  is_null, is_not_null, comparison, bool_expression, other_predicate, Predicates, nil, cons,
}
use fq_connector_go.Predicate.Formatter.{QueryArgs, SqlFormatter}
use fq_connector_go.Predicate.Builder.{Builder, Build, return, ◌>>=◌}
use fq_connector_go.Predicate.Format.{
  arithmetical_text, comparison_text, infix_text, format_infix, if_supported, format_expression,
  embeds_bool, Conjunction, conjunction_add, conjunction_round, conjunction_start, conjunction_end,
  Disjunction, disjunction_start, disjunction_round, disjunction_end, separator, format_predicate,
  format_conjunction, format_disjunction, format_coalesce,
}
use fq_connector_go.Predicate.Meaning.{
  bound_datum, bound_truth, Truth, holds, fails, truth_not, truth_and, truth_or, truth_of, all_hold,
  any_holds, first_known, Database, IsFaithful, SqlExpression, name, null_literal, operation,
  not_of, and_of, or_of, coalesce_of, null_test, not_null_test, compare_of, truth_value, none_of,
  more, holes, expression_text, condition_text, expression_meaning, meaning, meanings, sql_datum,
  joined, prefixed,
}
use fq_connector_go.Predicate.Emits.{
  Language, Emits, >>=-eq-ok, Emits-closed, Emits-outcome, Emits-map, Emits-pair, Faithfully,
  Faithfully-map, Faithfully-pair,
}
use fq_connector_go.Predicate.Constants.{expressions, value-constant}
use fq_connector_go.Predicate.Operands.{conditions, condition_lists, Joining, joined-Emits}
use fq_connector_go.Predicate.Joins.{
  conjunction_all, disjunction_all, conjunction_end-all, disjunction_end-all, conjunction_end-one,
  disjunction_end-one,
}

pub and_finish-nil :
    (st st' : Builder) (text : Bytes)
    → conjunction_end (conjunction_all conjunction_start []) st ≡ (ok text, st')
    → ⊥
unfolding conjunction_end conjunction_all
and_finish-nil st st' text h = cc

or_finish-nil :
    (st st' : Builder) (text : Bytes)
    → disjunction_end (disjunction_all disjunction_start []) st ≡ (ok text, st')
    → ⊥
unfolding disjunction_end disjunction_all
or_finish-nil st st' text h = cc

and_one : (t : Truth) → truth_and t holds ≡ t
and_one t = ground arith

or_one : (t : Truth) → truth_or t fails ≡ t
or_one t = ground arith

module _ {Split : Type 0} (formatter : SqlFormatter Split) (d : Database) where
  pub conjunctions : Joining formatter d
  unfolding condition_text holes bound_truth
  conjunctions = record {
    node = and_of;
    fold = all_hold;
    finish = λ ss. conjunction_end (conjunction_all conjunction_start ss);
    finish-nil = and_finish-nil;
    finish-one = conjunction_end-one;
    finish-more = λ c c' cs st. conjunction_end-all _ _ _ st;
    fold-one = and_one;
    holes-node = λ c cs. refl;
    truth-node = λ args c cs. refl;
  }

  pub disjunctions : Joining formatter d
  unfolding condition_text holes bound_truth
  disjunctions = record {
    node = or_of;
    fold = any_holds;
    finish = λ ss. disjunction_end (disjunction_all disjunction_start ss);
    finish-nil = or_finish-nil;
    finish-one = disjunction_end-one;
    finish-more = λ c c' cs st. disjunction_end-all _ _ _ st;
    fold-one = or_one;
    holes-node = λ c cs. refl;
    truth-node = λ args c cs. refl;
  }

module _ {Split : Type 0} (formatter : SqlFormatter Split) (kind : DataSourceKind) (d : Database)
    (faithful : IsFaithful d) where
  abbrev E : Language
  E = expressions formatter d

  abbrev C : Language
  C = conditions formatter d

  abbrev Cs : Language
  Cs = condition_lists formatter d

  -- Two formatted expressions with an operation between them.
  operation-Emits :
      (op : ArithmeticalOperation) (text : Option Bytes) {x y : Build Bytes} {m n : d.Datum}
      → arithmetical_text op ≡ text
      → Faithfully E x m
      → Faithfully E y n
      → Faithfully E
          (format_infix (wraps unimplemented_arithmetical_expression) text x y)
          (d.arithmetic op m n)
  unfolding format_infix expression_text bound_datum
  operation-Emits op none same left right = λ st text st' h. cc
  operation-Emits op (some t) same left right =
      Faithfully-pair E E E (operation op) (λ u v. infix_text u t v) (d.arithmetic op)
        (λ u v. rw same) (λ u v. refl) (λ args u v. refl) left right

  comparison-Emits :
      (op : ComparisonOperation) (text : Option Bytes) {x y : Build Bytes} {m n : d.Datum}
      → comparison_text op ≡ text
      → Faithfully E x m
      → Faithfully E y n
      → Faithfully C (format_infix (wraps unimplemented_operation) text x y) (d.compare op m n)
  unfolding format_infix condition_text holes bound_truth
  comparison-Emits op none same left right = λ st text st' h. cc
  comparison-Emits op (some t) same left right =
      Faithfully-pair E E C (compare_of op) (λ u v. infix_text u t v) (d.compare op)
        (λ u v. rw same) (λ u v. refl) (λ args u v. refl) left right

  -- The guard of formatExpression refuses, or changes nothing.
  supported-Emits :
      (e : Expression) {x : Build Bytes} {m : d.Datum}
      → Faithfully E x m
      → Faithfully E (if_supported formatter e x) m
  unfolding if_supported
  supported-Emits e {x} inner st text st' h = inner st text st' (ground arith)

  closed-Emits :
      (tree : SqlExpression) {m : d.Datum}
      → E.holes_in tree ≡ []
      → ((args : QueryArgs) → sql_datum d args tree ≡ m)
      → Faithfully E (return (expression_text formatter tree)) m
  closed-Emits tree no_holes same st text st' h =
      Emits-outcome E (Emits-closed E tree st no_holes same) h

  pub expression-Emits :
      (e : Expression) (embed_bool : Bool)
      → Faithfully E (format_expression formatter e embed_bool) (expression_meaning d e)
  unfolding format_expression expression_meaning expression_text bound_datum
  expression-Emits (column c) b =
      supported-Emits (column c) (closed-Emits (name c) refl (λ args. refl))
  expression-Emits (typed_value v) b =
      supported-Emits (typed_value v)
        (λ st text st' h. value-constant formatter d faithful v b st h)
  expression-Emits (arithmetical op x y) b =
      supported-Emits (arithmetical op x y) (
        operation-Emits op (arithmetical_text op) refl (expression-Emits x b)
          (expression-Emits y b))
  expression-Emits null b = supported-Emits null (closed-Emits null_literal refl (λ args. refl))
  expression-Emits (other_expression n) b =
      supported-Emits (other_expression n) (λ st text st' h. cc)

  -- One more operand in front of a list of operands.
  cons-Emits :
      {st s st' : Builder} {t : Bytes} {ss : List Bytes} {m : Truth} {ms : List Truth}
      → Emits C st s t m
      → Emits Cs s st' ss ms
      → Emits Cs st st' (t ∷ ss) (m ∷ ms)
  unfolding condition_text holes bound_truth
  cons-Emits =
      Emits-pair C Cs Cs more (λ t ss. t ∷ ss) (λ m ms. m ∷ ms) (λ t u. refl) (λ t u. refl)
        (λ args t u. refl)

  nil-Emits : (st : Builder) → Emits Cs st st [] []
  unfolding condition_text holes bound_truth
  nil-Emits st = Emits-closed Cs none_of st refl (λ args. refl)

  -- The texts of the operands of a list that was formatted.
  abbrev Collected : {S : Type 0} → Predicates → (List Bytes → S → Type 0) → Build S → Type 0
  Collected {S} ps reached loop =
      (st : Builder) (c : S) (st' : Builder)
      → loop st ≡ (ok c, st')
      → (ss : List Bytes) × reached ss c × Emits Cs st st' ss (meanings d ps)

  conjunction_round-eq-ok :
      (c : Conjunction) (r : Result Bytes × Builder) (rest : Conjunction → Build Conjunction)
      {c' : Conjunction} {st' : Builder}
      → (conjunction_round false c r.0 >>= rest) r.1 ≡ (ok c', st')
      → (t : Bytes) × (s : Builder) × (r ≡ (ok t, s))
        × (rest (conjunction_add c t) s ≡ (ok c', st'))
  unfolding conjunction_round
  conjunction_round-eq-ok c (ok t, s) rest h = (t, s, refl, h)
  conjunction_round-eq-ok c (err e, s) rest h = cc

  coalesce_text :
      (text t sep : Bytes) (ss : List Bytes) {t' : Bytes}
      → t' ≡ (text ++ (t ++ sep)) ++ joined (codes ", ") ss
      → sep ++ joined (codes ", ") ss ≡ prefixed (codes ", ") ss
      → t' ≡ text ++ joined (codes ", ") (t ∷ ss)
  coalesce_text text t sep ss e f =
      e
      ∙ append_assoc text (t ++ sep) (joined (codes ", ") ss)
      ∙ ap (λ u. text ++ u) (append_assoc t sep (joined (codes ", ") ss))
      ∙ ap (λ u. text ++ (t ++ u)) f

  mutual
    unfolding format_predicate meaning conjunction_all disjunction_all conjunctions disjunctions
        condition_text holes bound_truth

    predicate-Emits :
        (p : Predicate) (embed_bool : Bool)
        → Faithfully C (format_predicate formatter kind p false embed_bool) (meaning d p)
    predicate-Emits (negation p) b =
        Faithfully-map C C not_of (λ t. codes "(NOT " ++ (t ++ codes ")")) truth_not (λ t. refl)
          (λ t. refl) (λ args t. refl) (predicate-Emits p false)
    predicate-Emits (conjunction ps) b = λ st text st' h.
        let (c, s, loop, last) =
          >>=-eq-ok (format_conjunction formatter kind ps false conjunction_start) conjunction_end
            st h in
        let (ss, reached, x) = conjunction-Emits ps conjunction_start st c s loop in
        joined-Emits (conjunctions formatter d) x (rw reached at last)
    predicate-Emits (disjunction ps) b = λ st text st' h.
        let (c, s, loop, last) =
          >>=-eq-ok (format_disjunction formatter kind ps disjunction_start) disjunction_end st h in
        let (ss, reached, x) = disjunction-Emits ps disjunction_start st c s loop in
        joined-Emits (disjunctions formatter d) x (rw reached at last)
    predicate-Emits (coalesce ps) b = λ st text st' h.
        let (t, s, loop, last) =
          >>=-eq-ok (format_coalesce formatter kind ps (codes "COALESCE("))
            (λ t. return (t ++ codes ")")) st h in
        let (ss, (reached, _), x) = coalesce-Emits ps (codes "COALESCE(") st t s loop in
        Emits-outcome C
          (Emits-map Cs C coalesce_of
            (λ ts. codes "COALESCE(" ++ (joined (codes ", ") ts ++ codes ")")) first_known
            (λ t. refl) (λ t. refl) (λ args t. refl) x)
          (ap (λ u. (ok (u ++ codes ")"), s)) (sym reached) ∙ last)
    predicate-Emits (is_null e) b =
        Faithfully-map E C null_test (λ t. codes "(" ++ (t ++ codes " IS NULL)"))
          (λ m. truth_of (d.is_null_datum m)) (λ t. refl) (λ t. refl) (λ args t. refl)
          (expression-Emits e false)
    predicate-Emits (is_not_null e) b =
        Faithfully-map E C not_null_test (λ t. codes "(" ++ (t ++ codes " IS NOT NULL)"))
          (λ m. truth_not (truth_of (d.is_null_datum m))) (λ t. refl) (λ t. refl) (λ args t. refl)
          (expression-Emits e false)
    predicate-Emits (comparison op x y) b =
        comparison-Emits op (comparison_text op) refl (expression-Emits x b) (expression-Emits y b)
    predicate-Emits (bool_expression e) b = λ st text st' h.
        Emits-map E C truth_value (λ t. t) d.truth (λ t. refl) (λ t. refl) (λ args t. refl)
          (expression-Emits e b st text st' h)
    predicate-Emits (other_predicate n) b = λ st text st' h. cc

    conjunction-Emits :
        (ps : Predicates) (c : Conjunction)
        → Collected ps
            (λ ss c'. c' ≡ conjunction_all c ss)
            (format_conjunction formatter kind ps false c)
    conjunction-Emits nil c st c' st' h = ([], cc, rw (← ap (λ r. r.1) h) (nil-Emits st))
    conjunction-Emits (cons p ps) c st c' st' h =
        let (t, s, first, rest) =
          conjunction_round-eq-ok c (format_predicate formatter kind p false false st)
            (λ c. format_conjunction formatter kind ps false c) h in
        let (ss, reached, x) = conjunction-Emits ps (conjunction_add c t) s c' st' rest in
        (t ∷ ss, reached, cons-Emits (predicate-Emits p false st t s first) x)

    disjunction-Emits :
        (ps : Predicates) (c : Disjunction)
        → Collected ps (λ ss c'. c' ≡ disjunction_all c ss) (format_disjunction formatter kind ps c)
    disjunction-Emits nil c st c' st' h = ([], cc, rw (← ap (λ r. r.1) h) (nil-Emits st))
    disjunction-Emits (cons p ps) c st c' st' h =
        let (t, s, first, rest) =
          >>=-eq-ok (format_predicate formatter kind p false true)
            (λ t. format_disjunction formatter kind ps (disjunction_round c t)) st h in
        let (ss, reached, x) = disjunction-Emits ps (disjunction_round c t) s c' st' rest in
        (t ∷ ss, reached, cons-Emits (predicate-Emits p true st t s first) x)

    coalesce-Emits :
        (ps : Predicates) (text : Bytes)
        → Collected ps
            (λ ss t.
              (t ≡ text ++ joined (codes ", ") ss)
              × (separator ps ++ joined (codes ", ") ss ≡ prefixed (codes ", ") ss))
            (format_coalesce formatter kind ps text)
    coalesce-Emits nil text st t st' h =
        ([], (cc (append-nil text), refl), rw (← ap (λ r. r.1) h) (nil-Emits st))
    coalesce-Emits (cons p ps) text st t' st' h =
        let (t, s, first, rest) =
          >>=-eq-ok (format_predicate formatter kind p false (embeds_bool kind))
            (λ t. format_coalesce formatter kind ps (text ++ (t ++ separator ps))) st h in
        let (ss, (reached, sep), x) =
          coalesce-Emits ps (text ++ (t ++ separator ps)) s t' st' rest in
        (
          t ∷ ss,
          (coalesce_text text t (separator ps) ss reached sep, refl),
          cons-Emits (predicate-Emits p (embeds_bool kind) st t s first) x,
        )

  -- Below the top level, a predicate that is formatted with success is rendered as a condition
  -- that means the same in every row, under the arguments bound so far and whatever arguments
  -- follow. Formatting only appends arguments, and the placeholders of the text are numbered, in
  -- the order of the text, exactly as the arguments that were appended.
  pub format_predicate-exact :
      (p : Predicate) (embed_bool : Bool) (st : Builder) (text : Bytes) (st' : Builder)
      → format_predicate formatter kind p false embed_bool st ≡ (ok text, st')
      → Emits (conditions formatter d) st st' text (meaning d p)
  format_predicate-exact p embed_bool st text st' h = predicate-Emits p embed_bool st text st' h
