-- ===== src/Predicate/Grows.antt =====
-- predicate_builder.go: formatting only appends arguments, and this also when it fails.
use fq_connector_go.Common.{
  Bool, true, false, Bytes, [], ◌++◌, append-nil, append_assoc, Option, none, some, ◌≡◌, refl, sym,
  ap, ◌∙◌, arith, if◌then◌else◌,
}
use fq_connector_go.Errors.{Error, Result, ok, err}
use fq_connector_go.Ydb.{
  YdbType, type_id, optional, Value, bool_value, int64_value, null_flag_value, other_value,
  TypedValue,
}
use fq_connector_go.Api.{
  DataSourceKind, Expression, column, typed_value, arithmetical, null, other_expression, Predicate,
  negation, conjunction, disjunction, coalesce, is_null, is_not_null, comparison, bool_expression,
  other_predicate, Predicates, nil, cons,
}
use fq_connector_go.Predicate.Formatter.{QueryArgs, SqlFormatter, Any, add_typed, GoType, Scalar}
use fq_connector_go.Predicate.Builder.{
  Builder, Build, return, raise, continue, ◌>>=◌, bind_value, bind_scalar, add_typed_null,
  format_null_flag_value, format_primitive_value, format_optional_value, format_value_as,
  format_value,
}
use fq_connector_go.Predicate.Format.{
  arithmetical_text, comparison_text, format_infix, if_supported, format_expression, embeds_bool,
  Conjunction, conjunction_round, conjunction_start, conjunction_end, Disjunction,
  disjunction_start, disjunction_end, format_predicate, format_conjunction, format_disjunction,
  format_coalesce,
}

pub record Grows {A : Type 0} (m : Build A) : Type 0 where
  pub at : (st : Builder) → (added : QueryArgs) × ((m st).1.args ≡ st.args ++ added)

pub Grows-same : {A : Type 0} (m : Build A) → ((st : Builder) → (m st).1.args ≡ st.args) → Grows m
Grows-same m h = record { at = λ st. ([], h st ∙ sym (append-nil st.args)) }

grows_trans :
    (before middle after : QueryArgs)
    → (added : QueryArgs) × (middle ≡ before ++ added)
    → (added : QueryArgs) × (after ≡ middle ++ added)
    → (added : QueryArgs) × (after ≡ before ++ added)
grows_trans before middle after (added, e) (more, h) =
    (added ++ more, h ∙ ap (λ l. l ++ more) e ∙ append_assoc before added more)

continue-Grows :
    {A B : Type 0} (r : Result A × Builder) (f : A → Build B) (before : QueryArgs)
    → (added : QueryArgs) × (r.1.args ≡ before ++ added)
    → ((a : A) → Grows (f a))
    → (added : QueryArgs) × ((continue r.0 f r.1).1.args ≡ before ++ added)
continue-Grows (ok a, s) f before (added, e) g = grows_trans before s.args _ (added, e) ((g a).at s)
continue-Grows (err x, s) f before g h = g

guarded-Grows :
    {A : Type 0} (b : Bool) (m : Build A) (e : Error)
    → Grows m
    → (st : Builder)
    → (added : QueryArgs) × ((if b then m st else (err e, st)).1.args ≡ st.args ++ added)
guarded-Grows true m e g st = g.at st
guarded-Grows false m e g st = ([], sym (append-nil st.args))

pub Grows-bind :
    {A B : Type 0} (m : Build A) (f : A → Build B)
    → Grows m
    → ((a : A) → Grows (f a))
    → Grows (m >>= f)
Grows-bind m f first rest = record { at = λ st. continue-Grows (m st) f st.args (first.at st) rest }

Grows-return : {A : Type 0} (a : A) → Grows (return a)
Grows-return a = Grows-same _ (λ st. refl)

Grows-raise : {A : Type 0} (e : Error) → Grows (raise {A = A} e)
Grows-raise e = Grows-same _ (λ st. refl)

conjunction_round-Grows :
    (top_level : Bool) (c : Conjunction) (r : Result Bytes)
    → Grows (conjunction_round top_level c r)
unfolding conjunction_round
conjunction_round-Grows true c (ok t) = Grows-same _ (λ st. refl)
conjunction_round-Grows false c (ok t) = Grows-same _ (λ st. refl)
conjunction_round-Grows true c (err e) = Grows-same _ (λ st. refl)
conjunction_round-Grows false c (err e) = Grows-same _ (λ st. refl)

conjunction_end-Grows : (c : Conjunction) → Grows (conjunction_end c)
unfolding conjunction_end
conjunction_end-Grows c = Grows-same _ (λ st. ground arith)

disjunction_end-Grows : (c : Disjunction) → Grows (disjunction_end c)
unfolding disjunction_end
disjunction_end-Grows c = Grows-same _ (λ st. ground arith)

infix-Grows :
    (e : Error) (op : Option Bytes) {x y : Build Bytes}
    → Grows x
    → Grows y
    → Grows (format_infix e op x y)
unfolding format_infix
infix-Grows e none gx gy = Grows-raise e
infix-Grows e (some t) {x} {y} gx gy =
    Grows-bind x _ gx (λ a. Grows-bind y _ gy (λ b. Grows-return _))

module _ {Split : Type 0} (formatter : SqlFormatter Split) where
  bind_value-Grows : (t : YdbType) (a : Any) → Grows (bind_value formatter t a)
  unfolding bind_value add_typed
  bind_value-Grows t a = record { at = λ st. (_, refl) }

  bind_scalar-Grows : (t : YdbType) (s : Option Scalar) → Grows (bind_scalar formatter t s)
  unfolding bind_scalar
  bind_scalar-Grows t none = Grows-raise _
  bind_scalar-Grows t (some s) = bind_value-Grows t _

  typed_null-Grows : (t : YdbType) (g : Option GoType) → Grows (add_typed_null formatter t g)
  unfolding add_typed_null
  typed_null-Grows t none = Grows-raise _
  typed_null-Grows t (some g) = bind_value-Grows t _

  null_flag-Grows : (t : YdbType) → Grows (format_null_flag_value formatter t)
  unfolding format_null_flag_value
  null_flag-Grows (optional (type_id p)) = typed_null-Grows _ _
  null_flag-Grows _ = Grows-raise _

  primitive-Grows :
      (t : YdbType) (v : Value) (b : Bool) → Grows (format_primitive_value formatter t v b)
  unfolding format_primitive_value
  primitive-Grows t (bool_value v) true = Grows-return _
  primitive-Grows t (int64_value v) b = bind_scalar-Grows t _
  primitive-Grows t null_flag_value b = null_flag-Grows t
  primitive-Grows t other_value b = Grows-raise _
  primitive-Grows t _ b = bind_value-Grows t _

  optional-Grows : (t : YdbType) (v : Value) → Grows (format_optional_value formatter t v)
  unfolding format_optional_value
  optional-Grows t null_flag_value = null_flag-Grows t
  optional-Grows t other_value = Grows-raise _
  optional-Grows t _ = bind_value-Grows t _

  value_as-Grows : (t : YdbType) (v : Value) (b : Bool) → Grows (format_value_as formatter t v b)
  unfolding format_value_as
  value_as-Grows (optional t) v b = optional-Grows (optional t) v
  value_as-Grows t v b = primitive-Grows t v b

  value-Grows : (v : TypedValue) (b : Bool) → Grows (format_value formatter v b)
  unfolding format_value
  value-Grows v b = value_as-Grows v.ydb_type v.value b

  supported-Grows :
      (e : Expression) {x : Build Bytes} → Grows x → Grows (if_supported formatter e x)
  unfolding if_supported
  supported-Grows e {x} g = record {
    at = λ st. guarded-Grows (formatter.supports_pushdown_expression e) x _ g st;
  }

  pub expression-Grows : (e : Expression) (b : Bool) → Grows (format_expression formatter e b)
  unfolding format_expression
  expression-Grows (column c) b = supported-Grows _ (Grows-return _)
  expression-Grows (typed_value v) b = supported-Grows _ (value-Grows v b)
  expression-Grows (arithmetical op x y) b =
      supported-Grows _
        (infix-Grows _ (arithmetical_text op) (expression-Grows x b) (expression-Grows y b))
  expression-Grows null b = supported-Grows _ (Grows-return _)
  expression-Grows (other_expression n) b = supported-Grows _ (Grows-raise _)

module _ {Split : Type 0} (formatter : SqlFormatter Split) (kind : DataSourceKind) where
  mutual
    unfolding format_predicate

    predicate-Grows :
        (p : Predicate) (top_level b : Bool) → Grows (format_predicate formatter kind p top_level b)
    predicate-Grows (negation p) top b =
        Grows-bind _ _ (predicate-Grows p false false) (λ t. Grows-return _)
    predicate-Grows (conjunction ps) top b =
        Grows-bind _ _ (conjunction-Grows ps top conjunction_start) conjunction_end-Grows
    predicate-Grows (disjunction ps) top b =
        Grows-bind _ _ (disjunction-Grows ps disjunction_start) disjunction_end-Grows
    predicate-Grows (coalesce ps) top b = Grows-bind _ _ (coalesce-Grows ps _) (λ t. Grows-return _)
    predicate-Grows (is_null e) top b =
        Grows-bind _ _ (expression-Grows formatter e false) (λ t. Grows-return _)
    predicate-Grows (is_not_null e) top b =
        Grows-bind _ _ (expression-Grows formatter e false) (λ t. Grows-return _)
    predicate-Grows (comparison op x y) top b =
        infix-Grows _ (comparison_text op) (expression-Grows formatter x b)
          (expression-Grows formatter y b)
    predicate-Grows (bool_expression e) top b = expression-Grows formatter e b
    predicate-Grows (other_predicate n) top b = Grows-raise _

    conjunction-Grows :
        (ps : Predicates) (top : Bool) (c : Conjunction)
        → Grows (format_conjunction formatter kind ps top c)
    conjunction-Grows nil top c = Grows-return c
    conjunction-Grows (cons p ps) top c = record {
      at = λ st.
          let r = format_predicate formatter kind p false false st in
          grows_trans st.args r.1.args _ ((predicate-Grows p false false).at st) (
            (Grows-bind _ _ (conjunction_round-Grows top c r.0)
                (λ c'. conjunction-Grows ps top c')).at
              r.1);
    }

    disjunction-Grows :
        (ps : Predicates) (c : Disjunction) → Grows (format_disjunction formatter kind ps c)
    disjunction-Grows nil c = Grows-return c
    disjunction-Grows (cons p ps) c =
        Grows-bind _ _ (predicate-Grows p false true) (λ t. disjunction-Grows ps _)

    coalesce-Grows : (ps : Predicates) (t : Bytes) → Grows (format_coalesce formatter kind ps t)
    coalesce-Grows nil t = Grows-return t
    coalesce-Grows (cons p ps) t =
        Grows-bind _ _ (predicate-Grows p false (embeds_bool kind)) (λ u. coalesce-Grows ps _)

  -- Formatting a predicate only appends arguments.
  pub format_predicate-Grows :
      (p : Predicate) (top_level b : Bool) → Grows (format_predicate formatter kind p top_level b)
  format_predicate-Grows p top b = predicate-Grows p top b
