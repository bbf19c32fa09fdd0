-- ===== src/Predicate/Format.antt =====
-- predicate_builder.go, expressions, predicates and the WHERE clause.
-- The counters of the loops over operands are int32 in the source and natural numbers here: a
-- request that is held in memory has fewer than 2 ^ 31 operands.
use fq_connector_go.Common.{
  ℕ, ◌+◌, Bool, true, false, Bytes, codes, [], ◌∷◌, ◌++◌, Option, none, some, ltb, ◌==◌,
  if◌then◌else◌,
}
use fq_connector_go.Errors.{
  unimplemented_expression, unsupported_expression, unimplemented_operation,
  unimplemented_predicate_type, unimplemented_arithmetical_expression, unimplemented_typed_value,
  invalid_request, Error, wraps, opaque, Result, ok, err, ErrorMatcher, matches,
}
use fq_connector_go.Api.{
  DataSourceKind, logging, ArithmeticalOperation, mul, add, sub, bit_and, bit_or, bit_xor,
  other_arithmetical, ComparisonOperation, l, le, eq, ne, ge, g, other_comparison, Expression,
  column, typed_value, arithmetical, null, other_expression, Predicate, negation, conjunction,
  disjunction, coalesce, is_null, is_not_null, comparison, bool_expression, other_predicate,
  Predicates, nil, cons, Filtering, filtering_unspecified, filtering_optional, filtering_mandatory,
  other_filtering,
}
use fq_connector_go.Predicate.Formatter.{QueryArgs, SqlFormatter}
use fq_connector_go.Predicate.Builder.{Builder, Build, return, raise, ◌>>=◌, format_value}

-- The switch of formatArithmeticalExpression.
unfoldable pub arithmetical_text : ArithmeticalOperation → Option Bytes
arithmetical_text mul = some (codes " * ")
arithmetical_text add = some (codes " + ")
arithmetical_text sub = some (codes " - ")
arithmetical_text bit_and = some (codes " & ")
arithmetical_text bit_or = some (codes " | ")
arithmetical_text bit_xor = some (codes " ^ ")
arithmetical_text (other_arithmetical n) = none

-- The switch of formatComparison.
unfoldable pub comparison_text : ComparisonOperation → Option Bytes
comparison_text l = some (codes " < ")
comparison_text le = some (codes " <= ")
comparison_text eq = some (codes " = ")
comparison_text ne = some (codes " <> ")
comparison_text ge = some (codes " >= ")
comparison_text g = some (codes " > ")
comparison_text (other_comparison n) = none

-- fmt.Sprintf("(%s%s%s)", left, operation, right)
abbrev pub infix_text : Bytes → Bytes → Bytes → Bytes
infix_text left operation right = codes "(" ++ (left ++ (operation ++ (right ++ codes ")")))

-- What follows the choice of the operation: the operands in order, then the text.
unfoldable pub format_infix : Error → Option Bytes → Build Bytes → Build Bytes → Build Bytes
format_infix e none format_left format_right = raise e
format_infix e (some operation) format_left format_right = do
  left ← format_left
  right ← format_right
  return (infix_text left operation right)

-- The variables of the loop of formatConjunction.
pub record Conjunction : Type 0 where
  pub text : Bytes
  pub succeeded : ℕ
  pub first : Bytes
  pub last_error : Option Error

abbrev pub conjunction_start : Conjunction
conjunction_start = record { text = []; succeeded = 0; first = []; last_error = none }

-- Recording an operand's error in `pb.conjunctionErrors`.
add_conjunction_error : Error → Builder → Builder
add_conjunction_error e st = record st { conjunction_errors = st.conjunction_errors ++ e ∷ [] }

-- A round of the loop of formatConjunction after an operand that was formatted.
unfoldable pub conjunction_add : Conjunction → Bytes → Conjunction
conjunction_add c statement =
    if ltb 0 c.succeeded
    then record {
      text =
          (if c.succeeded == 1 then c.text ++ (codes "(" ++ c.first) else c.text)
          ++ (codes " AND " ++ statement);
      succeeded = c.succeeded + 1;
      first = c.first;
      last_error = none;
    }
    else record { text = c.text; succeeded = c.succeeded + 1; first = statement; last_error = none }

-- One round of the loop of formatConjunction, after formatPredicate on the operand.
unfoldable pub conjunction_round : Bool → Conjunction → Result Bytes → Build Conjunction
unfolding add_conjunction_error conjunction_add
conjunction_round false c (err e) st = (err e, st)
conjunction_round true c (err e) st =
    (ok (record c { last_error = some e }), add_conjunction_error e st)
conjunction_round top_level c (ok statement) st = (ok (conjunction_add c statement), st)

-- fmt.Errorf("format predicate: %w", err), with no error to wrap if there were no operands.
abbrev pub rewrap : Option Error → Error
rewrap none = opaque
rewrap (some e) = e

-- formatConjunction after its loop.
unfoldable pub conjunction_end : Conjunction → Build Bytes
conjunction_end c st =
    if c.succeeded == 0
    then (err (rewrap c.last_error), st)
    else if c.succeeded == 1
    then (ok (c.text ++ c.first), st)
    else (ok (c.text ++ codes ")"), st)

-- The variables of the loop of formatDisjunction.
pub record Disjunction : Type 0 where
  pub text : Bytes
  pub cnt : ℕ
  pub first : Bytes

abbrev pub disjunction_start : Disjunction
disjunction_start = record { text = []; cnt = 0; first = [] }

-- One round of the loop of formatDisjunction.
unfoldable pub disjunction_round : Disjunction → Bytes → Disjunction
disjunction_round d statement =
    if ltb 0 d.cnt
    then record {
      text =
          (if d.cnt == 1 then d.text ++ (codes "(" ++ d.first) else d.text)
          ++ (codes " OR " ++ statement);
      cnt = d.cnt + 1;
      first = d.first;
    }
    else record { text = d.text; cnt = d.cnt + 1; first = statement }

-- formatDisjunction after its loop.
unfoldable pub disjunction_end : Disjunction → Build Bytes
disjunction_end d st =
    if d.cnt == 0
    then (err opaque, st)
    else if d.cnt == 1
    then (ok (d.text ++ d.first), st)
    else (ok (d.text ++ codes ")"), st)

-- `if i < len(operands)-1 { sb.WriteString(", ") }`, of the operands that are left.
abbrev pub separator : Predicates → Bytes
separator nil = []
separator (cons p ps) = codes ", "

-- pb.dataSourceKind == LOGGING
unfoldable pub embeds_bool : DataSourceKind → Bool
embeds_bool logging = true
embeds_bool _ = false

module _ {Split : Type 0} (formatter : SqlFormatter Split) where
  -- The guard of formatExpression.
  unfoldable pub if_supported : Expression → Build Bytes → Build Bytes
  if_supported e m st =
      if formatter.supports_pushdown_expression e
      then m st
      else (err (wraps unsupported_expression), st)

  -- predicateBuilder.formatExpression
  unfoldable pub format_expression : Expression → Bool → Build Bytes
  unfolding if_supported format_infix arithmetical_text
  format_expression (column c) embed_bool =
      if_supported (column c) (return (formatter.sanitise_identifier c))
  format_expression (typed_value v) embed_bool =
      if_supported (typed_value v) (format_value formatter v embed_bool)
  format_expression (arithmetical op x y) embed_bool = if_supported (arithmetical op x y) (
      format_infix (wraps unimplemented_arithmetical_expression) (arithmetical_text op)
        (format_expression x embed_bool) (format_expression y embed_bool))
  format_expression null embed_bool = if_supported null (return (codes "NULL"))
  format_expression (other_expression n) embed_bool =
      if_supported (other_expression n) (raise (wraps unimplemented_expression))

module _ {Split : Type 0} (formatter : SqlFormatter Split) (kind : DataSourceKind) where
  -- predicateBuilder.formatPredicate, the second argument being `topLevel` and the third
  -- `embedBool`, and the loops of formatConjunction, formatDisjunction and formatCoalesce.
  unfoldable mutual
    unfolding format_expression format_infix comparison_text conjunction_round conjunction_end
        disjunction_round disjunction_end embeds_bool

    pub format_predicate : Predicate → Bool → Bool → Build Bytes
    format_predicate (negation p) top_level embed_bool = do
      pred ← format_predicate p false false
      return (codes "(NOT " ++ (pred ++ codes ")"))
    format_predicate (conjunction ps) top_level embed_bool = do
      c ← format_conjunction ps top_level conjunction_start
      conjunction_end c
    format_predicate (disjunction ps) top_level embed_bool = do
      d ← format_disjunction ps disjunction_start
      disjunction_end d
    format_predicate (coalesce ps) top_level embed_bool = do
      text ← format_coalesce ps (codes "COALESCE(")
      return (text ++ codes ")")
    format_predicate (is_null e) top_level embed_bool = do
      statement ← format_expression formatter e false
      return (codes "(" ++ (statement ++ codes " IS NULL)"))
    format_predicate (is_not_null e) top_level embed_bool = do
      statement ← format_expression formatter e false
      return (codes "(" ++ (statement ++ codes " IS NOT NULL)"))
    format_predicate (comparison op x y) top_level embed_bool =
        format_infix (wraps unimplemented_operation) (comparison_text op)
          (format_expression formatter x embed_bool) (format_expression formatter y embed_bool)
    format_predicate (bool_expression e) top_level embed_bool =
        format_expression formatter e embed_bool
    format_predicate (other_predicate n) top_level embed_bool =
        raise (wraps unimplemented_predicate_type)

    pub format_conjunction : Predicates → Bool → Conjunction → Build Conjunction
    format_conjunction nil top_level c = return c
    format_conjunction (cons p ps) top_level c = λ st.
        let r = format_predicate p false false st in
        (conjunction_round top_level c r.0 >>= λ c'. format_conjunction ps top_level c') r.1

    pub format_disjunction : Predicates → Disjunction → Build Disjunction
    format_disjunction nil d = return d
    format_disjunction (cons p ps) d = do
      statement ← format_predicate p false true
      format_disjunction ps (disjunction_round d statement)

    pub format_coalesce : Predicates → Bytes → Build Bytes
    format_coalesce nil text = return text
    format_coalesce (cons p ps) text = do
      statement ← format_predicate p false (embeds_bool kind)
      format_coalesce ps (text ++ (statement ++ separator ps))

-- acceptableErrors
abbrev pub acceptable_errors : ErrorMatcher
acceptable_errors = record {
  errors = unsupported_expression ∷ unimplemented_predicate_type ∷ unimplemented_typed_value ∷ [];
}

-- The modes in which a pushdown error is suppressed. The clause that accompanies an error of
-- formatPredicate is empty.
unfoldable pub suppress_acceptable : Result Bytes → QueryArgs → Result (Bytes × QueryArgs)
unfolding matches
suppress_acceptable (ok clause) args = ok (clause, args)
suppress_acceptable (err e) args =
    if matches acceptable_errors (some e) then ok ([], args) else err e

-- The switch of formatWhereClause on the filtering mode.
unfoldable pub filter_result : Filtering → Result Bytes → QueryArgs → Result (Bytes × QueryArgs)
unfolding suppress_acceptable
filter_result (other_filtering n) r args = err opaque
filter_result filtering_mandatory (ok clause) args = ok (clause, args)
filter_result filtering_mandatory (err e) args = err e
filter_result filtering_optional r args = suppress_acceptable r args
filter_result filtering_unspecified r args = suppress_acceptable r args

-- formatWhereClause; `none` is a WHERE with no typed filter.
unfoldable pub format_where_clause :
    {Split : Type 0}
    → SqlFormatter Split
    → DataSourceKind
    → Filtering
    → Option Predicate
    → Result (Bytes × QueryArgs)
unfolding format_predicate filter_result
format_where_clause formatter kind filtering none = err (wraps invalid_request)
format_where_clause formatter kind filtering (some filter) =
    let r =
      format_predicate formatter kind filter true false
        (record { args = []; conjunction_errors = [] }) in
    filter_result filtering r.0 r.1.args
