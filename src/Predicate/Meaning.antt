-- ===== src/Predicate/Meaning.antt =====
-- What a filter means, independently of the code that formats it: three-valued logic, the meaning
-- of a request's predicate, and syntax trees of SQL conditions with their text, their placeholders
-- and their meaning under the bound arguments.
use fq_connector_go.Common.{
  ℕ, Bool, true, false, Bytes, codes, List, [], ◌∷◌, ◌++◌, Option, none, some, ◌≡◌, refl, get_elem?,
}
use fq_connector_go.Ydb.{
  YdbType, Value, bool_value, int32_value, int64_value, uint32_value, uint64_value, float_value,
  double_value, bytes_value, text_value, null_flag_value, TypedValue,
}
use fq_connector_go.Api.{
  ArithmeticalOperation, ComparisonOperation, Expression, column, typed_value, arithmetical, null,
  other_expression, Predicate, negation, conjunction, disjunction, coalesce, is_null, is_not_null,
  comparison, bool_expression, other_predicate, Predicates, nil, cons,
}
use fq_connector_go.Predicate.Formatter.{
  Scalar, unix_micro, Any, plain, pointer, nil_pointer, QueryArg, QueryArgs, SqlFormatter,
}
use fq_connector_go.Predicate.Format.{arithmetical_text, comparison_text, infix_text}

-- The truth values of SQL.
pub data Truth : Type 0 where
  holds fails unknown : Truth

abbrev pub truth_not : Truth → Truth
truth_not holds = fails
truth_not fails = holds
truth_not unknown = unknown

abbrev pub truth_and : Truth → Truth → Truth
truth_and holds t = t
truth_and fails t = fails
truth_and unknown fails = fails
truth_and unknown _ = unknown

abbrev pub truth_or : Truth → Truth → Truth
truth_or holds t = holds
truth_or fails t = t
truth_or unknown holds = holds
truth_or unknown _ = unknown

abbrev pub truth_of : Bool → Truth
truth_of true = holds
truth_of false = fails

-- A row of which the one condition holds is one of which the other holds.
abbrev pub Entails : Truth → Truth → Type 0
Entails holds t = t ≡ holds
Entails _ t = Unit

pub Entails-intro : (s t : Truth) → (s ≡ holds → t ≡ holds) → Entails s t
Entails-intro holds t h = h refl
Entails-intro fails t h = tt
Entails-intro unknown t h = tt

abbrev pub all_hold : List Truth → Truth
all_hold [] = holds
all_hold (t ∷ ts) = truth_and t (all_hold ts)

abbrev pub any_holds : List Truth → Truth
any_holds [] = fails
any_holds (t ∷ ts) = truth_or t (any_holds ts)

abbrev pub first_known : List Truth → Truth
first_known [] = unknown
first_known (unknown ∷ ts) = first_known ts
first_known (t ∷ ts) = t

-- The value that a Go value carries.
abbrev pub scalar_value : Scalar → Value
scalar_value (Scalar.bool b) = bool_value b
scalar_value (Scalar.int32 v) = int32_value v
scalar_value (Scalar.int64 v) = int64_value v
scalar_value (Scalar.uint32 v) = uint32_value v
scalar_value (Scalar.uint64 v) = uint64_value v
scalar_value (Scalar.float v) = float_value v
scalar_value (Scalar.double v) = double_value v
scalar_value (Scalar.bytes v) = bytes_value v
scalar_value (Scalar.text v) = text_value v
scalar_value (unix_micro v) = int64_value v

abbrev pub any_value : Any → Value
any_value (plain s) = scalar_value s
any_value (pointer s) = scalar_value s
any_value (nil_pointer t) = null_flag_value

-- One row of the external table, as the database evaluates expressions over it. The database and
-- its driver are not part of the program: what the row's columns hold and what the operations do is
-- left open. `argument` is the value that a bound argument reaches the database as.
pub record Database : Type 1 where
  pub Datum : Type 0
  pub column_datum : Bytes → Datum
  pub null_datum : Datum
  pub constant : TypedValue → Datum
  pub argument : QueryArg → Datum
  pub keyword : Bool → Datum
  pub arithmetic : ArithmeticalOperation → Datum → Datum → Datum
  pub compare : ComparisonOperation → Datum → Datum → Truth
  pub truth : Datum → Truth
  pub is_null_datum : Datum → Bool
  pub unsupported_datum : ℕ → Datum
  pub unsupported_truth : ℕ → Truth

-- What the program relies on: a driver sends an argument, read at the YDB type that accompanies it,
-- as the constant that it carries, and the keywords `true` and `false` are the boolean constants.
pub record IsFaithful (d : Database) : Type 0 where
  pub argument-constant :
      (t : YdbType) (a : Any)
      → d.argument (record { ydb_type = some t; value = a })
        ≡ d.constant (record { ydb_type = t; value = any_value a })
  pub keyword-constant :
      (t : YdbType) (b : Bool)
      → d.keyword b ≡ d.constant (record { ydb_type = t; value = bool_value b })

-- Conditions as trees. A hole is a placeholder with the number of its argument.
pub data SqlExpression : Type 0 where
  name : Bytes → SqlExpression
  hole : ℕ → SqlExpression
  boolean : Bool → SqlExpression
  null_literal : SqlExpression
  operation : ArithmeticalOperation → SqlExpression → SqlExpression → SqlExpression

mutual
  pub data SqlCondition : Type 0 where
    not_of : SqlCondition → SqlCondition
    and_of or_of : SqlCondition → SqlConditions → SqlCondition
    coalesce_of : SqlConditions → SqlCondition
    null_test not_null_test : SqlExpression → SqlCondition
    compare_of : ComparisonOperation → SqlExpression → SqlExpression → SqlCondition
    truth_value : SqlExpression → SqlCondition

  pub data SqlConditions : Type 0 where
    none_of : SqlConditions
    more : SqlCondition → SqlConditions → SqlConditions

-- The numbers of the placeholders, in the order of the text.
abbrev pub expression_holes : SqlExpression → List ℕ
expression_holes (hole n) = n ∷ []
expression_holes (operation op x y) = expression_holes x ++ expression_holes y
expression_holes _ = []

unfoldable mutual
  pub holes : SqlCondition → List ℕ
  holes (not_of c) = holes c
  holes (and_of c cs) = holes c ++ holes_of cs
  holes (or_of c cs) = holes c ++ holes_of cs
  holes (coalesce_of cs) = holes_of cs
  holes (null_test e) = expression_holes e
  holes (not_null_test e) = expression_holes e
  holes (compare_of op x y) = expression_holes x ++ expression_holes y
  holes (truth_value e) = expression_holes e

  pub holes_of : SqlConditions → List ℕ
  holes_of none_of = []
  holes_of (more c cs) = holes c ++ holes_of cs

abbrev pub text_or_empty : Option Bytes → Bytes
text_or_empty none = []
text_or_empty (some t) = t

-- Each of the texts behind a separator.
abbrev pub prefixed : Bytes → List Bytes → Bytes
prefixed sep [] = []
prefixed sep (t ∷ ts) = sep ++ (t ++ prefixed sep ts)

-- The texts with a separator between them.
abbrev pub joined : Bytes → List Bytes → Bytes
joined sep [] = []
joined sep (t ∷ ts) = t ++ prefixed sep ts

-- Operands in parentheses.
abbrev pub bracketed : Bytes → List Bytes → Bytes
bracketed sep ts = codes "(" ++ (joined sep ts ++ codes ")")

module _ {Split : Type 0} (formatter : SqlFormatter Split) where
  unfoldable pub expression_text : SqlExpression → Bytes
  unfolding arithmetical_text
  expression_text (name c) = formatter.sanitise_identifier c
  expression_text (hole n) = formatter.get_placeholder n
  expression_text (boolean true) = codes "true"
  expression_text (boolean false) = codes "false"
  expression_text null_literal = codes "NULL"
  expression_text (operation op x y) =
      infix_text (expression_text x) (text_or_empty (arithmetical_text op)) (expression_text y)

  unfoldable mutual
    unfolding expression_text comparison_text

    pub condition_text : SqlCondition → Bytes
    condition_text (not_of c) = codes "(NOT " ++ (condition_text c ++ codes ")")
    condition_text (and_of c cs) = bracketed (codes " AND ") (condition_text c ∷ condition_texts cs)
    condition_text (or_of c cs) = bracketed (codes " OR ") (condition_text c ∷ condition_texts cs)
    condition_text (coalesce_of cs) =
        codes "COALESCE(" ++ (joined (codes ", ") (condition_texts cs) ++ codes ")")
    condition_text (null_test e) = codes "(" ++ (expression_text e ++ codes " IS NULL)")
    condition_text (not_null_test e) = codes "(" ++ (expression_text e ++ codes " IS NOT NULL)")
    condition_text (compare_of op x y) =
        infix_text (expression_text x) (text_or_empty (comparison_text op)) (expression_text y)
    condition_text (truth_value e) = expression_text e

    pub condition_texts : SqlConditions → List Bytes
    condition_texts none_of = []
    condition_texts (more c cs) = condition_text c ∷ condition_texts cs

module _ (d : Database) where
  open d use {
    Datum, column_datum, null_datum, constant, argument, keyword, arithmetic, compare, truth,
    is_null_datum, unsupported_datum, unsupported_truth,
  }

  -- The meaning of a request's expression and predicate.
  unfoldable pub expression_meaning : Expression → Datum
  expression_meaning (column c) = column_datum c
  expression_meaning (typed_value v) = constant v
  expression_meaning (arithmetical op x y) =
      arithmetic op (expression_meaning x) (expression_meaning y)
  expression_meaning null = null_datum
  expression_meaning (other_expression n) = unsupported_datum n

  unfoldable mutual
    unfolding expression_meaning

    pub meaning : Predicate → Truth
    meaning (negation p) = truth_not (meaning p)
    meaning (conjunction ps) = all_hold (meanings ps)
    meaning (disjunction ps) = any_holds (meanings ps)
    meaning (coalesce ps) = first_known (meanings ps)
    meaning (is_null e) = truth_of (is_null_datum (expression_meaning e))
    meaning (is_not_null e) = truth_not (truth_of (is_null_datum (expression_meaning e)))
    meaning (comparison op x y) = compare op (expression_meaning x) (expression_meaning y)
    meaning (bool_expression e) = truth (expression_meaning e)
    meaning (other_predicate n) = unsupported_truth n

    pub meanings : Predicates → List Truth
    meanings nil = []
    meanings (cons p ps) = meaning p ∷ meanings ps

  unfoldable pub argument_datum : Option QueryArg → Datum
  argument_datum none = null_datum
  argument_datum (some a) = argument a

  -- The meaning of a condition, given what argument each placeholder is bound to, by its number.
  unfoldable pub bound_datum : (ℕ → Option QueryArg) → SqlExpression → Datum
  unfolding argument_datum
  bound_datum binding (name c) = column_datum c
  bound_datum binding (hole n) = argument_datum (binding n)
  bound_datum binding (boolean b) = keyword b
  bound_datum binding null_literal = null_datum
  bound_datum binding (operation op x y) =
      arithmetic op (bound_datum binding x) (bound_datum binding y)

  unfoldable mutual
    unfolding bound_datum

    pub bound_truth : (ℕ → Option QueryArg) → SqlCondition → Truth
    bound_truth binding (not_of c) = truth_not (bound_truth binding c)
    bound_truth binding (and_of c cs) =
        truth_and (bound_truth binding c) (all_hold (bound_truths binding cs))
    bound_truth binding (or_of c cs) =
        truth_or (bound_truth binding c) (any_holds (bound_truths binding cs))
    bound_truth binding (coalesce_of cs) = first_known (bound_truths binding cs)
    bound_truth binding (null_test e) = truth_of (is_null_datum (bound_datum binding e))
    bound_truth binding (not_null_test e) =
        truth_not (truth_of (is_null_datum (bound_datum binding e)))
    bound_truth binding (compare_of op x y) =
        compare op (bound_datum binding x) (bound_datum binding y)
    bound_truth binding (truth_value e) = truth (bound_datum binding e)

    pub bound_truths : (ℕ → Option QueryArg) → SqlConditions → List Truth
    bound_truths binding none_of = []
    bound_truths binding (more c cs) = bound_truth binding c ∷ bound_truths binding cs

  -- The meaning under the arguments of the query, of which each is bound to the placeholder with its
  -- number.
  abbrev pub sql_datum : QueryArgs → SqlExpression → Datum
  sql_datum args = bound_datum (get_elem? args)

  abbrev pub sql_truth : QueryArgs → SqlCondition → Truth
  sql_truth args = bound_truth (get_elem? args)

  abbrev pub sql_truths : QueryArgs → SqlConditions → List Truth
  sql_truths args = bound_truths (get_elem? args)
