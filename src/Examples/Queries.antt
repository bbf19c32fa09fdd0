-- ===== src/Examples/Queries.antt =====
-- Tests, and the theorems on filters, queries and identifiers at concrete ones.
use Prim.Native.Nat.{max}
use fq_connector_go.Common.{
  true, false, Bytes, codes, [], ◌∷◌, ◌++◌, some, ◌≡◌, ◌≢◌, ◌⊎◌, refl, length, arith,
}
use fq_connector_go.Errors.{wraps, unimplemented_predicate_type, ok, err}
use fq_connector_go.Ydb.{
  PrimitiveTypeId, type_id, pos, Value, bool_value, int32_value, null_flag_value, TypedValue,
}
use fq_connector_go.Api.{
  DataSourceKind, ComparisonOperation, column, typed_value, Predicate, conjunction, comparison,
  other_predicate, nil, cons, filtering_optional, filtering_mandatory,
}
use fq_connector_go.Predicate.Formatter.{Scalar, plain, QueryArg, QueryArgs, SqlFormatter}
use fq_connector_go.Predicate.Builder.{Builder, format_value}
use fq_connector_go.Predicate.Format.{format_predicate, format_where_clause}
use fq_connector_go.Predicate.Meaning.{holds, unknown, any_value, Database, IsFaithful, meaning}
use fq_connector_go.Predicate.Emits.{Emits}
use fq_connector_go.Predicate.Operands.{conditions}
use fq_connector_go.Predicate.Exact.{format_predicate-exact}
use fq_connector_go.Predicate.Lookup.{NumbersArguments, argument_of}
use fq_connector_go.Predicate.Pushdown.{Covers, format_where_clause-Covers}
use fq_connector_go.Predicate.Modes.{fresh, mandatory_drops}
use fq_connector_go.Dialect.Postgresql
use fq_connector_go.Dialect.Ydb
use fq_connector_go.Dialect.Text.{double_quote, backtick, where_part, default_select_query_render}
use fq_connector_go.Dialect.Quoting.{
  read_clickhouse_identifier, backslash, Escaping, read_of, sanitise_of, read_identifier,
  sanitise-read, ydb_sanitise-breaks,
}
use fq_connector_go.Dialect.Placeholders.{Numbering, placeholder-injective}
use fq_connector_go.Dialect.Backslash.{sanitised_rest, clickhouse_sanitise-breaks}
use fq_connector_go.Dialect.Clickhouse
use fq_connector_go.SelectQuery.{Request, SelectQuery, make_select_query}
use fq_connector_go.SelectQuery.Shape.{make_select_query-Covers, length-ydb_types}

-- A row of one column, `id`, which is 7, in a database whose data are values.
abbrev row_of_seven : Database
row_of_seven = record {
  Datum = Value;
  column_datum = λ name. int32_value (pos 7);
  null_datum = null_flag_value;
  constant = λ v. v.value;
  argument = λ a. any_value a.value;
  keyword = bool_value;
  arithmetic = λ op x y. x;
  compare = λ op x y. holds;
  truth = λ x. unknown;
  is_null_datum = λ x. false;
  unsupported_datum = λ n. null_flag_value;
  unsupported_truth = λ n. unknown;
}

row_of_seven-IsFaithful : IsFaithful row_of_seven
row_of_seven-IsFaithful = record { argument-constant = λ t a. refl; keyword-constant = λ t b. refl }

abbrev seven : TypedValue
seven = record { ydb_type = type_id PrimitiveTypeId.int32; value = int32_value (pos 7) }

abbrev id_is_seven : Predicate
id_is_seven = comparison ComparisonOperation.eq (column (codes "id")) (typed_value seven)

abbrev id_is_seven_and_more : Predicate
id_is_seven_and_more = conjunction (cons id_is_seven (cons (other_predicate 0) nil))

abbrev seven_argument : QueryArg
seven_argument = record {
  ydb_type = some (type_id PrimitiveTypeId.int32);
  value = plain (Scalar.int32 (pos 7));
}

abbrev pg : SqlFormatter (Unit {0})
pg = Postgresql.formatter true

test_predicate :
    format_predicate pg DataSourceKind.postgresql id_is_seven false false fresh
    ≡ (ok (codes "(\"id\" = $1)"), record fresh { args = seven_argument ∷ [] })
unfolding format_predicate Postgresql.get_placeholder Postgresql.sanitise_identifier
    Postgresql.supports_pushdown_expression format_value
test_predicate = refl

test_clause :
    format_where_clause pg DataSourceKind.postgresql filtering_optional (some id_is_seven_and_more)
    ≡ ok (codes "(\"id\" = $1)", seven_argument ∷ [])
unfolding format_where_clause Postgresql.get_placeholder Postgresql.sanitise_identifier
    Postgresql.supports_pushdown_expression format_value
test_clause = refl

format_predicate-exact_example :
    Emits
      (conditions pg row_of_seven)
      fresh
      (record fresh { args = seven_argument ∷ [] })
      (codes "(\"id\" = $1)")
      (meaning row_of_seven id_is_seven)
format_predicate-exact_example =
    format_predicate-exact pg DataSourceKind.postgresql row_of_seven row_of_seven-IsFaithful
      id_is_seven false fresh (codes "(\"id\" = $1)") (record fresh { args = seven_argument ∷ [] })
      test_predicate

pg-NumbersArguments : NumbersArguments pg
pg-NumbersArguments = placeholder-injective Numbering.postgresql

-- The argument of `$1` is found by its text.
test_argument_of : argument_of pg (seven_argument ∷ []) (codes "$1") ≡ some seven_argument
unfolding argument_of Postgresql.get_placeholder
test_argument_of = refl

format_where_clause-Covers_example :
    (codes "(\"id\" = $1)" ≡ [])
    ⊎ Covers pg DataSourceKind.postgresql row_of_seven row_of_seven-IsFaithful id_is_seven_and_more
        (codes "(\"id\" = $1)")
        (λ n. argument_of pg (seven_argument ∷ []) (pg.get_placeholder n))
format_where_clause-Covers_example =
    format_where_clause-Covers pg DataSourceKind.postgresql row_of_seven row_of_seven-IsFaithful
      id_is_seven_and_more filtering_optional (codes "(\"id\" = $1)") (seven_argument ∷ [])
      pg-NumbersArguments test_clause

test_dropped :
    format_predicate pg DataSourceKind.postgresql (other_predicate 0) false false fresh
    ≡ (err (wraps unimplemented_predicate_type), fresh)
unfolding format_predicate
test_dropped = refl

abbrev after_error : Builder
after_error = record { args = []; conjunction_errors = wraps unimplemented_predicate_type ∷ [] }

test_kept :
    format_predicate pg DataSourceKind.postgresql id_is_seven false false after_error
    ≡ (ok (codes "(\"id\" = $1)"), record after_error { args = seven_argument ∷ [] })
unfolding format_predicate Postgresql.get_placeholder Postgresql.sanitise_identifier
    Postgresql.supports_pushdown_expression format_value
test_kept = refl

mandatory_drops_example :
    format_where_clause pg DataSourceKind.postgresql filtering_mandatory
      (some (conjunction (cons (other_predicate 0) (cons id_is_seven nil))))
    ≡ ok (codes "(\"id\" = $1)", seven_argument ∷ [])
mandatory_drops_example =
    mandatory_drops pg DataSourceKind.postgresql (other_predicate 0) id_is_seven
      (wraps unimplemented_predicate_type) fresh (record after_error { args = seven_argument ∷ [] })
      (codes "(\"id\" = $1)") test_dropped test_kept

abbrev request_of_ids : Request (Unit {0})
request_of_ids = record {
  what = some (record { name = codes "id"; ydb_type = some (type_id PrimitiveTypeId.int32) }) ∷ [];
  filter = some (some id_is_seven_and_more);
  kind = DataSourceKind.postgresql;
  split = tt;
}

abbrev query_of_ids : SelectQuery
query_of_ids = record {
  query_text = codes "SELECT \"id\" FROM \"users\" WHERE (\"id\" = $1)";
  query_args = some (seven_argument ∷ []);
  ydb_types = type_id PrimitiveTypeId.int32 ∷ [];
}

test_query :
    make_select_query pg request_of_ids filtering_optional (codes "users") ≡ ok query_of_ids
unfolding make_select_query Postgresql.get_placeholder Postgresql.sanitise_identifier
    Postgresql.supports_pushdown_expression format_value Postgresql.format_from
    Postgresql.render_select_query_text
test_query = refl

test_renders :
    (parts : _) (s : Unit {0})
    → pg.render_select_query_text parts s ≡ default_select_query_render parts
unfolding Postgresql.render_select_query_text
test_renders parts s = refl

make_select_query-Covers_example :
    (columns : Bytes) × (clause : Bytes) × (args : QueryArgs) × (codes "users" ≢ [])
    × (query_of_ids.query_args ≡ some args)
    × (query_of_ids.query_text
        ≡ codes "SELECT "
          ++ (columns ++ (codes " FROM " ++ (pg.format_from (codes "users") ++ where_part clause))))
    × ((clause ≡ [])
        ⊎ Covers pg DataSourceKind.postgresql row_of_seven row_of_seven-IsFaithful
            id_is_seven_and_more clause
            (λ n. argument_of pg args (pg.get_placeholder n)))
make_select_query-Covers_example =
    make_select_query-Covers pg test_renders row_of_seven row_of_seven-IsFaithful request_of_ids
      filtering_optional (codes "users") query_of_ids id_is_seven_and_more pg-NumbersArguments refl
      test_query

length-ydb_types_example : length query_of_ids.ydb_types ≡ max 1 (length request_of_ids.what)
length-ydb_types_example =
    length-ydb_types pg test_renders request_of_ids filtering_optional (codes "users") query_of_ids
      test_query

-- A name with a quote in it.
sanitise-read_example :
    read_of
      (λ c. c)
      Escaping.clickhouse
      (sanitise_of Escaping.clickhouse (codes "a\"b") ++ codes " x")
    ≡ some (codes "a\"b", codes " x")
sanitise-read_example =
    sanitise-read (λ c. c) Escaping.clickhouse (codes "a\"b") (codes " x")
      ((λ e. omega (arith, e)), ((λ e. omega (arith, e)), ((λ e. omega (arith, e)), tt)))
      ((λ e. omega (arith, e)), ((λ e. omega (arith, e)), ((λ e. omega (arith, e)), tt)))
      (λ e. omega (arith, e))

ydb_sanitise-breaks_example :
    read_identifier backtick
      (Ydb.sanitise_identifier (codes "a" ++ backtick ∷ codes "; DROP") ++ [])
    ≡ some (codes "a", codes "; DROP" ++ backtick ∷ [])
ydb_sanitise-breaks_example =
    ydb_sanitise-breaks (codes "a") (codes "; DROP") [] ((λ e. omega (arith, e)), tt)
      (λ e. omega (arith, e))

-- The name `a\"; DROP`.
clickhouse_sanitise-breaks_example :
    read_clickhouse_identifier
      (λ c. c)
      double_quote
      (Clickhouse.sanitise_identifier (codes "a" ++ backslash ∷ double_quote ∷ 59 ∷ codes " DROP")
        ++ [])
    ≡ some (codes "a" ++ double_quote ∷ [], 59 ∷ sanitised_rest (codes " DROP") [])
clickhouse_sanitise-breaks_example =
    clickhouse_sanitise-breaks (λ c. c) (codes "a") 59 (codes " DROP") []
      (((λ e. omega (arith, e)), (λ e. omega (arith, e)), (λ e. omega (arith, e))), tt)
      ((λ e. omega (arith, e)), (λ e. omega (arith, e)), (λ e. omega (arith, e)))
