-- ===== src/SelectQuery.antt =====
-- app/server/datasource/rdbms/utils/select_query.go and select_helpers.go, and the conversion of the
-- requested columns in common/ydb_type_helpers.go: a request for a split becomes one SQL query.
-- The errors' texts are left out; `opaque` stands for an error with no sentinel.
pub mod Shape
use fq_connector_go.Common.{
  ℕ, Bool, true, false, Bytes, codes, List, [], ◌∷◌, ◌++◌, Option, none, some,
}
use fq_connector_go.Errors.{Error, wraps, opaque, empty_table_name, Result, ok, err, ◌>>=◌}
use fq_connector_go.Ydb.{PrimitiveTypeId, YdbType, type_id}
use fq_connector_go.Api.{DataSourceKind, Predicate, Filtering}
use fq_connector_go.Predicate.Formatter.{QueryArgs, SelectQueryParts, SqlFormatter}
use fq_connector_go.Predicate.Format.{format_where_clause}

-- Ydb.Column; a column whose type is not set has `none`.
pub record Column : Type 0 where
  pub name : Bytes
  pub ydb_type : Option YdbType

-- TSelect_TWhat: the items, of which one that is not a column is `none`.
abbrev pub What : Type 0
What = List (Option Column)

-- selectWhatToYDBColumns
unfoldable pub select_what_to_ydb_columns : What → Result (List Column)
select_what_to_ydb_columns [] = ok []
select_what_to_ydb_columns (none ∷ items) = err opaque
select_what_to_ydb_columns (some c ∷ items) = do
  columns ← select_what_to_ydb_columns items
  ok (c ∷ columns)

unfoldable pub item_type : Option Column → Option YdbType
item_type none = none
item_type (some c) = c.ydb_type

unfoldable pub with_type : Option YdbType → Result (List YdbType) → Result (List YdbType)
with_type none rest = err opaque
with_type (some t) rest = do types ← rest; ok (t ∷ types)

-- common.SelectWhatToYDBTypes
unfoldable pub select_what_to_ydb_types : What → Result (List YdbType)
unfolding item_type with_type
select_what_to_ydb_types [] = ok []
select_what_to_ydb_types (item ∷ items) =
    with_type (item_type item) (select_what_to_ydb_types items)

-- makeTSelectTWhatForEmptyColumnsRequest
abbrev pub empty_columns_request : What
empty_columns_request =
    some (record { name = []; ydb_type = some (type_id PrimitiveTypeId.int64) }) ∷ []

-- TSelect_TWhere: `none` if the typed filter is not set.
abbrev pub Where : Type 0
Where = Option Predicate

-- The fields of TSplit that make a query.
pub record Request (Split : Type 0) : Type 0 where
  pub what : What
  pub filter : Option Where
  pub kind : DataSourceKind
  pub split : Split

-- SelectQuery, without the context and the logger; a nil `QueryArgs` is `none`.
pub record SelectQuery : Type 0 where
  pub query_text : Bytes
  pub query_args : Option QueryArgs
  pub ydb_types : List YdbType

module _ {Split : Type 0} (formatter : SqlFormatter Split) where
  -- The loop of formatSelectClause.
  unfoldable pub column_names : List Column → Bytes
  column_names [] = []
  column_names (c ∷ []) = formatter.sanitise_identifier c.name
  column_names (c ∷ c' ∷ cs) =
      formatter.sanitise_identifier c.name ++ (codes ", " ++ column_names (c' ∷ cs))

  unfoldable pub columns_clause : What → List Column → Bytes × What
  unfolding column_names
  columns_clause what [] = (codes "0", empty_columns_request)
  columns_clause what (c ∷ cs) = (column_names (c ∷ cs), what)

  -- formatSelectClause, with `fakeZeroOnEmptyColumnsSet` set, as it is called.
  unfoldable pub format_select_clause : What → Result (Bytes × What)
  unfolding columns_clause select_what_to_ydb_columns
  format_select_clause what = do
    columns ← select_what_to_ydb_columns what
    ok (columns_clause what columns)

  -- The FROM part of MakeSelectQuery.
  unfoldable pub from_part : Bytes → Result Bytes
  from_part [] = err (wraps empty_table_name)
  from_part (c ∷ name) = ok (formatter.format_from (c ∷ name))

  -- The WHERE part of MakeSelectQuery.
  unfoldable pub where_clause :
      DataSourceKind → Filtering → Option Where → Result (Bytes × Option QueryArgs)
  unfolding format_where_clause
  where_clause kind filtering none = ok ([], none)
  where_clause kind filtering (some w) = do
    formatted ← format_where_clause formatter kind filtering w
    ok (formatted.0, some formatted.1)

  -- MakeSelectQuery
  unfoldable pub make_select_query : Request Split → Filtering → Bytes → Result SelectQuery
  unfolding format_select_clause select_what_to_ydb_types from_part where_clause
  make_select_query request filtering table_name = do
    select ← format_select_clause request.what
    types ← select_what_to_ydb_types select.1
    from ← from_part table_name
    filter ← where_clause request.kind filtering request.filter
    text ←
        formatter.render_select_query_text
          (record { select_clause = select.0; from_clause = from; where_clause = filter.0 })
          request.split
    ok (record { query_text = text; query_args = filter.1; ydb_types = types })
