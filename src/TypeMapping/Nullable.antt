-- ===== src/TypeMapping/Nullable.antt =====
-- type_mapper.go of ClickHouse: which columns are optional.
use fq_connector_go.Common.{
  Bool, true, false, ◌||◌, Bytes, codes, Option, none, some, ◌≡◌, ◌⊎◌, inl, inr, refl, arith,
}
use fq_connector_go.Errors.{wraps, data_type_not_supported, invalid_request, Result, ok, err}
use fq_connector_go.ApiError.Text.{contains}
use fq_connector_go.Ydb.{PrimitiveTypeId, YdbType, type_id, optional}
use fq_connector_go.TypeMapping.{
  DateTimeFormat, yql_format, string_format, other_format, make_ydb_date_time_type, item_type_id,
  ydb_type_to_ydb_primitive_type_id, Mapped, primitive, date_time, case_of,
}
use fq_connector_go.TypeMapping.Columns.{
  is_date_time, is_sorted, all_sorted, IfSorted, case_of-IfSorted,
}
use fq_connector_go.TypeMapping.Clickhouse.{
  Patterns, number_switch, date_switch, case_if, or_later, mapped_of, is_yql, wrap_if,
  make_clickhouse_column, unless_array, without_nullable, strip_nullable,
  clickhouse_sql_type_to_ydb_column,
}

-- A primitive type that is found in it again, and is optional unless the column is not nullable and
-- the type is no date or time.
abbrev pub IsWrapped : Bool → YdbType → Type 0
IsWrapped nullable t =
    (p : PrimitiveTypeId) × (ydb_type_to_ydb_primitive_type_id t ≡ ok p)
    × ((t ≡ optional (type_id p))
        ⊎ ((t ≡ type_id p) × (nullable ≡ false) × (is_date_time p ≡ false)))

abbrev pub IsResult : Bool → Result YdbType → Type 0
IsResult nullable (ok t) = IsWrapped nullable t
IsResult nullable (err e) = (e ≡ wraps data_type_not_supported) ⊎ (e ≡ wraps invalid_request)

wrap_if-IsWrapped :
    (nullable : Bool) (p : PrimitiveTypeId)
    → is_date_time p ≡ false
    → IsWrapped nullable (wrap_if nullable (type_id p))
unfolding wrap_if ydb_type_to_ydb_primitive_type_id item_type_id
wrap_if-IsWrapped true p h = (p, refl, inl refl)
wrap_if-IsWrapped false p h = (p, refl, inr (refl, refl, h))

yql-IsWrapped :
    (nullable : Bool) (p : PrimitiveTypeId)
    → IsWrapped nullable (wrap_if (nullable || true) (type_id p))
unfolding wrap_if ydb_type_to_ydb_primitive_type_id item_type_id
yql-IsWrapped true p = (p, refl, inl refl)
yql-IsWrapped false p = (p, refl, inl refl)

string-IsWrapped :
    (nullable : Bool)
    → IsWrapped nullable (wrap_if (nullable || false) (type_id PrimitiveTypeId.utf8))
unfolding wrap_if ydb_type_to_ydb_primitive_type_id item_type_id is_date_time
string-IsWrapped true = (PrimitiveTypeId.utf8, refl, inl refl)
string-IsWrapped false = (PrimitiveTypeId.utf8, refl, inr (refl, refl, refl))

make_column-IsResult :
    (f : DateTimeFormat) (nullable : Bool) (o : Option Mapped)
    → IfSorted o
    → IsResult nullable (make_clickhouse_column f nullable o)
unfolding make_clickhouse_column make_ydb_date_time_type is_yql is_sorted
make_column-IsResult f nullable none h = inl refl
make_column-IsResult f nullable (some (primitive p)) h = wrap_if-IsWrapped nullable p (ground arith)
make_column-IsResult yql_format nullable (some (date_time p)) h = yql-IsWrapped nullable p
make_column-IsResult string_format nullable (some (date_time p)) h = string-IsWrapped nullable
make_column-IsResult (other_format n) nullable (some (date_time p)) h = inr refl

case_if-IfSorted :
    (b : Bool) (m : Mapped) (o : Option Mapped)
    → is_sorted m ≡ true
    → IfSorted o
    → IfSorted (case_if b m o)
unfolding case_if
case_if-IfSorted true m o h k = h
case_if-IfSorted false m o h k = k

or_later-IfSorted :
    (o later : Option Mapped) → IfSorted o → IfSorted later → IfSorted (or_later o later)
unfolding or_later
or_later-IfSorted none later h k = k
or_later-IfSorted (some m) later h k = h

mapped_of-IfSorted : (p : Patterns) (name : Bytes) → IfSorted (mapped_of p name)
unfolding mapped_of all_sorted is_sorted
mapped_of-IfSorted p name =
    or_later-IfSorted (case_of name number_switch) _ (case_of-IfSorted name number_switch refl) (
      case_if-IfSorted _ (primitive PrimitiveTypeId.string) _ refl (
        or_later-IfSorted (case_of name date_switch) _ (case_of-IfSorted name date_switch refl) (
          case_if-IfSorted (p.is_date_time64 name) (date_time PrimitiveTypeId.timestamp) _ refl (
            case_if-IfSorted (contains (codes "DateTime") name) (date_time PrimitiveTypeId.datetime)
              none refl tt))))

unless_array-IsResult :
    (nullable : Bool) (inner : Option Bytes) (column : Result YdbType)
    → IsResult nullable column
    → IsResult nullable (unless_array inner column)
unfolding unless_array
unless_array-IsResult nullable none column h = h
unless_array-IsResult nullable (some inner) column h = inl refl

without_nullable-IsResult :
    (p : Patterns) (f : DateTimeFormat) (nullable : Bool) (name : Bytes)
    → IsResult nullable (without_nullable p f nullable name)
unfolding without_nullable
without_nullable-IsResult p f nullable name =
    unless_array-IsResult nullable (p.array_inner name) _
      (make_column-IsResult f nullable (mapped_of p name) (mapped_of-IfSorted p name))

unfoldable pub is_nullable : Option Bytes → Bool
is_nullable none = false
is_nullable (some inner) = true

strip-IsResult :
    (p : Patterns) (f : DateTimeFormat) (name : Bytes) (inner : Option Bytes)
    → IsResult (is_nullable inner) (strip_nullable p f name inner)
unfolding strip_nullable is_nullable
strip-IsResult p f name none = without_nullable-IsResult p f false name
strip-IsResult p f name (some inner) = without_nullable-IsResult p f true inner

-- For every name of a type, ClickHouse maps a column to a primitive type that
-- YdbTypeToYdbPrimitiveTypeID finds in it again, or fails as for an unsupported type or an unknown
-- format of dates. The type is optional if the pattern for Nullable matches the name, and whenever it
-- is the type of a date or time.
pub clickhouse_column-IsResult :
    (p : Patterns) (f : DateTimeFormat) (name : Bytes)
    → IsResult (is_nullable (p.nullable_inner name)) (clickhouse_sql_type_to_ydb_column p f name)
unfolding clickhouse_sql_type_to_ydb_column
clickhouse_column-IsResult p f name = strip-IsResult p f name (p.nullable_inner name)
