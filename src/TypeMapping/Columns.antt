-- ===== src/TypeMapping/Columns.antt =====
-- type_mapper.go: what the type of a column can be.
use fq_connector_go.Common.{
  codes, ◌==◌, ℕ, Bool, true, false, not, ◌&&◌, Bytes, [], ◌∷◌, Option, none, some, ◌≡◌, refl,
  Bool-cases, arith, inl, inr, ◌⊎◌,
}
use fq_connector_go.Errors.{
  opaque, wraps, data_type_not_supported, invalid_request, Result, ok, err,
}
use fq_connector_go.Ydb.{PrimitiveTypeId, YdbType, type_id, optional}
use fq_connector_go.TypeMapping.{
  DateTimeFormat, yql_format, string_format, other_format, make_ydb_date_time_type, item_type_id,
  ydb_type_to_ydb_primitive_type_id, Mapped, primitive, date_time, make_mapped, one_of, Switch,
  case_of, make_column, postgresql_switch, postgresql_sql_type_to_ydb_column, ms_sql_server_switch,
  ms_sql_server_sql_type_to_ydb_column, oracle_switch, or_timestamp, oracle_sql_type_to_ydb_column,
}
use fq_connector_go.ApiError.Text.{contains}
use fq_connector_go.TypeMapping.Mysql.{
  before_space, mysql_switch, mysql_named, mysql_sized, mysql_sql_type_to_ydb_column,
}

-- The types of dates and times.
unfoldable pub is_date_time : PrimitiveTypeId → Bool
is_date_time PrimitiveTypeId.date = true
is_date_time PrimitiveTypeId.datetime = true
is_date_time PrimitiveTypeId.timestamp = true
is_date_time _ = false

-- The case of a switch is a date exactly where it says so.
unfoldable pub is_sorted : Mapped → Bool
unfolding is_date_time
is_sorted (primitive p) = not (is_date_time p)
is_sorted (date_time p) = is_date_time p

unfoldable pub all_sorted : Switch → Bool
unfolding is_sorted
all_sorted [] = true
all_sorted ((names, mapped) ∷ cases) = is_sorted mapped && all_sorted cases

abbrev pub IfSorted : Option Mapped → Type 0
IfSorted none = Unit
IfSorted (some mapped) = is_sorted mapped ≡ true

-- An optional primitive type, which is found in it again, and is no date if strings were asked for.
abbrev pub IsColumnType : DateTimeFormat → YdbType → Type 0
IsColumnType f t =
    (p : PrimitiveTypeId) × (t ≡ optional (type_id p))
    × (ydb_type_to_ydb_primitive_type_id t ≡ ok p)
    × (f ≡ string_format → is_date_time p ≡ false)

-- A column's type, or the error: of an unknown type, or of a date in an unknown format.
abbrev pub IsColumn : DateTimeFormat → Result YdbType → Type 0
IsColumn f (ok t) = IsColumnType f t
IsColumn f (err e) =
    (e ≡ wraps data_type_not_supported)
    ⊎ ((e ≡ wraps invalid_request) × ((n : ℕ) × (f ≡ other_format n)))

pub case_of-IfSorted :
    (name : Bytes) (cases : Switch) → all_sorted cases ≡ true → IfSorted (case_of name cases)
unfolding case_of all_sorted is_sorted
case_of-IfSorted name [] h = tt
case_of-IfSorted name ((names, mapped) ∷ cases) h =
    let first : is_sorted mapped ≡ true = ground arith in
    let later : all_sorted cases ≡ true = ground arith in
    elim (Bool-cases (one_of name names)) [
      | inl e ↦ rw e first
      | inr e ↦ rw e (case_of-IfSorted name cases later)
    ]

make_column-IsColumn :
    (f : DateTimeFormat) (o : Option Mapped) → IfSorted o → IsColumn f (make_column f o)
unfolding make_column make_mapped make_ydb_date_time_type ydb_type_to_ydb_primitive_type_id
    item_type_id is_date_time is_sorted
make_column-IsColumn f none h = inl refl
make_column-IsColumn f (some (primitive p)) h =
    let no_date : is_date_time p ≡ false = ground arith in (p, refl, refl, λ e. no_date)
make_column-IsColumn yql_format (some (date_time p)) h = (p, refl, refl, λ e. absurd (cc e))
make_column-IsColumn string_format (some (date_time p)) h =
    (PrimitiveTypeId.utf8, refl, refl, λ e. refl)
make_column-IsColumn (other_format n) (some (date_time p)) h = inr (refl, (n, refl))

or_timestamp-IfSorted : (b : Bool) (o : Option Mapped) → IfSorted o → IfSorted (or_timestamp b o)
unfolding or_timestamp is_sorted
or_timestamp-IfSorted true none h = refl
or_timestamp-IfSorted false none h = tt
or_timestamp-IfSorted true (some m) h = h
or_timestamp-IfSorted false (some m) h = h

mysql_switch-sorted : (is_bit unsigned : Bool) → all_sorted (mysql_switch is_bit unsigned) ≡ true
unfolding all_sorted
mysql_switch-sorted true true = refl
mysql_switch-sorted true false = refl
mysql_switch-sorted false true = refl
mysql_switch-sorted false false = refl

-- MySQL can fail besides because of the size of a type.
abbrev pub IsMysqlColumn : DateTimeFormat → Result YdbType → Type 0
IsMysqlColumn f result = (result ≡ err opaque) ⊎ IsColumn f result

mysql_sized-IsMysqlColumn :
    (f : DateTimeFormat) (unsigned : Bool) (column_type : Bytes) (sized : Option (Bytes × Option ℕ))
    → IsMysqlColumn f (mysql_sized f unsigned column_type sized)
unfolding mysql_sized mysql_named
mysql_sized-IsMysqlColumn f unsigned column_type none = inr (
    make_column-IsColumn f _ (
      case_of-IfSorted (before_space column_type) (mysql_switch (0 == 1) unsigned)
        (mysql_switch-sorted (0 == 1) unsigned)))
mysql_sized-IsMysqlColumn f unsigned column_type (some (name, none)) = inl refl
mysql_sized-IsMysqlColumn f unsigned column_type (some (name, some size)) = inr (
    make_column-IsColumn f _ (
      case_of-IfSorted name (mysql_switch (size == 1) unsigned)
        (mysql_switch-sorted (size == 1) unsigned)))

-- For every name of a type, PostgreSQL, MS SQL Server, Oracle and MySQL map a column to an optional
-- primitive type, which YdbTypeToYdbPrimitiveTypeID finds in it again and which is no date or time
-- when the request wants these as strings; or they fail, because the type is not supported, because
-- the format of dates is unknown or, for MySQL, with an error that has no sentinel.
pub sql_type_to_ydb_column-IsColumn :
    (is_timestamp : Bytes → Bool) (sized : Bytes → Option (Bytes × Option ℕ)) (f : DateTimeFormat)
    (name : Bytes)
    → IsColumn f (postgresql_sql_type_to_ydb_column f name)
      × IsColumn f (ms_sql_server_sql_type_to_ydb_column f name)
      × IsColumn f (oracle_sql_type_to_ydb_column is_timestamp f name)
      × IsMysqlColumn f (mysql_sql_type_to_ydb_column sized f name)
unfolding postgresql_sql_type_to_ydb_column ms_sql_server_sql_type_to_ydb_column
    oracle_sql_type_to_ydb_column mysql_sql_type_to_ydb_column all_sorted
sql_type_to_ydb_column-IsColumn is_timestamp sized f name = (
  make_column-IsColumn f _ (case_of-IfSorted name postgresql_switch refl),
  make_column-IsColumn f _ (case_of-IfSorted name ms_sql_server_switch refl),
  make_column-IsColumn f _
      (or_timestamp-IfSorted (is_timestamp name) _ (case_of-IfSorted name oracle_switch refl)),
  mysql_sized-IsMysqlColumn f (contains (codes "unsigned") name) name (sized name),
)
