-- ===== src/Examples/Values.antt =====
-- Tests, and the theorems on types and values at concrete ones.
use fq_connector_go.Common.{ℕ, ◌/◌, ◌⊎◌, none, refl, codes, true, false, ◌≤◌, ◌≡◌, ◌≢◌, ◌↔◌, arith}
use fq_connector_go.Errors.{err, wraps, value_out_of_type_bounds, value, ok}
use fq_connector_go.Ydb.{pos, PrimitiveTypeId, YdbType, type_id, optional, list}
use fq_connector_go.Ydb.Equality.{value, out_of_fuel, types_equal}
use fq_connector_go.Ydb.Equality.Agrees.{IsComparable, types_equal-agrees}
use fq_connector_go.Ydb.Equality.Fuel.{types_equal-ends}
use fq_connector_go.TypeMapping.{
  yql_format, string_format, postgresql_sql_type_to_ydb_column,
  ms_sql_server_sql_type_to_ydb_column, oracle_sql_type_to_ydb_column,
}
use fq_connector_go.TypeMapping.Mysql.{mysql_sql_type_to_ydb_column}
use fq_connector_go.TypeMapping.Columns.{IsMysqlColumn, IsColumn, sql_type_to_ydb_column-IsColumn}
use fq_connector_go.TypeMapping.Clickhouse.{Patterns, clickhouse_sql_type_to_ydb_column}
use fq_connector_go.TypeMapping.Nullable.{is_nullable, IsResult, clickhouse_column-IsResult}
use fq_connector_go.Times.{max_ydb_time}
use fq_connector_go.Times.Bounds.{IsOutside, CountsDays, Converted, time_to_ydb-bounds}

abbrev strings : YdbType
strings = list (optional (type_id PrimitiveTypeId.utf8))

strings-IsComparable : IsComparable strings
unfolding IsComparable
strings-IsComparable h = cc

types_equal-agrees_example : (types_equal strings strings ≡ value true) ↔ (strings ≡ strings)
types_equal-agrees_example =
    types_equal-agrees strings strings strings-IsComparable strings-IsComparable

types_equal-ends_example : types_equal strings strings ≢ out_of_fuel
types_equal-ends_example = types_equal-ends strings strings

-- Only PostgreSQL has a type of that name; MySQL reads its first word.
sql_type_to_ydb_column-IsColumn_example :
    IsColumn string_format
      (postgresql_sql_type_to_ydb_column string_format (codes "timestamp without time zone"))
    × IsColumn string_format
        (ms_sql_server_sql_type_to_ydb_column string_format (codes "timestamp without time zone"))
    × IsColumn string_format (
        oracle_sql_type_to_ydb_column
          (λ s. false)
          string_format
          (codes "timestamp without time zone"))
    × IsMysqlColumn string_format (
        mysql_sql_type_to_ydb_column
          (λ s. none)
          string_format
          (codes "timestamp without time zone"))
sql_type_to_ydb_column-IsColumn_example =
    sql_type_to_ydb_column-IsColumn (λ s. false) (λ s. none) string_format
      (codes "timestamp without time zone")

test_unsigned :
    mysql_sql_type_to_ydb_column (λ s. none) string_format (codes "smallint unsigned")
    ≡ ok (optional (type_id PrimitiveTypeId.uint16))
unfolding mysql_sql_type_to_ydb_column
test_unsigned = refl

test_timestamp_as_string :
    postgresql_sql_type_to_ydb_column string_format (codes "timestamp without time zone")
    ≡ ok (optional (type_id PrimitiveTypeId.utf8))
unfolding postgresql_sql_type_to_ydb_column
test_timestamp_as_string = refl

-- Patterns that match nothing.
abbrev no_patterns : Patterns
no_patterns = record {
  is_fixed_string = λ s. false;
  is_date_time64 = λ s. false;
  nullable_inner = λ s. none;
  array_inner = λ s. none;
}

clickhouse_column-IsResult_example :
    IsResult
      (is_nullable none)
      (clickhouse_sql_type_to_ydb_column no_patterns yql_format (codes "Date32"))
clickhouse_column-IsResult_example =
    clickhouse_column-IsResult no_patterns yql_format (codes "Date32")

test_nullable_date :
    clickhouse_sql_type_to_ydb_column no_patterns yql_format (codes "Date32")
    ≡ ok (optional (type_id PrimitiveTypeId.date))
unfolding clickhouse_sql_type_to_ydb_column
test_nullable_date = refl

-- The pattern for DateTime takes in a composite type.
test_tuple :
    clickhouse_sql_type_to_ydb_column no_patterns yql_format (codes "Tuple(DateTime, String)")
    ≡ ok (optional (type_id PrimitiveTypeId.datetime))
unfolding clickhouse_sql_type_to_ydb_column
test_tuple = refl

-- The exact quotient.
abbrev whole_days : ℕ → ℕ
whole_days n = n / 86400000000000

whole_days-CountsDays : CountsDays whole_days
whole_days-CountsDays = record { monotone = λ m n h. omega arith; whole_days = λ d h. omega arith }

-- One nanosecond before the year 2000.
time_to_ydb-bounds_example :
    ((n : ℕ) × (pos 946684799999999999 ≡ pos n)
      × (n ≤ max_ydb_time)
      × (whole_days n ≤ 49673)
      × Converted whole_days
          (pos 946684799999999999)
          (ok (whole_days n))
          (ok (n / 1000000000))
          (ok (n / 1000)))
    ⊎ (IsOutside (pos 946684799999999999)
        × Converted whole_days
            (pos 946684799999999999)
            (err (wraps value_out_of_type_bounds))
            (err (wraps value_out_of_type_bounds))
            (err (wraps value_out_of_type_bounds)))
time_to_ydb-bounds_example =
    time_to_ydb-bounds whole_days (pos 946684799999999999) whole_days-CountsDays
