-- ===== src/TypeMapping/Clickhouse.antt =====
-- SQLTypeToYDBColumn of app/server/datasource/rdbms/clickhouse/type_mapper.go. Four of its regular
-- expressions are the parameter `Patterns`; that for DateTime, whose group is optional, matches the
-- names that have this word in them.
use fq_connector_go.Common.{
  Bool, true, false, ◌||◌, Bytes, codes, bytes_eq, [], ◌∷◌, Option, none, some,
}
use fq_connector_go.Errors.{wraps, data_type_not_supported, Result, ok, err, ◌>>=◌}
use fq_connector_go.ApiError.Text.{contains}
use fq_connector_go.Ydb.{PrimitiveTypeId, YdbType, type_id, optional}
use fq_connector_go.TypeMapping.{
  DateTimeFormat, yql_format, string_format, other_format, make_ydb_date_time_type, Mapped,
  primitive, date_time, Switch, case_of,
}

-- The matches of isFixedString and isDateTime64, and the group that isNullable and isArray find.
pub record Patterns : Type 0 where
  pub is_fixed_string : Bytes → Bool
  pub is_date_time64 : Bytes → Bool
  pub nullable_inner : Bytes → Option Bytes
  pub array_inner : Bytes → Option Bytes

abbrev pub number_switch : Switch
number_switch =
    (codes "Bool" ∷ [], primitive PrimitiveTypeId.bool)
    ∷ (codes "Int8" ∷ [], primitive PrimitiveTypeId.int8)
    ∷ (codes "UInt8" ∷ [], primitive PrimitiveTypeId.uint8)
    ∷ (codes "Int16" ∷ [], primitive PrimitiveTypeId.int16)
    ∷ (codes "UInt16" ∷ [], primitive PrimitiveTypeId.uint16)
    ∷ (codes "Int32" ∷ [], primitive PrimitiveTypeId.int32)
    ∷ (codes "UInt32" ∷ [], primitive PrimitiveTypeId.uint32)
    ∷ (codes "Int64" ∷ [], primitive PrimitiveTypeId.int64)
    ∷ (codes "UInt64" ∷ [], primitive PrimitiveTypeId.uint64)
    ∷ (codes "Float32" ∷ [], primitive PrimitiveTypeId.float)
    ∷ (codes "Float64" ∷ [], primitive PrimitiveTypeId.double)
    ∷ []

abbrev pub date_switch : Switch
date_switch = (codes "Date" ∷ codes "Date32" ∷ [], date_time PrimitiveTypeId.date) ∷ []

-- A case with a condition, before the later cases.
unfoldable pub case_if : Bool → Mapped → Option Mapped → Option Mapped
case_if true mapped later = some mapped
case_if false mapped later = later

unfoldable pub or_later : Option Mapped → Option Mapped → Option Mapped
or_later none later = later
or_later (some mapped) later = some mapped

-- The switch, for a name without `Nullable`.
unfoldable pub mapped_of : Patterns → Bytes → Option Mapped
unfolding case_of case_if or_later contains
mapped_of p name = or_later (case_of name number_switch) (
    case_if (bytes_eq name (codes "String") || p.is_fixed_string name)
      (primitive PrimitiveTypeId.string)
      (or_later (case_of name date_switch) (
        case_if (p.is_date_time64 name) (date_time PrimitiveTypeId.timestamp)
          (case_if (contains (codes "DateTime") name) (date_time PrimitiveTypeId.datetime) none))))

unfoldable pub is_yql : DateTimeFormat → Bool
is_yql yql_format = true
is_yql string_format = false
is_yql (other_format n) = false

-- `if nullable { ydbType = MakeOptionalType(ydbType) }`
unfoldable pub wrap_if : Bool → YdbType → YdbType
wrap_if true t = optional t
wrap_if false t = t

-- What a case of the switch makes, and what follows the switch.
unfoldable pub make_clickhouse_column : DateTimeFormat → Bool → Option Mapped → Result YdbType
unfolding make_ydb_date_time_type is_yql wrap_if
make_clickhouse_column f nullable none = err (wraps data_type_not_supported)
make_clickhouse_column f nullable (some (primitive p)) = ok (wrap_if nullable (type_id p))
make_clickhouse_column f nullable (some (date_time p)) = do
  t ← make_ydb_date_time_type p f
  ok (wrap_if (nullable || is_yql f) t)

-- The refusal of arrays, before the switch.
unfoldable pub unless_array : Option Bytes → Result YdbType → Result YdbType
unless_array (some inner) column = err (wraps data_type_not_supported)
unless_array none column = column

unfoldable pub without_nullable : Patterns → DateTimeFormat → Bool → Bytes → Result YdbType
unfolding unless_array make_clickhouse_column mapped_of
without_nullable p f nullable name =
    unless_array (p.array_inner name) (make_clickhouse_column f nullable (mapped_of p name))

unfoldable pub strip_nullable : Patterns → DateTimeFormat → Bytes → Option Bytes → Result YdbType
unfolding without_nullable
strip_nullable p f name none = without_nullable p f false name
strip_nullable p f name (some inner) = without_nullable p f true inner

-- SQLTypeToYDBColumn of ClickHouse.
unfoldable pub clickhouse_sql_type_to_ydb_column :
    Patterns → DateTimeFormat → Bytes → Result YdbType
unfolding strip_nullable
clickhouse_sql_type_to_ydb_column p f name = strip_nullable p f name (p.nullable_inner name)
