-- ===== src/TypeMapping.antt =====
-- SQLTypeToYDBColumn of the relational data sources; here those whose types have plain names:
-- app/server/datasource/rdbms/{postgresql,ms_sql_server,oracle}/type_mapper.go, and the helpers of
-- common/ydb_type_helpers.go on primitive and date types. The name of the column, which is passed
-- on, is left out.
pub mod Columns
pub mod Mysql
pub mod Clickhouse
pub mod Nullable
use fq_connector_go.Common.{
  ℕ, Bool, true, false, ◌||◌, Bytes, codes, bytes_eq, List, [], ◌∷◌, Option, none, some,
  if◌then◌else◌,
}
use fq_connector_go.Errors.{
  Error, wraps, data_type_not_supported, invalid_request, Result, ok, err, ◌>>=◌,
}
use fq_connector_go.Ydb.{PrimitiveTypeId, YdbType, type_id, optional}

-- EDateTimeFormat
pub data DateTimeFormat : Type 0 where
  yql_format string_format : DateTimeFormat
  other_format : ℕ → DateTimeFormat

-- MakeYdbDateTimeType
unfoldable pub make_ydb_date_time_type : PrimitiveTypeId → DateTimeFormat → Result YdbType
make_ydb_date_time_type p yql_format = ok (type_id p)
make_ydb_date_time_type p string_format = ok (type_id PrimitiveTypeId.utf8)
make_ydb_date_time_type p (other_format n) = err (wraps invalid_request)

-- The `oneof` of the item of an optional type.
unfoldable pub item_type_id : YdbType → Result PrimitiveTypeId
item_type_id (type_id p) = ok p
item_type_id _ = err (wraps data_type_not_supported)

-- YdbTypeToYdbPrimitiveTypeID
unfoldable pub ydb_type_to_ydb_primitive_type_id : YdbType → Result PrimitiveTypeId
unfolding item_type_id
ydb_type_to_ydb_primitive_type_id (type_id p) = ok p
ydb_type_to_ydb_primitive_type_id (optional t) = item_type_id t
ydb_type_to_ydb_primitive_type_id _ = err (wraps data_type_not_supported)

-- What a case of the switch makes: a primitive type, or a date type in the format of the request.
pub data Mapped : Type 0 where
  primitive : PrimitiveTypeId → Mapped
  date_time : PrimitiveTypeId → Mapped

unfoldable pub make_mapped : DateTimeFormat → Mapped → Result YdbType
unfolding make_ydb_date_time_type
make_mapped f (primitive p) = ok (type_id p)
make_mapped f (date_time p) = make_ydb_date_time_type p f

unfoldable pub one_of : Bytes → List Bytes → Bool
one_of name [] = false
one_of name (n ∷ ns) = bytes_eq name n || one_of name ns

-- A switch on the name of a type; its cases list the names.
abbrev pub Switch : Type 0
Switch = List (List Bytes × Mapped)

unfoldable pub case_of : Bytes → Switch → Option Mapped
unfolding one_of
case_of name [] = none
case_of name ((names, mapped) ∷ cases) =
    let later = case_of name cases in if one_of name names then some mapped else later

-- What follows the switch: the default case, and the wrap in an optional type.
unfoldable pub make_column : DateTimeFormat → Option Mapped → Result YdbType
unfolding make_mapped
make_column f none = err (wraps data_type_not_supported)
make_column f (some mapped) = do t ← make_mapped f mapped; ok (optional t)

abbrev pub postgresql_switch : Switch
postgresql_switch =
    (codes "boolean" ∷ codes "bool" ∷ [], primitive PrimitiveTypeId.bool)
    ∷ (
      codes "smallint" ∷ codes "int2" ∷ codes "smallserial" ∷ codes "serial2" ∷ [],
      primitive PrimitiveTypeId.int16,
    )
    ∷ (
      codes "integer" ∷ codes "int" ∷ codes "int4" ∷ codes "serial" ∷ codes "serial4" ∷ [],
      primitive PrimitiveTypeId.int32,
    )
    ∷ (
      codes "bigint" ∷ codes "int8" ∷ codes "bigserial" ∷ codes "serial8" ∷ [],
      primitive PrimitiveTypeId.int64,
    )
    ∷ (codes "real" ∷ codes "float4" ∷ [], primitive PrimitiveTypeId.float)
    ∷ (codes "double precision" ∷ codes "float8" ∷ [], primitive PrimitiveTypeId.double)
    ∷ (codes "bytea" ∷ codes "uuid" ∷ [], primitive PrimitiveTypeId.string)
    ∷ (
      codes "character" ∷ codes "character varying" ∷ codes "text" ∷ [],
      primitive PrimitiveTypeId.utf8,
    )
    ∷ (codes "json" ∷ [], primitive PrimitiveTypeId.json)
    ∷ (codes "date" ∷ [], date_time PrimitiveTypeId.date)
    ∷ (codes "timestamp without time zone" ∷ [], date_time PrimitiveTypeId.timestamp)
    ∷ []

-- SQLTypeToYDBColumn of PostgreSQL.
unfoldable pub postgresql_sql_type_to_ydb_column : DateTimeFormat → Bytes → Result YdbType
unfolding make_column case_of
postgresql_sql_type_to_ydb_column f name = make_column f (case_of name postgresql_switch)

abbrev pub ms_sql_server_switch : Switch
ms_sql_server_switch =
    (codes "bit" ∷ [], primitive PrimitiveTypeId.bool)
    ∷ (codes "tinyint" ∷ [], primitive PrimitiveTypeId.int8)
    ∷ (codes "smallint" ∷ [], primitive PrimitiveTypeId.int16)
    ∷ (codes "int" ∷ [], primitive PrimitiveTypeId.int32)
    ∷ (codes "bigint" ∷ [], primitive PrimitiveTypeId.int64)
    ∷ (codes "real" ∷ [], primitive PrimitiveTypeId.float)
    ∷ (codes "float" ∷ [], primitive PrimitiveTypeId.double)
    ∷ (codes "binary" ∷ codes "varbinary" ∷ codes "image" ∷ [], primitive PrimitiveTypeId.string)
    ∷ (
      codes "char"
          ∷ codes "varchar"
          ∷ codes "text"
          ∷ codes "nchar"
          ∷ codes "nvarchar"
          ∷ codes "ntext"
          ∷ [],
      primitive PrimitiveTypeId.utf8,
    )
    ∷ (codes "date" ∷ [], date_time PrimitiveTypeId.date)
    ∷ (codes "smalldatetime" ∷ [], date_time PrimitiveTypeId.datetime)
    ∷ (codes "datetime" ∷ codes "datetime2" ∷ [], date_time PrimitiveTypeId.timestamp)
    ∷ []

-- SQLTypeToYDBColumn of MS SQL Server.
unfoldable pub ms_sql_server_sql_type_to_ydb_column : DateTimeFormat → Bytes → Result YdbType
unfolding make_column case_of
ms_sql_server_sql_type_to_ydb_column f name = make_column f (case_of name ms_sql_server_switch)

abbrev pub oracle_switch : Switch
oracle_switch =
    (codes "NUMBER" ∷ [], primitive PrimitiveTypeId.int64)
    ∷ (codes "BINARY_DOUBLE" ∷ [], primitive PrimitiveTypeId.double)
    ∷ (
      codes "NCHAR"
          ∷ codes "CHAR"
          ∷ codes "VARCHAR"
          ∷ codes "VARCHAR2"
          ∷ codes "NVARCHAR"
          ∷ codes "NVARCHAR2"
          ∷ codes "CLOB"
          ∷ codes "NCLOB"
          ∷ codes "LONG"
          ∷ codes "ROWID"
          ∷ codes "UROWID"
          ∷ [],
      primitive PrimitiveTypeId.utf8,
    )
    ∷ (codes "RAW" ∷ codes "LONG RAW" ∷ codes "BLOB" ∷ [], primitive PrimitiveTypeId.string)
    ∷ (codes "JSON" ∷ [], primitive PrimitiveTypeId.json)
    ∷ (codes "DATE" ∷ [], date_time PrimitiveTypeId.datetime)
    ∷ []

-- The last case of Oracle, a match with one of three regular expressions.
unfoldable pub or_timestamp : Bool → Option Mapped → Option Mapped
or_timestamp true none = some (date_time PrimitiveTypeId.timestamp)
or_timestamp false none = none
or_timestamp matches (some mapped) = some mapped

-- SQLTypeToYDBColumn of Oracle, where `is_timestamp` is whether one of the expressions matches.
unfoldable pub oracle_sql_type_to_ydb_column :
    (Bytes → Bool) → DateTimeFormat → Bytes → Result YdbType
unfolding make_column case_of or_timestamp
oracle_sql_type_to_ydb_column is_timestamp f name =
    make_column f (or_timestamp (is_timestamp name) (case_of name oracle_switch))
