-- ===== src/TypeMapping/Mysql.antt =====
-- SQLTypeToYDBColumn of app/server/datasource/rdbms/mysql/type_mapper.go, with the names of
-- type_names.go. The regular expression for a size is the parameter `sized`: it finds the text before
-- the parentheses and the number in them, which is `none` if it does not fit into 64 bits.
use fq_connector_go.Common.{
  ℕ, Bool, true, false, Bytes, codes, [], ◌∷◌, Option, none, some, ◌==◌, if◌then◌else◌,
}
use fq_connector_go.Errors.{opaque, Result, err}
use fq_connector_go.ApiError.Text.{contains}
use fq_connector_go.Ydb.{PrimitiveTypeId, YdbType}
use fq_connector_go.TypeMapping.{
  DateTimeFormat, Mapped, primitive, date_time, Switch, case_of, make_column,
}

-- `strings.Split(columnType, " ")[0]`
unfoldable pub before_space : Bytes → Bytes
before_space [] = []
before_space (c ∷ s) = let rest = before_space s in if c == 32 then [] else c ∷ rest

-- `if unsigned { ... } else { ... }`
abbrev pub sign : Bool → PrimitiveTypeId → PrimitiveTypeId → Mapped
sign true with_sign without_sign = primitive without_sign
sign false with_sign without_sign = primitive with_sign

abbrev pub tiny_int : Bool → Bool → Mapped
tiny_int true unsigned = primitive PrimitiveTypeId.bool
tiny_int false unsigned = sign unsigned PrimitiveTypeId.int8 PrimitiveTypeId.uint8

abbrev pub mysql_switch : Bool → Bool → Switch
mysql_switch is_bit unsigned =
    (
      codes "int" ∷ codes "mediumint" ∷ [],
      sign unsigned PrimitiveTypeId.int32 PrimitiveTypeId.uint32,
    )
    ∷ (codes "bigint" ∷ [], sign unsigned PrimitiveTypeId.int64 PrimitiveTypeId.uint64)
    ∷ (codes "float" ∷ [], primitive PrimitiveTypeId.float)
    ∷ (codes "double" ∷ [], primitive PrimitiveTypeId.double)
    ∷ (codes "tinyint" ∷ [], tiny_int is_bit unsigned)
    ∷ (codes "smallint" ∷ [], sign unsigned PrimitiveTypeId.int16 PrimitiveTypeId.uint16)
    ∷ (
      codes "longblob" ∷ codes "blob" ∷ codes "mediumblob" ∷ codes "tinyblob" ∷ [],
      primitive PrimitiveTypeId.string,
    )
    ∷ (codes "varchar" ∷ codes "char" ∷ [], primitive PrimitiveTypeId.utf8)
    ∷ (codes "binary" ∷ codes "varbinary" ∷ [], primitive PrimitiveTypeId.string)
    ∷ (
      codes "text" ∷ codes "longtext" ∷ codes "tinytext" ∷ codes "mediumtext" ∷ [],
      primitive PrimitiveTypeId.string,
    )
    ∷ (codes "date" ∷ [], date_time PrimitiveTypeId.date)
    ∷ (codes "datetime" ∷ codes "timestamp" ∷ [], date_time PrimitiveTypeId.timestamp)
    ∷ (codes "json" ∷ [], primitive PrimitiveTypeId.json)
    ∷ []

-- The switch on the name and the size of a type.
unfoldable pub mysql_named : DateTimeFormat → Bool → Bytes → ℕ → Result YdbType
unfolding make_column case_of
mysql_named f unsigned name size = make_column f (case_of name (mysql_switch (size == 1) unsigned))

unfoldable pub mysql_sized :
    DateTimeFormat → Bool → Bytes → Option (Bytes × Option ℕ) → Result YdbType
unfolding mysql_named before_space
mysql_sized f unsigned column_type none = mysql_named f unsigned (before_space column_type) 0
mysql_sized f unsigned column_type (some (name, none)) = err opaque
mysql_sized f unsigned column_type (some (name, some size)) = mysql_named f unsigned name size

-- SQLTypeToYDBColumn of MySQL.
unfoldable pub mysql_sql_type_to_ydb_column :
    (Bytes → Option (Bytes × Option ℕ)) → DateTimeFormat → Bytes → Result YdbType
unfolding mysql_sized contains
mysql_sql_type_to_ydb_column sized f column_type =
    mysql_sized f (contains (codes "unsigned") column_type) column_type (sized column_type)
