-- ===== src/Predicate/Formatter.antt =====
-- app/server/datasource/rdbms/utils: the query arguments (select_query_args.go) and the interface
-- that every SQL dialect implements (`SQLFormatter` in sql.go).
use fq_connector_go.Common.{ℕ, Bool, Bytes, List, [], ◌∷◌, ◌++◌, length, Option, some}
use fq_connector_go.Errors.{Result}
use fq_connector_go.Ydb.{ℤ, YdbType}
use fq_connector_go.Api.{Expression}

-- A Go value that is bound to a placeholder. `unix_micro` is `time.UnixMicro(v).UTC()`.
pub data Scalar : Type 0 where
  bool : Bool → Scalar
  int32 int64 : ℤ → Scalar
  uint32 uint64 float double : ℕ → Scalar
  bytes text : Bytes → Scalar
  unix_micro : ℤ → Scalar

-- The element type of a typed nil pointer.
pub data GoType : Type 0 where
  go_bool go_int8 go_uint8 go_int16 go_uint16 go_int32 go_uint32 go_int64 go_uint64 : GoType
  go_bytes go_string : GoType

-- The dynamic value of an `any`: a value, a pointer to one, or a nil pointer of some type.
pub data Any : Type 0 where
  plain : Scalar → Any
  pointer : Scalar → Any
  nil_pointer : GoType → Any

-- QueryArg; a nil type is `none`.
pub record QueryArg : Type 0 where
  pub ydb_type : Option YdbType
  pub value : Any

-- QueryArgs, as the list that it holds.
abbrev pub QueryArgs : Type 0
QueryArgs = List QueryArg

-- QueryArgs.AddTyped
unfoldable pub add_typed : YdbType → Any → QueryArgs → QueryArgs
add_typed t v args = args ++ (record { ydb_type = some t; value = v }) ∷ []

-- QueryArgs.Count
abbrev pub count : QueryArgs → ℕ
count args = length args

pub record SelectQueryParts : Type 0 where
  pub select_clause : Bytes
  pub from_clause : Bytes
  pub where_clause : Bytes

-- SQLFormatter. The split that `RenderSelectQueryText` also receives is of a type that the dialect
-- chooses, since each one decodes the description by itself.
pub record SqlFormatter (Split : Type 0) : Type 0 where
  pub get_placeholder : ℕ → Bytes
  pub sanitise_identifier : Bytes → Bytes
  pub supports_pushdown_expression : Expression → Bool
  pub format_from : Bytes → Bytes
  pub render_select_query_text : SelectQueryParts → Split → Result Bytes
