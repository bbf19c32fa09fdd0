-- ===== src/Dialect/MsSqlServer.antt =====
-- app/server/datasource/rdbms/ms_sql_server/sql_formatter.go.
use fq_connector_go.Common.{ℕ, ◌+◌, Bool, true, false, Bytes, codes, [], ◌∷◌, ◌++◌, decimal}
use fq_connector_go.Errors.{Result}
use fq_connector_go.Ydb.{PrimitiveTypeId, YdbType, type_id, optional}
use fq_connector_go.Api.{Expression, column, typed_value, arithmetical, null, other_expression}
use fq_connector_go.Predicate.Formatter.{SelectQueryParts, SqlFormatter}
use fq_connector_go.Dialect.Text.{replace_byte, double_quote, default_select_query_render}

module _ (enable_timestamp_pushdown : Bool) where
  -- sqlFormatter.supportsType
  unfoldable pub supports_type : PrimitiveTypeId → Bool
  supports_type PrimitiveTypeId.bool = true
  supports_type PrimitiveTypeId.int8 = true
  supports_type PrimitiveTypeId.uint8 = false
  supports_type PrimitiveTypeId.int16 = true
  supports_type PrimitiveTypeId.uint16 = false
  supports_type PrimitiveTypeId.int32 = true
  supports_type PrimitiveTypeId.uint32 = false
  supports_type PrimitiveTypeId.int64 = true
  supports_type PrimitiveTypeId.uint64 = false
  supports_type PrimitiveTypeId.float = true
  supports_type PrimitiveTypeId.double = true
  supports_type PrimitiveTypeId.json = false
  supports_type PrimitiveTypeId.timestamp = enable_timestamp_pushdown
  supports_type _ = false

  -- sqlFormatter.supportsConstantValueExpression
  unfoldable pub supports_constant_value_expression : YdbType → Bool
  unfolding supports_type
  supports_constant_value_expression (type_id p) = supports_type p
  supports_constant_value_expression (optional t) = supports_constant_value_expression t
  supports_constant_value_expression _ = false

  -- sqlFormatter.SupportsPushdownExpression
  unfoldable pub supports_pushdown_expression : Expression → Bool
  unfolding supports_constant_value_expression
  supports_pushdown_expression (column c) = true
  supports_pushdown_expression (typed_value v) = supports_constant_value_expression v.ydb_type
  supports_pushdown_expression (arithmetical op x y) = false
  supports_pushdown_expression null = true
  supports_pushdown_expression (other_expression n) = false

-- sqlFormatter.GetPlaceholder
unfoldable pub get_placeholder : ℕ → Bytes
unfolding decimal
get_placeholder n = codes "@p" ++ decimal (n + 1)

-- sqlFormatter.SanitiseIdentifier
unfoldable pub sanitise_identifier : Bytes → Bytes
unfolding replace_byte
sanitise_identifier ident =
    double_quote
    ∷ (replace_byte double_quote (double_quote ∷ double_quote ∷ []) (replace_byte 0 [] ident)
        ++ double_quote ∷ [])

-- sqlFormatter.FormatFrom
unfoldable pub format_from : Bytes → Bytes
unfolding sanitise_identifier
format_from table_name = sanitise_identifier table_name

-- sqlFormatter.RenderSelectQueryText; the split is not used.
unfoldable pub render_select_query_text : SelectQueryParts → Unit {0} → Result Bytes
unfolding default_select_query_render
render_select_query_text parts split = default_select_query_render parts

-- NewSQLFormatter; the argument is `cfg.EnableTimestampPushdown`.
abbrev pub formatter : Bool → SqlFormatter (Unit {0})
formatter enable_timestamp_pushdown = record {
  get_placeholder = get_placeholder;
  sanitise_identifier = sanitise_identifier;
  supports_pushdown_expression = supports_pushdown_expression enable_timestamp_pushdown;
  format_from = format_from;
  render_select_query_text = render_select_query_text;
}
