-- ===== src/Dialect/Ydb.antt =====
-- app/server/datasource/rdbms/ydb/sql_formatter.go, and the dialect of Cloud Logging, which embeds it
-- (app/server/datasource/rdbms/logging/sql_formatter.go).
use fq_connector_go.Common.{ℕ, Bool, true, false, Bytes, codes, List, [], ◌∷◌, ◌++◌, decimal}
use fq_connector_go.Errors.{Result, ok, err, opaque, ◌>>=◌}
use fq_connector_go.Ydb.{PrimitiveTypeId, YdbType, type_id, optional, null_type}
use fq_connector_go.Api.{Expression, column, typed_value, arithmetical, null, other_expression}
use fq_connector_go.Predicate.Formatter.{SelectQueryParts, SqlFormatter}
use fq_connector_go.Dialect.Text.{backtick, trim_byte, where_part, default_select_query_render}

module _ (enable_timestamp_pushdown : Bool) where
  -- SQLFormatter.supportsTypeForPushdown
  unfoldable pub supports_type_for_pushdown : PrimitiveTypeId → Bool
  supports_type_for_pushdown PrimitiveTypeId.bool = true
  supports_type_for_pushdown PrimitiveTypeId.int8 = true
  supports_type_for_pushdown PrimitiveTypeId.uint8 = true
  supports_type_for_pushdown PrimitiveTypeId.int16 = true
  supports_type_for_pushdown PrimitiveTypeId.uint16 = true
  supports_type_for_pushdown PrimitiveTypeId.int32 = true
  supports_type_for_pushdown PrimitiveTypeId.uint32 = true
  supports_type_for_pushdown PrimitiveTypeId.int64 = true
  supports_type_for_pushdown PrimitiveTypeId.uint64 = true
  supports_type_for_pushdown PrimitiveTypeId.float = true
  supports_type_for_pushdown PrimitiveTypeId.double = true
  supports_type_for_pushdown PrimitiveTypeId.string = true
  supports_type_for_pushdown PrimitiveTypeId.utf8 = true
  supports_type_for_pushdown PrimitiveTypeId.json = false
  supports_type_for_pushdown PrimitiveTypeId.timestamp = enable_timestamp_pushdown
  supports_type_for_pushdown _ = false

  -- SQLFormatter.supportsConstantValueExpression
  unfoldable pub supports_constant_value_expression : YdbType → Bool
  unfolding supports_type_for_pushdown
  supports_constant_value_expression (type_id p) = supports_type_for_pushdown p
  supports_constant_value_expression (optional t) = supports_constant_value_expression t
  supports_constant_value_expression null_type = true
  supports_constant_value_expression _ = false

  -- SQLFormatter.SupportsPushdownExpression
  unfoldable pub supports_pushdown_expression : Expression → Bool
  unfolding supports_constant_value_expression
  supports_pushdown_expression (column c) = true
  supports_pushdown_expression (typed_value v) = supports_constant_value_expression v.ydb_type
  supports_pushdown_expression (arithmetical op x y) = false
  supports_pushdown_expression null = true
  supports_pushdown_expression (other_expression n) = false

-- The modes in which a configuration can put the formatter; the source panics in any other.
pub data Mode : Type 0 where
  query_service_native table_service_stdlib_scan_queries : Mode

-- SQLFormatter.GetPlaceholder
unfoldable pub get_placeholder : Mode → ℕ → Bytes
unfolding decimal
get_placeholder query_service_native id = codes "$p" ++ decimal id
get_placeholder table_service_stdlib_scan_queries id = codes "?"

-- SQLFormatter.SanitiseIdentifier
unfoldable pub sanitise_identifier : Bytes → Bytes
sanitise_identifier ident = backtick ∷ (ident ++ backtick ∷ [])

-- SQLFormatter.FormatFrom
unfoldable pub format_from : Bytes → Bytes
unfolding sanitise_identifier trim_byte
format_from table_name = sanitise_identifier (trim_byte b'/' table_name)

-- TSplitDescription (split.proto); `no_payload` is a description with no payload.
pub data SplitDescription : Type 0 where
  column_shard : List ℕ → SplitDescription
  data_shard : SplitDescription
  no_payload : SplitDescription

-- SQLFormatter.RenderSelectQueryTextForColumnShard
unfoldable pub render_select_query_text_for_column_shard : SelectQueryParts → List ℕ → Result Bytes
unfolding where_part decimal
render_select_query_text_for_column_shard parts (id ∷ []) = ok (
    codes "SELECT "
    ++ (parts.select_clause
        ++ (codes " FROM "
            ++ (parts.from_clause
                ++ (codes " WITH TabletId='"
                    ++ (decimal id ++ (codes "'" ++ where_part parts.where_clause)))))))
render_select_query_text_for_column_shard parts _ = err opaque

-- SQLFormatter.renderSelectQueryTextForDataShard
unfoldable pub render_select_query_text_for_data_shard : SelectQueryParts → Result Bytes
unfolding default_select_query_render
render_select_query_text_for_data_shard parts = default_select_query_render parts

-- The switch of SQLFormatter.RenderSelectQueryText.
unfoldable pub render_described : SelectQueryParts → SplitDescription → Result Bytes
unfolding render_select_query_text_for_column_shard render_select_query_text_for_data_shard
render_described parts (column_shard ids) = render_select_query_text_for_column_shard parts ids
render_described parts data_shard = render_select_query_text_for_data_shard parts
render_described parts no_payload = err opaque

-- SQLFormatter.RenderSelectQueryText. A split is its description, which `unmarshal` (protojson)
-- decodes.
unfoldable pub render_select_query_text :
    (Bytes → Result SplitDescription) → SelectQueryParts → Bytes → Result Bytes
unfolding render_described
render_select_query_text unmarshal parts description = do
  split ← unmarshal description
  render_described parts split

-- RenderSelectQueryText of Cloud Logging; `unmarshal` gives the tablet ids of the description's
-- `ydb` payload.
unfoldable pub logging_render_select_query_text :
    (Bytes → Result (List ℕ)) → SelectQueryParts → Bytes → Result Bytes
unfolding render_select_query_text_for_column_shard
logging_render_select_query_text unmarshal parts description = do
  tablet_ids ← unmarshal description
  render_select_query_text_for_column_shard parts tablet_ids

-- NewSQLFormatter; the second argument is `cfg.EnableTimestampPushdown`.
abbrev pub formatter : Mode → Bool → (Bytes → Result SplitDescription) → SqlFormatter Bytes
formatter mode enable_timestamp_pushdown unmarshal = record {
  get_placeholder = get_placeholder mode;
  sanitise_identifier = sanitise_identifier;
  supports_pushdown_expression = supports_pushdown_expression enable_timestamp_pushdown;
  format_from = format_from;
  render_select_query_text = render_select_query_text unmarshal;
}

-- NewSQLFormatter of Cloud Logging.
abbrev pub logging_formatter : Mode → Bool → (Bytes → Result (List ℕ)) → SqlFormatter Bytes
logging_formatter mode enable_timestamp_pushdown unmarshal = record {
  get_placeholder = get_placeholder mode;
  sanitise_identifier = sanitise_identifier;
  supports_pushdown_expression = supports_pushdown_expression enable_timestamp_pushdown;
  format_from = format_from;
  render_select_query_text = logging_render_select_query_text unmarshal;
}
