-- ===== src/Dialect/Text.antt =====
-- What the SQL dialects share: Go's `strings.ReplaceAll` and `strings.TrimPrefix` at a pattern of
-- one byte, and the query text of rdbms/utils/select_helpers.go.
use fq_connector_go.Common.{ℕ, Bytes, codes, [], ◌∷◌, ◌++◌, ◌==◌, if◌then◌else◌}
use fq_connector_go.Errors.{Result, ok}
use fq_connector_go.Predicate.Formatter.{SelectQueryParts}

abbrev pub double_quote : ℕ
double_quote = b'"'

abbrev pub backtick : ℕ
backtick = b'`'

-- strings.ReplaceAll(s, b, by)
unfoldable pub replace_byte : ℕ → Bytes → Bytes → Bytes
replace_byte b by [] = []
replace_byte b by (c ∷ s) = (if c == b then by else c ∷ []) ++ replace_byte b by s

-- strings.TrimPrefix(s, b)
unfoldable pub trim_byte : ℕ → Bytes → Bytes
trim_byte b [] = []
trim_byte b (c ∷ s) = if c == b then s else c ∷ s

-- The WHERE part of a query, which is left out if it is empty.
unfoldable pub where_part : Bytes → Bytes
where_part [] = []
where_part (c ∷ s) = codes " WHERE " ++ (c ∷ s)

-- DefaultSelectQueryRender
unfoldable pub default_select_query_render : SelectQueryParts → Result Bytes
unfolding where_part
default_select_query_render parts = ok (
    codes "SELECT "
    ++ (parts.select_clause
        ++ (codes " FROM " ++ (parts.from_clause ++ where_part parts.where_clause))))
