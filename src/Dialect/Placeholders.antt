-- ===== src/Dialect/Placeholders.antt =====
-- GetPlaceholder of the dialects that number the arguments.
use fq_connector_go.Common.{ℕ, ◌+◌, Bytes, ◌≡◌, arith, decimal, decimal-injective}
use fq_connector_go.Dialect.Postgresql
use fq_connector_go.Dialect.Oracle
use fq_connector_go.Dialect.MsSqlServer
use fq_connector_go.Dialect.Ydb
use fq_connector_go.Dialect.Ydb.{query_service_native}

-- The dialects whose placeholders carry the number of their argument.
pub data Numbering : Type 0 where
  postgresql oracle ms_sql_server ydb : Numbering

abbrev pub placeholder_of : Numbering → ℕ → Bytes
placeholder_of postgresql = Postgresql.get_placeholder
placeholder_of oracle = Oracle.get_placeholder
placeholder_of ms_sql_server = MsSqlServer.get_placeholder
placeholder_of ydb = Ydb.get_placeholder query_service_native

suc_numeral : (m n : ℕ) → decimal (m + 1) ≡ decimal (n + 1) → m ≡ n
suc_numeral m n h = omega (arith, decimal-injective (m + 1) (n + 1) h)

-- Different arguments have different placeholders.
pub placeholder-injective :
    (k : Numbering) (m n : ℕ) → placeholder_of k m ≡ placeholder_of k n → m ≡ n
unfolding Postgresql.get_placeholder Oracle.get_placeholder MsSqlServer.get_placeholder
    Ydb.get_placeholder
placeholder-injective postgresql m n h = suc_numeral m n (cc)
placeholder-injective oracle m n h = suc_numeral m n (cc)
placeholder-injective ms_sql_server m n h = suc_numeral m n (cc)
placeholder-injective ydb m n h = decimal-injective m n (cc)
