-- ===== src/Settings/Filled.antt =====
-- config.go: what fillServerConfigDefaults makes of a configuration.
use fq_connector_go.Common.{
  ℕ, false, Bytes, codes, [], ◌∷◌, Option, none, some, ◌==◌, if◌then◌else◌, ◌≡◌, refl, sym, ap, ◌∙◌,
  arith,
}
use fq_connector_go.Errors.{Returned, value, panics}
use fq_connector_go.Validate.{Endpoint}
use fq_connector_go.Settings.{
  YdbMode, mode_unspecified, table_service_scan_queries, other_mode, YdbConfig, LoggingConfig,
  DatasourcesConfig, ListenerConfig, ServerConfig,
}
use fq_connector_go.Settings.Fill.{
  given_or, text_or, fill_relational, fill_documents, fill_opensearch, mode_or_default,
  iam_or_default, fill_ydb_config_defaults, fill_logging, logging_default, empty_datasources,
  fill_datasources, fill_listener, fill_sections, fill_server, fill_server_config_defaults,
}

text_or-twice : (c : ℕ) (d s : Bytes) → text_or (c ∷ d) (text_or (c ∷ d) s) ≡ text_or (c ∷ d) s
unfolding text_or
text_or-twice c d [] = refl
text_or-twice c d (x ∷ s) = refl

mode_or_default-twice : (m : YdbMode) → mode_or_default (mode_or_default m) ≡ mode_or_default m
unfolding mode_or_default
mode_or_default-twice mode_unspecified = refl
mode_or_default-twice table_service_scan_queries = refl
mode_or_default-twice (other_mode n) = refl

iam_or_default-twice :
    (s : Bytes) (e : Option Endpoint) → iam_or_default s (iam_or_default s e) ≡ iam_or_default s e
unfolding iam_or_default given_or
iam_or_default-twice [] e = refl
iam_or_default-twice (c ∷ s) e = refl

-- Filling a YDB section again changes nothing.
ydb-twice :
    (c : YdbConfig)
    → fill_ydb_config_defaults (fill_ydb_config_defaults c) ≡ fill_ydb_config_defaults c
unfolding fill_ydb_config_defaults given_or
ydb-twice c =
    let f = fill_ydb_config_defaults c in
    let a = text_or-twice 53 (codes "s") c.open_connection_timeout in
    let b = text_or-twice 53 (codes "s") c.ping_connection_timeout in
    let m = mode_or_default-twice c.mode in
    let i = iam_or_default-twice c.service_account_key_file_credentials c.iam_endpoint in
    ap
      (λ x. record f {
        open_connection_timeout = x;
        ping_connection_timeout = text_or (codes "5s") f.ping_connection_timeout;
        mode = mode_or_default f.mode;
        iam_endpoint = iam_or_default f.service_account_key_file_credentials f.iam_endpoint;
      })
      a
    ∙ ap
        (λ x. record f {
          ping_connection_timeout = x;
          mode = mode_or_default f.mode;
          iam_endpoint = iam_or_default f.service_account_key_file_credentials f.iam_endpoint;
        })
        b
    ∙ ap
        (λ x. record f {
          mode = x;
          iam_endpoint = iam_or_default f.service_account_key_file_credentials f.iam_endpoint;
        })
        m
    ∙ ap (λ x. record f { iam_endpoint = x }) i

listener-twice : (c : ListenerConfig) → fill_listener (fill_listener c) ≡ fill_listener c
unfolding fill_listener
listener-twice c =
    let e : (if (fill_listener c).max_recv_message_size == 0
          then 2147483647
          else (fill_listener c).max_recv_message_size)
        ≡ (fill_listener c).max_recv_message_size =
      ground arith in
    ap (λ n. record c { max_recv_message_size = n }) e

logging-twice :
    (y : Option YdbConfig) (c g : LoggingConfig)
    → fill_logging y c ≡ value g
    → fill_logging g.ydb g ≡ value g
unfolding fill_logging
logging-twice none c g h = absurd (cc h)
logging-twice (some y) c g h =
    let same : record c { ydb = some (fill_ydb_config_defaults y) } ≡ g = cc in
    ap (λ x. fill_logging x.ydb x) (sym same)
    ∙ ap (λ x. value (record c { ydb = some x })) (ydb-twice y)
    ∙ ap (λ x. value x) same

datasources-twice :
    (c : DatasourcesConfig) (g : LoggingConfig)
    → fill_datasources (record (fill_datasources c) { logging = some g })
      ≡ record (fill_datasources c) { logging = some g }
unfolding fill_datasources given_or fill_relational fill_documents fill_opensearch
datasources-twice c g =
    ap (λ y. record (fill_datasources c) { ydb = some y; logging = some g })
      (ydb-twice (given_or _ c.ydb))

-- A filled configuration, as fill_sections composes it.
abbrev sections : ServerConfig → ListenerConfig → DatasourcesConfig → LoggingConfig → ServerConfig
sections c l d g = record c {
  connector_server = some (fill_listener l);
  paging = some (
      given_or (record { bytes_per_page = 4194304; rows_per_page = 0; prefetch_queue_capacity = 2 })
        c.paging);
  logger = some (given_or (record { log_level = 2; enable_sql_query_logging = false }) c.logger);
  conversion = some (given_or false c.conversion);
  datasources = some (record (fill_datasources d) { logging = some g });
}

sections-twice :
    (c : ServerConfig) (l : ListenerConfig) (d : DatasourcesConfig) (g : LoggingConfig)
    → fill_logging g.ydb g ≡ value g
    → fill_server_config_defaults (sections c l d g) ≡ value (sections c l d g)
unfolding fill_server_config_defaults fill_server fill_sections given_or
sections-twice c l d g h =
    ap
      (fill_sections (sections c l d g) (fill_listener (fill_listener l))
        (fill_datasources (record (fill_datasources d) { logging = some g })))
      h
    ∙ ap
        (λ x.
          fill_sections (sections c l d g) x
            (fill_datasources (record (fill_datasources d) { logging = some g })) (value g))
        (listener-twice l)
    ∙ ap (λ x. fill_sections (sections c l d g) (fill_listener l) x (value g))
        (datasources-twice d g)

composed-twice :
    (c : ServerConfig) (l : ListenerConfig) (d : DatasourcesConfig) (y : Option YdbConfig)
    (logging : LoggingConfig) (filled : Returned LoggingConfig) (t : ServerConfig)
    → fill_logging y logging ≡ filled
    → fill_sections c (fill_listener l) (fill_datasources d) filled ≡ value t
    → fill_server_config_defaults t ≡ value t
unfolding fill_sections
composed-twice c l d y logging panics t f h = absurd (cc h)
composed-twice c l d y logging (value g) t f h =
    let same : sections c l d g ≡ t = cc in
    ap fill_server_config_defaults (sym same)
    ∙ sections-twice c l d g (logging-twice y logging g f)
    ∙ ap (λ x. value x) same

server-twice :
    (o : Option ListenerConfig) (c t : ServerConfig)
    → fill_server o c ≡ value t
    → fill_server_config_defaults t ≡ value t
unfolding fill_server
server-twice none c t h = absurd (cc h)
server-twice (some l) c t h =
    let sources = given_or empty_datasources c.datasources in
    let logging = given_or logging_default sources.logging in
    composed-twice c l sources logging.ydb logging (fill_logging logging.ydb logging) t refl h

-- Filling a configuration with the defaults a second time changes nothing.
pub fill_server_config_defaults-twice :
    (c t : ServerConfig)
    → fill_server_config_defaults c ≡ value t
    → fill_server_config_defaults t ≡ value t
unfolding fill_server_config_defaults
fill_server_config_defaults-twice c t h = server-twice c.connector_server c t h
