-- ===== src/Settings/Fill.antt =====
-- config.go: fillServerConfigDefaults.
use fq_connector_go.Common.{
  ℕ, false, Bytes, codes, [], ◌∷◌, Option, none, some, ◌==◌, if◌then◌else◌,
}
use fq_connector_go.Errors.{Returned, value, panics}
use fq_connector_go.Validate.{Endpoint}
use fq_connector_go.Settings.{
  Backoff, PushdownConfig, RelationalConfig, YdbMode, mode_unspecified, table_service_scan_queries,
  other_mode, YdbConfig, DocumentsConfig, OpenSearchConfig, static_resolving, LoggingConfig,
  DatasourcesConfig, ListenerConfig, ServerConfig,
}

-- `if section == nil { section = default }`
unfoldable pub given_or : {A : Type 0} → A → Option A → A
given_or default none = default
given_or default (some a) = a

unfoldable pub text_or : Bytes → Bytes → Bytes
text_or default [] = default
text_or default (c ∷ s) = c ∷ s

-- makeDefaultExponentialBackoffConfig; the numbers are 0.25 and 1.5.
abbrev pub make_default_exponential_backoff_config : Backoff
make_default_exponential_backoff_config = record {
  initial_interval = codes "500ms";
  randomization_factor = 4598175219545276416;
  multiplier = 4609434218613702656;
  max_interval = codes "10s";
  max_elapsed_time = codes "1m";
}

-- makeDefaultPushdownConfig
abbrev pub make_default_pushdown_config : PushdownConfig
make_default_pushdown_config = record { enable_timestamp_pushdown = false }

-- The defaults of a relational data source: its timeouts and the capacity of its channel.
abbrev pub relational_default : Bytes → ℕ → RelationalConfig
relational_default ping capacity = record {
  open_connection_timeout = codes "5s";
  ping_connection_timeout = ping;
  result_chan_capacity = capacity;
  exponential_backoff = none;
  pushdown = none;
}

unfoldable pub fill_relational : RelationalConfig → RelationalConfig
unfolding given_or
fill_relational c = record c {
  exponential_backoff =
      some (given_or make_default_exponential_backoff_config c.exponential_backoff);
  pushdown = some (given_or make_default_pushdown_config c.pushdown);
}

abbrev pub documents_default : Bytes → DocumentsConfig
documents_default open_timeout = record {
  open_connection_timeout = open_timeout;
  ping_connection_timeout = codes "5s";
  count_docs_to_deduce_schema = 5;
  exponential_backoff = none;
}

unfoldable pub fill_documents : DocumentsConfig → DocumentsConfig
unfolding given_or
fill_documents c = record c {
  exponential_backoff =
      some (given_or make_default_exponential_backoff_config c.exponential_backoff);
}

abbrev pub opensearch_default : OpenSearchConfig
opensearch_default = record {
  dial_timeout = codes "5s";
  response_header_timeout = codes "5s";
  ping_connection_timeout = codes "5s";
  exponential_backoff = none;
}

unfoldable pub fill_opensearch : OpenSearchConfig → OpenSearchConfig
unfolding given_or
fill_opensearch c = record c {
  exponential_backoff =
      some (given_or make_default_exponential_backoff_config c.exponential_backoff);
}

unfoldable pub mode_or_default : YdbMode → YdbMode
mode_or_default mode_unspecified = table_service_scan_queries
mode_or_default table_service_scan_queries = table_service_scan_queries
mode_or_default (other_mode n) = other_mode n

-- The IAM endpoint, which is only filled for credentials.
unfoldable pub iam_or_default : Bytes → Option Endpoint → Option Endpoint
unfolding given_or
iam_or_default [] e = e
iam_or_default (c ∷ s) e =
    some (given_or (record { host = codes "iam.api.cloud.yandex.net"; port = 443 }) e)

abbrev pub empty_ydb_config : YdbConfig
empty_ydb_config = record {
  open_connection_timeout = [];
  ping_connection_timeout = [];
  mode = mode_unspecified;
  exponential_backoff = none;
  pushdown = none;
  service_account_key_file_credentials = [];
  iam_endpoint = none;
  splitting = none;
}

-- fillYdbConfigDefaults
unfoldable pub fill_ydb_config_defaults : YdbConfig → YdbConfig
unfolding given_or text_or mode_or_default iam_or_default
fill_ydb_config_defaults c = record c {
  open_connection_timeout = text_or (codes "5s") c.open_connection_timeout;
  ping_connection_timeout = text_or (codes "5s") c.ping_connection_timeout;
  mode = mode_or_default c.mode;
  exponential_backoff =
      some (given_or make_default_exponential_backoff_config c.exponential_backoff);
  pushdown = some (given_or make_default_pushdown_config c.pushdown);
  iam_endpoint = iam_or_default c.service_account_key_file_credentials c.iam_endpoint;
  splitting = some (given_or false c.splitting);
}

abbrev pub logging_default : LoggingConfig
logging_default = record {
  ydb = some empty_ydb_config;
  resolving = static_resolving (record { databases = []; folders = [] });
}

-- The section of Logging, whose YDB section is used without a nil check.
unfoldable pub fill_logging : Option YdbConfig → LoggingConfig → Returned LoggingConfig
unfolding fill_ydb_config_defaults
fill_logging none c = panics
fill_logging (some y) c = value (record c { ydb = some (fill_ydb_config_defaults y) })

abbrev pub empty_datasources : DatasourcesConfig
empty_datasources = record {
  clickhouse = none;
  greenplum = none;
  ms_sql_server = none;
  mysql = none;
  oracle = none;
  postgresql = none;
  mongodb = none;
  redis = none;
  opensearch = none;
  ydb = none;
  logging = none;
}

-- The sections of the data sources, but for Logging.
unfoldable pub fill_datasources : DatasourcesConfig → DatasourcesConfig
unfolding given_or fill_relational fill_documents fill_opensearch fill_ydb_config_defaults
fill_datasources c = record c {
  clickhouse = some (fill_relational (given_or (relational_default (codes "5s") 0) c.clickhouse));
  greenplum = some (fill_relational (given_or (relational_default [] 0) c.greenplum));
  ms_sql_server =
      some (fill_relational (given_or (relational_default (codes "5s") 0) c.ms_sql_server));
  mysql = some (fill_relational (given_or (relational_default [] 512) c.mysql));
  oracle = some (fill_relational (given_or (relational_default (codes "5s") 0) c.oracle));
  mongodb = some (fill_documents (given_or (documents_default (codes "5s")) c.mongodb));
  redis = some (fill_documents (given_or (documents_default []) c.redis));
  opensearch = some (fill_opensearch (given_or opensearch_default c.opensearch));
  postgresql = some (fill_relational (given_or (relational_default [] 0) c.postgresql));
  ydb = some (fill_ydb_config_defaults (given_or empty_ydb_config c.ydb));
}

-- math.MaxInt32 where there is no limit.
unfoldable pub fill_listener : ListenerConfig → ListenerConfig
fill_listener c = record c {
  max_recv_message_size =
      if c.max_recv_message_size == 0 then 2147483647 else c.max_recv_message_size;
}

-- The sections of the server, with the listener and Logging already filled.
unfoldable pub fill_sections :
    ServerConfig
    → ListenerConfig
    → DatasourcesConfig
    → Returned LoggingConfig
    → Returned ServerConfig
unfolding given_or
fill_sections c listener sources panics = panics
fill_sections c listener sources (value logging) = value (record c {
  connector_server = some listener;
  paging = some (
      given_or (record { bytes_per_page = 4194304; rows_per_page = 0; prefetch_queue_capacity = 2 })
        c.paging);
  logger = some (given_or (record { log_level = 2; enable_sql_query_logging = false }) c.logger);
  conversion = some (given_or false c.conversion);
  datasources = some (record sources { logging = some logging });
})

unfoldable pub fill_server : Option ListenerConfig → ServerConfig → Returned ServerConfig
unfolding given_or fill_listener fill_datasources fill_logging fill_sections
fill_server none c = panics
fill_server (some listener) c =
    let sources = given_or empty_datasources c.datasources in
    let logging = given_or logging_default sources.logging in
    fill_sections c (fill_listener listener) (fill_datasources sources)
      (fill_logging logging.ydb logging)

-- fillServerConfigDefaults, which uses the section of the connector server without a nil check.
unfoldable pub fill_server_config_defaults : ServerConfig → Returned ServerConfig
unfolding fill_server
fill_server_config_defaults c = fill_server c.connector_server c
