-- ===== src/Settings.antt =====
-- app/server/config/config.go: the sections of the configuration that it fills and validates. The
-- messages are generated code: their fields are restated here. A section that is not set is `none`.
-- A number of type double is its bit pattern.
pub mod Fill
pub mod Accept
pub mod Filled
pub mod Panics
pub mod Accepted
use fq_connector_go.Common.{ℕ, Bool, Bytes, List, Option}
use fq_connector_go.Validate.{Endpoint}

-- TExponentialBackoffConfig
pub record Backoff : Type 0 where
  pub initial_interval : Bytes
  pub randomization_factor : ℕ
  pub multiplier : ℕ
  pub max_interval : Bytes
  pub max_elapsed_time : Bytes

-- TPushdownConfig
pub record PushdownConfig : Type 0 where
  pub enable_timestamp_pushdown : Bool

-- The configuration of a relational data source; a field that only some of the six have is left at
-- its zero value in the others.
pub record RelationalConfig : Type 0 where
  pub open_connection_timeout : Bytes
  pub ping_connection_timeout : Bytes
  pub result_chan_capacity : ℕ
  pub exponential_backoff : Option Backoff
  pub pushdown : Option PushdownConfig

-- TYdbConfig_Mode
pub data YdbMode : Type 0 where
  mode_unspecified table_service_scan_queries : YdbMode
  other_mode : ℕ → YdbMode

-- TYdbConfig; of `splitting` there is whether column shards are split.
pub record YdbConfig : Type 0 where
  pub open_connection_timeout : Bytes
  pub ping_connection_timeout : Bytes
  pub mode : YdbMode
  pub exponential_backoff : Option Backoff
  pub pushdown : Option PushdownConfig
  pub service_account_key_file_credentials : Bytes
  pub iam_endpoint : Option Endpoint
  pub splitting : Option Bool

-- TMongoDbConfig, and TRedisConfig, which has no timeout for opening a connection.
pub record DocumentsConfig : Type 0 where
  pub open_connection_timeout : Bytes
  pub ping_connection_timeout : Bytes
  pub count_docs_to_deduce_schema : ℕ
  pub exponential_backoff : Option Backoff

-- TOpenSearchConfig
pub record OpenSearchConfig : Type 0 where
  pub dial_timeout : Bytes
  pub response_header_timeout : Bytes
  pub ping_connection_timeout : Bytes
  pub exponential_backoff : Option Backoff

-- TLoggingConfig_TStaticResolving: the databases, and the number of log groups of each folder.
pub record StaticResolving : Type 0 where
  pub databases : List (Bytes × Option Endpoint)
  pub folders : List (Bytes × ℕ)

-- The `oneof` of TLoggingConfig; of the dynamic one there is its endpoint.
pub data Resolving : Type 0 where
  resolving_unset : Resolving
  static_resolving : StaticResolving → Resolving
  dynamic_resolving : Option Endpoint → Resolving

-- TLoggingConfig
pub record LoggingConfig : Type 0 where
  pub ydb : Option YdbConfig
  pub resolving : Resolving

-- TDatasourcesConfig
pub record DatasourcesConfig : Type 0 where
  pub clickhouse : Option RelationalConfig
  pub greenplum : Option RelationalConfig
  pub ms_sql_server : Option RelationalConfig
  pub mysql : Option RelationalConfig
  pub oracle : Option RelationalConfig
  pub postgresql : Option RelationalConfig
  pub mongodb : Option DocumentsConfig
  pub redis : Option DocumentsConfig
  pub opensearch : Option OpenSearchConfig
  pub ydb : Option YdbConfig
  pub logging : Option LoggingConfig

-- TServerTLSConfig
pub record TlsConfig : Type 0 where
  pub key : Bytes
  pub cert : Bytes

-- TConnectorServerConfig, and TPprofServerConfig, which has no size of messages.
pub record ListenerConfig : Type 0 where
  pub endpoint : Option Endpoint
  pub tls : Option TlsConfig
  pub max_recv_message_size : ℕ

-- TPagingConfig
pub record PageLimits : Type 0 where
  pub bytes_per_page : ℕ
  pub rows_per_page : ℕ
  pub prefetch_queue_capacity : ℕ

-- TLoggerConfig
pub record LoggerConfig : Type 0 where
  pub log_level : ℕ
  pub enable_sql_query_logging : Bool

-- TObservationConfig: the endpoint of its server, and of its storage the path of a SQLite file.
pub record ObservationConfig : Type 0 where
  pub server : Option (Option Endpoint)
  pub storage : Option (Option Bytes)

-- TServerConfig; of `read_limit` there is the number of rows, of `conversion` its flag.
pub record ServerConfig : Type 0 where
  pub connector_server : Option ListenerConfig
  pub read_limit : Option ℕ
  pub pprof_server : Option ListenerConfig
  pub paging : Option PageLimits
  pub logger : Option LoggerConfig
  pub conversion : Option Bool
  pub datasources : Option DatasourcesConfig
  pub observation : Option ObservationConfig
