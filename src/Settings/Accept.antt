-- ===== src/Settings/Accept.antt =====
-- config.go: validateServerConfig. An error has only a text, which is left out: a section is accepted,
-- refused, or its check dereferences nil. What time.ParseDuration accepts is the parameter
-- `is_duration`.
use fq_connector_go.Common.{
  ℕ, Bool, true, false, ◌||◌, not, Bytes, List, [], ◌∷◌, Option, none, some, ltb, ◌==◌,
}
use fq_connector_go.Validate.{Endpoint}
use fq_connector_go.Settings.{
  Backoff, RelationalConfig, YdbMode, mode_unspecified, table_service_scan_queries, other_mode,
  YdbConfig, DocumentsConfig, OpenSearchConfig, Resolving, resolving_unset, static_resolving,
  dynamic_resolving, LoggingConfig, DatasourcesConfig, TlsConfig, ListenerConfig, PageLimits,
  ObservationConfig, ServerConfig,
}

pub data Verdict : Type 0 where
  accepted refused crashes : Verdict

-- The checks of a sequence, of which the first that does not accept ends it.
unfoldable pub all_accept : List Verdict → Verdict
all_accept [] = accepted
all_accept (accepted ∷ vs) = all_accept vs
all_accept (refused ∷ vs) = refused
all_accept (crashes ∷ vs) = crashes

unfoldable pub accepted_if : Bool → Verdict
accepted_if true = accepted
accepted_if false = refused

-- `if section == nil { return nil }`, and a section that must be set.
unfoldable pub optional_section : {A : Type 0} → (A → Verdict) → Option A → Verdict
optional_section f none = accepted
optional_section f (some a) = f a

unfoldable pub required_section : {A : Type 0} → (A → Verdict) → Option A → Verdict
required_section f none = refused
required_section f (some a) = f a

-- A section of which a field is used without a nil check.
unfoldable pub used_section : {A : Type 0} → (A → Verdict) → Option A → Verdict
used_section f none = crashes
used_section f (some a) = f a

unfoldable pub is_set : {A : Type 0} → Option A → Bool
is_set none = false
is_set (some a) = true

unfoldable pub is_empty : Bytes → Bool
is_empty [] = true
is_empty (c ∷ s) = false

-- validateEndpoint
unfoldable pub validate_config_endpoint : Endpoint → Verdict
unfolding all_accept accepted_if is_empty
validate_config_endpoint e =
    all_accept (
      accepted_if (not (is_empty e.host))
      ∷ accepted_if (not (e.port == 0 || ltb 65535 e.port))
      ∷ [])

-- validateServerTLSConfig
unfoldable pub validate_server_tls_config : TlsConfig → Verdict
unfolding all_accept accepted_if is_empty
validate_server_tls_config c =
    all_accept (accepted_if (not (is_empty c.key)) ∷ accepted_if (not (is_empty c.cert)) ∷ [])

-- validateConnectorServerConfig and validatePprofServerConfig, for a section that is set.
unfoldable pub validate_listener : ListenerConfig → Verdict
unfolding all_accept required_section optional_section validate_config_endpoint
    validate_server_tls_config
validate_listener c = all_accept (
    required_section validate_config_endpoint c.endpoint
    ∷ optional_section validate_server_tls_config c.tls
    ∷ [])

-- validateServerReadLimit
unfoldable pub validate_server_read_limit : ℕ → Verdict
unfolding accepted_if
validate_server_read_limit rows = accepted_if (not (rows == 0))

-- validatePagingConfig; the limit is 50 MiB.
unfoldable pub validate_paging_config : PageLimits → Verdict
unfolding all_accept accepted_if
validate_paging_config c = all_accept (
    accepted_if (not (c.bytes_per_page == 0) || not (c.rows_per_page == 0))
    ∷ accepted_if (not (ltb 52428800 c.bytes_per_page))
    ∷ [])

-- A double that is 0 or -0.
abbrev is_zero_double : ℕ → Bool
is_zero_double n = n == 0 || n == 9223372036854775808

-- validateLoggingResolvingDynamicConfig
unfoldable pub validate_logging_endpoint : Option Endpoint → Verdict
unfolding used_section all_accept accepted_if is_empty
validate_logging_endpoint o =
    used_section
      (λ e. all_accept (accepted_if (not (is_empty e.host)) ∷ accepted_if (not (e.port == 0)) ∷ []))
      o

-- The loops of validateLoggingResolvingStaticConfig.
unfoldable pub validate_databases : List (Bytes × Option Endpoint) → Verdict
unfolding all_accept accepted_if is_empty validate_logging_endpoint
validate_databases [] = accepted
validate_databases ((name, endpoint) ∷ databases) = all_accept (
    accepted_if (not (is_empty name))
    ∷ validate_logging_endpoint endpoint
    ∷ validate_databases databases
    ∷ [])

unfoldable pub validate_folders : List (Bytes × ℕ) → Verdict
unfolding all_accept accepted_if
validate_folders [] = accepted
validate_folders ((id, groups) ∷ folders) =
    all_accept (accepted_if (not (groups == 0)) ∷ validate_folders folders ∷ [])

unfoldable pub validate_static_lists : List (Bytes × Option Endpoint) → List (Bytes × ℕ) → Verdict
unfolding all_accept validate_databases validate_folders
validate_static_lists [] folders = accepted
validate_static_lists (d ∷ databases) [] = accepted
validate_static_lists (d ∷ databases) (f ∷ folders) =
    all_accept (validate_databases (d ∷ databases) ∷ validate_folders (f ∷ folders) ∷ [])

-- The part of validateLoggingConfig on the `oneof`.
unfoldable pub validate_resolving : Resolving → Verdict
unfolding validate_static_lists validate_logging_endpoint
validate_resolving resolving_unset = refused
validate_resolving (static_resolving s) = validate_static_lists s.databases s.folders
validate_resolving (dynamic_resolving e) = validate_logging_endpoint e

unfoldable pub is_mode_set : YdbMode → Bool
is_mode_set mode_unspecified = false
is_mode_set table_service_scan_queries = true
is_mode_set (other_mode n) = true

-- The part of validateYdbConfig on the IAM endpoint.
unfoldable pub validate_iam : Bytes → Option Endpoint → Verdict
unfolding all_accept accepted_if is_empty required_section
validate_iam [] e = accepted
validate_iam (c ∷ s) o =
    required_section
      (λ e. all_accept (accepted_if (not (is_empty e.host)) ∷ accepted_if (not (e.port == 0)) ∷ []))
      o

-- validateObservationConfig; the getter of the SQLite storage gives nil for another one.
unfoldable pub validate_observation_config : ObservationConfig → Verdict
unfolding all_accept accepted_if is_empty required_section optional_section validate_config_endpoint
validate_observation_config c = all_accept (
    required_section (λ e. required_section validate_config_endpoint e) c.server
    ∷ required_section (λ s. optional_section (λ path. accepted_if (not (is_empty path))) s)
        c.storage
    ∷ [])

module _ (is_duration : Bytes → Bool) where
  -- validateExponentialBackoff
  unfoldable pub validate_exponential_backoff : Backoff → Verdict
  unfolding all_accept accepted_if
  validate_exponential_backoff c = all_accept (
      accepted_if (is_duration c.initial_interval)
      ∷ accepted_if (is_duration c.max_interval)
      ∷ accepted_if (not (is_zero_double c.multiplier))
      ∷ accepted_if (is_duration c.max_elapsed_time)
      ∷ [])

  -- validateRelationalDatasourceConfig, for a section that is set.
  unfoldable pub validate_relational_datasource_config : RelationalConfig → Verdict
  unfolding all_accept accepted_if is_set
  validate_relational_datasource_config c = all_accept (
      accepted_if (is_duration c.open_connection_timeout)
      ∷ accepted_if (is_set c.exponential_backoff)
      ∷ accepted_if (is_set c.pushdown)
      ∷ [])

  -- The getters of a section that is not set give the empty text, which is no duration: the section is
  -- a nil pointer in an interface, which is not nil.
  unfoldable pub validate_relational : Option RelationalConfig → Verdict
  unfolding accepted_if all_accept validate_relational_datasource_config
  validate_relational none = all_accept (accepted_if (is_duration []) ∷ refused ∷ [])
  validate_relational (some c) = validate_relational_datasource_config c

  -- validateYdbConfig
  unfoldable pub validate_ydb_config : YdbConfig → Verdict
  unfolding all_accept accepted_if is_set is_mode_set validate_iam required_section
      validate_exponential_backoff
  validate_ydb_config c = all_accept (
      accepted_if (is_duration c.open_connection_timeout)
      ∷ accepted_if (is_duration c.ping_connection_timeout)
      ∷ accepted_if (is_mode_set c.mode)
      ∷ validate_iam c.service_account_key_file_credentials c.iam_endpoint
      ∷ accepted_if (is_set c.splitting)
      ∷ required_section validate_exponential_backoff c.exponential_backoff
      ∷ [])

  -- validateMongoDBConfig
  unfoldable pub validate_mongo_db_config : DocumentsConfig → Verdict
  unfolding all_accept accepted_if required_section validate_exponential_backoff
  validate_mongo_db_config c = all_accept (
      accepted_if (is_duration c.open_connection_timeout)
      ∷ accepted_if (is_duration c.ping_connection_timeout)
      ∷ accepted_if (not (c.count_docs_to_deduce_schema == 0))
      ∷ required_section validate_exponential_backoff c.exponential_backoff
      ∷ [])

  -- validateRedisConfig
  unfoldable pub validate_redis_config : DocumentsConfig → Verdict
  unfolding all_accept accepted_if required_section validate_exponential_backoff
  validate_redis_config c = all_accept (
      accepted_if (is_duration c.ping_connection_timeout)
      ∷ accepted_if (not (c.count_docs_to_deduce_schema == 0))
      ∷ required_section validate_exponential_backoff c.exponential_backoff
      ∷ [])

  -- validateOpenSearchConfig
  unfoldable pub validate_open_search_config : OpenSearchConfig → Verdict
  unfolding all_accept accepted_if required_section validate_exponential_backoff
  validate_open_search_config c = all_accept (
      accepted_if (is_duration c.dial_timeout)
      ∷ accepted_if (is_duration c.response_header_timeout)
      ∷ accepted_if (is_duration c.ping_connection_timeout)
      ∷ required_section validate_exponential_backoff c.exponential_backoff
      ∷ [])

  -- validateLoggingConfig
  unfoldable pub validate_logging_config : LoggingConfig → Verdict
  unfolding all_accept optional_section validate_ydb_config validate_resolving
  validate_logging_config c =
      all_accept (optional_section validate_ydb_config c.ydb ∷ validate_resolving c.resolving ∷ [])

  -- validateDatasourcesConfig
  unfoldable pub validate_datasources_config : DatasourcesConfig → Verdict
  unfolding all_accept optional_section validate_relational validate_logging_config
      validate_ydb_config validate_mongo_db_config validate_open_search_config validate_redis_config
  validate_datasources_config c = all_accept (
      validate_relational c.clickhouse
      ∷ validate_relational c.greenplum
      ∷ optional_section validate_logging_config c.logging
      ∷ validate_relational c.ms_sql_server
      ∷ validate_relational c.mysql
      ∷ validate_relational c.oracle
      ∷ validate_relational c.postgresql
      ∷ optional_section validate_ydb_config c.ydb
      ∷ optional_section validate_mongo_db_config c.mongodb
      ∷ optional_section validate_open_search_config c.opensearch
      ∷ optional_section validate_redis_config c.redis
      ∷ [])

  -- validateServerConfig
  unfoldable pub validate_server_config : ServerConfig → Verdict
  unfolding all_accept required_section optional_section validate_listener
      validate_server_read_limit validate_paging_config is_set accepted_if
      validate_datasources_config validate_observation_config
  validate_server_config c = all_accept (
      required_section validate_listener c.connector_server
      ∷ optional_section validate_server_read_limit c.read_limit
      ∷ optional_section validate_listener c.pprof_server
      ∷ required_section validate_paging_config c.paging
      ∷ accepted_if (is_set c.conversion)
      ∷ required_section validate_datasources_config c.datasources
      ∷ optional_section validate_observation_config c.observation
      ∷ [])
