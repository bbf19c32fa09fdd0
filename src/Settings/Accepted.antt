-- ===== src/Settings/Accepted.antt =====
-- config.go: what NewConfigFromFile returns a configuration for.
use fq_connector_go.Common.{
  ℕ, ◌+◌, Bool, true, false, not, ◌||◌, ◌≤◌, Bytes, codes, List, [], ◌∷◌, Option, none, some, ltb,
  ◌==◌, ◌≡◌, ◌≢◌, refl, arith,
}
use fq_connector_go.Errors.{value}
use fq_connector_go.Validate.{Endpoint}
use fq_connector_go.Settings.{ListenerConfig, PageLimits, ServerConfig}
use fq_connector_go.Settings.Fill.{
  make_default_exponential_backoff_config, relational_default, documents_default,
  opensearch_default, empty_ydb_config, logging_default, empty_datasources, given_or, text_or,
  fill_relational, fill_documents, fill_opensearch, mode_or_default, iam_or_default,
  fill_ydb_config_defaults, fill_logging, fill_datasources, fill_sections, fill_server,
  fill_server_config_defaults,
}
use fq_connector_go.Settings.Accept.{
  Verdict, accepted, refused, crashes, all_accept, accepted_if, optional_section, required_section,
  is_set, is_empty, validate_config_endpoint, validate_server_tls_config, validate_listener,
  validate_server_read_limit, validate_paging_config, is_mode_set, validate_iam,
  validate_observation_config, validate_exponential_backoff, validate_relational_datasource_config,
  validate_relational, validate_ydb_config, validate_mongo_db_config, validate_redis_config,
  validate_open_search_config, validate_datasources_config, validate_server_config,
}

-- A configuration of nothing but the listener of the connector and, if given, that of the profiler.
abbrev pub only_listeners : ListenerConfig → Option ListenerConfig → ServerConfig
only_listeners connector pprof = record {
  connector_server = some connector;
  read_limit = none;
  pprof_server = pprof;
  paging = none;
  logger = none;
  conversion = none;
  datasources = none;
  observation = none;
}

all_accept-accepted :
    (v : Verdict) (vs : List Verdict)
    → all_accept (v ∷ vs) ≡ accepted
    → (v ≡ accepted) × (all_accept vs ≡ accepted)
unfolding all_accept
all_accept-accepted accepted vs h = (refl, h)
all_accept-accepted refused vs h = absurd (cc h)
all_accept-accepted crashes vs h = absurd (cc h)

first_and_fourth :
    (a b c d : Verdict) (vs : List Verdict)
    → all_accept (a ∷ b ∷ c ∷ d ∷ vs) ≡ accepted
    → (a ≡ accepted) × (d ≡ accepted)
first_and_fourth a b c d vs h =
    let (first, h1) = all_accept-accepted a (b ∷ c ∷ d ∷ vs) h in
    let (second, h2) = all_accept-accepted b (c ∷ d ∷ vs) h1 in
    let (third, h3) = all_accept-accepted c (d ∷ vs) h2 in (first, (all_accept-accepted d vs h3).0)

accepted_if-true : (b : Bool) → accepted_if b ≡ accepted → b ≡ true
unfolding accepted_if
accepted_if-true true h = refl
accepted_if-true false h = absurd (cc h)

both_accepted :
    (a b : Bool)
    → all_accept (accepted_if a ∷ accepted_if b ∷ []) ≡ accepted
    → (a ≡ true) × (b ≡ true)
both_accepted a b h =
    let (first, rest) = all_accept-accepted (accepted_if a) (accepted_if b ∷ []) h in
    let (second, end) = all_accept-accepted (accepted_if b) [] rest in
    (accepted_if-true a first, accepted_if-true b second)

required_section-accepted :
    {A : Type 0} (f : A → Verdict) (o : Option A)
    → required_section f o ≡ accepted
    → (a : A) × (o ≡ some a) × (f a ≡ accepted)
unfolding required_section
required_section-accepted f none h = absurd (cc h)
required_section-accepted f (some a) h = (a, refl, h)

two_decide :
    (v w : Verdict)
    → all_accept (v ∷ accepted ∷ w ∷ accepted ∷ accepted ∷ accepted ∷ accepted ∷ [])
      ≡ all_accept (v ∷ w ∷ [])
unfolding all_accept
two_decide accepted accepted = refl
two_decide accepted refused = refl
two_decide accepted crashes = refl
two_decide refused w = refl
two_decide crashes w = refl

-- An accepted configuration has a listener whose endpoint has a host and a port of 16 bits, and
-- pages with a limit, of which that on bytes is at most 50 MiB.
abbrev pub IsServable : ServerConfig → Type 0
IsServable c =
    ((l : ListenerConfig) × (e : Endpoint) × (c.connector_server ≡ some l)
      × (l.endpoint ≡ some e)
      × (e.host ≢ [])
      × (1 ≤ e.port)
      × (e.port ≤ 65535))
    × ((p : PageLimits) × (c.paging ≡ some p)
        × (p.bytes_per_page + p.rows_per_page ≢ 0)
        × (p.bytes_per_page ≤ 52428800))

is_empty-false : (s : Bytes) → not (is_empty s) ≡ true → s ≢ []
unfolding is_empty
is_empty-false [] h k = absurd (cc h)
is_empty-false (c ∷ s) h k = cc

endpoint-Sound :
    (e : Endpoint)
    → validate_config_endpoint e ≡ accepted
    → (e.host ≢ []) × (1 ≤ e.port) × (e.port ≤ 65535)
unfolding validate_config_endpoint
endpoint-Sound e h =
    let (a, b) = both_accepted (not (is_empty e.host)) (not (e.port == 0 || ltb 65535 e.port)) h in
    (is_empty-false e.host a, ground arith, ground arith)

paging-Sound :
    (p : PageLimits)
    → validate_paging_config p ≡ accepted
    → (p.bytes_per_page + p.rows_per_page ≢ 0) × (p.bytes_per_page ≤ 52428800)
unfolding validate_paging_config
paging-Sound p h =
    let (a, b) =
      both_accepted (not (p.bytes_per_page == 0) || not (p.rows_per_page == 0))
        (not (ltb 52428800 p.bytes_per_page)) h in
    (ground arith, ground arith)

module _ (is_duration : Bytes → Bool) where
  -- time.ParseDuration accepts the durations of the defaults.
  pub record AcceptsDefaults : Type 0 where
    pub initial_interval : is_duration (codes "500ms") ≡ true
    pub max_interval : is_duration (codes "10s") ≡ true
    pub max_elapsed_time : is_duration (codes "1m") ≡ true
    pub connection_timeout : is_duration (codes "5s") ≡ true

  backoff-accepted :
      AcceptsDefaults
      → validate_exponential_backoff is_duration make_default_exponential_backoff_config ≡ accepted
  unfolding validate_exponential_backoff accepted_if all_accept
  backoff-accepted h = rw (h.initial_interval, h.max_interval, h.max_elapsed_time) refl

  relational-accepted :
      (ping : Bytes) (capacity : ℕ)
      → AcceptsDefaults
      → validate_relational is_duration (some (fill_relational (relational_default ping capacity)))
        ≡ accepted
  unfolding validate_relational validate_relational_datasource_config accepted_if all_accept is_set
      fill_relational
  relational-accepted ping capacity h = rw h.connection_timeout refl

  ydb-accepted :
      AcceptsDefaults
      → validate_ydb_config is_duration (fill_ydb_config_defaults empty_ydb_config) ≡ accepted
  unfolding validate_ydb_config accepted_if all_accept is_set is_mode_set validate_iam
      required_section fill_ydb_config_defaults given_or text_or mode_or_default iam_or_default
  ydb-accepted h = rw (h.connection_timeout, backoff-accepted h) refl

  documents-accepted :
      (open_timeout : Bytes)
      → AcceptsDefaults
      → validate_redis_config is_duration (fill_documents (documents_default open_timeout))
        ≡ accepted
  unfolding validate_redis_config accepted_if all_accept required_section fill_documents given_or
  documents-accepted open_timeout h = rw (h.connection_timeout, backoff-accepted h) refl

  mongodb-accepted :
      AcceptsDefaults
      → validate_mongo_db_config is_duration (fill_documents (documents_default (codes "5s")))
        ≡ accepted
  unfolding validate_mongo_db_config accepted_if all_accept required_section fill_documents given_or
  mongodb-accepted h = rw (h.connection_timeout, backoff-accepted h) refl

  opensearch-accepted :
      AcceptsDefaults
      → validate_open_search_config is_duration (fill_opensearch opensearch_default) ≡ accepted
  unfolding validate_open_search_config accepted_if all_accept required_section fill_opensearch
      given_or
  opensearch-accepted h = rw (h.connection_timeout, backoff-accepted h) refl

  -- The defaults of all data sources are accepted.
  datasources-accepted :
      AcceptsDefaults
      → validate_datasources_config is_duration (record (fill_datasources empty_datasources) {
        logging =
            some
              (record logging_default { ydb = some (fill_ydb_config_defaults empty_ydb_config) });
      })
        ≡ accepted
  unfolding validate_datasources_config all_accept optional_section fill_datasources given_or
  datasources-accepted h =
      rw
        (
          relational-accepted (codes "5s") 0 h,
          ydb-accepted h,
          mongodb-accepted h,
          opensearch-accepted h,
          documents-accepted [] h,
        )
        refl

  -- A configuration that has nothing but the section of the connector server, and that of the profiler
  -- or not, is filled with defaults without a panic, and is then accepted or refused as these two
  -- sections are. The parser of durations is taken to accept the durations of the defaults.
  pub only_listeners-decide :
      (connector : ListenerConfig) (pprof : Option ListenerConfig)
      → AcceptsDefaults
      → (t : ServerConfig) × (fill_server_config_defaults (only_listeners connector pprof)
          ≡ value t)
        × (validate_server_config is_duration t
            ≡ all_accept
                (validate_listener connector ∷ optional_section validate_listener pprof ∷ []))
  unfolding fill_server_config_defaults fill_server fill_sections fill_logging given_or
  only_listeners-decide connector pprof h = (
    _,
    refl,
    unfold validate_server_config in
        rw (datasources-accepted h)
          (two_decide (validate_listener connector) (optional_section validate_listener pprof)),
  )

  -- A configuration that validateServerConfig accepts has a listener for the connector whose
  -- endpoint has a host and a port from 1 to 65535, and pages with a limit, of which that on the
  -- bytes is at most 50 MiB.
  pub validate_server_config-IsServable :
      (c : ServerConfig) → validate_server_config is_duration c ≡ accepted → IsServable c
  unfolding validate_server_config validate_listener
  validate_server_config-IsServable c h =
      let (a, b) =
        first_and_fourth (required_section validate_listener c.connector_server)
          (optional_section validate_server_read_limit c.read_limit)
          (optional_section validate_listener c.pprof_server)
          (required_section validate_paging_config c.paging)
          (accepted_if (is_set c.conversion)
            ∷ required_section (validate_datasources_config is_duration) c.datasources
            ∷ optional_section validate_observation_config c.observation
            ∷ [])
          h in
      let (l, has, checked) = required_section-accepted validate_listener c.connector_server a in
      let (listens, _) =
        all_accept-accepted (required_section validate_config_endpoint l.endpoint)
          (optional_section validate_server_tls_config l.tls ∷ []) checked in
      let (e, at, valid) = required_section-accepted validate_config_endpoint l.endpoint listens in
      let (p, pages, limited) = required_section-accepted validate_paging_config c.paging b in
      let (host, low, high) = endpoint-Sound e valid in
      let (some_limit, bytes) = paging-Sound p limited in
      ((l, e, has, at, host, low, high), (p, pages, some_limit, bytes))
