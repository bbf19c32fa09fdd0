-- ===== src/Settings/Panics.antt =====
-- config.go: which configurations make fillServerConfigDefaults panic.
use fq_connector_go.Common.{Option, none, some, ◌≡◌, ◌⊎◌, inl, inr, ◌↔◌, refl, ap}
use fq_connector_go.Errors.{Returned, value, panics}
use fq_connector_go.Settings.{
  YdbConfig, LoggingConfig, DatasourcesConfig, ListenerConfig, ServerConfig,
}
use fq_connector_go.Settings.Fill.{
  given_or, fill_logging, logging_default, empty_datasources, fill_datasources, fill_listener,
  fill_sections, fill_server, fill_server_config_defaults,
}

-- What makes filling a configuration panic: no section of the connector server, or a section of
-- Logging without one of its YDB.
abbrev pub LacksSection : ServerConfig → Type 0
LacksSection c =
    (c.connector_server ≡ none)
    ⊎ ((d : DatasourcesConfig) × (g : LoggingConfig) × (c.datasources ≡ some d)
        × (d.logging ≡ some g)
        × (g.ydb ≡ none))

no_ydb : (y : Option YdbConfig) (g : LoggingConfig) → fill_logging y g ≡ panics → y ≡ none
unfolding fill_logging
no_ydb none g k = refl
no_ydb (some y) g k = absurd (cc k)

logging-panics :
    (o : Option LoggingConfig)
    → fill_logging (given_or logging_default o).ydb (given_or logging_default o) ≡ panics
    → (g : LoggingConfig) × (o ≡ some g) × (g.ydb ≡ none)
unfolding given_or
logging-panics none h = absurd (unfold fill_logging in (cc h))
logging-panics (some g) h = (g, refl, no_ydb g.ydb g h)

sections-panic :
    (c : ServerConfig) (l : ListenerConfig) (d : DatasourcesConfig) (r : Returned LoggingConfig)
    → fill_sections c l d r ≡ panics
    → r ≡ panics
unfolding fill_sections
sections-panic c l d panics h = refl
sections-panic c l d (value g) h = absurd (cc h)

datasources-panic :
    (o : Option DatasourcesConfig) (g : LoggingConfig)
    → (given_or empty_datasources o).logging ≡ some g
    → (d : DatasourcesConfig) × (o ≡ some d) × (d.logging ≡ some g)
unfolding given_or
datasources-panic none g h = absurd (cc h)
datasources-panic (some d) g h = (d, refl, h)

server-lacks :
    (o : Option ListenerConfig) (c : ServerConfig)
    → fill_server o c ≡ panics
    → (o ≡ none)
      ⊎ ((d : DatasourcesConfig) × (g : LoggingConfig) × (c.datasources ≡ some d)
          × (d.logging ≡ some g)
          × (g.ydb ≡ none))
unfolding fill_server
server-lacks none c h = inl refl
server-lacks (some l) c h =
    let sources = given_or empty_datasources c.datasources in
    let logging = given_or logging_default sources.logging in
    let no_logging =
      sections-panic c (fill_listener l) (fill_datasources sources)
        (fill_logging logging.ydb logging) h in
    let (g, some_logging, no_ydb) = logging-panics sources.logging no_logging in
    let (d, some_sources, logs) = datasources-panic c.datasources g some_logging in
    inr (d, g, some_sources, logs, no_ydb)

server-fails :
    (o : Option ListenerConfig) (c : ServerConfig) (d : DatasourcesConfig) (g : LoggingConfig)
    → c.datasources ≡ some d
    → d.logging ≡ some g
    → g.ydb ≡ none
    → fill_server o c ≡ panics
unfolding fill_server given_or fill_logging fill_sections
server-fails none c d g hd hg hy = refl
server-fails (some l) c d g hd hg hy = rw (hd, hg, hy) refl

lacks-panics : (c : ServerConfig) → LacksSection c → fill_server_config_defaults c ≡ panics
unfolding fill_server_config_defaults
lacks-panics c (inl h) = unfold fill_server in (ap (λ o. fill_server o c) h)
lacks-panics c (inr (d, g, hd, hg, hy)) = server-fails c.connector_server c d g hd hg hy

-- Filling a configuration with the defaults panics exactly if the section of the connector server
-- is missing, or there is a section of the data source Logging without one for its YDB. Every other
-- configuration is filled.
pub fill_server_config_defaults-panics_iff :
    (c : ServerConfig) → (fill_server_config_defaults c ≡ panics) ↔ LacksSection c
fill_server_config_defaults-panics_iff c = (
  λ h. server-lacks c.connector_server c (unfold fill_server_config_defaults in h),
  lacks-panics c,
)
