-- ===== src/Examples/Settings.antt =====
-- The theorems on configurations, at one with a listener on localhost.
use fq_connector_go.Common.{Bool, not, Bytes, codes, [], ◌∷◌, none, some, ◌≡◌, ◌↔◌, refl, ◌∙◌}
use fq_connector_go.Errors.{value, panics}
use fq_connector_go.Settings.{ListenerConfig, ServerConfig}
use fq_connector_go.Settings.Fill.{fill_server_config_defaults}
use fq_connector_go.Settings.Accept.{
  accepted, refused, all_accept, optional_section, is_empty, validate_listener,
  validate_server_config,
}
use fq_connector_go.Settings.Filled.{fill_server_config_defaults-twice}
use fq_connector_go.Settings.Panics.{LacksSection, fill_server_config_defaults-panics_iff}
use fq_connector_go.Settings.Accepted.{
  only_listeners, AcceptsDefaults, only_listeners-decide, IsServable,
  validate_server_config-IsServable,
}

abbrev is_duration : Bytes → Bool
unfolding is_empty
is_duration s = not (is_empty s)

defaults-accepted : AcceptsDefaults is_duration
unfolding is_duration
defaults-accepted = record {
  initial_interval = refl;
  max_interval = refl;
  max_elapsed_time = refl;
  connection_timeout = refl;
}

abbrev localhost : ListenerConfig
localhost = record {
  endpoint = some (record { host = codes "localhost"; port = 2130 });
  tls = none;
  max_recv_message_size = 0;
}

only_listeners-decide_example :
    (t : ServerConfig) × (fill_server_config_defaults (only_listeners localhost none) ≡ value t)
    × (validate_server_config is_duration t
        ≡ all_accept (validate_listener localhost ∷ optional_section validate_listener none ∷ []))
only_listeners-decide_example = only_listeners-decide is_duration localhost none defaults-accepted

localhost_config :
    (t : ServerConfig) × (fill_server_config_defaults (only_listeners localhost none) ≡ value t)
    × (validate_server_config is_duration t
        ≡ all_accept (validate_listener localhost ∷ optional_section validate_listener none ∷ []))
localhost_config = only_listeners-decide is_duration localhost none defaults-accepted

fill_server_config_defaults-twice_example :
    fill_server_config_defaults (localhost_config.0) ≡ value (localhost_config.0)
fill_server_config_defaults-twice_example =
    fill_server_config_defaults-twice (only_listeners localhost none) (localhost_config.0)
      (localhost_config.1)

localhost-accepted :
    all_accept (validate_listener localhost ∷ optional_section validate_listener none ∷ [])
    ≡ accepted
unfolding validate_listener
localhost-accepted = refl

validate_server_config-IsServable_example : IsServable (localhost_config.0)
validate_server_config-IsServable_example =
    validate_server_config-IsServable is_duration (localhost_config.0)
      (localhost_config.2 ∙ localhost-accepted)

abbrev no_listener : ServerConfig
no_listener = record (only_listeners localhost none) { connector_server = none }

fill_server_config_defaults-panics_iff_example :
    (fill_server_config_defaults no_listener ≡ panics) ↔ LacksSection no_listener
fill_server_config_defaults-panics_iff_example = fill_server_config_defaults-panics_iff no_listener

-- It would be refused if it were not filled first.
test_no_listener : validate_server_config is_duration no_listener ≡ refused
unfolding validate_server_config
test_no_listener = refl
