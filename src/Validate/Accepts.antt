-- ===== src/Validate/Accepts.antt =====
-- validate.go: exactly which requests are accepted, and with which error the others are refused.
use fq_connector_go.Common.{
  ℕ, subst, Bytes, List, [], ◌∷◌, Option, none, some, ◌≡◌, ◌≢◌, ◌↔◌, refl, sym, ap, ◌∙◌, arith, All,
}
use fq_connector_go.Errors.{ok, err, ◌>>=◌}
use fq_connector_go.Api.{DataSourceKind}
use fq_connector_go.Validate.{
  Endpoint, DataSourceInstance, get_schema, get_service_name, get_folder_id, Check, refused,
  not_empty, check_port, check_endpoint, validate_endpoint, validate_database, validate_use_tls,
  options_check, validate_data_source_options, run_validators, validators_of,
  validate_data_source_instance, Select, validate_select, validate_selects,
  validate_read_splits_request,
}

abbrev pub HasEndpoint : DataSourceInstance → Type 0
HasEndpoint d = (e : Endpoint) × (d.endpoint ≡ some e) × (e.host ≢ []) × (e.port ≢ 0)

-- A data source with an address and a database.
abbrev pub HasDatabase : DataSourceInstance → Type 0
HasDatabase d = HasEndpoint d × (d.database ≢ [])

-- What an instance of each kind must have.
abbrev pub Required : DataSourceKind → DataSourceInstance → Type 0
Required DataSourceKind.clickhouse d = HasDatabase d
Required DataSourceKind.postgresql d = HasDatabase d × (get_schema d.options ≢ [])
Required DataSourceKind.s3 d = HasDatabase d
Required DataSourceKind.ydb d = HasDatabase d
Required DataSourceKind.mysql d = HasDatabase d
Required DataSourceKind.ms_sql_server d = HasDatabase d
Required DataSourceKind.greenplum d = HasDatabase d
Required DataSourceKind.oracle d = HasEndpoint d × (get_service_name d.options ≢ [])
Required DataSourceKind.logging d = get_folder_id d.options ≢ []
Required DataSourceKind.mongo_db d = HasDatabase d
Required DataSourceKind.redis d = HasDatabase d
Required DataSourceKind.opensearch d = HasDatabase d
Required _ d = ⊥

abbrev pub IsAcceptable : Option Select → Type 0
IsAcceptable (some (some d)) = Required d.kind d
IsAcceptable _ = ⊥

not_empty_iff : (s : Bytes) → (not_empty s ≡ ok tt) ↔ (s ≢ [])
unfolding not_empty
not_empty_iff [] = ground arith
not_empty_iff (c ∷ s) = ground arith

-- A chain of two checks passes if both do.
>>=_iff :
    (m n : Check) {P Q : Type 0}
    → ((m ≡ ok tt) ↔ P)
    → ((n ≡ ok tt) ↔ Q)
    → ((m >>= λ _. n) ≡ ok tt) ↔ (P × Q)
>>=_iff (ok _) n p q = (λ h. (p.0 refl, q.0 h), λ (a, b). q.1 b)
>>=_iff (err e) n p q = (λ h. absurd (cc h), λ (a, b). absurd (cc (p.1 a)))

all_done : (◌≡◌ {A = Check} (ok tt) (ok tt)) ↔ Unit {0}
all_done = ((λ h. tt), λ h. refl)

check_port_iff : (n : ℕ) → (check_port n ≡ ok tt) ↔ (n ≢ 0)
unfolding check_port
check_port_iff n = ground arith

check_endpoint_iff :
    (o : Option Endpoint)
    → (check_endpoint o ≡ ok tt) ↔ ((e : Endpoint) × (o ≡ some e) × (e.host ≢ []) × (e.port ≢ 0))
unfolding check_endpoint check_port
check_endpoint_iff none = (λ h. absurd (cc h), λ (e, s, a, b). absurd (cc s))
check_endpoint_iff (some e) =
    let f =
      >>=_iff (not_empty e.host) (check_port e.port) (not_empty_iff e.host)
        (check_port_iff e.port) in
    (
      (λ h. let (a, b) = f.0 h in (e, refl, a, b)),
      λ (x, s, a, b).
          let k : x ≡ e = cc s in f.1 (subst (λ y. (y.host ≢ []) × (y.port ≢ 0)) k (a, b)),
    )

-- The checks of a data source with an address and a database.
addressed_iff :
    (d : DataSourceInstance) {P : Type 0}
    → ((options_check d.kind d.options ≡ ok tt) ↔ P)
    → (run_validators
          (validate_endpoint ∷ validate_database ∷ validate_use_tls ∷ validate_data_source_options
            ∷ [])
          d
        ≡ ok tt)
      ↔ (HasDatabase d × P)
unfolding run_validators validate_endpoint validate_database validate_use_tls
    validate_data_source_options
addressed_iff d {P} p =
    let f = >>=_iff (check_endpoint d.endpoint) _ (check_endpoint_iff d.endpoint) (
      >>=_iff (not_empty d.database) _ (not_empty_iff d.database)
        (>>=_iff (options_check d.kind d.options) (ok tt) p (all_done))) in
    ((λ h. let (a, (b, (c, x))) = f.0 h in ((a, b), c)), λ ((a, b), c). f.1 (a, (b, (c, tt))))

-- ... of which the options are not checked.
database_iff :
    (d : DataSourceInstance)
    → options_check d.kind d.options ≡ ok tt
    → (run_validators
          (validate_endpoint ∷ validate_database ∷ validate_use_tls ∷ validate_data_source_options
            ∷ [])
          d
        ≡ ok tt)
      ↔ HasDatabase d
database_iff d h =
    let f = addressed_iff d {P = Unit {0}} ((λ _. tt), λ _. h) in
    ((λ k. (f.0 k).0), λ a. f.1 (a, tt))

unrefused : refused ≡ ok tt → ⊥
unrefused h = cc

-- ... and of which they are refused.
refused_iff :
    (d : DataSourceInstance)
    → options_check d.kind d.options ≡ refused
    → (run_validators
          (validate_endpoint ∷ validate_database ∷ validate_use_tls ∷ validate_data_source_options
            ∷ [])
          d
        ≡ ok tt)
      ↔ ⊥
refused_iff d h =
    let f = addressed_iff d {P = ⊥} ((λ k. absurd (unrefused (sym h ∙ k))), λ e. absurd e) in
    ((λ k. (f.0 k).1), λ e. absurd e)

oracle_iff :
    (d : DataSourceInstance) {P : Type 0}
    → ((options_check d.kind d.options ≡ ok tt) ↔ P)
    → (run_validators (validate_endpoint ∷ validate_use_tls ∷ validate_data_source_options ∷ []) d
        ≡ ok tt)
      ↔ (HasEndpoint d × P)
unfolding run_validators validate_endpoint validate_use_tls validate_data_source_options
oracle_iff d p =
    let f =
      >>=_iff (check_endpoint d.endpoint) _ (check_endpoint_iff d.endpoint)
        (>>=_iff (options_check d.kind d.options) (ok tt) p all_done) in
    ((λ h. let (a, (c, x)) = f.0 h in (a, c)), λ (a, c). f.1 (a, (c, tt)))

logging_iff :
    (d : DataSourceInstance) {P : Type 0}
    → ((options_check d.kind d.options ≡ ok tt) ↔ P)
    → (run_validators (validate_data_source_options ∷ []) d ≡ ok tt) ↔ P
unfolding run_validators validate_data_source_options
logging_iff d p =
    let f = >>=_iff (options_check d.kind d.options) (ok tt) p all_done in
    ((λ h. (f.0 h).0), λ c. f.1 (c, tt))

-- The options of an instance of a known kind.
options_of :
    (kind : DataSourceKind) (d : DataSourceInstance) (c : Check)
    → d.kind ≡ kind
    → options_check kind d.options ≡ c
    → options_check d.kind d.options ≡ c
options_of kind d c h k = ap (λ x. options_check x d.options) h ∙ k

field_of :
    (kind : DataSourceKind) (d : DataSourceInstance) (s : Bytes)
    → d.kind ≡ kind
    → options_check kind d.options ≡ not_empty s
    → (options_check d.kind d.options ≡ ok tt) ↔ (s ≢ [])
field_of kind d s h k =
    let e = options_of kind d (not_empty s) h k in
    ((λ x. (not_empty_iff s).0 (sym e ∙ x)), λ x. e ∙ (not_empty_iff s).1 x)

kind_iff :
    (kind : DataSourceKind) (d : DataSourceInstance)
    → d.kind ≡ kind
    → ((validators_of kind >>= λ vs. run_validators vs d) ≡ ok tt) ↔ Required kind d
unfolding validators_of
kind_iff DataSourceKind.clickhouse d h =
    database_iff d (options_of DataSourceKind.clickhouse d (ok tt) h (unfold options_check in refl))
kind_iff DataSourceKind.s3 d h =
    database_iff d (options_of DataSourceKind.s3 d (ok tt) h (unfold options_check in refl))
kind_iff DataSourceKind.ydb d h =
    database_iff d (options_of DataSourceKind.ydb d (ok tt) h (unfold options_check in refl))
kind_iff DataSourceKind.mysql d h =
    database_iff d (options_of DataSourceKind.mysql d (ok tt) h (unfold options_check in refl))
kind_iff DataSourceKind.ms_sql_server d h =
    database_iff d
      (options_of DataSourceKind.ms_sql_server d (ok tt) h (unfold options_check in refl))
kind_iff DataSourceKind.greenplum d h =
    database_iff d (options_of DataSourceKind.greenplum d (ok tt) h (unfold options_check in refl))
kind_iff DataSourceKind.mongo_db d h =
    database_iff d (options_of DataSourceKind.mongo_db d (ok tt) h (unfold options_check in refl))
kind_iff DataSourceKind.redis d h =
    database_iff d (options_of DataSourceKind.redis d (ok tt) h (unfold options_check in refl))
kind_iff DataSourceKind.opensearch d h =
    database_iff d (options_of DataSourceKind.opensearch d (ok tt) h (unfold options_check in refl))
kind_iff DataSourceKind.prometheus d h =
    refused_iff d (options_of DataSourceKind.prometheus d refused h (unfold options_check in refl))
kind_iff DataSourceKind.iceberg d h =
    refused_iff d (options_of DataSourceKind.iceberg d refused h (unfold options_check in refl))
kind_iff (DataSourceKind.other_kind n) d h =
    refused_iff d
      (options_of (DataSourceKind.other_kind n) d refused h (unfold options_check in refl))
kind_iff DataSourceKind.kind_unspecified d h = ((λ k. unrefused k), λ x. absurd x)
kind_iff DataSourceKind.postgresql d h =
    addressed_iff d
      (field_of DataSourceKind.postgresql d (get_schema d.options) h (unfold options_check in refl))
kind_iff DataSourceKind.oracle d h =
    oracle_iff d (
      field_of DataSourceKind.oracle d (get_service_name d.options) h
        (unfold options_check in refl))
kind_iff DataSourceKind.logging d h =
    logging_iff d
      (field_of DataSourceKind.logging d (get_folder_id d.options) h (unfold options_check in refl))

-- validateSelect accepts exactly the selects whose data source instance is set, is of a supported
-- kind and has what its kind requires.
pub validate_select_iff : (s : Option Select) → (validate_select s ≡ ok tt) ↔ IsAcceptable s
unfolding validate_select validate_data_source_instance
validate_select_iff none = ((λ k. unrefused k), λ x. absurd x)
validate_select_iff (some none) = ((λ k. unrefused k), λ x. absurd x)
validate_select_iff (some (some d)) = kind_iff d.kind d refl

validate_selects_iff :
    (ss : List (Option Select)) → (validate_selects ss ≡ ok tt) ↔ All IsAcceptable ss
unfolding validate_selects
validate_selects_iff [] = ((λ _. tt), λ _. refl)
validate_selects_iff (s ∷ ss) =
    >>=_iff (validate_select s) (validate_selects ss) (validate_select_iff s)
      (validate_selects_iff ss)

-- A ReadSplits request is accepted exactly when it has a split, and the data source instance of
-- each of its splits is set, is of a supported kind and has what its kind requires: an endpoint with
-- a host and a port and a database for most kinds, a schema besides for PostgreSQL, an endpoint and
-- a service name for Oracle, a folder for Logging.
pub validate_read_splits_request_iff :
    (ss : List (Option Select))
    → (validate_read_splits_request ss ≡ ok tt) ↔ ((ss ≢ []) × All IsAcceptable ss)
unfolding validate_read_splits_request
validate_read_splits_request_iff [] = ((λ k. absurd (unrefused k)), λ (a, b). absurd (a refl))
validate_read_splits_request_iff (s ∷ ss) =
    let f = validate_selects_iff (s ∷ ss) in ((λ k. ((λ e. cc e), f.0 k)), λ (a, b). f.1 b)
