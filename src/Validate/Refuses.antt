-- ===== src/Validate/Refuses.antt =====
-- validate.go: the error with which a request is refused, up to the status in the response.
use fq_connector_go.Common.{
  ℕ, false, Bytes, List, [], ◌∷◌, Option, none, some, ◌≡◌, ◌≢◌, refl, sym, ap, ◌∙◌, arith, ◌==◌,
}
use fq_connector_go.Errors.{
  Error, wraps, opaque, invalid_request, is, Result, ok, err, ◌>>=◌, value,
}
use fq_connector_go.Api.{DataSourceKind}
use fq_connector_go.ApiError.{
  bad_request, internal_error, Codes, StdError, connector_status, new_api_error_from_std_error,
}
use fq_connector_go.ApiError.Total.{new_api_error-connector_status}
use fq_connector_go.Validate.{
  Endpoint, Options, DataSourceInstance, Check, not_empty, check_port, check_endpoint,
  validate_endpoint, validate_database, validate_use_tls, options_check,
  validate_data_source_options, run_validators, validators_of, validate_data_source_instance,
  Select, validate_select, validate_selects, validate_read_splits_request, kind_allows_max,
  selects_allow_max, check_max, validate_list_splits, validate_list_splits_request,
}
use fq_connector_go.Validate.Accepts.{IsAcceptable, validate_select_iff}

-- A check that fails only with an invalid request.
abbrev Tame : {A : Type 0} → Result A → Type 0
Tame (ok a) = Unit
Tame (err e) = e ≡ wraps invalid_request

Tame-bind :
    {A B : Type 0} (m : Result A) (n : A → Result B)
    → Tame m
    → ((a : A) → Tame (n a))
    → Tame (m >>= n)
Tame-bind (ok a) n h k = k a
Tame-bind (err e) n h k = h

not_empty-Tame : (s : Bytes) → Tame (not_empty s)
unfolding not_empty
not_empty-Tame [] = refl
not_empty-Tame (c ∷ s) = tt

check_port-Tame : (n : ℕ) → Tame (check_port n)
unfolding check_port
check_port-Tame n = ground arith

check_endpoint-Tame : (o : Option Endpoint) → Tame (check_endpoint o)
unfolding check_endpoint
check_endpoint-Tame none = refl
check_endpoint-Tame (some e) =
    Tame-bind (not_empty e.host) _ (not_empty-Tame e.host) (λ _. check_port-Tame e.port)

options-Tame : (kind : DataSourceKind) (o : Options) → Tame (options_check kind o)
unfolding options_check
options-Tame DataSourceKind.postgresql o = not_empty-Tame _
options-Tame DataSourceKind.oracle o = not_empty-Tame _
options-Tame DataSourceKind.logging o = not_empty-Tame _
options-Tame DataSourceKind.ms_sql_server o = tt
options-Tame DataSourceKind.greenplum o = tt
options-Tame DataSourceKind.clickhouse o = tt
options-Tame DataSourceKind.s3 o = tt
options-Tame DataSourceKind.ydb o = tt
options-Tame DataSourceKind.mysql o = tt
options-Tame DataSourceKind.mongo_db o = tt
options-Tame DataSourceKind.redis o = tt
options-Tame DataSourceKind.opensearch o = tt
options-Tame DataSourceKind.kind_unspecified o = refl
options-Tame DataSourceKind.prometheus o = refl
options-Tame DataSourceKind.iceberg o = refl
options-Tame (DataSourceKind.other_kind n) o = refl

addressed-Tame :
    (d : DataSourceInstance)
    → Tame (
        run_validators
          (validate_endpoint ∷ validate_database ∷ validate_use_tls ∷ validate_data_source_options
            ∷ [])
          d)
unfolding run_validators validate_endpoint validate_database validate_use_tls
    validate_data_source_options
addressed-Tame d = Tame-bind (check_endpoint d.endpoint) _ (check_endpoint-Tame d.endpoint) (λ _.
    Tame-bind (not_empty d.database) _ (not_empty-Tame d.database)
      (λ _. Tame-bind (options_check d.kind d.options) _ (options-Tame d.kind d.options) (λ _. tt)))

kind-Tame :
    (kind : DataSourceKind) (d : DataSourceInstance)
    → Tame (validators_of kind >>= λ vs. run_validators vs d)
unfolding validators_of run_validators validate_endpoint validate_use_tls
    validate_data_source_options
kind-Tame DataSourceKind.kind_unspecified d = refl
kind-Tame DataSourceKind.logging d =
    Tame-bind (options_check d.kind d.options) _ (options-Tame d.kind d.options) (λ _. tt)
kind-Tame DataSourceKind.oracle d =
    Tame-bind (check_endpoint d.endpoint) _ (check_endpoint-Tame d.endpoint)
      (λ _. Tame-bind (options_check d.kind d.options) _ (options-Tame d.kind d.options) (λ _. tt))
kind-Tame DataSourceKind.clickhouse d = addressed-Tame d
kind-Tame DataSourceKind.postgresql d = addressed-Tame d
kind-Tame DataSourceKind.s3 d = addressed-Tame d
kind-Tame DataSourceKind.ydb d = addressed-Tame d
kind-Tame DataSourceKind.mysql d = addressed-Tame d
kind-Tame DataSourceKind.ms_sql_server d = addressed-Tame d
kind-Tame DataSourceKind.greenplum d = addressed-Tame d
kind-Tame DataSourceKind.mongo_db d = addressed-Tame d
kind-Tame DataSourceKind.redis d = addressed-Tame d
kind-Tame DataSourceKind.prometheus d = addressed-Tame d
kind-Tame DataSourceKind.iceberg d = addressed-Tame d
kind-Tame DataSourceKind.opensearch d = addressed-Tame d
kind-Tame (DataSourceKind.other_kind n) d = addressed-Tame d

validate_select-Tame : (s : Option Select) → Tame (validate_select s)
unfolding validate_select validate_data_source_instance
validate_select-Tame none = refl
validate_select-Tame (some none) = refl
validate_select-Tame (some (some d)) = kind-Tame d.kind d

validate_selects-Tame : (ss : List (Option Select)) → Tame (validate_selects ss)
unfolding validate_selects
validate_selects-Tame [] = tt
validate_selects-Tame (s ∷ ss) =
    Tame-bind (validate_select s) _ (validate_select-Tame s) (λ _. validate_selects-Tame ss)

read_splits-Tame : (ss : List (Option Select)) → Tame (validate_read_splits_request ss)
unfolding validate_read_splits_request
read_splits-Tame [] = refl
read_splits-Tame (s ∷ ss) = validate_selects-Tame (s ∷ ss)

Tame-err : (m : Check) (e : Error) → Tame m → m ≡ err e → e ≡ wraps invalid_request
Tame-err (ok _) e h k = cc
Tame-err (err x) e h k = let same : x ≡ e = cc in sym same ∙ h

-- The error of a ReadSplits request that is refused reaches the client as BAD_REQUEST with its text.
-- The error is taken to wrap no certificate error.
pub refused_read-bad_request :
    (c : Codes) (ss : List (Option Select)) (e : StdError)
    → validate_read_splits_request ss ≡ err e.chain
    → e.is_certificate_error ≡ false
    → new_api_error_from_std_error c e DataSourceKind.kind_unspecified
      ≡ value (record { status = bad_request; message = e.text })
refused_read-bad_request c ss e h k =
    let same : e.chain ≡ wraps invalid_request =
      Tame-err (validate_read_splits_request ss) e.chain (read_splits-Tame ss) h in
    let status : connector_status (wraps invalid_request) ≡ bad_request =
      unfold connector_status in (unfold is in refl) in
    new_api_error-connector_status c e k
    ∙ ap (λ x. value (record { status = x; message = e.text })) (ap connector_status same ∙ status)

-- A ListSplits request for a ClickHouse data source that is accepted but for a maximum of splits is
-- refused with an error that reaches the client as INTERNAL_ERROR.
pub max_split_count-internal_error :
    (c : Codes) (d : DataSourceInstance) (n : ℕ) (e : StdError)
    → IsAcceptable (some (some d))
    → d.kind ≡ DataSourceKind.clickhouse
    → n ≢ 0
    → e.chain ≡ opaque
    → e.is_certificate_error ≡ false
    → (validate_list_splits_request (record {
      selects = some (some d) ∷ [];
      max_split_count = n;
      split_number_limit = 0;
      split_size = 0;
    })
        ≡ err e.chain)
      × (new_api_error_from_std_error c e DataSourceKind.kind_unspecified
          ≡ value (record { status = internal_error; message = e.text }))
unfolding validate_list_splits_request validate_list_splits validate_selects check_max
    selects_allow_max
max_split_count-internal_error c d n e acceptable kind large chain k =
    let accepted : validate_select (some (some d)) ≡ ok tt =
      (validate_select_iff (some (some d))).1 acceptable in
    let over : (n == 0) ≡ false = ground arith in
    let not_allowed : kind_allows_max n d.kind ≡ err opaque =
      ap (kind_allows_max n) kind ∙ (unfold kind_allows_max in refl) in
    let status : connector_status opaque ≡ internal_error =
      unfold connector_status in (unfold is in refl) in
    (
      rw (accepted, over, not_allowed) (ap (λ x. err x) (sym chain)),
      new_api_error-connector_status c e k
          ∙ ap (λ x. value (record { status = x; message = e.text }))
              (ap connector_status chain ∙ status),
    )
