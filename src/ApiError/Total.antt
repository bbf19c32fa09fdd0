-- ===== src/ApiError/Total.antt =====
-- common/errors.go: every error becomes a failure of the response, and what panics on the way.
use fq_connector_go.Common.{
  ℕ, true, false, Bytes, List, [], ◌∷◌, Option, none, some, ◌≡◌, ◌≢◌, refl, arith, inl, inr,
  Bool-cases,
}
use fq_connector_go.Errors.{Returned, value, panics}
use fq_connector_go.Api.{DataSourceKind}
use fq_connector_go.ApiError.Text.{first_number, ora_number, parse_uint16}
use fq_connector_go.ApiError.{
  Status, unspecified, success, bad_request, unauthorized, internal_error, unavailable, overloaded,
  not_found, timeout, unsupported, other_status, from_mongo_db_error, mongo_server_status, TError,
  Codes, StdError, is_success, status_is_success, connector_status, from_connector_error,
  from_tls_error, from_redis_error, from_opensearch_error, from_oracle_error, oracle_match,
  oracle_error, clickhouse_error, postgresql_error, ms_sql_error, mysql_error, mysql_match,
  from_mysql_error, ydb_status, from_ydb_error, from_data_source_error, or_connector_error,
  or_tls_error, map_returned, new_api_error_from_std_error,
}

-- IsSuccess of the error returns false.
abbrev Fails : TError → Type 0
Fails t = is_success (some t) ≡ value false

abbrev FailsIfAny : Option TError → Type 0
FailsIfAny none = Unit
FailsIfAny (some t) = Fails t

abbrev FailsIfReturned : Returned (Option TError) → Type 0
FailsIfReturned panics = Unit
FailsIfReturned (value o) = FailsIfAny o

connector-Fails : (e : StdError) → Fails (from_connector_error e)
unfolding from_connector_error connector_status is_success
connector-Fails e = ground arith

tls-FailsIfAny : (e : StdError) → FailsIfAny (from_tls_error e)
unfolding from_tls_error is_success
tls-FailsIfAny e = ground arith

redis-Fails : (e : StdError) → Fails (from_redis_error e)
unfolding from_redis_error is_success
redis-Fails e = ground arith

opensearch-Fails : (e : StdError) → Fails (from_opensearch_error e)
unfolding from_opensearch_error is_success
opensearch-Fails e = ground arith

oracle_parsed-FailsIfReturned :
    (text : Bytes) (code : Option ℕ) → FailsIfReturned (oracle_error text code)
unfolding oracle_error is_success
oracle_parsed-FailsIfReturned text none = tt
oracle_parsed-FailsIfReturned text (some code) = ground arith

oracle-FailsIfReturned : (text : Bytes) (n : Option Bytes) → FailsIfReturned (oracle_match text n)
unfolding oracle_match
oracle-FailsIfReturned text none = tt
oracle-FailsIfReturned text (some n) = oracle_parsed-FailsIfReturned text (parse_uint16 n)

-- A number, if one was found, that strconv.ParseUint accepts for 16 bits.
abbrev FitsUint16 : Option Bytes → Type 0
FitsUint16 none = Unit
FitsUint16 (some n) = parse_uint16 n ≢ none

-- The kinds of the switch of NewAPIErrorFromStdError, with what it parses of the error's text.
abbrev pub IsHandled : StdError → DataSourceKind → Type 0
IsHandled e DataSourceKind.mysql = FitsUint16 (first_number e.text)
IsHandled e DataSourceKind.oracle = FitsUint16 (ora_number e.text)
IsHandled e DataSourceKind.s3 = ⊥
IsHandled e DataSourceKind.prometheus = ⊥
IsHandled e DataSourceKind.iceberg = ⊥
IsHandled e (DataSourceKind.other_kind n) = ⊥
IsHandled e _ = Unit

oracle_error-returns :
    (text : Bytes) (code : Option ℕ) → code ≢ none → oracle_error text code ≢ panics
unfolding oracle_error
oracle_error-returns text none h k = h refl
oracle_error-returns text (some code) h k = cc

oracle_match-returns :
    (text : Bytes) (n : Option Bytes) → FitsUint16 n → oracle_match text n ≢ panics
unfolding oracle_match
oracle_match-returns text none h k = cc
oracle_match-returns text (some n) h k = oracle_error-returns text (parse_uint16 n) h k

module _ (c : Codes) where
  clickhouse-FailsIfAny : (o : Option (ℕ × Bytes)) → FailsIfAny (clickhouse_error c o)
  unfolding clickhouse_error is_success
  clickhouse-FailsIfAny none = tt
  clickhouse-FailsIfAny (some (code, message)) = ground arith

  postgresql-FailsIfAny : (o : Option (Bytes × Bytes)) → FailsIfAny (postgresql_error c o)
  unfolding postgresql_error is_success
  postgresql-FailsIfAny none = tt
  postgresql-FailsIfAny (some (code, message)) = ground arith

  ms_sql-FailsIfAny : (text : Bytes) (o : Option Bytes) → FailsIfAny (ms_sql_error c text o)
  unfolding ms_sql_error is_success
  ms_sql-FailsIfAny text none = tt
  ms_sql-FailsIfAny text (some message) = ground arith

  mysql_parsed-FailsIfReturned :
      (text : Bytes) (code : Option ℕ) → FailsIfReturned (mysql_error c text code)
  unfolding mysql_error is_success
  mysql_parsed-FailsIfReturned text none = tt
  mysql_parsed-FailsIfReturned text (some code) = ground arith

  mysql-FailsIfReturned : (text : Bytes) (n : Option Bytes) → FailsIfReturned (mysql_match c text n)
  unfolding mysql_match
  mysql-FailsIfReturned text none = mysql_parsed-FailsIfReturned text (some 0)
  mysql-FailsIfReturned text (some n) = mysql_parsed-FailsIfReturned text (parse_uint16 n)

  -- A status that an operation error has is one of a failure.
  operation-Fails :
      (e : StdError) (status : Status)
      → e.is_operation_error success ≡ false
      → e.is_operation_error unspecified ≡ false
      → e.is_operation_error status ≡ true
      → status_is_success status ≡ value false
  unfolding status_is_success
  operation-Fails e success hs hu h = cc
  operation-Fails e unspecified hs hu h = cc
  operation-Fails e bad_request hs hu h = refl
  operation-Fails e unauthorized hs hu h = refl
  operation-Fails e internal_error hs hu h = refl
  operation-Fails e unavailable hs hu h = refl
  operation-Fails e overloaded hs hu h = refl
  operation-Fails e not_found hs hu h = refl
  operation-Fails e timeout hs hu h = refl
  operation-Fails e unsupported hs hu h = refl
  operation-Fails e (other_status n) hs hu h = refl

  ydb_status-FailsIfAny :
      (e : StdError) (statuses : List Status)
      → e.is_operation_error success ≡ false
      → e.is_operation_error unspecified ≡ false
      → FailsIfAny (ydb_status c e statuses)
  unfolding ydb_status is_success status_is_success
  ydb_status-FailsIfAny e [] hs hu = tt
  ydb_status-FailsIfAny e (status ∷ statuses) hs hu =
      elim (Bool-cases (e.is_operation_error status)) [
        | inl h ↦ rw h (operation-Fails e status hs hu h)
        | inr h ↦ elim (Bool-cases e.is_resource_exhausted) [
          | inl r ↦ rw (h, r) refl
          | inr r ↦ rw (h, r) (ydb_status-FailsIfAny e statuses hs hu)
        ]
      ]

  ydb-FailsIfAny :
      (e : StdError)
      → e.is_operation_error success ≡ false
      → e.is_operation_error unspecified ≡ false
      → FailsIfAny (from_ydb_error c e)
  unfolding from_ydb_error
  ydb-FailsIfAny e hs hu = elim (Bool-cases e.is_ydb_error) [
    | inl h ↦ rw h (ydb_status-FailsIfAny e c.statuses hs hu)
    | inr h ↦ rw h tt
  ]

  data_source-FailsIfReturned :
      (e : StdError) (kind : DataSourceKind)
      → kind ≢ DataSourceKind.mongo_db
      → e.is_operation_error success ≡ false
      → e.is_operation_error unspecified ≡ false
      → FailsIfReturned (from_data_source_error c e kind)
  unfolding from_data_source_error from_mysql_error from_oracle_error
  data_source-FailsIfReturned e DataSourceKind.kind_unspecified hk hs hu = tt
  data_source-FailsIfReturned e DataSourceKind.clickhouse hk hs hu =
      clickhouse-FailsIfAny e.clickhouse_exception
  data_source-FailsIfReturned e DataSourceKind.postgresql hk hs hu =
      postgresql-FailsIfAny e.pg_error
  data_source-FailsIfReturned e DataSourceKind.s3 hk hs hu = tt
  data_source-FailsIfReturned e DataSourceKind.ydb hk hs hu = ydb-FailsIfAny e hs hu
  data_source-FailsIfReturned e DataSourceKind.mysql hk hs hu =
      mysql-FailsIfReturned e.text (first_number e.text)
  data_source-FailsIfReturned e DataSourceKind.ms_sql_server hk hs hu =
      ms_sql-FailsIfAny e.text e.ms_sql_message
  data_source-FailsIfReturned e DataSourceKind.greenplum hk hs hu = postgresql-FailsIfAny e.pg_error
  data_source-FailsIfReturned e DataSourceKind.oracle hk hs hu =
      oracle-FailsIfReturned e.text (ora_number e.text)
  data_source-FailsIfReturned e DataSourceKind.logging hk hs hu = ydb-FailsIfAny e hs hu
  data_source-FailsIfReturned e DataSourceKind.mongo_db hk hs hu = absurd (hk refl)
  data_source-FailsIfReturned e DataSourceKind.redis hk hs hu = redis-Fails e
  data_source-FailsIfReturned e DataSourceKind.prometheus hk hs hu = tt
  data_source-FailsIfReturned e DataSourceKind.iceberg hk hs hu = tt
  data_source-FailsIfReturned e DataSourceKind.opensearch hk hs hu = opensearch-Fails e
  data_source-FailsIfReturned e (DataSourceKind.other_kind n) hk hs hu = tt

  or_connector-Fails :
      (e : StdError) (o : Option TError) → FailsIfAny o → Fails (or_connector_error e o)
  unfolding or_connector_error
  or_connector-Fails e none h = connector-Fails e
  or_connector-Fails e (some t) h = h

  or_tls-Fails : (e : StdError) (o : Option TError) → FailsIfAny o → Fails (or_tls_error e o)
  unfolding or_tls_error
  or_tls-Fails e none h = or_connector-Fails e (from_tls_error e) (tls-FailsIfAny e)
  or_tls-Fails e (some t) h = h

  mysql_error-returns :
      (text : Bytes) (code : Option ℕ) → code ≢ none → mysql_error c text code ≢ panics
  unfolding mysql_error
  mysql_error-returns text none h k = h refl
  mysql_error-returns text (some code) h k = cc

  mysql_match-returns :
      (text : Bytes) (n : Option Bytes) → FitsUint16 n → mysql_match c text n ≢ panics
  unfolding mysql_match
  mysql_match-returns text none h k = mysql_error-returns text (some 0) (λ x. cc) k
  mysql_match-returns text (some n) h k = mysql_error-returns text (parse_uint16 n) h k

  data_source-returns :
      (e : StdError) (kind : DataSourceKind)
      → IsHandled e kind
      → from_data_source_error c e kind ≢ panics
  unfolding from_data_source_error from_mysql_error from_oracle_error
  data_source-returns e DataSourceKind.mysql h k =
      mysql_match-returns e.text (first_number e.text) h k
  data_source-returns e DataSourceKind.oracle h k =
      oracle_match-returns e.text (ora_number e.text) h k
  data_source-returns e DataSourceKind.kind_unspecified h k = cc
  data_source-returns e DataSourceKind.clickhouse h k = cc
  data_source-returns e DataSourceKind.postgresql h k = cc
  data_source-returns e DataSourceKind.ydb h k = cc
  data_source-returns e DataSourceKind.ms_sql_server h k = cc
  data_source-returns e DataSourceKind.greenplum h k = cc
  data_source-returns e DataSourceKind.logging h k = cc
  data_source-returns e DataSourceKind.mongo_db h k = cc
  data_source-returns e DataSourceKind.redis h k = cc
  data_source-returns e DataSourceKind.opensearch h k = cc
  data_source-returns e DataSourceKind.s3 h k = absurd h
  data_source-returns e DataSourceKind.prometheus h k = absurd h
  data_source-returns e DataSourceKind.iceberg h k = absurd h
  data_source-returns e (DataSourceKind.other_kind n) h k = absurd h

  map_returned-Fails :
      (e : StdError) (r : Returned (Option TError))
      → r ≢ panics
      → FailsIfReturned r
      → (api : TError) × (map_returned (or_tls_error e) r ≡ value api) × Fails api
  unfolding map_returned
  map_returned-Fails e panics k h = absurd (k refl)
  map_returned-Fails e (value o) k h = (or_tls_error e o, refl, or_tls-Fails e o h)

  -- NewAPIErrorFromStdError returns an error that is a failure for IsSuccess, which does not panic
  -- on it, if the kind of the data source is one of its switch, but not MongoDB. For MySQL and
  -- Oracle, the number that is found in the text must fit into 16 bits, and a YDB operation error is
  -- taken not to have the status SUCCESS or the unspecified one.
  pub new_api_error-Fails :
      (e : StdError) (kind : DataSourceKind)
      → IsHandled e kind
      → kind ≢ DataSourceKind.mongo_db
      → e.is_operation_error success ≡ false
      → e.is_operation_error unspecified ≡ false
      → (api : TError) × (new_api_error_from_std_error c e kind ≡ value api)
        × (is_success (some api) ≡ value false)
  unfolding new_api_error_from_std_error
  new_api_error-Fails e kind handled hk hs hu =
      map_returned-Fails e (from_data_source_error c e kind) (data_source-returns e kind handled)
        (data_source-FailsIfReturned e kind hk hs hu)

  -- An error for which no driver is asked is always returned as a failure.
  pub unspecified_kind-Fails :
      (e : StdError)
      → (api : TError) × (new_api_error_from_std_error c e DataSourceKind.kind_unspecified
          ≡ value api)
        × (is_success (some api) ≡ value false)
  unfolding new_api_error_from_std_error from_data_source_error
  unspecified_kind-Fails e = map_returned-Fails e (value none) (λ h. cc) tt

  -- A MongoDB error that is neither a timeout nor a server error gets a status on which IsSuccess
  -- panics.
  pub mongo_db_error-panics :
      (e : StdError)
      → e.is_mongo_timeout ≡ false
      → e.mongo_has_code ≡ none
      → (api : TError) × (new_api_error_from_std_error c e DataSourceKind.mongo_db ≡ value api)
        × (is_success (some api) ≡ panics)
  unfolding new_api_error_from_std_error from_data_source_error from_mongo_db_error
      mongo_server_status is_success
  mongo_db_error-panics e ht hc = (from_mongo_db_error e, refl, rw (ht, hc) refl)

  -- An error of the connector itself reaches the client with the status of its sentinel, if no
  -- driver is asked for it and it is no certificate error.
  pub new_api_error-connector_status :
      (e : StdError)
      → e.is_certificate_error ≡ false
      → new_api_error_from_std_error c e DataSourceKind.kind_unspecified
        ≡ value (record { status = connector_status e.chain; message = e.text })
  unfolding new_api_error_from_std_error from_data_source_error from_connector_error from_tls_error
      map_returned or_tls_error
  new_api_error-connector_status e h = rw h refl
