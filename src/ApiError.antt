-- ===== src/ApiError.antt =====
-- common/errors.go: the error of a data source becomes the error of a response. What the drivers'
-- types tell of a Go error, and the constants of the drivers, are parameters: `StdError` and `Codes`.
pub mod Text
pub mod Total
use fq_connector_go.Common.{
  ℕ, Bool, true, false, ◌||◌, Bytes, codes, bytes_eq, List, [], ◌∷◌, Option, none, some, ◌==◌,
  if◌then◌else◌,
}
use fq_connector_go.Errors.{
  Sentinel, table_does_not_exist, data_source_not_supported, data_type_not_supported,
  data_type_mismatch, read_limit_exceeded, invalid_request, value_out_of_type_bounds,
  unimplemented_typed_value, unimplemented_expression, unsupported_expression,
  unimplemented_operation, unimplemented_predicate_type, unimplemented_arithmetical_expression,
  empty_table_name, page_size_exceeded, Error, is, Returned, value, panics,
}
use fq_connector_go.Api.{DataSourceKind}
use fq_connector_go.ApiError.Text.{contains, first_number, ora_number, parse_uint16}

-- StatusIds_StatusCode; the cases that the code does not name are `other_status`.
pub data Status : Type 0 where
  unspecified success bad_request unauthorized internal_error unavailable overloaded : Status
  not_found timeout unsupported : Status
  other_status : ℕ → Status

-- TError
pub record TError : Type 0 where
  pub status : Status
  pub message : Bytes

-- Constants of the drivers, and the statuses in the order in which a range over
-- `StatusIds_StatusCode_name` visits them.
pub record Codes : Type 0 where
  pub authentication_failed : ℕ
  pub invalid_password : Bytes
  pub invalid_authorization_specification : Bytes
  pub dbaccess_denied : ℕ
  pub access_denied : ℕ
  pub password_no_match : ℕ
  pub bad_db : ℕ
  pub statuses : List Status

-- What the code asks of a Go error. `none` is an error that `errors.As` finds no such target in, or
-- that fails the type assertion.
pub record StdError : Type 0 where
  pub chain : Error
  pub text : Bytes
  pub clickhouse_exception : Option (ℕ × Bytes)
  pub pg_error : Option (Bytes × Bytes)
  pub ms_sql_message : Option Bytes
  pub is_ydb_error : Bool
  pub is_operation_error : Status → Bool
  pub is_resource_exhausted : Bool
  pub is_certificate_error : Bool
  pub is_mongo_timeout : Bool
  pub mongo_has_code : Option (ℕ → Bool)
  pub is_redis_nil : Bool

-- NewSuccess
abbrev pub new_success : TError
new_success = record { status = success; message = codes "succeeded" }

unfoldable pub is_status_success : Status → Bool
is_status_success success = true
is_status_success _ = false

unfoldable pub status_is_success : Status → Returned Bool
status_is_success unspecified = panics
status_is_success success = value true
status_is_success _ = value false

-- IsSuccess
unfoldable pub is_success : Option TError → Returned Bool
unfolding status_is_success
is_success none = value true
is_success (some e) = status_is_success e.status

-- The test of NewSTDErrorFromAPIError, whose error is the message.
unfoldable pub error_unless : Returned Bool → Option TError → Returned (Option Bytes)
error_unless panics e = panics
error_unless (value true) e = value none
error_unless (value false) none = panics
error_unless (value false) (some e) = value (some e.message)

-- NewSTDErrorFromAPIError
unfoldable pub std_error_from_api_error : Option TError → Returned (Option Bytes)
unfolding is_success error_unless
std_error_from_api_error e = error_unless (is_success e) e

-- AllStreamResponsesSuccessfull, over the errors of the responses.
unfoldable pub all_stream_responses_successful : List (Option TError) → Returned Bool
unfolding is_status_success
all_stream_responses_successful [] = value true
all_stream_responses_successful (none ∷ es) = panics
all_stream_responses_successful (some e ∷ es) =
    let rest = all_stream_responses_successful es in
    if is_status_success e.status then rest else value false

-- newAPIErrorFromConnectorError
unfoldable pub connector_status : Error → Status
unfolding is
connector_status e =
    if is (some e) table_does_not_exist
    then not_found
    else if is (some e) read_limit_exceeded
    then bad_request
    else if is (some e) invalid_request
    then bad_request
    else if is (some e) data_source_not_supported
    then unsupported
    else if is (some e) data_type_not_supported
    then unsupported
    else if is (some e) data_type_mismatch
    then unsupported
    else if is (some e) value_out_of_type_bounds
    then unsupported
    else if is (some e) unimplemented_typed_value
    then unsupported
    else if is (some e) unimplemented_expression
    then unsupported
    else if is (some e) unimplemented_operation
    then unsupported
    else if is (some e) unimplemented_predicate_type
    then unsupported
    else if is (some e) unimplemented_arithmetical_expression
    then unsupported
    else if is (some e) empty_table_name
    then bad_request
    else if is (some e) page_size_exceeded
    then internal_error
    else if is (some e) unsupported_expression
    then unsupported
    else internal_error

unfoldable pub from_connector_error : StdError → TError
unfolding connector_status
from_connector_error e = record { status = connector_status e.chain; message = e.text }

-- newAPIErrorFromTLSError
unfoldable pub from_tls_error : StdError → Option TError
from_tls_error e =
    if e.is_certificate_error
    then some (record { status = unavailable; message = e.text })
    else none

-- newAPIErrorFromRedisError
unfoldable pub from_redis_error : StdError → TError
unfolding contains
from_redis_error e = record {
  message = e.text;
  status =
      if e.is_redis_nil
      then not_found
      else if contains (codes "NOAUTH") e.text || contains (codes "WRONGPASS") e.text
      then unauthorized
      else if contains (codes "LOADING") e.text
      then unavailable
      else internal_error;
}

-- newAPIErrorFromOpenSearchError
unfoldable pub from_opensearch_error : StdError → TError
unfolding contains
from_opensearch_error e = record {
  message = e.text;
  status =
      if contains (codes "connection refused") e.text || contains (codes "no such host") e.text
      then unavailable
      else if contains (codes "401 Unauthorized") e.text
      then unauthorized
      else if contains (codes "index_not_found_exception") e.text
      then not_found
      else if contains (codes "parsing_exception") e.text
          || contains (codes "illegal_argument_exception") e.text
      then bad_request
      else if contains (codes "cluster_block_exception") e.text
      then unavailable
      else internal_error;
}

-- The `else if` of newAPIErrorFromMongoDbError; the numbers are its constants.
unfoldable pub mongo_server_status : Option (ℕ → Bool) → Status
mongo_server_status none = unspecified
mongo_server_status (some has) =
    if has 7 then not_found else if has 13 || has 18 then unauthorized else internal_error

-- newAPIErrorFromMongoDbError
unfoldable pub from_mongo_db_error : StdError → TError
unfolding mongo_server_status
from_mongo_db_error e = record {
  message = e.text;
  status = if e.is_mongo_timeout then timeout else mongo_server_status e.mongo_has_code;
}

-- The switch of newAPIErrorFromOracleError on a number that was parsed.
unfoldable pub oracle_error : Bytes → Option ℕ → Returned (Option TError)
oracle_error text none = panics
oracle_error text (some code) = value (
    some (record {
      message = text;
      status =
          if code == 1017
          then unauthorized
          else if code == 12514
          then not_found
          else internal_error;
    }))

unfoldable pub oracle_match : Bytes → Option Bytes → Returned (Option TError)
unfolding oracle_error parse_uint16
oracle_match text none = value none
oracle_match text (some number) = oracle_error text (parse_uint16 number)

-- newAPIErrorFromOracleError
unfoldable pub from_oracle_error : StdError → Returned (Option TError)
unfolding oracle_match ora_number
from_oracle_error e = oracle_match e.text (ora_number e.text)

-- What NewAPIErrorFromStdError does behind the switch.
unfoldable pub or_connector_error : StdError → Option TError → TError
unfolding from_connector_error
or_connector_error e none = from_connector_error e
or_connector_error e (some api) = api

unfoldable pub or_tls_error : StdError → Option TError → TError
unfolding or_connector_error from_tls_error
or_tls_error e none = or_connector_error e (from_tls_error e)
or_tls_error e (some api) = api

unfoldable pub map_returned : {A B : Type 0} → (A → B) → Returned A → Returned B
map_returned f (value a) = value (f a)
map_returned f panics = panics

module _ (c : Codes) where
  -- newAPIErrorFromClickHouseError
  unfoldable pub clickhouse_error : Option (ℕ × Bytes) → Option TError
  clickhouse_error none = none
  clickhouse_error (some (code, message)) = some (record {
    message = message;
    status = if code == c.authentication_failed then unauthorized else internal_error;
  })

  -- newAPIErrorFromPostgreSQLError
  unfoldable pub postgresql_error : Option (Bytes × Bytes) → Option TError
  postgresql_error none = none
  postgresql_error (some (code, message)) = some (record {
    message = message;
    status =
        if bytes_eq code c.invalid_password || bytes_eq code c.invalid_authorization_specification
        then unauthorized
        else internal_error;
  })

  -- newAPIErrorFromMsSQLServer
  unfoldable pub ms_sql_error : Bytes → Option Bytes → Option TError
  unfolding contains
  ms_sql_error text none = none
  ms_sql_error text (some message) = some (record {
    message = text;
    status = if contains (codes "Login failed") message then unauthorized else internal_error;
  })

  -- The switch of newAPIErrorFromMySQLError.
  unfoldable pub mysql_error : Bytes → Option ℕ → Returned (Option TError)
  mysql_error text none = panics
  mysql_error text (some code) = value (
      some (record {
        message = text;
        status =
            if code == c.dbaccess_denied || (code == c.access_denied || code == c.password_no_match)
            then unauthorized
            else if code == c.bad_db
            then not_found
            else internal_error;
      }))

  unfoldable pub mysql_match : Bytes → Option Bytes → Returned (Option TError)
  unfolding mysql_error parse_uint16
  mysql_match text none = mysql_error text (some 0)
  mysql_match text (some number) = mysql_error text (parse_uint16 number)

  -- newAPIErrorFromMySQLError
  unfoldable pub from_mysql_error : StdError → Returned (Option TError)
  unfolding mysql_match first_number
  from_mysql_error e = mysql_match e.text (first_number e.text)

  -- The loop of newAPIErrorFromYdbError.
  unfoldable pub ydb_status : StdError → List Status → Option TError
  ydb_status e [] = none
  ydb_status e (status ∷ statuses) =
      let later = ydb_status e statuses in
      if e.is_operation_error status
      then some (record { status = status; message = e.text })
      else if e.is_resource_exhausted
      then some (record { status = overloaded; message = e.text })
      else later

  -- newAPIErrorFromYdbError
  unfoldable pub from_ydb_error : StdError → Option TError
  unfolding ydb_status
  from_ydb_error e = if e.is_ydb_error then ydb_status e c.statuses else none

  -- The switch of NewAPIErrorFromStdError.
  unfoldable pub from_data_source_error : StdError → DataSourceKind → Returned (Option TError)
  unfolding clickhouse_error postgresql_error from_mysql_error from_ydb_error from_oracle_error
      ms_sql_error from_mongo_db_error from_redis_error from_opensearch_error
  from_data_source_error e DataSourceKind.kind_unspecified = value none
  from_data_source_error e DataSourceKind.clickhouse =
      value (clickhouse_error e.clickhouse_exception)
  from_data_source_error e DataSourceKind.postgresql = value (postgresql_error e.pg_error)
  from_data_source_error e DataSourceKind.greenplum = value (postgresql_error e.pg_error)
  from_data_source_error e DataSourceKind.mysql = from_mysql_error e
  from_data_source_error e DataSourceKind.ydb = value (from_ydb_error e)
  from_data_source_error e DataSourceKind.oracle = from_oracle_error e
  from_data_source_error e DataSourceKind.ms_sql_server =
      value (ms_sql_error e.text e.ms_sql_message)
  from_data_source_error e DataSourceKind.logging = value (from_ydb_error e)
  from_data_source_error e DataSourceKind.mongo_db = value (some (from_mongo_db_error e))
  from_data_source_error e DataSourceKind.redis = value (some (from_redis_error e))
  from_data_source_error e DataSourceKind.opensearch = value (some (from_opensearch_error e))
  from_data_source_error e _ = panics

  -- NewAPIErrorFromStdError, for an error that is not nil.
  unfoldable pub new_api_error_from_std_error : StdError → DataSourceKind → Returned TError
  unfolding from_data_source_error map_returned or_tls_error
  new_api_error_from_std_error e kind =
      map_returned (or_tls_error e) (from_data_source_error e kind)
