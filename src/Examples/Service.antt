-- ===== src/Examples/Service.antt =====
-- Tests, and the theorems on requests and errors of the service at concrete ones.
use fq_connector_go.Common.{
  List, Option, ℕ, true, false, Bytes, codes, [], ◌∷◌, none, some, ◌≡◌, ◌≢◌, ◌↔◌, All, arith, refl,
}
use fq_connector_go.Errors.{Error, wraps, opaque, invalid_request, ok, err, value, panics}
use fq_connector_go.Api.{DataSourceKind}
use fq_connector_go.ApiError.{
  success, bad_request, internal_error, TError, Codes, StdError, is_success,
  new_api_error_from_std_error,
}
use fq_connector_go.ApiError.Text.{first_number, parse_uint16}
use fq_connector_go.ApiError.Total.{IsHandled, new_api_error-Fails, mongo_db_error-panics}
use fq_connector_go.Validate.{
  ListSplitsRequest, Select, DataSourceInstance, DescribeTableRequest, other_options,
  validate_read_splits_request, validate_list_splits_request,
}
use fq_connector_go.Validate.Accepts.{IsAcceptable, validate_read_splits_request_iff}
use fq_connector_go.Validate.Refuses.{refused_read-bad_request, max_split_count-internal_error}
use fq_connector_go.Service.{
  list_splits, list_splits_validated, done, Message, page, failure, Sent, World,
  DescribeTableResponse, describe_table, get_kind, select_kind, is_rdbms, can_list, can_read,
  unless_failed, do_read_split, collection_read_split, read_split, read_all, read_splits,
}
use fq_connector_go.Service.Responses.{
  IsAnswer, describe_table-IsAnswer, s3_describe_table-panics, read_splits-stops,
}
use fq_connector_go.Service.Listing.{EndsWith, list_splits-EndsWith}

abbrev driver_codes : Codes
driver_codes = record {
  authentication_failed = 516;
  invalid_password = codes "28P01";
  invalid_authorization_specification = codes "28000";
  dbaccess_denied = 1044;
  access_denied = 1045;
  password_no_match = 1133;
  bad_db = 1049;
  statuses = success ∷ bad_request ∷ [];
}

-- An error with a text that no driver knows.
abbrev plain_error : Error → Bytes → StdError
plain_error chain text = record {
  chain = chain;
  text = text;
  clickhouse_exception = none;
  pg_error = none;
  ms_sql_message = none;
  is_ydb_error = false;
  is_operation_error = λ s. false;
  is_resource_exhausted = false;
  is_certificate_error = false;
  is_mongo_timeout = false;
  mongo_has_code = none;
  is_redis_nil = false;
}

abbrev clickhouse_at : Bytes → DataSourceInstance
clickhouse_at host = record {
  kind = DataSourceKind.clickhouse;
  endpoint = some (record { host = host; port = 9000 });
  database = codes "db";
  use_tls = true;
  options = other_options;
}

abbrev reachable_clickhouse : DataSourceInstance
reachable_clickhouse = clickhouse_at (codes "h")

reachable_clickhouse-IsAcceptable : IsAcceptable (some (some reachable_clickhouse))
reachable_clickhouse-IsAcceptable =
    ((record { host = codes "h"; port = 9000 }, refl, (λ h. cc), (λ h. omega arith)), λ h. cc)

mysql_number_fits : IsHandled (plain_error opaque (codes "ERROR 1045: denied")) DataSourceKind.mysql
unfolding first_number parse_uint16
mysql_number_fits h = cc

no_host-refused :
    validate_read_splits_request (some (some (clickhouse_at [])) ∷ []) ≡ err (wraps invalid_request)
unfolding validate_read_splits_request
no_host-refused = refl

new_api_error-Fails_example :
    (api : TError) × (new_api_error_from_std_error driver_codes
        (plain_error opaque (codes "ERROR 1045: denied"))
        DataSourceKind.mysql
      ≡ value api)
    × (is_success (some api) ≡ value false)
new_api_error-Fails_example =
    new_api_error-Fails driver_codes (plain_error opaque (codes "ERROR 1045: denied"))
      DataSourceKind.mysql mysql_number_fits (λ h. cc) refl refl

mongo_db_error-panics_example :
    (api : TError) × (new_api_error_from_std_error driver_codes
        (plain_error opaque (codes "no document"))
        DataSourceKind.mongo_db
      ≡ value api)
    × (is_success (some api) ≡ panics)
mongo_db_error-panics_example =
    mongo_db_error-panics driver_codes (plain_error opaque (codes "no document")) refl refl

validate_read_splits_request_iff_example :
    (validate_read_splits_request (some (some reachable_clickhouse) ∷ []) ≡ ok tt) ↔ (
      ((some (some reachable_clickhouse) ∷ []) ≢ [])
      × All IsAcceptable (some (some reachable_clickhouse) ∷ []))
validate_read_splits_request_iff_example =
    validate_read_splits_request_iff (some (some reachable_clickhouse) ∷ [])

refused_read-bad_request_example :
    new_api_error_from_std_error driver_codes
      (plain_error (wraps invalid_request) (codes "empty host"))
      DataSourceKind.kind_unspecified
    ≡ value (record { status = bad_request; message = codes "empty host" })
refused_read-bad_request_example =
    refused_read-bad_request driver_codes (some (some (clickhouse_at [])) ∷ [])
      (plain_error (wraps invalid_request) (codes "empty host")) no_host-refused refl

max_split_count-internal_error_example :
    (validate_list_splits_request (record {
      selects = some (some reachable_clickhouse) ∷ [];
      max_split_count = 5;
      split_number_limit = 0;
      split_size = 0;
    })
      ≡ err opaque)
    × (new_api_error_from_std_error driver_codes
          (plain_error opaque (codes "unsupported"))
          DataSourceKind.kind_unspecified
        ≡ value (record { status = internal_error; message = codes "unsupported" }))
max_split_count-internal_error_example =
    max_split_count-internal_error driver_codes reachable_clickhouse 5
      (plain_error opaque (codes "unsupported")) reachable_clickhouse-IsAcceptable refl
      (λ h. omega arith) refl refl

-- A world in which a data source has a schema, and reading one split fills the stream.
abbrev read_one : List (Message ℕ) → Sent ℕ
read_one [] = (none, page 1 ∷ [])
read_one (m ∷ s) = (some (plain_error opaque (codes "connection lost")), m ∷ s)

abbrev world : World Bytes ℕ
world = record {
  codes = driver_codes;
  std_error = λ e. plain_error e (codes "refused");
  describe = λ kind r. done (codes "schema");
  list = λ kind slct s. (none, s);
  read = λ kind split s. read_one s;
  create_incoming_query = λ kind. none;
  new_columnar_buffer_factory = λ split. none;
  finish_incoming_query = λ split. none;
  accepts = λ s. true;
  send_error = plain_error opaque (codes "stream closed");
}

abbrev describe_clickhouse : DescribeTableRequest
describe_clickhouse = record { data_source_instance = some reachable_clickhouse; table = codes "t" }

describe_table-IsAnswer_example :
    (response : DescribeTableResponse Bytes) × (describe_table world describe_clickhouse
      ≡ value response)
    × IsAnswer world response
describe_table-IsAnswer_example =
    describe_table-IsAnswer world describe_clickhouse reachable_clickhouse refl (λ h. cc)
      (
        (λ e. record { handled = tt; no_success = refl; no_unspecified = refl }),
        λ r e h. absurd (cc h),
      )

abbrev bucket : DataSourceInstance
bucket = record reachable_clickhouse { kind = DataSourceKind.s3 }

s3_describe_table-panics_example :
    describe_table world (record { data_source_instance = some bucket; table = codes "t" }) ≡ panics
s3_describe_table-panics_example =
    s3_describe_table-panics world
      (record { data_source_instance = some bucket; table = codes "t" }) bucket refl refl

abbrev a_split : Option Select
a_split = some (some reachable_clickhouse)

one_split-read : read_all world (a_split ∷ []) [] ≡ (none, page 1 ∷ [])
unfolding read_all read_split collection_read_split do_read_split unless_failed can_read can_list
    is_rdbms select_kind get_kind
one_split-read = refl

second_split-fails :
    read_split world a_split (page 1 ∷ [])
    ≡ (some (plain_error opaque (codes "connection lost")), page 1 ∷ [])
unfolding read_split collection_read_split do_read_split unless_failed can_read can_list is_rdbms
    select_kind get_kind
second_split-fails = refl

three_splits-valid : validate_read_splits_request (a_split ∷ a_split ∷ a_split ∷ []) ≡ ok tt
unfolding validate_read_splits_request
three_splits-valid = refl

read_splits-stops_example :
    (api : TError) × (read_splits world (a_split ∷ a_split ∷ a_split ∷ []) []
      ≡ value (none, page 1 ∷ failure api ∷ []))
    × (is_success (some api) ≡ value false)
read_splits-stops_example =
    read_splits-stops world (a_split ∷ []) (a_split ∷ []) a_split [] (page 1 ∷ []) (page 1 ∷ [])
      (plain_error opaque (codes "connection lost")) three_splits-valid one_split-read
      second_split-fails refl

abbrev list_one : ListSplitsRequest
list_one = record {
  selects = a_split ∷ [];
  max_split_count = 5;
  split_number_limit = 0;
  split_size = 0;
}

-- A request that is refused for its maximum of splits.
list_splits-EndsWith_example :
    EndsWith world
      ((list_splits_validated world (validate_list_splits_request list_one) list_one []).0)
      ((list_splits_validated world (validate_list_splits_request list_one) list_one []).1)
      (list_splits world list_one [])
list_splits-EndsWith_example = list_splits-EndsWith world list_one [] (λ t. refl)
