-- ===== src/Validate.antt =====
-- app/server/validate.go: which requests are refused before a data source is asked. The order of
-- the checks is the source's; logging is left out.
pub mod Accepts
pub mod Refuses
use fq_connector_go.Common.{
  ℕ, Bool, true, false, Bytes, List, [], ◌∷◌, Option, none, some, ◌==◌, if◌then◌else◌,
}
use fq_connector_go.Errors.{Error, wraps, opaque, invalid_request, Result, ok, err, ◌>>=◌}
use fq_connector_go.Api.{DataSourceKind}

-- TGenericEndpoint
pub record Endpoint : Type 0 where
  pub host : Bytes
  pub port : ℕ

-- The `oneof` of the options of a data source.
pub data Options : Type 0 where
  pg_options oracle_options logging_options : Bytes → Options
  other_options : Options

-- TGenericDataSourceInstance
pub record DataSourceInstance : Type 0 where
  pub kind : DataSourceKind
  pub endpoint : Option Endpoint
  pub database : Bytes
  pub use_tls : Bool
  pub options : Options

-- `GetPgOptions().GetSchema()`, and its likes; options of another kind have an empty field.
unfoldable pub get_schema : Options → Bytes
get_schema (pg_options schema) = schema
get_schema _ = []

unfoldable pub get_service_name : Options → Bytes
get_service_name (oracle_options name) = name
get_service_name _ = []

unfoldable pub get_folder_id : Options → Bytes
get_folder_id (logging_options id) = id
get_folder_id _ = []

abbrev pub Check : Type 0
Check = Result (Unit {0})

abbrev pub refused : Check
refused = err (wraps invalid_request)

-- `if field == "" { return ... }`
unfoldable pub not_empty : Bytes → Check
not_empty [] = refused
not_empty (c ∷ s) = ok tt

unfoldable pub check_port : ℕ → Check
check_port port = if port == 0 then refused else ok tt

unfoldable pub check_endpoint : Option Endpoint → Check
unfolding not_empty check_port
check_endpoint none = refused
check_endpoint (some e) = do _ ← not_empty e.host; check_port e.port

-- validateEndpoint
unfoldable pub validate_endpoint : DataSourceInstance → Check
unfolding check_endpoint
validate_endpoint d = check_endpoint d.endpoint

-- validateDatabase
unfoldable pub validate_database : DataSourceInstance → Check
unfolding not_empty
validate_database d = not_empty d.database

-- validateUseTLS
unfoldable pub validate_use_tls : DataSourceInstance → Check
validate_use_tls d = ok tt

unfoldable pub options_check : DataSourceKind → Options → Check
unfolding get_schema get_service_name get_folder_id not_empty
options_check DataSourceKind.postgresql o = not_empty (get_schema o)
options_check DataSourceKind.oracle o = not_empty (get_service_name o)
options_check DataSourceKind.ms_sql_server o = ok tt
options_check DataSourceKind.greenplum o = ok tt
options_check DataSourceKind.logging o = not_empty (get_folder_id o)
options_check DataSourceKind.clickhouse o = ok tt
options_check DataSourceKind.s3 o = ok tt
options_check DataSourceKind.ydb o = ok tt
options_check DataSourceKind.mysql o = ok tt
options_check DataSourceKind.mongo_db o = ok tt
options_check DataSourceKind.redis o = ok tt
options_check DataSourceKind.opensearch o = ok tt
options_check _ o = refused

-- validateDataSourceOptions
unfoldable pub validate_data_source_options : DataSourceInstance → Check
unfolding options_check
validate_data_source_options d = options_check d.kind d.options

-- The loop over the validators.
unfoldable pub run_validators : List (DataSourceInstance → Check) → DataSourceInstance → Check
run_validators [] d = ok tt
run_validators (v ∷ vs) d = do _ ← v d; run_validators vs d

-- The switch of validateDataSourceInstance on the kind.
unfoldable pub validators_of : DataSourceKind → Result (List (DataSourceInstance → Check))
unfolding validate_endpoint validate_database validate_use_tls validate_data_source_options
validators_of DataSourceKind.kind_unspecified = err (wraps invalid_request)
validators_of DataSourceKind.logging = ok (validate_data_source_options ∷ [])
validators_of DataSourceKind.oracle =
    ok (validate_endpoint ∷ validate_use_tls ∷ validate_data_source_options ∷ [])
validators_of _ =
    ok
      (validate_endpoint ∷ validate_database ∷ validate_use_tls ∷ validate_data_source_options ∷ [])

-- validateDataSourceInstance
unfoldable pub validate_data_source_instance : Option DataSourceInstance → Check
unfolding validators_of run_validators
validate_data_source_instance none = refused
validate_data_source_instance (some d) = do vs ← validators_of d.kind; run_validators vs d

-- The field of TSelect that is checked.
abbrev pub Select : Type 0
Select = Option DataSourceInstance

-- validateSelect; a select that is not set is `none`.
unfoldable pub validate_select : Option Select → Check
unfolding validate_data_source_instance
validate_select none = refused
validate_select (some instance') = validate_data_source_instance instance'

-- The loop of ValidateReadSplitsRequest over the splits, of which it checks the selects, and that of
-- ValidateListSplitsRequest over the selects.
unfoldable pub validate_selects : List (Option Select) → Check
unfolding validate_select
validate_selects [] = ok tt
validate_selects (s ∷ ss) = do _ ← validate_select s; validate_selects ss

-- ValidateReadSplitsRequest
unfoldable pub validate_read_splits_request : List (Option Select) → Check
unfolding validate_selects
validate_read_splits_request [] = refused
validate_read_splits_request (s ∷ ss) = validate_selects (s ∷ ss)

-- TDescribeTableRequest
pub record DescribeTableRequest : Type 0 where
  pub data_source_instance : Option DataSourceInstance
  pub table : Bytes

-- ValidateDescribeTableRequest
unfoldable pub validate_describe_table_request : DescribeTableRequest → Check
unfolding validate_data_source_instance not_empty
validate_describe_table_request r = do
  _ ← validate_data_source_instance r.data_source_instance
  not_empty r.table

-- TListSplitsRequest
pub record ListSplitsRequest : Type 0 where
  pub selects : List (Option Select)
  pub max_split_count : ℕ
  pub split_number_limit : ℕ
  pub split_size : ℕ

-- The switch on the kind of a data source with a maximum of splits.
unfoldable pub kind_allows_max : ℕ → DataSourceKind → Check
kind_allows_max n DataSourceKind.logging = if n == 3 then ok tt else err opaque
kind_allows_max n DataSourceKind.ydb = ok tt
kind_allows_max n _ = err opaque

-- The kinds of the data sources of selects that were checked.
unfoldable pub selects_allow_max : ℕ → List (Option Select) → Check
unfolding kind_allows_max
selects_allow_max n [] = ok tt
selects_allow_max n (some (some d) ∷ ss) = do _ ← kind_allows_max n d.kind; selects_allow_max n ss
selects_allow_max n (_ ∷ ss) = selects_allow_max n ss

-- `if field != 0 { return ... }`
unfoldable pub unset : ℕ → Check
unset n = if n == 0 then ok tt else refused

unfoldable pub check_max : ℕ → List (Option Select) → Check
unfolding selects_allow_max
check_max n ss = if n == 0 then ok tt else selects_allow_max n ss

unfoldable pub validate_list_splits : List (Option Select) → ListSplitsRequest → Check
unfolding validate_selects check_max unset
validate_list_splits [] r = refused
validate_list_splits (s ∷ ss) r = do
  _ ← validate_selects (s ∷ ss)
  _ ← check_max r.max_split_count (s ∷ ss)
  _ ← unset r.split_number_limit
  unset r.split_size

-- ValidateListSplitsRequest
unfoldable pub validate_list_splits_request : ListSplitsRequest → Check
unfolding validate_list_splits
validate_list_splits_request r = validate_list_splits r.selects r
