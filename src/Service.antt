-- ===== src/Service.antt =====
-- app/server/service_connector.go and the dispatch of app/server/data_source_collection.go: the three
-- requests from their validation to the response. The data sources and streamers are a record of
-- operations, `World`, as the interface datasource.DataSource is in the source; logging is left out.
pub mod Responses
pub mod Listing
use fq_connector_go.Common.{
  Bool, true, false, List, [], ◌∷◌, ◌++◌, Option, none, some, if◌then◌else◌,
}
use fq_connector_go.Errors.{
  Error, wraps, data_source_not_supported, method_not_supported, Result, ok, err, Returned, value,
  panics,
}
use fq_connector_go.Api.{DataSourceKind}
use fq_connector_go.ApiError.{
  TError, new_success, Codes, StdError, is_success, new_api_error_from_std_error,
}
use fq_connector_go.Validate.{
  DataSourceInstance, Select, DescribeTableRequest, ListSplitsRequest,
  validate_describe_table_request, validate_list_splits_request, validate_read_splits_request,
}

-- What a data source returns: a result or an error.
pub data Outcome (A : Type 0) : Type 0 where
  done : A → Outcome A
  failed : StdError → Outcome A

-- A message of a stream of responses.
pub data Message (Page : Type 0) : Type 0 where
  page : Page → Message Page
  failure : TError → Message Page

-- What a call returns, `none` for nil, and the messages sent up to then.
abbrev pub Sent : Type 0 → Type 0
Sent Page = Option StdError × List (Message Page)

-- What stands around the service. `std_error` is an error of this repository with its text;
-- `describe` is DescribeTable of the data source of a kind; `list` and `read` are the runs of the
-- streamers; the next three are the observation storage and the buffers of a split; `accepts` is
-- whether the stream takes one more message.
pub record World (Schema Page : Type 0) : Type 0 where
  pub codes : Codes
  pub std_error : Error → StdError
  pub describe : DataSourceKind → DescribeTableRequest → Outcome Schema
  pub list : DataSourceKind → Option Select → List (Message Page) → Sent Page
  pub read : DataSourceKind → Option Select → List (Message Page) → Sent Page
  pub create_incoming_query : DataSourceKind → Option StdError
  pub new_columnar_buffer_factory : Option Select → Option StdError
  pub finish_incoming_query : Option Select → Option StdError
  pub accepts : List (Message Page) → Bool
  pub send_error : StdError

-- TDescribeTableResponse
pub record DescribeTableResponse (Schema : Type 0) : Type 0 where
  pub schema : Option Schema
  pub error : TError

-- `GetDataSourceInstance().GetKind()`, and of a select.
unfoldable pub get_kind : Option DataSourceInstance → DataSourceKind
get_kind none = DataSourceKind.kind_unspecified
get_kind (some d) = d.kind

unfoldable pub select_kind : Option Select → DataSourceKind
unfolding get_kind
select_kind none = DataSourceKind.kind_unspecified
select_kind (some instance') = get_kind instance'

-- The kinds for which DataSourceFactory.Make of the relational data sources has a preset.
unfoldable pub is_rdbms : DataSourceKind → Bool
is_rdbms DataSourceKind.clickhouse = true
is_rdbms DataSourceKind.postgresql = true
is_rdbms DataSourceKind.ydb = true
is_rdbms DataSourceKind.ms_sql_server = true
is_rdbms DataSourceKind.mysql = true
is_rdbms DataSourceKind.greenplum = true
is_rdbms DataSourceKind.oracle = true
is_rdbms DataSourceKind.logging = true
is_rdbms _ = false

-- The kinds that ListSplits and ReadSplit of the collection have a data source for.
unfoldable pub can_list : DataSourceKind → Bool
unfolding is_rdbms
can_list DataSourceKind.mongo_db = true
can_list DataSourceKind.redis = true
can_list DataSourceKind.opensearch = true
can_list kind = is_rdbms kind

unfoldable pub can_read : DataSourceKind → Bool
unfolding can_list
can_read DataSourceKind.s3 = true
can_read kind = can_list kind

-- The calls of a sequence, each of which ends it by an error.
unfoldable pub unless_failed :
    {Page : Type 0} → Sent Page → (List (Message Page) → Sent Page) → Sent Page
unless_failed (some e, s) next = (some e, s)
unless_failed (none, s) next = next s

unfoldable pub logged : {A : Type 0} → Returned Bool → A → Returned A
logged panics sent = panics
logged (value b) sent = value sent

module _ {Schema Page : Type 0} (w : World Schema Page) where
  unfoldable pub not_supported : StdError
  not_supported = w.std_error (wraps data_source_not_supported)

  -- DataSourceCollection.DescribeTable; the S3 data source has no table descriptions.
  unfoldable pub collection_describe_table : DataSourceKind → DescribeTableRequest → Outcome Schema
  unfolding can_list not_supported
  collection_describe_table DataSourceKind.s3 r = failed (w.std_error (wraps method_not_supported))
  collection_describe_table kind r =
      if can_list kind then w.describe kind r else failed not_supported

  -- The response for an error.
  unfoldable pub describe_failed : Returned TError → Returned (DescribeTableResponse Schema)
  describe_failed panics = panics
  describe_failed (value api) = value (record { schema = none; error = api })

  unfoldable pub describe_outcome :
      DataSourceKind → Outcome Schema → Returned (DescribeTableResponse Schema)
  unfolding describe_failed new_api_error_from_std_error
  describe_outcome kind (done schema) = value (record { schema = some schema; error = new_success })
  describe_outcome kind (failed e) = describe_failed (new_api_error_from_std_error w.codes e kind)

  unfoldable pub describe_validated :
      DataSourceInstance
      → DescribeTableRequest
      → Result (Unit {0})
      → Returned (DescribeTableResponse Schema)
  unfolding describe_outcome collection_describe_table
  describe_validated d r (err e) = describe_outcome d.kind (failed (w.std_error e))
  describe_validated d r (ok _) = describe_outcome d.kind (collection_describe_table d.kind r)

  unfoldable pub describe_instance :
      Option DataSourceInstance → DescribeTableRequest → Returned (DescribeTableResponse Schema)
  unfolding describe_validated validate_describe_table_request
  describe_instance none r = panics
  describe_instance (some d) r = describe_validated d r (validate_describe_table_request r)

  -- DescribeTable; the annotation of the logger reads a field of the data source instance, which
  -- panics if it is not set.
  unfoldable pub describe_table : DescribeTableRequest → Returned (DescribeTableResponse Schema)
  unfolding describe_instance
  describe_table r = describe_instance r.data_source_instance r

  -- stream.Send
  unfoldable pub send : Message Page → List (Message Page) → Sent Page
  send m s = if w.accepts s then (none, s ++ m ∷ []) else (some w.send_error, s)

  -- The loop of DataSourceCollection.ListSplits.
  unfoldable pub collection_list_splits : List (Option Select) → List (Message Page) → Sent Page
  unfolding can_list select_kind not_supported unless_failed
  collection_list_splits [] s = (none, s)
  collection_list_splits (slct ∷ slcts) s =
      if can_list (select_kind slct)
      then unless_failed (w.list (select_kind slct) slct s) (λ t. collection_list_splits slcts t)
      else (some not_supported, s)

  -- doListSplitsResponse, which asks IsSuccess for its log, and what sends it a failure.
  unfoldable pub do_list_splits_response :
      Returned TError → List (Message Page) → Returned (Sent Page)
  unfolding send is_success logged
  do_list_splits_response panics s = panics
  do_list_splits_response (value api) s = logged (is_success (some api)) (send (failure api) s)

  unfoldable pub list_splits_outcome : Sent Page → Returned (Sent Page)
  unfolding do_list_splits_response new_api_error_from_std_error
  list_splits_outcome (none, s) = value (none, s)
  list_splits_outcome (some e, s) =
      do_list_splits_response
        (new_api_error_from_std_error w.codes e DataSourceKind.kind_unspecified) s

  unfoldable pub list_splits_validated :
      Result (Unit {0}) → ListSplitsRequest → List (Message Page) → Sent Page
  unfolding collection_list_splits
  list_splits_validated (err e) r s = (some (w.std_error e), s)
  list_splits_validated (ok _) r s = collection_list_splits r.selects s

  -- ListSplits
  unfoldable pub list_splits : ListSplitsRequest → List (Message Page) → Returned (Sent Page)
  unfolding list_splits_outcome list_splits_validated validate_list_splits_request
  list_splits r s = list_splits_outcome (list_splits_validated (validate_list_splits_request r) r s)

  -- doReadSplit of the collection, behind the creation of its query.
  unfoldable pub do_read_split : Option StdError → Option Select → List (Message Page) → Sent Page
  unfolding select_kind unless_failed
  do_read_split (some e) split s = (some e, s)
  do_read_split none split s =
      unless_failed (w.read (select_kind split) split s) (λ t. (w.finish_incoming_query split, t))

  -- DataSourceCollection.ReadSplit
  unfoldable pub collection_read_split :
      Option StdError → Option Select → List (Message Page) → Sent Page
  unfolding do_read_split can_read select_kind not_supported
  collection_read_split (some e) split s = (some e, s)
  collection_read_split none split s =
      if can_read (select_kind split)
      then do_read_split (w.new_columnar_buffer_factory split) split s
      else (some not_supported, s)

  unfoldable pub read_split : Option Select → List (Message Page) → Sent Page
  unfolding collection_read_split select_kind
  read_split split s = collection_read_split (w.create_incoming_query (select_kind split)) split s

  -- The loop of doReadSplits.
  unfoldable pub read_all : List (Option Select) → List (Message Page) → Sent Page
  unfolding read_split unless_failed
  read_all [] s = (none, s)
  read_all (split ∷ splits) s = unless_failed (read_split split s) (λ t. read_all splits t)

  unfoldable pub read_validated :
      Result (Unit {0}) → List (Option Select) → List (Message Page) → Sent Page
  unfolding read_all
  read_validated (err e) splits s = (some (w.std_error e), s)
  read_validated (ok _) splits s = read_all splits s

  -- doReadSplits
  unfoldable pub do_read_splits : List (Option Select) → List (Message Page) → Sent Page
  unfolding read_validated validate_read_splits_request
  do_read_splits splits s = read_validated (validate_read_splits_request splits) splits s

  unfoldable pub send_failure : Returned TError → List (Message Page) → Returned (Sent Page)
  unfolding send
  send_failure panics s = panics
  send_failure (value api) s = value (send (failure api) s)

  unfoldable pub read_splits_outcome : Sent Page → Returned (Sent Page)
  unfolding send_failure new_api_error_from_std_error
  read_splits_outcome (none, s) = value (none, s)
  read_splits_outcome (some e, s) =
      send_failure (new_api_error_from_std_error w.codes e DataSourceKind.kind_unspecified) s

  -- ReadSplits
  unfoldable pub read_splits : List (Option Select) → List (Message Page) → Returned (Sent Page)
  unfolding read_splits_outcome do_read_splits
  read_splits splits s = read_splits_outcome (do_read_splits splits s)
