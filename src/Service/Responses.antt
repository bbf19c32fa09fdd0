-- ===== src/Service/Responses.antt =====
-- app/server/service_connector.go: what a client gets in each case, and where the service panics.
use fq_connector_go.Common.{
  true, false, List, [], ◌∷◌, ◌++◌, Option, none, some, ◌≡◌, ◌≢◌, ◌⊎◌, inl, inr, refl, ap, ◌∙◌,
  subst,
}
use fq_connector_go.Errors.{
  Error, wraps, opaque, data_source_not_supported, Result, ok, err, value, panics,
}
use fq_connector_go.Api.{DataSourceKind}
use fq_connector_go.ApiError.{
  unspecified, success, TError, new_success, StdError, is_success, status_is_success,
  new_api_error_from_std_error, from_data_source_error, map_returned,
}
use fq_connector_go.ApiError.Total.{IsHandled, new_api_error-Fails, unspecified_kind-Fails}
use fq_connector_go.Validate.{
  DataSourceInstance, Select, DescribeTableRequest, validate_describe_table_request,
  validate_read_splits_request,
}
use fq_connector_go.Service.{
  Outcome, done, failed, Message, failure, Sent, World, DescribeTableResponse, is_rdbms, can_list,
  unless_failed, not_supported, collection_describe_table, describe_failed, describe_outcome,
  describe_validated, describe_instance, describe_table, send, send_failure, read_split, read_all,
  read_validated, do_read_splits, read_splits_outcome, read_splits,
}

-- An error that NewAPIErrorFromStdError maps to a failure, for a data source of the kind.
pub record IsMapped (e : StdError) (kind : DataSourceKind) : Type 0 where
  pub handled : IsHandled e kind
  pub no_success : e.is_operation_error success ≡ false
  pub no_unspecified : e.is_operation_error unspecified ≡ false

module _ {Schema Page : Type 0} (w : World Schema Page) where
  -- The response has a table's schema and the status SUCCESS, or no schema and a failure.
  abbrev pub IsAnswer : DescribeTableResponse Schema → Type 0
  IsAnswer response =
      ((schema : Schema) × (response.schema ≡ some schema)
        × (is_success (some response.error) ≡ value true))
      ⊎ ((response.schema ≡ none) × (is_success (some response.error) ≡ value false))

  abbrev pub AreMapped : DataSourceKind → Type 0
  AreMapped kind =
      ((e : Error) → IsMapped (w.std_error e) kind)
      × ((r : DescribeTableRequest) (e : StdError) → w.describe kind r ≡ failed e → IsMapped e kind)

  failed-IsAnswer :
      (kind : DataSourceKind) (e : StdError)
      → kind ≢ DataSourceKind.mongo_db
      → IsMapped e kind
      → (response : DescribeTableResponse Schema) × (describe_outcome w kind (failed e)
          ≡ value response)
        × IsAnswer response
  unfolding describe_outcome describe_failed
  failed-IsAnswer kind e k m =
      let (api, h, f) =
        new_api_error-Fails w.codes e kind m.handled k m.no_success m.no_unspecified in
      (record { schema = none; error = api }, ap (describe_failed w) h, inr (refl, f))

  outcome-IsAnswer :
      (kind : DataSourceKind) (o : Outcome Schema)
      → kind ≢ DataSourceKind.mongo_db
      → ((e : StdError) → o ≡ failed e → IsMapped e kind)
      → (response : DescribeTableResponse Schema) × (describe_outcome w kind o ≡ value response)
        × IsAnswer response
  unfolding describe_outcome is_success status_is_success
  outcome-IsAnswer kind (done schema) k m =
      (record { schema = some schema; error = new_success }, refl, inl (schema, refl, refl))
  outcome-IsAnswer kind (failed e) k m = failed-IsAnswer kind e k (m e refl)

  collection-IsMapped :
      (kind : DataSourceKind) (r : DescribeTableRequest) (e : StdError)
      → AreMapped kind
      → collection_describe_table w kind r ≡ failed e
      → IsMapped e kind
  unfolding collection_describe_table not_supported can_list is_rdbms
  collection-IsMapped DataSourceKind.s3 r e m h = absurd ((m.0 opaque).handled)
  collection-IsMapped DataSourceKind.clickhouse r e m h = m.1 r e h
  collection-IsMapped DataSourceKind.postgresql r e m h = m.1 r e h
  collection-IsMapped DataSourceKind.ydb r e m h = m.1 r e h
  collection-IsMapped DataSourceKind.mysql r e m h = m.1 r e h
  collection-IsMapped DataSourceKind.ms_sql_server r e m h = m.1 r e h
  collection-IsMapped DataSourceKind.greenplum r e m h = m.1 r e h
  collection-IsMapped DataSourceKind.oracle r e m h = m.1 r e h
  collection-IsMapped DataSourceKind.logging r e m h = m.1 r e h
  collection-IsMapped DataSourceKind.mongo_db r e m h = m.1 r e h
  collection-IsMapped DataSourceKind.redis r e m h = m.1 r e h
  collection-IsMapped DataSourceKind.opensearch r e m h = m.1 r e h
  collection-IsMapped DataSourceKind.kind_unspecified r e m h =
      let same : w.std_error (wraps data_source_not_supported) ≡ e = cc in
      subst (λ x. IsMapped x DataSourceKind.kind_unspecified) same
        (m.0 (wraps data_source_not_supported))
  collection-IsMapped _ r e m h = absurd ((m.0 opaque).handled)

  validated-IsAnswer :
      (d : DataSourceInstance) (r : DescribeTableRequest) (checked : Result (Unit {0}))
      → d.kind ≢ DataSourceKind.mongo_db
      → AreMapped d.kind
      → (response : DescribeTableResponse Schema) × (describe_validated w d r checked
          ≡ value response)
        × IsAnswer response
  unfolding describe_validated
  validated-IsAnswer d r (err e) k m = failed-IsAnswer d.kind (w.std_error e) k (m.0 e)
  validated-IsAnswer d r (ok _) k m =
      outcome-IsAnswer d.kind (collection_describe_table w d.kind r) k
        (λ e. collection-IsMapped d.kind r e m)

  instance-IsAnswer :
      (o : Option DataSourceInstance) (d : DataSourceInstance) (r : DescribeTableRequest)
      → o ≡ some d
      → d.kind ≢ DataSourceKind.mongo_db
      → AreMapped d.kind
      → (response : DescribeTableResponse Schema) × (describe_instance w o r ≡ value response)
        × IsAnswer response
  unfolding describe_instance
  instance-IsAnswer none d r h k m = absurd (cc h)
  instance-IsAnswer (some x) d r h k m =
      let same : d ≡ x = cc in
      subst
        (λ y.
          (response : DescribeTableResponse Schema) × (describe_instance w (some y) r
            ≡ value response)
          × IsAnswer response)
        same (validated-IsAnswer d r (validate_describe_table_request r) k m)

  -- DescribeTable returns a response, which has the table's schema and the status SUCCESS, or no
  -- schema and a failure, whatever the request lacks but the data source instance itself. The data
  -- source is not MongoDB, and its errors and those of this repository are ones that
  -- NewAPIErrorFromStdError handles for the kind.
  pub describe_table-IsAnswer :
      (r : DescribeTableRequest) (d : DataSourceInstance)
      → r.data_source_instance ≡ some d
      → d.kind ≢ DataSourceKind.mongo_db
      → AreMapped d.kind
      → (response : DescribeTableResponse Schema) × (describe_table w r ≡ value response)
        × IsAnswer response
  unfolding describe_table
  describe_table-IsAnswer r d = instance-IsAnswer r.data_source_instance d r

  s3_instance :
      (d : DataSourceInstance) (r : DescribeTableRequest) (checked : Result (Unit {0}))
      → d.kind ≡ DataSourceKind.s3
      → describe_validated w d r checked ≡ panics
  unfolding describe_validated describe_outcome collection_describe_table describe_failed
      new_api_error_from_std_error from_data_source_error map_returned
  s3_instance d r (err e) k = rw k refl
  s3_instance d r (ok _) k = rw k refl

  -- DescribeTable panics for every S3 data source, whether the request is valid or not.
  pub s3_describe_table-panics :
      (r : DescribeTableRequest) (d : DataSourceInstance)
      → r.data_source_instance ≡ some d
      → d.kind ≡ DataSourceKind.s3
      → describe_table w r ≡ panics
  unfolding describe_table describe_instance
  s3_describe_table-panics r d h k =
      ap (λ o. describe_instance w o r) h ∙ s3_instance d r (validate_describe_table_request r) k

  send-accepted :
      (m : Message Page) (s : List (Message Page))
      → w.accepts s ≡ true
      → send w m s ≡ (none, s ++ m ∷ [])
  unfolding send
  send-accepted m s h = rw h refl

  unless_failed-none :
      (x : Sent Page) (next : List (Message Page) → Sent Page) {t : List (Message Page)}
      → unless_failed x next ≡ (none, t)
      → (m : List (Message Page)) × (x ≡ (none, m)) × (next m ≡ (none, t))
  unfolding unless_failed
  unless_failed-none (none, s) next h = (s, refl, h)
  unless_failed-none (some e, s) next h = absurd (cc h)

  read_all-stops :
      (before after : List (Option Select)) (split : Option Select) (s t u : List (Message Page))
      (e : StdError)
      → read_all w before s ≡ (none, t)
      → read_split w split t ≡ (some e, u)
      → read_all w (before ++ split ∷ after) s ≡ (some e, u)
  unfolding read_all unless_failed
  read_all-stops [] after split s t u e h k = let same : s ≡ t = cc in rw (same, k) refl
  read_all-stops (x ∷ before) after split s t u e h k =
      let (m, a, b) = unless_failed-none (read_split w x s) _ h in
      rw a (read_all-stops before after split m t u e b k)

  -- If reading a split of a valid ReadSplits request fails, the splits before it have been read, the
  -- splits after it are not, and the failure is sent as the last message of the stream, which is
  -- taken to accept it.
  pub read_splits-stops :
      (before after : List (Option Select)) (split : Option Select) (s t u : List (Message Page))
      (e : StdError)
      → validate_read_splits_request (before ++ split ∷ after) ≡ ok tt
      → read_all w before s ≡ (none, t)
      → read_split w split t ≡ (some e, u)
      → w.accepts u ≡ true
      → (api : TError) × (read_splits w (before ++ split ∷ after) s
          ≡ value (none, u ++ failure api ∷ []))
        × (is_success (some api) ≡ value false)
  unfolding read_splits do_read_splits read_validated read_splits_outcome send_failure
  read_splits-stops before after split s t u e v h k a =
      let (api, m, f) = unspecified_kind-Fails w.codes e in
      let stopped : do_read_splits w (before ++ split ∷ after) s ≡ (some e, u) =
        rw v (read_all-stops before after split s t u e h k) in
      (
        api,
        ap (read_splits_outcome w) stopped
            ∙ ap (λ x. send_failure w x u) m
            ∙ ap (λ x. value x) (send-accepted (failure api) u a),
        f,
      )
