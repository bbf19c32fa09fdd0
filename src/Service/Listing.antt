-- ===== src/Service/Listing.antt =====
-- app/server/service_connector.go: what the stream of a ListSplits request ends with.
use fq_connector_go.Common.{
  true, false, List, [], ◌∷◌, ◌++◌, Option, none, some, ◌≡◌, refl, ap, ◌∙◌, if◌then◌else◌,
}
use fq_connector_go.Errors.{Returned, value}
use fq_connector_go.ApiError.{TError, StdError, is_success}
use fq_connector_go.ApiError.Total.{unspecified_kind-Fails}
use fq_connector_go.Validate.{ListSplitsRequest, validate_list_splits_request}
use fq_connector_go.Service.{
  Message, failure, Sent, World, send, logged, do_list_splits_response, list_splits_outcome,
  list_splits_validated, list_splits,
}

module _ {Schema Page : Type 0} (w : World Schema Page) where
  -- What ListSplits makes of an error or its absence, and of the messages sent before.
  abbrev pub EndsWith : Option StdError → List (Message Page) → Returned (Sent Page) → Type 0
  EndsWith none t result = result ≡ value (none, t)
  EndsWith (some e) t result =
      (api : TError) × (result ≡ value (none, t ++ failure api ∷ []))
      × (is_success (some api) ≡ value false)

  sent_failure :
      (e : StdError) (t : List (Message Page))
      → w.accepts t ≡ true
      → EndsWith (some e) t (list_splits_outcome w (some e, t))
  unfolding list_splits_outcome do_list_splits_response send logged
  sent_failure e t a =
      let (api, m, f) = unspecified_kind-Fails w.codes e in
      (
        api,
        ap (λ x. do_list_splits_response w x t) m
            ∙ ap (λ x. logged x (send w (failure api) t)) f
            ∙ ap (λ b. value (if b then (none, t ++ failure api ∷ []) else (some w.send_error, t)))
                a,
        f,
      )

  ends :
      (o : Option StdError) (t : List (Message Page))
      → w.accepts t ≡ true
      → EndsWith o t (list_splits_outcome w (o, t))
  unfolding list_splits_outcome
  ends none t a = refl
  ends (some e) t a = sent_failure e t a

  -- ListSplits returns nil without a panic. If the validation and the loop over the selects give no
  -- error, the stream is left as they leave it; if they do, one failure, for which IsSuccess is false,
  -- is sent behind what they have sent. The stream is taken to accept messages.
  pub list_splits-EndsWith :
      (r : ListSplitsRequest) (s : List (Message Page))
      → ((t : List (Message Page)) → w.accepts t ≡ true)
      → EndsWith
          ((list_splits_validated w (validate_list_splits_request r) r s).0)
          ((list_splits_validated w (validate_list_splits_request r) r s).1)
          (list_splits w r s)
  unfolding list_splits
  list_splits-EndsWith r s a =
      let sent = list_splits_validated w (validate_list_splits_request r) r s in
      ends (sent.0) (sent.1) (a (sent.1))
