-- ===== src/Api/Queries.antt =====
-- The query endpoints of sentrylink/api/app.py.
use sentry_link.Base.{String, List, Option}
use sentry_link.Base.Int.{ℤ}
use sentry_link.Base.Dict.{Dict}
use sentry_link.Errors.{Result, ok, err}
use sentry_link.Floats.{Floats}
use sentry_link.Crypto.SecureAggregation.{KeyAgreement}
use sentry_link.Governance.Registry.{Organization}
use sentry_link.Privacy.{ReleaseCard}
use sentry_link.Storage.Codec.{Formats}
use sentry_link.Platform.{Platform, Setup, Outcome}
use sentry_link.Platform.Queries.{QueryDraws, QueryArgs, QueryResult, Value}
use sentry_link.Platform.Queries.Histogram.{histogram}
use sentry_link.Platform.Queries.Dispersion.{variance, correlation}
use sentry_link.Platform.Previews.{QueryPreview, query_preview}
use sentry_link.Api.{
  Raised, Reply, Caller, Service, Served, require_cohort_member, spending, replied,
}

module _ (fl : Floats) (formats : Formats fl) (ka : KeyAgreement) where
  -- `QueryResultResponse`, which has no raw value.
  pub record QueryResponse : Type 0 where
    pub query_id : String
    pub metric : String
    pub value : Value fl formats ka
    pub participants : List String
    pub epsilon : fl.Float
    pub delta : fl.Float
    pub noise_sigma : fl.Float
    pub purpose : String
    pub privacy_card : ReleaseCard fl

  unfoldable pub response_of : QueryResult fl formats ka → QueryResponse
  response_of res = record {
    query_id = res.query_id;
    metric = res.metric;
    value = res.value;
    participants = res.participants;
    epsilon = res.epsilon;
    delta = res.delta;
    noise_sigma = res.noise_sigma;
    purpose = res.purpose;
    privacy_card = res.privacy_card;
  }

  -- The response to what a query's endpoint has got.
  unfoldable pub responded : Reply (QueryResult fl formats ka) → Reply QueryResponse
  unfolding response_of
  responded (Reply.answered res) = Reply.answered (response_of res)
  responded (Reply.raised e) = Reply.raised e

  module _ (setup : Setup fl formats ka) (draws : QueryDraws fl formats ka)
      (s : Service fl formats ka) (caller : Caller) (now : fl.Float)
      (args : QueryArgs fl formats ka) where
    -- The endpoint of a query, with the call that it makes.
    unfoldable pub query_endpoint :
        (Platform fl formats ka → Outcome fl formats ka (QueryResult fl formats ka))
        → Served fl formats ka QueryResponse
    unfolding spending replied responded
    query_endpoint call =
        let (s', reply) =
          spending fl formats ka setup s caller args.sector_group args.domain now
            (λ s'. replied fl formats ka s'.limiter (call s'.platform)) in
        (s', responded reply)

    unfoldable pub query_histogram :
        Dict String (List ℤ) → Option (List String) → Served fl formats ka QueryResponse
    unfolding query_endpoint histogram
    query_histogram org_buckets labels =
        query_endpoint (λ p. histogram fl formats ka setup draws p org_buckets labels args)

    unfoldable pub query_variance : Dict String (List fl.Float) → Served fl formats ka QueryResponse
    unfolding query_endpoint variance
    query_variance org_values =
        query_endpoint (λ p. variance fl formats ka setup draws p org_values args)

    unfoldable pub query_correlation :
        Dict String (List fl.Float × List fl.Float) → Served fl formats ka QueryResponse
    unfolding query_endpoint correlation
    query_correlation org_pairs =
        query_endpoint (λ p. correlation fl formats ka setup draws p org_pairs args)

  -- A preview after the member check; what it raises is not caught.
  unfoldable pub previewed :
      Result (QueryPreview fl formats ka) → Result Organization → Reply (QueryPreview fl formats ka)
  previewed preview (err f) = Reply.raised (Raised.failure f)
  previewed (ok shown) (ok org) = Reply.answered shown
  previewed (err f) (ok org) = Reply.raised (Raised.failure f)

  unfoldable pub preview_query :
      Setup fl formats ka
      → Service fl formats ka
      → Caller
      → String
      → String
      → QueryArgs fl formats ka
      → Reply (QueryPreview fl formats ka)
  unfolding previewed query_preview require_cohort_member
  preview_query setup s caller query_id metric args =
      previewed (query_preview fl formats ka query_id s.platform metric args) (
        require_cohort_member setup.key_hash s.platform.policy.registry args.sector_group
          args.domain caller)
