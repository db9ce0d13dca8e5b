-- ===== src/Api/Answered.antt =====
-- What stands behind a query that an endpoint of sentrylink/api/app.py answers.
use sentry_link.Base.{String, true, List, Option, ◌≡◌, sym, ap}
use sentry_link.Base.Int.{ℤ}
use sentry_link.Base.Dict.{Dict}
use sentry_link.Errors.{ok, err}
use sentry_link.Floats.{Floats}
use sentry_link.Crypto.SecureAggregation.{KeyAgreement}
use sentry_link.RateLimit.{TokenBucket}
use sentry_link.Storage.Codec.{Formats}
use sentry_link.Platform.{Platform, Setup, Outcome}
use sentry_link.Platform.Queries.{QueryDraws, QueryArgs, QueryResult}
use sentry_link.Platform.Queries.Release.{IsReleased, query_from-IsReleased}
use sentry_link.Platform.Queries.Histogram.{histogram}
use sentry_link.Platform.Queries.Histogram.Outcomes.{histogram-IsReleased}
use sentry_link.Platform.Queries.Dispersion.{
  variance, correlation, variance_query, correlation_query,
}
use sentry_link.Platform.Queries.Dispersion.Outcomes.{raw_figure-granted}
use sentry_link.Api.{Reply, Caller, Service, Served, replied}
use sentry_link.Api.Guarded.{IsMember, answered_injective, limited, spending-answered}
use sentry_link.Api.Queries.{
  QueryResponse, response_of, responded, query_endpoint, query_histogram, query_variance,
  query_correlation,
}

module _ (fl : Floats) (formats : Formats fl) (ka : KeyAgreement) where
  -- The data that a query is asked over.
  pub data Query : Type 0 where
    of_buckets : Dict String (List ℤ) → Option (List String) → Query
    of_values : Dict String (List fl.Float) → Query
    of_pairs : Dict String (List fl.Float × List fl.Float) → Query

  abbrev pub metric_of : Query → String
  metric_of (Query.of_buckets org_buckets labels) = "histogram"
  metric_of (Query.of_values org_values) = "variance"
  metric_of (Query.of_pairs org_pairs) = "correlation"

  module _ (setup : Setup fl formats ka) (draws : QueryDraws fl formats ka)
      (s : Service fl formats ka) (caller : Caller) (now : fl.Float)
      (args : QueryArgs fl formats ka) where
    -- The platform's call of a query.
    abbrev pub call_of :
        Query → Platform fl formats ka → Outcome fl formats ka (QueryResult fl formats ka)
    call_of (Query.of_buckets org_buckets labels) p =
        histogram fl formats ka setup draws p org_buckets labels args
    call_of (Query.of_values org_values) p = variance fl formats ka setup draws p org_values args
    call_of (Query.of_pairs org_pairs) p = correlation fl formats ka setup draws p org_pairs args

    -- The endpoint of a query.
    unfoldable pub ask : Query → Served fl formats ka (QueryResponse fl formats ka)
    unfolding query_histogram query_variance query_correlation
    ask (Query.of_buckets org_buckets labels) =
        query_histogram fl formats ka setup draws s caller now args org_buckets labels
    ask (Query.of_values org_values) =
        query_variance fl formats ka setup draws s caller now args org_values
    ask (Query.of_pairs org_pairs) =
        query_correlation fl formats ka setup draws s caller now args org_pairs

    replied-answered :
        (limiter : TokenBucket fl) (o : Outcome fl formats ka (QueryResult fl formats ka))
        (s' : Service fl formats ka) (r : QueryResult fl formats ka)
        → replied fl formats ka limiter o ≡ (s', Reply.answered r)
        → (o ≡ (s'.platform, ok r)) × (s'.limiter ≡ limiter)
    unfolding replied
    replied-answered limiter (p, ok a) s' r h =
        let same : a ≡ r = answered_injective a r (ap (λ z. z.1) h) in
        ((λ i. ((h i).0.platform, ok (same i))), ap (λ z. z.0.limiter) (sym h))
    replied-answered limiter (p, err f) s' r h = cc (ap (λ z. z.1) h)

    abbrev pub respond_with :
        Served fl formats ka (QueryResult fl formats ka)
        → Served fl formats ka (QueryResponse fl formats ka)
    respond_with (s₀, reply) = (s₀, responded fl formats ka reply)

    responded-answered :
        (out : Served fl formats ka (QueryResult fl formats ka)) (s' : Service fl formats ka)
        (r : QueryResponse fl formats ka)
        → respond_with out ≡ (s', Reply.answered r)
        → (result : QueryResult fl formats ka) × (out ≡ (s', Reply.answered result))
          × (response_of fl formats ka result ≡ r)
    unfolding responded
    responded-answered (s₀, Reply.answered result) s' r h =
        (result, (λ i. ((h i).0, Reply.answered result)), answered_injective _ r (ap (λ z. z.1) h))
    responded-answered (s₀, Reply.raised e) s' r h = cc (ap (λ z. z.1) h)

    -- A service that has answered a query: its caller is a member whom the limiter has let through,
    -- and the answer shows what the platform has released.
    pub record IsAnswered (query : Query) (s' : Service fl formats ka)
        (r : QueryResponse fl formats ka) : Type 0 where
      pub member :
          IsMember setup.key_hash s.platform.policy.registry args.sector_group args.domain caller
      pub within_limit : (limited fl formats ka s caller now).0 ≡ true
      pub counted : s'.limiter ≡ (limited fl formats ka s caller now).1
      pub result : QueryResult fl formats ka
      pub shown : response_of fl formats ka result ≡ r
      pub released :
          IsReleased fl formats ka (metric_of query) draws args s.platform s'.platform result

    call_of-IsReleased :
        (query : Query) (p p' : Platform fl formats ka) (r : QueryResult fl formats ka)
        → call_of query p ≡ (p', ok r)
        → IsReleased fl formats ka (metric_of query) draws args p p' r
    unfolding variance correlation
    call_of-IsReleased (Query.of_buckets org_buckets labels) p p' r h =
        histogram-IsReleased fl formats ka setup draws p p' org_buckets labels args r h
    call_of-IsReleased (Query.of_values org_values) p p' r h =
        (query_from-IsReleased fl formats ka (variance_query fl formats ka) setup draws p p' args r
          _ (raw_figure-granted fl formats ka "variance" _ draws p org_values args) h).0
    call_of-IsReleased (Query.of_pairs org_pairs) p p' r h =
        (query_from-IsReleased fl formats ka (correlation_query fl formats ka) setup draws p p' args
          r _ (raw_figure-granted fl formats ka "correlation" _ draws p org_pairs args) h).0

    endpoint-IsAnswered :
        (query : Query) (s' : Service fl formats ka) (r : QueryResponse fl formats ka)
        → query_endpoint fl formats ka setup draws s caller now args (call_of query)
          ≡ (s', Reply.answered r)
        → IsAnswered query s' r
    unfolding query_endpoint
    endpoint-IsAnswered query s' r h =
        let (result, served, shown) = responded-answered _ s' r h in
        let (member, within_limit, called) =
          spending-answered fl formats ka setup s s' caller args.sector_group args.domain now
            (λ z. replied fl formats ka z.limiter (call_of query z.platform)) result served in
        let (ran, counted) = replied-answered _ _ s' result called in
        record {
          member = member;
          within_limit = within_limit;
          counted = counted;
          result = result;
          shown = shown;
          released = call_of-IsReleased query s.platform s'.platform result ran;
        }

    -- A query that is answered was asked by a registered organization with its key, active in the
    -- cohort, and within its rate limit; the answer shows a result that the platform has released, on
    -- the policy engine's word, at its charge, and with its entry in the log and in the store.
    pub ask-IsAnswered :
        (query : Query) (s' : Service fl formats ka) (r : QueryResponse fl formats ka)
        → ask query ≡ (s', Reply.answered r)
        → IsAnswered query s' r
    unfolding ask query_histogram query_variance query_correlation
    ask-IsAnswered (Query.of_buckets org_buckets labels) s' r h =
        endpoint-IsAnswered (Query.of_buckets org_buckets labels) s' r h
    ask-IsAnswered (Query.of_values org_values) s' r h =
        endpoint-IsAnswered (Query.of_values org_values) s' r h
    ask-IsAnswered (Query.of_pairs org_pairs) s' r h =
        endpoint-IsAnswered (Query.of_pairs org_pairs) s' r h
