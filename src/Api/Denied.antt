-- ===== src/Api/Denied.antt =====
-- What the query endpoints of sentrylink/api/app.py answer when the policy engine denies.
use sentry_link.Base.{text_eq, nat_eq, true, false, ◌⊎◌, inl, inr, ◌≡◌, refl, ap, ◌∙◌}
use sentry_link.Errors.{Failure, ok, err, code, http_status, Result, ◌>>=◌, ◌>>◌}
use sentry_link.Errors.Codes.{is_denial}
use sentry_link.Floats.{Floats}
use sentry_link.Crypto.SecureAggregation.{KeyAgreement}
use sentry_link.Governance.Registry.{Organization}
use sentry_link.Governance.Policy.{QueryDecision, evaluate, raise_if_denied}
use sentry_link.Governance.Policy.Denied.{evaluate-IsDenial}
use sentry_link.Storage.Codec.{Formats}
use sentry_link.Platform.{Platform, Setup}
use sentry_link.Platform.Queries.{QueryDraws, QueryArgs, granted, request_of, query_from}
use sentry_link.Platform.Queries.Histogram.{histogram, raw_histogram}
use sentry_link.Platform.Queries.Dispersion.{variance, correlation, raw_figure}
use sentry_link.Api.{
  Raised, Reply, Caller, Service, Served, require_cohort_member, error_response, query_raised,
  failure_response, replied,
}
use sentry_link.Api.Guarded.{limited, spending-called}
use sentry_link.Api.Queries.{
  QueryResponse, query_endpoint, query_histogram, query_variance, query_correlation,
}
use sentry_link.Api.Answered.{Query, metric_of, call_of, ask, respond_with}

denial_response :
    (f : Failure)
    → is_denial f ≡ true
    → (query_raised f ≡ Raised.failure f)
      × ((error_response (Raised.failure f)).code ≡ code f)
      × (((error_response (Raised.failure f)).status ≡ 403) ⊎ (f ≡ Failure.invalid_data))
unfolding query_raised error_response failure_response code http_status
denial_response Failure.governance h = (refl, refl, inl refl)
denial_response Failure.query_not_allowed h = (refl, refl, inl refl)
denial_response Failure.cohort_too_small h = (refl, refl, inl refl)
denial_response Failure.healthcare_cohort_too_small h = (refl, refl, inl refl)
denial_response Failure.epsilon_too_high h = (refl, refl, inl refl)
denial_response Failure.healthcare_epsilon_too_high h = (refl, refl, inl refl)
denial_response Failure.consent_denied h = (refl, refl, inl refl)
denial_response Failure.scope_mismatch h = (refl, refl, inl refl)
denial_response Failure.domain_mismatch h = (refl, refl, inl refl)
denial_response Failure.invalid_data h = (refl, refl, inr refl)
denial_response _ h = cc

module _ (fl : Floats) (formats : Formats fl) (ka : KeyAgreement) where
  module _ (setup : Setup fl formats ka) (draws : QueryDraws fl formats ka)
      (s : Service fl formats ka) (caller : Caller) (now : fl.Float)
      (args : QueryArgs fl formats ka) where
    call_of-denied :
        (query : Query fl formats ka) (p : Platform fl formats ka) (f : Failure)
        → granted fl formats ka draws.query_id p (metric_of fl formats ka query) args ≡ err f
        → call_of fl formats ka setup draws s caller now args query p ≡ (p, err f)
    unfolding histogram raw_histogram variance correlation raw_figure query_from
    call_of-denied (Query.of_buckets org_buckets labels) p f h = rw h refl
    call_of-denied (Query.of_values org_values) p f h = rw h refl
    call_of-denied (Query.of_pairs org_pairs) p f h = rw h refl

    -- The decision on a query.
    abbrev pub decision_on : Query fl formats ka → Result (QueryDecision fl)
    decision_on query =
        evaluate fl s.platform.policy draws.query_id
          (request_of fl formats ka (metric_of fl formats ka query) args)

    -- A reply that passes a denial on: nothing has changed but the limiter's count, and the body has
    -- the decision's code.
    pub record IsDenied (d : QueryDecision fl)
        (served : Served fl formats ka (QueryResponse fl formats ka)) : Type 0 where
      pub same_platform : served.0.platform ≡ s.platform
      pub cause : Failure
      pub reply : served.1 ≡ Reply.raised (Raised.failure cause)
      pub body_code : (error_response (Raised.failure cause)).code ≡ d.code
      pub status :
          ((error_response (Raised.failure cause)).status ≡ 403) ⊎ (cause ≡ Failure.invalid_data)

    endpoint-IsDenied :
        (query : Query fl formats ka) (org : Organization) (d : QueryDecision fl)
        → require_cohort_member setup.key_hash s.platform.policy.registry args.sector_group
            args.domain caller
          ≡ ok org
        → (limited fl formats ka s caller now).0 ≡ true
        → decision_on query ≡ ok d
        → d.allowed ≡ false
        → IsDenied d (
            query_endpoint fl formats ka setup draws s caller now args
              (call_of fl formats ka setup draws s caller now args query))
    unfolding query_endpoint replied granted
    endpoint-IsDenied query org d known allowed decided denied =
        let metric = metric_of fl formats ka query in
        let (f, denial) =
          evaluate-IsDenial fl s.platform.policy (request_of fl formats ka metric args)
            draws.query_id d decided denied in
        let (kept, body, status) = denial_response f denial.listed in
        let failed : granted fl formats ka draws.query_id s.platform metric args ≡ err f =
          ap (λ o. o >>= λ z. raise_if_denied fl z >> ok z) decided
          ∙ ap (λ o. o >> ok d) denial.raised in
        let limiter = (limited fl formats ka s caller now).1 in
        let path =
          spending-called fl formats ka setup s caller args.sector_group args.domain now
            (λ z.
              replied fl formats ka z.limiter
                (call_of fl formats ka setup draws s caller now args query z.platform))
            org allowed known
          ∙ ap (replied fl formats ka limiter) (call_of-denied query s.platform f failed) in
        let answer = ap (respond_with fl formats ka setup draws s caller now args) path in
        record {
          same_platform = ap (λ z. z.0.platform) answer;
          cause = f;
          reply = ap (λ z. z.1) answer ∙ ap Reply.raised kept;
          body_code = body ∙ denial.same_code;
          status = status;
        }

    -- A query of a member within its limit that the policy engine decides not to allow is refused
    -- with status 403, or for invalid data with its own, and with the code of the decision in the
    -- body; the platform is left as it was.
    pub ask-IsDenied :
        (query : Query fl formats ka) (org : Organization) (d : QueryDecision fl)
        → require_cohort_member setup.key_hash s.platform.policy.registry args.sector_group
            args.domain caller
          ≡ ok org
        → (limited fl formats ka s caller now).0 ≡ true
        → decision_on query ≡ ok d
        → d.allowed ≡ false
        → IsDenied d (ask fl formats ka setup draws s caller now args query)
    unfolding ask query_histogram query_variance query_correlation
    ask-IsDenied (Query.of_buckets org_buckets labels) org d known allowed decided denied =
        endpoint-IsDenied (Query.of_buckets org_buckets labels) org d known allowed decided denied
    ask-IsDenied (Query.of_values org_values) org d known allowed decided denied =
        endpoint-IsDenied (Query.of_values org_values) org d known allowed decided denied
    ask-IsDenied (Query.of_pairs org_pairs) org d known allowed decided denied =
        endpoint-IsDenied (Query.of_pairs org_pairs) org d known allowed decided denied
