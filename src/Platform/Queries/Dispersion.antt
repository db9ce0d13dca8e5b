-- ===== src/Platform/Queries/Dispersion.antt =====
-- The `variance` and `correlation` methods of sentrylink/platform.py.
pub mod Outcomes
pub mod Missing
pub mod Leak
use sentry_link.Base.{
  ℕ, String, ◌==◌, text_eq, nat_eq, not, List, [], ◌∷◌, length, none, if◌then◌else◌,
}
use sentry_link.Base.Dict.{Dict, lookup, insert}
use sentry_link.Errors.{Failure, Result, ok, err, ◌>>=◌, ◌>>◌, raise_if, or_raise}
use sentry_link.Floats.{Floats, zero_float, one_float, max_float, clip}
use sentry_link.Crypto.SecureAggregation.{KeyAgreement}
use sentry_link.Crypto.DifferentialPrivacy.{laplace_scale}
use sentry_link.Mpc.{run_variance, run_correlation}
use sentry_link.Governance.Policy.{QueryDecision}
use sentry_link.Storage.Codec.{Formats}
use sentry_link.Platform.{Platform, Setup, Outcome}
use sentry_link.Platform.Queries.{
  QueryDraws, QueryArgs, QueryResult, Value, Noisy, LaplaceQuery, granted, as_invalid, query_from,
}

-- `{oid: org_values[oid] for oid in participants}`, over what the dict has so far.
unfoldable pub supplied :
    {A : Type 0} → List String → Dict String A → Dict String A → Result (Dict String A)
supplied [] org_values d = ok d
supplied (oid ∷ ids) org_values d = do
  v ← or_raise (lookup oid org_values) Failure.key_error
  supplied ids org_values (insert oid v d)

module _ (fl : Floats) (formats : Formats fl) (ka : KeyAgreement) where
  -- The decision and the exact statistic of the participants' data, before anything is charged.
  unfoldable pub raw_figure :
      {A : Type 0}
      → String
      → (Dict String A → Result fl.Float)
      → QueryDraws fl formats ka
      → Platform fl formats ka
      → Dict String A
      → QueryArgs fl formats ka
      → Result (QueryDecision fl × fl.Float)
  unfolding granted supplied as_invalid
  raw_figure metric statistic draws p org_data args = do
    decision ← granted fl formats ka draws.query_id p metric args
    vals ← supplied decision.participants org_data []
    raise_if (not (length vals == length decision.participants)) Failure.invalid_data
    raw ← as_invalid fl formats ka (statistic vals)
    ok (decision, raw)

  -- What is released: the noisy figure as `bound` leaves it.
  unfoldable pub released_figure :
      fl.Float
      → (fl.Float → fl.Float)
      → QueryDraws fl formats ka
      → fl.Float
      → QueryArgs fl formats ka
      → Result (Noisy fl formats ka)
  unfolding laplace_scale
  released_figure sensitivity bound draws raw args = do
    scale ← laplace_scale fl sensitivity args.epsilon
    let noise = draws.laplace_one scale
    ok (record {
      value = Value.figure (bound (fl.add raw noise));
      noise_sigma = fl.abs noise;
      details = [];
    })

  -- `max(0.0, v)` and `np.clip(v, -1.0, 1.0)`
  abbrev pub floored : fl.Float → fl.Float
  floored v = max_float fl (zero_float fl) v

  abbrev pub clipped : fl.Float → fl.Float
  clipped v = clip fl v (fl.sub (zero_float fl) (one_float fl)) (one_float fl)

  abbrev pub variance_query : LaplaceQuery fl formats ka fl.Float
  variance_query = record {
    metric = "variance";
    scope = "var:";
    action = "query.variance";
    sensitivity = one_float fl;
    clip_bound = none;
    preprocessing = "local sufficient statistics" ∷ "output floored at 0" ∷ [];
    raw_value = Value.figure;
    release = released_figure (one_float fl) floored;
  }

  abbrev pub correlation_query : LaplaceQuery fl formats ka fl.Float
  correlation_query = record {
    metric = "correlation";
    scope = "corr:";
    action = "query.correlation";
    sensitivity = fl.decimal 2 0;
    clip_bound = none;
    preprocessing = "local sufficient statistics" ∷ "output clipped to [-1, 1]" ∷ [];
    raw_value = Value.figure;
    release = released_figure (fl.decimal 2 0) clipped;
  }

  -- `variance`
  unfoldable pub variance :
      Setup fl formats ka
      → QueryDraws fl formats ka
      → Platform fl formats ka
      → Dict String (List fl.Float)
      → QueryArgs fl formats ka
      → Outcome fl formats ka (QueryResult fl formats ka)
  unfolding raw_figure run_variance query_from
  variance setup draws p org_values args =
      query_from fl formats ka variance_query setup draws p args (
        raw_figure "variance" (λ vals. run_variance fl draws.tapes vals p.node_ids) draws p
          org_values args)

  -- `correlation`
  unfoldable pub correlation :
      Setup fl formats ka
      → QueryDraws fl formats ka
      → Platform fl formats ka
      → Dict String (List fl.Float × List fl.Float)
      → QueryArgs fl formats ka
      → Outcome fl formats ka (QueryResult fl formats ka)
  unfolding raw_figure run_correlation query_from
  correlation setup draws p org_pairs args =
      query_from fl formats ka correlation_query setup draws p args (
        raw_figure "correlation" (λ pairs. run_correlation fl draws.tapes pairs p.node_ids) draws p
          org_pairs args)
