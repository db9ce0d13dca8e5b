-- ===== src/Platform/Queries/Histogram.antt =====
-- The `histogram` method of sentrylink/platform.py.
pub mod Outcomes
use sentry_link.Base.{
  ℕ, String, ◌==◌, text_eq, nat_eq, not, List, [], ◌∷◌, length, ltb, Option, none, some,
  if◌then◌else◌,
}
use sentry_link.Base.Int.{ℤ, pos}
use sentry_link.Base.Dict.{Dict, lookup, insert}
use sentry_link.Config.{max_org_contrib}
use sentry_link.Errors.{Failure, Result, ok, err, ◌>>=◌, ◌>>◌, raise_if}
use sentry_link.Floats.{Floats, zero_float}
use sentry_link.Crypto.SecureAggregation.{KeyAgreement}
use sentry_link.Crypto.DifferentialPrivacy.{laplace_noise}
use sentry_link.Mpc.{run_histogram}
use sentry_link.Governance.Policy.{QueryDecision, cap_contributions}
use sentry_link.Storage.Codec.{Formats}
use sentry_link.Platform.{Platform, Setup, Outcome, Detail}
use sentry_link.Platform.Queries.{
  QueryDraws, QueryArgs, QueryResult, Value, Noisy, LaplaceQuery, granted, as_invalid, query_from,
}

module _ (fl : Floats) (formats : Formats fl) (ka : KeyAgreement) where
  -- The capped contributions of the participants that supply one.
  unfoldable pub contributions : List String → Dict String (List ℤ) → Dict String (List ℤ)
  unfolding cap_contributions
  contributions [] org_buckets = []
  contributions (oid ∷ ids) org_buckets =
      let rest = contributions ids org_buckets in
      elim (lookup oid org_buckets) [
        | none ↦ rest
        | some buckets ↦ (oid, cap_contributions fl buckets) ∷ rest
      ]

  -- The decision and the exact histogram, before anything is charged.
  unfoldable pub raw_histogram :
      QueryDraws fl formats ka
      → Platform fl formats ka
      → Dict String (List ℤ)
      → QueryArgs fl formats ka
      → Result (QueryDecision fl × List ℤ)
  unfolding granted contributions run_histogram as_invalid
  raw_histogram draws p org_buckets args = do
    decision ← granted fl formats ka draws.query_id p "histogram" args
    let contrib = contributions decision.participants org_buckets
    raise_if (ltb (length contrib) (length decision.participants)) Failure.invalid_data
    raw ← as_invalid fl formats ka (run_histogram draws.tapes contrib p.node_ids)
    ok (decision, raw)

  -- `float(MAX_ORG_CONTRIB)`
  abbrev pub histogram_sensitivity : fl.Float
  histogram_sensitivity = fl.of_int (pos max_org_contrib)

  -- `np.rint(raw + noise)`
  unfoldable pub add_noise : List ℤ → List fl.Float → List ℤ
  add_noise (v ∷ raw) (x ∷ noise) = fl.rint (fl.add (fl.of_int v) x) ∷ add_noise raw noise
  add_noise [] noise = []
  add_noise (v ∷ raw) [] = []

  -- `{labels[i]: noisy[i] for i in ...}`, over what the dict has so far.
  unfoldable pub with_labels : List String → List ℤ → Dict String ℤ → Dict String ℤ
  with_labels (l ∷ labels) (v ∷ values) d = with_labels labels values (insert l v d)
  with_labels [] values d = d
  with_labels (l ∷ labels) [] d = d

  -- The released value, of which labels that are given must match the buckets.
  unfoldable pub labelled_value : Option (List String) → List ℤ → Result (Value fl formats ka)
  unfolding with_labels
  labelled_value none noisy = ok (Value.counts noisy)
  labelled_value (some labels) noisy = do
    raise_if (not (length labels == length noisy)) Failure.invalid_data
    ok (
        if length labels == 0
        then Value.counts noisy
        else Value.labelled (with_labels labels noisy []))

  -- What a charged histogram releases; its noise spreads by 0.0 if there is none.
  unfoldable pub released_histogram :
      Option (List String)
      → QueryDraws fl formats ka
      → List ℤ
      → QueryArgs fl formats ka
      → Result (Noisy fl formats ka)
  unfolding laplace_noise add_noise labelled_value
  released_histogram labels draws raw args = do
    noise ← laplace_noise fl draws.laplace histogram_sensitivity args.epsilon
    let noisy = add_noise raw noise
    value ← labelled_value labels noisy
    ok (record {
      value = value;
      noise_sigma = if length noise == 0 then zero_float fl else fl.std noise;
      details = ("buckets", Detail.whole (length noisy)) ∷ [];
    })

  abbrev pub histogram_query : Option (List String) → LaplaceQuery fl formats ka (List ℤ)
  histogram_query labels = record {
    metric = "histogram";
    scope = "hist:";
    action = "query.histogram";
    sensitivity = histogram_sensitivity;
    clip_bound = some histogram_sensitivity;
    preprocessing = "per-org L2 contribution cap" ∷ "local bucketing" ∷ [];
    raw_value = Value.counts;
    release = released_histogram labels;
  }

  -- `histogram`
  unfoldable pub histogram :
      Setup fl formats ka
      → QueryDraws fl formats ka
      → Platform fl formats ka
      → Dict String (List ℤ)
      → Option (List String)
      → QueryArgs fl formats ka
      → Outcome fl formats ka (QueryResult fl formats ka)
  unfolding raw_histogram query_from
  histogram setup draws p org_buckets labels args =
      query_from fl formats ka (histogram_query labels) setup draws p args
        (raw_histogram draws p org_buckets args)
