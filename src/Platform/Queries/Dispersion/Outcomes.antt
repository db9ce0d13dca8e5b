-- ===== src/Platform/Queries/Dispersion/Outcomes.antt =====
-- What a variance and a correlation of sentrylink/platform.py leave when they are released.
use sentry_link.Base.{String, true, false, Bool-cases, inl, inr, List, ◌≡◌, ◌∙◌, arith}
use sentry_link.Base.Dict.{Dict}
use sentry_link.Errors.{Result, ok, returned}
use sentry_link.Floats.{Floats, zero_float, one_float}
use sentry_link.Crypto.SecureAggregation.{KeyAgreement}
use sentry_link.Crypto.DifferentialPrivacy.{laplace_scale}
use sentry_link.Governance.Policy.{QueryDecision}
use sentry_link.Storage.Codec.{Formats}
use sentry_link.Platform.{Platform, Setup}
use sentry_link.Platform.Queries.{QueryDraws, QueryArgs, QueryResult, Value, Noisy, granted}
use sentry_link.Platform.Queries.Release.{IsReleased, query_from-IsReleased}
use sentry_link.Platform.Queries.Dispersion.{
  raw_figure, released_figure, floored, clipped, variance_query, correlation_query, variance,
  correlation,
}

module _ (fl : Floats) (formats : Formats fl) (ka : KeyAgreement) where
  pub raw_figure-granted :
      {A : Type 0} (metric : String) (statistic : Dict String A → Result fl.Float)
      (draws : QueryDraws fl formats ka) (p : Platform fl formats ka) (org_data : Dict String A)
      (args : QueryArgs fl formats ka) (d : QueryDecision fl) (raw : fl.Float)
      → raw_figure fl formats ka metric statistic draws p org_data args ≡ ok (d, raw)
      → granted fl formats ka draws.query_id p metric args ≡ ok d
  unfolding raw_figure
  raw_figure-granted metric statistic draws p org_data args d raw h = ground arith

  released_figure-value :
      (sensitivity : fl.Float) (bound : fl.Float → fl.Float) (draws : QueryDraws fl formats ka)
      (raw : fl.Float) (args : QueryArgs fl formats ka) (out : Noisy fl formats ka)
      → released_figure fl formats ka sensitivity bound draws raw args ≡ ok out
      → (v : fl.Float) × (out.value ≡ Value.figure (bound v))
  unfolding released_figure
  released_figure-value sensitivity bound draws raw args out h =
      let (scale, _, made) = returned (laplace_scale fl sensitivity args.epsilon) _ out h in
      (fl.add raw (draws.laplace_one scale), ground arith)

  -- What the comparison of floats is relied on for; both hold with a NaN too.
  module _ (asym : (a b : fl.Float) → fl.lt a b ≡ true → fl.lt b a ≡ false) where
    irrefl : (a : fl.Float) → fl.lt a a ≡ false
    irrefl a = elim (Bool-cases (fl.lt a a)) [ inl t ↦ asym a a t | inr t ↦ t ]

    floored-bound : (v : fl.Float) → fl.lt (floored fl formats ka v) (zero_float fl) ≡ false
    floored-bound v = ground (arith, irrefl (zero_float fl), asym (zero_float fl) v)

    clipped-bound :
        (v : fl.Float)
        → let low = fl.sub (zero_float fl) (one_float fl) in
          fl.lt low (one_float fl) ≡ true
          → (fl.lt (clipped fl formats ka v) low ≡ false)
            × (fl.lt (one_float fl) (clipped fl formats ka v) ≡ false)
    clipped-bound v h =
        let low = fl.sub (zero_float fl) (one_float fl) in
        ground (arith, irrefl low, irrefl (one_float fl), asym low (one_float fl) h)

    module _ (setup : Setup fl formats ka) (draws : QueryDraws fl formats ka)
        (p p' : Platform fl formats ka) (args : QueryArgs fl formats ka)
        (r : QueryResult fl formats ka) where
      -- A variance that is released was allowed by the policy engine for exactly the participants
      -- that it reports, was charged its epsilon and no delta, and was recorded in the log and in the
      -- store; its value is a figure that is not below zero.
      pub variance-IsReleased :
          (org_values : Dict String (List fl.Float))
          → variance fl formats ka setup draws p org_values args ≡ (p', ok r)
          → IsReleased fl formats ka "variance" draws args p p' r
            × ((v : fl.Float) × (r.value ≡ Value.figure v) × (fl.lt v (zero_float fl) ≡ false))
      unfolding variance
      variance-IsReleased org_values h =
          let (released, (_, raw, _, _, out, made, value, _, _)) =
            query_from-IsReleased fl formats ka (variance_query fl formats ka) setup draws p p' args
              r _ (raw_figure-granted "variance" _ draws p org_values args) h in
          let (v, bounded) =
            released_figure-value (one_float fl) (floored fl formats ka) draws raw args out made in
          (released, (floored fl formats ka v, value ∙ bounded, floored-bound v))

      -- A correlation that is released was allowed by the policy engine for exactly the participants
      -- that it reports, was charged its epsilon and no delta, and was recorded in the log and in the
      -- store; its value is a figure that is not below -1 and not above 1.
      pub correlation-IsReleased :
          (org_pairs : Dict String (List fl.Float × List fl.Float))
          → let low = fl.sub (zero_float fl) (one_float fl) in
            fl.lt low (one_float fl) ≡ true
            → correlation fl formats ka setup draws p org_pairs args ≡ (p', ok r)
            → IsReleased fl formats ka "correlation" draws args p p' r
              × ((v : fl.Float) × (r.value ≡ Value.figure v)
                  × (fl.lt v low ≡ false)
                  × (fl.lt (one_float fl) v ≡ false))
      unfolding correlation
      correlation-IsReleased org_pairs ordered h =
          let (released, (_, raw, _, _, out, made, value, _, _)) =
            query_from-IsReleased fl formats ka (correlation_query fl formats ka) setup draws p p'
              args r _ (raw_figure-granted "correlation" _ draws p org_pairs args) h in
          let (v, bounded) =
            released_figure-value (fl.decimal 2 0) (clipped fl formats ka) draws raw args out
              made in
          (
            released,
            (
              clipped fl formats ka v,
              value ∙ bounded,
              (clipped-bound v ordered).0,
              (clipped-bound v ordered).1,
            ),
          )
