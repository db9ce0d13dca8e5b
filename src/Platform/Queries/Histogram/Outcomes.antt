-- ===== src/Platform/Queries/Histogram/Outcomes.antt =====
-- What a histogram of sentrylink/platform.py leaves, when it is released and when it fails late.
use sentry_link.Base.{String, nat_eq, List, Option, ◌≡◌, arith}
use sentry_link.Base.Int.{ℤ}
use sentry_link.Base.Dict.{Dict}
use sentry_link.Errors.{Failure, ok, err}
use sentry_link.Floats.{Floats, zero_float}
use sentry_link.Crypto.SecureAggregation.{KeyAgreement}
use sentry_link.Governance.Policy.{QueryDecision}
use sentry_link.Storage.Codec.{Formats}
use sentry_link.Platform.{Platform, Outcome, Setup}
use sentry_link.Platform.Queries.{QueryDraws, QueryArgs, QueryResult, granted}
use sentry_link.Platform.Queries.Release.{IsReleased, query_from-IsReleased}
use sentry_link.Platform.Queries.Histogram.{raw_histogram, histogram_query, histogram}

module _ (fl : Floats) (formats : Formats fl) (ka : KeyAgreement) where
  raw_histogram-granted :
      (draws : QueryDraws fl formats ka) (p : Platform fl formats ka)
      (org_buckets : Dict String (List ℤ)) (args : QueryArgs fl formats ka) (d : QueryDecision fl)
      (raw : List ℤ)
      → raw_histogram fl formats ka draws p org_buckets args ≡ ok (d, raw)
      → granted fl formats ka draws.query_id p "histogram" args ≡ ok d
  unfolding raw_histogram
  raw_histogram-granted draws p org_buckets args d raw h = ground arith

  module _ (setup : Setup fl formats ka) (draws : QueryDraws fl formats ka)
      (p p' : Platform fl formats ka) (org_buckets : Dict String (List ℤ))
      (labels : Option (List String)) (args : QueryArgs fl formats ka)
      (r : QueryResult fl formats ka) where
    -- A histogram that is released was allowed by the policy engine for exactly the participants
    -- that it reports, its epsilon and no delta were added to the spent budget with one event, the
    -- stored budget is as spent as the live one, one audit entry was appended, the same in memory and
    -- in the store, and its card gives the size of the cohort and what was charged.
    pub histogram-IsReleased :
        histogram fl formats ka setup draws p org_buckets labels args ≡ (p', ok r)
        → IsReleased fl formats ka "histogram" draws args p p' r
    unfolding histogram
    histogram-IsReleased h =
        (query_from-IsReleased fl formats ka (histogram_query fl formats ka labels) setup draws p p'
          args r (raw_histogram fl formats ka draws p org_buckets args)
          (raw_histogram-granted draws p org_buckets args) h).0

  module _ (setup : Setup fl formats ka) (draws : QueryDraws fl formats ka)
      (p : Platform fl formats ka) (org_buckets : Dict String (List ℤ)) (labels : List String)
      (args : QueryArgs fl formats ka) where
    -- What a histogram leaves that fails after its charge: the failure, the store and the log as they
    -- were, and a live accountant that has been charged.
    pub record IsChargedOnly (o : Outcome fl formats ka (QueryResult fl formats ka)) : Type 0 where
      pub refused : o.1 ≡ err Failure.invalid_data
      pub same_store : o.0.store ≡ p.store
      pub same_log : o.0.audit ≡ p.audit
      pub spent : o.0.accountant.spent ≡ record {
        epsilon = fl.add p.accountant.spent.epsilon args.epsilon;
        delta = fl.add p.accountant.spent.delta (zero_float fl);
      }
