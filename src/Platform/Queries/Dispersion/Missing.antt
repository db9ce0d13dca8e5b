-- ===== src/Platform/Queries/Dispersion/Missing.antt =====
-- A participant that supplies nothing to a variance or a correlation of sentrylink/platform.py.
use sentry_link.Base.{
  String, ◌==◌, text_eq, mem, true, Bool-cases, inl, inr, List, [], ◌∷◌, none, some, Option-cases,
  ◌≡◌, refl, ap, arith,
}
use sentry_link.Base.Dict.{Dict, lookup, insert}
use sentry_link.Errors.{Failure, Result, ok, err}
use sentry_link.Floats.{Floats}
use sentry_link.Crypto.SecureAggregation.{KeyAgreement}
use sentry_link.Governance.Policy.{QueryDecision}
use sentry_link.Storage.Codec.{Formats}
use sentry_link.Platform.{Platform, Setup, Outcome}
use sentry_link.Platform.Queries.{QueryDraws, QueryArgs, QueryResult, granted, query_from}
use sentry_link.Platform.Queries.Dispersion.{
  supplied, raw_figure, variance_query, correlation_query, variance, correlation,
}

-- A list of participants of which one has no data.
supplied-missing :
    {A : Type 0} (oid : String) (ids : List String) (org_data d : Dict String A)
    → mem oid ids ≡ true
    → lookup oid org_data ≡ none
    → supplied ids org_data d ≡ err Failure.key_error
unfolding supplied
supplied-missing oid [] org_data d h absent = cc
supplied-missing {A} oid (i ∷ ids) org_data d h absent = elim (Option-cases (lookup i org_data)) [
  | inl gone ↦ rw (supplied, gone) refl
  | inr (v, found) ↦
      rw (supplied, found)
        (supplied-missing oid ids org_data (insert i v d) (elsewhere v found) absent)
]
  where
    elsewhere : (v : A) → lookup i org_data ≡ some v → mem oid ids ≡ true
    elsewhere v found = elim (Bool-cases (oid == i)) [
      | inl t ↦
          let same = ap (λ k. lookup k org_data) ((text_eq.beq_iff oid i).0 t) in
          cc (absent, found, same)
      | inr t ↦ ground (arith, h, t)
    ]

module _ (fl : Floats) (formats : Formats fl) (ka : KeyAgreement) (setup : Setup fl formats ka)
    (draws : QueryDraws fl formats ka) (p : Platform fl formats ka) (args : QueryArgs fl formats ka)
    (oid : String) where
  raw_figure-missing :
      {A : Type 0} (metric : String) (statistic : Dict String A → Result fl.Float)
      (org_data : Dict String A) (d : QueryDecision fl)
      → granted fl formats ka draws.query_id p metric args ≡ ok d
      → mem oid d.participants ≡ true
      → lookup oid org_data ≡ none
      → raw_figure fl formats ka metric statistic draws p org_data args ≡ err Failure.key_error
  unfolding raw_figure
  raw_figure-missing metric statistic org_data d given participates absent =
      rw (given, supplied-missing oid d.participants org_data [] participates absent) refl

  -- The data of a variance or of a correlation.
  pub data Figures : Type 0 where
    of_values : Dict String (List fl.Float) → Figures
    of_pairs : Dict String (List fl.Float × List fl.Float) → Figures

  abbrev pub metric_of : Figures → String
  metric_of (Figures.of_values org_values) = "variance"
  metric_of (Figures.of_pairs org_pairs) = "correlation"

  -- The data has nothing of the participant.
  abbrev pub IsMissing : Figures → Type 0
  IsMissing (Figures.of_values org_values) = lookup oid org_values ≡ none
  IsMissing (Figures.of_pairs org_pairs) = lookup oid org_pairs ≡ none

  -- The query over the data.
  abbrev pub run : Figures → Outcome fl formats ka (QueryResult fl formats ka)
  run (Figures.of_values org_values) = variance fl formats ka setup draws p org_values args
  run (Figures.of_pairs org_pairs) = correlation fl formats ka setup draws p org_pairs args

  -- A variance or a correlation that is granted, and of which a participant has supplied no data,
  -- raises a key error, and not that the data is invalid, and leaves the platform as it was.
  pub figure-missing :
      (figures : Figures) (d : QueryDecision fl)
      → granted fl formats ka draws.query_id p (metric_of figures) args ≡ ok d
      → mem oid d.participants ≡ true
      → IsMissing figures
      → run figures ≡ (p, err Failure.key_error)
  unfolding variance correlation query_from
  figure-missing (Figures.of_values org_values) d given takes gone =
      ap (query_from fl formats ka (variance_query fl formats ka) setup draws p args)
        (raw_figure-missing "variance" _ org_values d given takes gone)
  figure-missing (Figures.of_pairs org_pairs) d given takes gone =
      ap (query_from fl formats ka (correlation_query fl formats ka) setup draws p args)
        (raw_figure-missing "correlation" _ org_pairs d given takes gone)
