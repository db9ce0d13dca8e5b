-- ===== src/Platform/Sync/Calls.antt =====
-- The calls of sentrylink/platform.py that return, in any order, as steps from platform to platform.
use sentry_link.Base.{ℕ, String, text_eq, List, Option, none, ◌≡◌}
use sentry_link.Base.Int.{ℤ}
use sentry_link.Base.Dict.{Dict}
use sentry_link.Errors.{ok}
use sentry_link.Floats.{Floats}
use sentry_link.Crypto.SecureAggregation.{KeyAgreement}
use sentry_link.Federated.Model.{FederatedClient}
use sentry_link.Federated.Server.{RoundResult}
use sentry_link.Governance.Registry.{Organization, Fresh, register}
use sentry_link.Storage.Codec.{Formats}
use sentry_link.Platform.{Platform, Setup, Stamp}
use sentry_link.Platform.Onboarding.{join, set_consent, consent_engine}
use sentry_link.Platform.Queries.{QueryDraws, QueryArgs, QueryResult}
use sentry_link.Platform.Queries.Histogram.{histogram, histogram_query, raw_histogram}
use sentry_link.Platform.Queries.Dispersion.{
  variance, correlation, variance_query, correlation_query, raw_figure,
}
use sentry_link.Platform.Rounds.{RoundDraws, run_federated_round, round_roster}
use sentry_link.Mpc.{run_variance, run_correlation}
use sentry_link.Platform.Sync.{IsSynced}
use sentry_link.Platform.Sync.Bundles.{
  consent_changed-IsSynced, join_registered-IsSynced, query_from-IsSynced, round_entered-IsSynced,
}

module _ (fl : Floats) (formats : Formats fl) (ka : KeyAgreement)
    (setup : Setup fl formats ka) where
  abbrev State : Type 0
  State = Platform fl formats ka

  -- A call that returns, from the platform before it to the one that it leaves.
  pub data Call : State → State → Type 0 where
    joined :
        (fresh : Fresh) (stamp : Stamp fl formats ka) (name domain sector_group : String)
        (request_id : Option String) (org : Organization) {p p' : State}
        → join fl formats ka setup fresh stamp p name domain sector_group request_id ≡ (p', ok org)
        → Call p p'
    consented :
        (stamp : Stamp fl formats ka) (org_id : String) (allowed_metrics : List String)
        (request_id : Option String) {p p' : State}
        → set_consent fl formats ka setup stamp p org_id allowed_metrics request_id ≡ (p', ok tt)
        → Call p p'
    counted :
        (draws : QueryDraws fl formats ka) (org_buckets : Dict String (List ℤ))
        (labels : Option (List String)) (args : QueryArgs fl formats ka)
        (r : QueryResult fl formats ka) {p p' : State}
        → histogram fl formats ka setup draws p org_buckets labels args ≡ (p', ok r)
        → Call p p'
    dispersed :
        (draws : QueryDraws fl formats ka) (org_values : Dict String (List fl.Float))
        (args : QueryArgs fl formats ka) (r : QueryResult fl formats ka) {p p' : State}
        → variance fl formats ka setup draws p org_values args ≡ (p', ok r)
        → Call p p'
    associated :
        (draws : QueryDraws fl formats ka) (org_pairs : Dict String (List fl.Float × List fl.Float))
        (args : QueryArgs fl formats ka) (r : QueryResult fl formats ka) {p p' : State}
        → correlation fl formats ka setup draws p org_pairs args ≡ (p', ok r)
        → Call p p'
    trained :
        (draws : RoundDraws fl formats ka) (clients_by_org : Dict String (FederatedClient fl))
        (args : QueryArgs fl formats ka) (drop : List String) (epochs : ℕ) (r : RoundResult ka fl)
        {p p' : State}
        → run_federated_round fl formats ka setup draws p clients_by_org args drop epochs
          ≡ (p', ok r)
        → Call p p'

  -- Any number of calls.
  pub data Calls : State → State → Type 0 where
    none_yet : {p : State} → Calls p p
    then : {p p' p'' : State} → Calls p p' → Call p' p'' → Calls p p''

  -- One call that returns.
  Call-IsSynced : {p p' : State} → Call p p' → IsSynced fl formats ka p → IsSynced fl formats ka p'
  unfolding set_consent join histogram variance correlation run_federated_round
  Call-IsSynced {p} {p'} (Call.joined fresh stamp name domain sector_group request_id org h)
        synced =
      join_registered-IsSynced fl formats ka setup stamp p p' org name domain request_id
        (register setup.key_hash fresh p.policy.registry name domain sector_group none) h synced
  Call-IsSynced {p} {p'} (Call.consented stamp org_id metrics request_id h) synced =
      consent_changed-IsSynced fl formats ka setup stamp p p' org_id metrics request_id
        (consent_engine fl formats ka p.policy org_id metrics) h synced
  Call-IsSynced {p} {p'} (Call.counted draws org_buckets labels args r h) synced =
      query_from-IsSynced fl formats ka setup (histogram_query fl formats ka labels) draws args r p
        p' (raw_histogram fl formats ka draws p org_buckets args) h
  Call-IsSynced {p} {p'} (Call.dispersed draws org_values args r h) synced =
      query_from-IsSynced fl formats ka setup (variance_query fl formats ka) draws args r p p'
        (raw_figure fl formats ka "variance" (λ vals. run_variance fl draws.tapes vals p.node_ids)
          draws p org_values args)
        h
  Call-IsSynced {p} {p'} (Call.associated draws org_pairs args r h) synced =
      query_from-IsSynced fl formats ka setup (correlation_query fl formats ka) draws args r p p'
        (raw_figure fl formats ka "correlation"
          (λ pairs. run_correlation fl draws.tapes pairs p.node_ids) draws p org_pairs args)
        h
  Call-IsSynced {p} {p'} (Call.trained draws clients_by_org args drop epochs r h) synced =
      round_entered-IsSynced fl formats ka setup draws args drop epochs r p p'
        (round_roster fl formats ka draws.query_id p clients_by_org args) h

  -- Whatever calls have returned, in any order, a platform that agreed with its store still does: its
  -- log continues from the end of the stored one, and the stored budget is as spent as the live one.
  pub Calls-IsSynced :
      {p p' : State} → Calls p p' → IsSynced fl formats ka p → IsSynced fl formats ka p'
  Calls-IsSynced Calls.none_yet synced = synced
  Calls-IsSynced (Calls.then calls call) synced = Call-IsSynced call (Calls-IsSynced calls synced)
