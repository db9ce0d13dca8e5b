-- ===== src/Platform/Reports/Cards.antt =====
-- The card of a released model of sentrylink/platform.py against the round that was charged.
use sentry_link.Base.{ℕ, String, text_eq, List, length, some, ◌≡◌, refl, ◌∙◌}
use sentry_link.Base.Dict.{Dict, lookup}
use sentry_link.Errors.{ok}
use sentry_link.Floats.{Floats}
use sentry_link.Crypto.SecureAggregation.{KeyAgreement}
use sentry_link.Federated.Model.{FederatedClient}
use sentry_link.Federated.Server.{RoundResult, FederatedServer}
use sentry_link.Privacy.{ReleaseCard, build_release_card}
use sentry_link.Storage.Codec.{Formats}
use sentry_link.Platform.{Platform, Setup}
use sentry_link.Platform.Queries.{QueryArgs}
use sentry_link.Platform.Rounds.{RoundDraws, key_of, run_federated_round}
use sentry_link.Platform.Rounds.Recorded.{run_round-history}
use sentry_link.Platform.Rounds.Released.{run_federated_round-IsRoundReleased}
use sentry_link.Platform.Reports.{
  federated_release_card, card_of, model_release_metadata, metadata_of, last_of,
}

module _ (fl : Floats) (formats : Formats fl) (ka : KeyAgreement) where
  federated_release_card-last :
      (p : Platform fl formats ka) (key domain : String) (server : FederatedServer ka fl)
      (r : RoundResult ka fl)
      → lookup key p.servers ≡ some server
      → lookup key p.last_round ≡ some r
      → (card : ReleaseCard fl) × (federated_release_card fl formats ka p key domain ≡ ok card)
        × (card.cohort_size ≡ length r.participants)
        × (card.epsilon ≡ r.epsilon_used)
        × (card.delta ≡ r.delta_used)
  unfolding federated_release_card card_of model_release_metadata metadata_of last_of
      build_release_card
  federated_release_card-last p key domain server r served last =
      let card =
        card_of fl formats ka (metadata_of fl formats ka p.accountant server (some r)) domain in
      (card, rw (served, last) refl, refl, refl, refl)

  -- After a federated round that returns, the model of its cohort has a release card, which gives the
  -- number of the participants of that round and the epsilon and delta that were charged for it.
  pub federated_release_card-charged :
      (setup : Setup fl formats ka) (draws : RoundDraws fl formats ka)
      (p p' : Platform fl formats ka) (clients_by_org : Dict String (FederatedClient fl))
      (args : QueryArgs fl formats ka) (drop : List String) (epochs : ℕ) (r : RoundResult ka fl)
      → run_federated_round fl formats ka setup draws p clients_by_org args drop epochs ≡ (p', ok r)
      → (card : ReleaseCard fl) × (federated_release_card fl formats ka p'
            (key_of fl formats ka args)
            args.domain
          ≡ ok card)
        × (card.cohort_size ≡ length r.participants)
        × (card.epsilon ≡ args.epsilon)
        × (card.delta ≡ args.delta)
  federated_release_card-charged setup draws p p' clients_by_org args drop epochs r h =
      let released =
        run_federated_round-IsRoundReleased fl formats ka setup draws p p' clients_by_org args drop
          epochs r h in
      let (card, made, cohort, epsilon, delta) =
        federated_release_card-last p' (key_of fl formats ka args) args.domain released.after r
          released.served released.last in
      let (_, used_epsilon, used_delta) =
        run_round-history fl formats ka draws released.server released.after released.roster args
          drop epochs r released.ran in
      (card, made, cohort, epsilon ∙ used_epsilon, delta ∙ used_delta)
