-- ===== src/Platform/Reports.antt =====
-- The reports of sentrylink/platform.py: the metadata and the card of a released model, and the budget.
pub mod Cards
use sentry_link.Base.{
  ℕ, String, ◌==◌, nat_eq, text_eq, Bool, true, not, List, [], ◌∷◌, length, ◌+◌, Option, none, some,
  last_or, if◌then◌else◌,
}
use sentry_link.Base.Int.{pos}
use sentry_link.Base.Dict.{Dict, lookup}
use sentry_link.Config.{protocol_version, quant_scale}
use sentry_link.Errors.{Failure, Result, ok, err, ◌>>=◌, or_raise}
use sentry_link.Floats.{Floats, zero_float}
use sentry_link.Crypto.SecureAggregation.{KeyAgreement}
use sentry_link.Crypto.DifferentialPrivacy.Accountant.{
  PrivacyBudget, PrivacyAccountant, Event, remaining, rdp_epsilon,
}
use sentry_link.Federated.Server.{RoundResult, FederatedServer}
use sentry_link.Federated.Round.{update_clip}
use sentry_link.Privacy.{ReleaseCard, build_release_card}
use sentry_link.Storage.Codec.{Formats}
use sentry_link.Platform.{Platform}
use sentry_link.Platform.Queries.{accounting}
use sentry_link.Platform.Rounds.{round_sensitivity}

module _ (fl : Floats) (formats : Formats fl) (ka : KeyAgreement) where
  -- The dict that `model_release_metadata` returns.
  pub record ModelMetadata : Type 0 where
    pub model_version : ℕ
    pub algorithm : String
    pub aggregation : String
    pub participants : ℕ
    pub dropouts : ℕ
    pub participants_total : ℕ
    pub recovery_used : Bool
    pub feature_dimension : ℕ
    pub mechanism : String
    pub epsilon : fl.Float
    pub delta : fl.Float
    pub accounting_regime : String
    pub sensitivity : fl.Float
    pub quantization_scale : ℕ
    pub clip_bound : fl.Float
    pub masked_evaluation : Bool
    pub version : String

  -- The last round of a cohort: the one that is kept, or else the end of the server's history.
  unfoldable pub last_of :
      Option (RoundResult ka fl) → List (RoundResult ka fl) → Option (RoundResult ka fl)
  last_of (some r) history = some r
  last_of none [] = none
  last_of none (r ∷ rs) = some (last_or r rs)

  -- The metadata of a server and its last round, if there is one.
  unfoldable pub metadata_of :
      PrivacyAccountant fl → FederatedServer ka fl → Option (RoundResult ka fl) → ModelMetadata
  unfolding accounting
  metadata_of a server last =
      let participants = length (elim last [ none ↦ [] | some r ↦ r.participants ]) in
      let dropouts = length (elim last [ none ↦ [] | some r ↦ r.dropped ]) in
      record {
        model_version = length server.history;
        algorithm = "logistic_regression";
        aggregation = "FedAvg";
        participants = participants;
        dropouts = dropouts;
        participants_total = participants + dropouts;
        recovery_used = not (dropouts == 0);
        feature_dimension = server.dim;
        mechanism = "gaussian";
        epsilon = elim last [ none ↦ zero_float fl | some r ↦ r.epsilon_used ];
        delta = elim last [ none ↦ zero_float fl | some r ↦ r.delta_used ];
        accounting_regime = accounting fl formats ka a;
        sensitivity =
            if participants == 0
            then zero_float fl
            else round_sensitivity fl formats ka participants;
        quantization_scale = quant_scale;
        clip_bound = update_clip ka fl;
        masked_evaluation = true;
        version = protocol_version;
      }

  -- `model_release_metadata`
  unfoldable pub model_release_metadata : Platform fl formats ka → String → Result ModelMetadata
  unfolding last_of metadata_of
  model_release_metadata p key = do
    server ← or_raise (lookup key p.servers) Failure.key_error
    ok (metadata_of p.accountant server (last_of (lookup key p.last_round) server.history))

  -- The card of a model with such metadata.
  unfoldable pub card_of : ModelMetadata → String → ReleaseCard fl
  unfolding build_release_card
  card_of meta domain =
      build_release_card fl "federated_model" domain meta.participants "gaussian" meta.epsilon
        meta.delta meta.sensitivity meta.accounting_regime
        ("per-client L2 update clipping" ∷ "pairwise-masked secure aggregation"
          ∷ "masked evaluation tallies" ∷ [])
        "pairwise-mask secure aggregation"

  -- `federated_release_card`
  unfoldable pub federated_release_card :
      Platform fl formats ka → String → String → Result (ReleaseCard fl)
  unfolding model_release_metadata card_of
  federated_release_card p key domain = do
    meta ← model_release_metadata p key
    ok (card_of meta domain)

  -- The dict that `budget_report` returns.
  pub record BudgetReport : Type 0 where
    pub limit : PrivacyBudget fl
    pub spent : PrivacyBudget fl
    pub left : PrivacyBudget fl
    pub events : ℕ
    pub rdp_epsilon_spent : fl.Float
    pub rdp_complete : Bool
    pub ledger : List (Event fl)

  unfoldable pub budget_report : Platform fl formats ka → Result BudgetReport
  unfolding remaining rdp_epsilon
  budget_report p = do
    let a = p.accountant
    left ← remaining fl a
    rdp_epsilon_spent ← rdp_epsilon fl a none
    ok (record {
      limit = a.limit;
      spent = a.spent;
      left = left;
      events = length a.events;
      rdp_epsilon_spent = rdp_epsilon_spent;
      rdp_complete = a.rdp_complete;
      ledger = a.events;
    })
