-- ===== src/Api/Transparency.antt =====
-- The open endpoints of sentrylink/api/app.py: health, readiness, the audit log, the budget and the
-- observatory view. The name of the store's backend and the answer of its `ping` are arguments.
use sentry_link.Base.{
  ℕ, String, nat_eq, text_eq, Bool, ◌&&◌, none, List, [], ◌∷◌, length, sorted, if◌then◌else◌,
}
use sentry_link.Base.Int.{ℤ}
use sentry_link.Base.Dict.{Dict, keys}
use sentry_link.Config.{protocol_version}
use sentry_link.Errors.{Result, ok, ◌>>=◌}
use sentry_link.Floats.{Floats}
use sentry_link.Crypto.SecureAggregation.{KeyAgreement}
use sentry_link.Crypto.DifferentialPrivacy.Accountant.{remaining, rdp_epsilon}
use sentry_link.Governance.Audit.{AuditEntry, genesis, tip, verify_chain}
use sentry_link.Governance.Registry.{list}
use sentry_link.Storage.Codec.{Formats}
use sentry_link.Platform.{Platform, Setup, Entry, Detail}
use sentry_link.Platform.Timeline.{Item, last_entries, timeline}
use sentry_link.Platform.Reports.{
  ModelMetadata, BudgetReport, model_release_metadata, budget_report,
}

-- `HealthResponse`
pub record HealthResponse : Type 0 where
  pub status : String
  pub version : String
  pub orgs : ℕ
  pub audit_verified : Bool
  pub storage : String

-- The status and the body of the readiness probe.
pub record Readiness : Type 0 where
  pub status_code : ℕ
  pub ready : Bool
  pub storage : String
  pub store_reachable : Bool
  pub audit_verified : Bool

module _ (fl : Floats) (formats : Formats fl) (ka : KeyAgreement) where
  -- `audit.verify_chain()`
  abbrev pub chain_ok : Setup fl formats ka → Platform fl formats ka → Bool
  chain_ok setup p = verify_chain setup.entry_hash genesis p.audit

  unfoldable pub health : Setup fl formats ka → String → Platform fl formats ka → HealthResponse
  unfolding list verify_chain
  health setup backend p = record {
    status = "ok";
    version = "0.1.0";
    orgs = length (list p.policy.registry);
    audit_verified = chain_ok setup p;
    storage = backend;
  }

  unfoldable pub readiness :
      Setup fl formats ka → String → Bool → Platform fl formats ka → Readiness
  unfolding verify_chain
  readiness setup backend store_ok p =
      let ready = store_ok && chain_ok setup p in
      record {
        status_code = if ready then 200 else 503;
        ready = ready;
        storage = backend;
        store_reachable = store_ok;
        audit_verified = chain_ok setup p;
      }

  -- The dict that `audit_log` returns.
  pub record AuditView : Type 0 where
    pub verified : Bool
    pub count : ℕ
    pub head : String
    pub entries : List (AuditEntry String (Entry fl formats ka))

  unfoldable pub audit_log : Setup fl formats ka → Platform fl formats ka → ℤ → AuditView
  unfolding verify_chain tip last_entries
  audit_log setup p limit = record {
    verified = chain_ok setup p;
    count = length p.audit.entries;
    head = tip genesis p.audit.entries;
    entries = last_entries limit p.audit.entries;
  }

  module _ (show_length : ℕ → String) (show_detail : Detail fl.Float → String) where
    -- The dict that `audit_timeline` returns.
    pub record TimelineView : Type 0 where
      pub verified : Bool
      pub count : ℕ
      pub items : List (Item fl formats ka show_length show_detail)

    unfoldable pub audit_timeline : Setup fl formats ka → Platform fl formats ka → ℤ → TimelineView
    unfolding verify_chain timeline
    audit_timeline setup p limit = record {
      verified = chain_ok setup p;
      count = length p.audit.entries;
      items = timeline fl formats ka show_length show_detail p.audit limit;
    }

  unfoldable pub budgets : Platform fl formats ka → Result (BudgetReport fl formats ka)
  unfolding budget_report
  budgets p = budget_report fl formats ka p

  -- The dict that `transparency` returns.
  pub record Transparency : Type 0 where
    pub status : String
    pub protocol : String
    pub schema_version : ℕ
    pub storage : String
    pub orgs : ℕ
    pub spent_epsilon : fl.Float
    pub remaining_epsilon : fl.Float
    pub rdp_epsilon_spent : fl.Float
    pub events : ℕ
    pub audit_valid : Bool
    pub audit_entries : ℕ
    pub audit_head : String
    pub models : Dict String (ModelMetadata fl formats ka)

  -- `{key: p.model_release_metadata(key) for key in keys}`
  unfoldable pub model_releases :
      Platform fl formats ka → List String → Result (Dict String (ModelMetadata fl formats ka))
  unfolding model_release_metadata
  model_releases p [] = ok []
  model_releases p (key ∷ rest) = do
    metadata ← model_release_metadata fl formats ka p key
    others ← model_releases p rest
    ok ((key, metadata) ∷ others)

  unfoldable pub transparency :
      Setup fl formats ka → String → Platform fl formats ka → Result Transparency
  unfolding remaining rdp_epsilon list verify_chain tip model_releases sorted
  transparency setup backend p = do
    left ← remaining fl p.accountant
    rdp_epsilon_spent ← rdp_epsilon fl p.accountant none
    models ← model_releases p (sorted (keys p.servers))
    ok (record {
      status = "ok";
      protocol = protocol_version;
      schema_version = 2;
      storage = backend;
      orgs = length (list p.policy.registry);
      spent_epsilon = p.accountant.spent.epsilon;
      remaining_epsilon = left.epsilon;
      rdp_epsilon_spent = rdp_epsilon_spent;
      events = length p.accountant.events;
      audit_valid = chain_ok setup p;
      audit_entries = length p.audit.entries;
      audit_head = tip genesis p.audit.entries;
      models = models;
    })
