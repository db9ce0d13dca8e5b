-- ===== src/Platform.antt =====
-- sentrylink/platform.py: the state of the platform, its commit with recovery, onboarding and the
-- histogram query. A call gives the state that it leaves, whether it returns or raises. The lock is
-- left out, as calls are taken one after the other; what a call draws is an argument.
pub mod Onboarding
pub mod Queries
pub mod Commits
pub mod Rounds
pub mod Previews
pub mod Reports
pub mod Sync
pub mod Timeline
use sentry_link.Base.{
  ℕ, String, ◌==◌, text_eq, Bool, true, false, not, ◌&&◌, List, [], ◌∷◌, ◌++◌, map, length, sorted,
  Option, none, some, last_or, if◌then◌else◌,
}
use sentry_link.Base.Int.{ℤ}
use sentry_link.Base.Dict.{Dict, lookup, lookup_or, insert, contains}
use sentry_link.Errors.{Failure, Result, ok, err, ◌>>=◌, ◌>>◌, raise_if, or_raise}
use sentry_link.Floats.{Floats, zero_float}
use sentry_link.Crypto.SecureAggregation.{KeyAgreement}
use sentry_link.Crypto.DifferentialPrivacy.Accountant.{PrivacyBudget, PrivacyAccountant}
use sentry_link.Federated.Server.{RoundResult, FederatedServer}
use sentry_link.Governance.Audit.{AuditLog, AuditEntry, Payload, genesis, record_entry, restore}
use sentry_link.Governance.Registry.{
  Organization, Registry, KeyHash, Fresh, register, get, add_restored,
}
use sentry_link.Governance.Policy.{
  PolicyEngine, ConsentPolicy, set_policy, default_policy_for, policy_of,
}
use sentry_link.Storage.Codec.{
  Formats, RawOrg, RawPolicy, RawServer, RawRound, encode_org, decode_org, encode_policy,
  decode_policy, decode_budget, decode_server,
}
use sentry_link.Storage.Memory.{PersistedState, Op, commit, load}

-- A value of an entry's details.
pub data Detail {ℓ} (Float : Type ℓ) : Type ℓ where
  text : String → Detail Float
  real : Float → Detail Float
  whole : ℕ → Detail Float
  names : List String → Detail Float
  -- The figures of an evaluation: n, the mean loss, the accuracy and n_correct.
  figures : ℤ → Option Float → Option Float → ℤ → Detail Float

module _ (fl : Floats) (formats : Formats fl) (ka : KeyAgreement) where
  abbrev pub Entry : Type 0
  Entry = Payload fl.Float (Dict String (Detail fl.Float))

  abbrev pub Store : Type 0
  Store = PersistedState fl formats ka Entry

  abbrev pub Write : Type 0
  Write = Op fl formats ka Entry

  -- The registry is the one that the policy engine holds.
  pub record Platform : Type 0 where
    pub policy : PolicyEngine fl
    pub audit : AuditLog String Entry
    pub accountant : PrivacyAccountant fl
    pub node_ids : List String
    pub servers : Dict String (FederatedServer ka fl)
    pub last_round : Dict String (RoundResult ka fl)
    pub store : Store

  -- The parameters of a platform: how entries and keys are hashed, and the default limit.
  pub record Setup : Type 0 where
    pub entry_hash : String → Entry → String
    pub key_hash : KeyHash
    pub limit : PrivacyBudget fl

  -- The id and the time of an audit entry.
  pub record Stamp : Type 0 where
    pub id : String
    pub ts : fl.Float

  -- What a call returns or raises, and the state that it leaves.
  abbrev pub Outcome : Type 0 → Type 0
  Outcome A = Platform × Result A

  -- The loops of `_restore`.
  unfoldable pub restore_orgs : List RawOrg → Registry → Result Registry
  restore_orgs [] orgs = ok orgs
  restore_orgs (raw ∷ raws) orgs = do
    orgs' ← add_restored orgs (decode_org raw)
    restore_orgs raws orgs'

  -- A policy of an unknown organization is skipped.
  unfoldable pub restore_policies :
      Dict String (RawPolicy fl) → PolicyEngine fl → Result (PolicyEngine fl)
  unfolding set_policy
  restore_policies [] e = ok e
  restore_policies ((org_id, raw) ∷ raws) e = elim (set_policy fl e org_id (decode_policy fl raw)) [
    | ok e' ↦ restore_policies raws e'
    | err Failure.key_error ↦ restore_policies raws e
    | err f ↦ err f
  ]

  unfoldable pub restore_servers :
      Dict String (RawServer fl formats)
      → Dict String (List (RawRound fl formats ka))
      → Result (Dict String (FederatedServer ka fl))
  unfolding decode_server
  restore_servers [] rounds = ok []
  restore_servers ((key, raw) ∷ raws) rounds = do
    server ← decode_server fl formats ka raw (lookup_or key [] rounds)
    rest ← restore_servers raws rounds
    ok ((key, server) ∷ rest)

  -- The last round of each server that has one.
  unfoldable pub last_rounds : Dict String (FederatedServer ka fl) → Dict String (RoundResult ka fl)
  last_rounds [] = []
  last_rounds ((key, server) ∷ servers) =
      let rest = last_rounds servers in
      elim server.history [ [] ↦ rest | r ∷ rs ↦ (key, last_or r rs) ∷ rest ]

  -- `_restore` from a state that the store returned. If a part of it does not decode, the source keeps
  -- the parts that it has rebuilt by then, and here none is kept.
  unfoldable pub restore_from : Platform → Store → Result Platform
  unfolding restore_orgs restore_policies restore_servers last_rounds decode_budget restore
  restore_from p s = do
    registry ← restore_orgs s.orgs []
    policy ← restore_policies s.policies (record { registry = registry; policies = [] })
    accountant ← elim s.budget [ none ↦ ok p.accountant | some raw ↦ decode_budget fl formats raw ]
    servers ← restore_servers s.servers s.rounds
    ok (record p {
      policy = policy;
      accountant = accountant;
      audit = restore genesis s.audit;
      servers = servers;
      last_round = last_rounds servers;
    })

  -- `_reset_empty`
  unfoldable pub reset_empty : Setup → Platform → Platform
  reset_empty setup p = record p {
    policy = record { registry = []; policies = [] };
    accountant = record {
      limit = setup.limit;
      spent = record { epsilon = zero_float fl; delta = zero_float fl };
      events = [];
      rdp_totals = [];
      rdp_complete = true;
    };
    audit = record { entries = []; prev_hash = genesis };
    servers = [];
    last_round = [];
  }

  -- The state after a failed commit: rebuilt from the store, or reset if that is empty.
  unfoldable pub reconverge : Setup → Platform → Failure → Outcome (Unit {0})
  unfolding restore_from reset_empty load
  reconverge setup p failure = elim (load fl formats ka Entry p.store) [
    | none ↦ (reset_empty setup p, err failure)
    | some s ↦ elim (restore_from p s) [ ok p' ↦ (p', err failure) | err e ↦ (p, err e) ]
  ]

  -- What follows on what the store raises.
  unfoldable pub settle : Setup → Platform → Option Failure → Outcome (Unit {0})
  unfolding reconverge
  settle setup p none = (p, ok tt)
  settle setup p (some failure) = reconverge setup p failure

  -- `_commit`, whose store raises nothing but a concurrent write.
  unfoldable pub commit_bundle : Setup → Platform → List Write → Outcome (Unit {0})
  unfolding commit settle
  commit_bundle setup p writes =
      let outcome = commit fl formats ka Entry writes p.store in
      settle setup (record p { store = outcome.0 }) outcome.1

  -- `_audit`: the entry, and the platform that has recorded it.
  unfoldable pub audit_entry :
      Setup
      → Platform
      → Stamp
      → Option String
      → String
      → Dict String (Detail fl.Float)
      → AuditEntry String Entry × Platform
  unfolding record_entry
  audit_entry setup p stamp request_id action details =
      let all_details : Dict String (Detail fl.Float) = elim request_id [
        | none ↦ details
        | some r ↦ insert "request_id" (Detail.text r) details
      ] in
      let payload : Entry = record {
        id = stamp.id;
        ts = stamp.ts;
        action = action;
        details = all_details;
      } in
      let (entry, log) = record_entry setup.entry_hash p.audit payload in
      (entry, record p { audit = log })

  -- What follows a call that may raise: the state it left is passed on.
  abbrev pub and_then : {A B : Type 0} → Outcome A → (Platform → A → Outcome B) → Outcome B
  and_then (p, ok a) next = next p a
  and_then (p, err f) next = (p, err f)
