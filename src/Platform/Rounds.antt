-- ===== src/Platform/Rounds.antt =====
-- `run_federated_round` of sentrylink/platform.py. A call that raises after the server has run its
-- round leaves the server's new model and history in memory.
pub mod Recorded
pub mod Released
use Prim.Native.String.{◌++◌ as text_append}
use sentry_link.Base.{
  ℕ, String, ◌==◌, text_eq, Bool, true, List, [], ◌∷◌, length, ltb, Option, none, some,
  if◌then◌else◌,
}
use sentry_link.Base.Int.{pos}
use sentry_link.Base.Dict.{Dict, lookup, insert}
use sentry_link.Errors.{Failure, Result, ok, err, ◌>>=◌, ◌>>◌, raise_if}
use sentry_link.Floats.{Floats}
use sentry_link.Crypto.SecureAggregation.{KeyAgreement}
use sentry_link.Crypto.DifferentialPrivacy.{rdp_alphas, gaussian_rdp_cost}
use sentry_link.Crypto.DifferentialPrivacy.Accountant.{
  PrivacyBudget, PrivacyAccountant, Charge, Event, new_budget, charge,
}
use sentry_link.Federated.Model.{FederatedClient}
use sentry_link.Federated.Server.{EvalStats, RoundResult, FederatedServer, new_federated}
use sentry_link.Federated.Round.{Draws, RoundArgs, update_clip, run_round}
use sentry_link.Governance.Audit.{AuditEntry}
use sentry_link.Governance.Policy.{QueryDecision}
use sentry_link.Storage.Codec.{Formats, encode_budget, encode_server, encode_round}
use sentry_link.Storage.Memory.{Op}
use sentry_link.Platform.{
  Platform, Setup, Stamp, Outcome, Detail, audit_entry, commit_bundle, and_then,
}
use sentry_link.Platform.Queries.{QueryArgs, granted, ledger_entry}

-- `f"{sector_group}:{domain}"`
abbrev pub server_key : String → String → String
server_key sector_group domain = text_append sector_group (text_append ":" domain)

module _ (fl : Floats) (formats : Formats fl) (ka : KeyAgreement) where
  -- What a round draws.
  pub record RoundDraws : Type 0 where
    pub query_id : String
    pub round : Draws ka fl
    pub event_id : String
    pub event_ts : fl.Float
    pub ledger_ts : fl.Float
    pub stamp : Stamp fl formats ka

  abbrev pub key_of : QueryArgs fl formats ka → String
  key_of args = server_key args.sector_group args.domain

  -- The clients of the participants that have one.
  unfoldable pub roster_of :
      List String → Dict String (FederatedClient fl) → List (FederatedClient fl)
  roster_of [] clients_by_org = []
  roster_of (oid ∷ ids) clients_by_org =
      let rest = roster_of ids clients_by_org in
      elim (lookup oid clients_by_org) [ none ↦ rest | some client ↦ client ∷ rest ]

  -- The decision and the clients that take part.
  unfoldable pub round_roster :
      String
      → Platform fl formats ka
      → Dict String (FederatedClient fl)
      → QueryArgs fl formats ka
      → Result (QueryDecision fl × List (FederatedClient fl))
  unfolding granted roster_of
  round_roster query_id p clients_by_org args = do
    decision ← granted fl formats ka query_id p "federated_model_round" args
    let roster = roster_of decision.participants clients_by_org
    raise_if (ltb (length roster) (length decision.participants)) Failure.invalid_data
    ok (decision, roster)

  -- The server of the cohort, which is made if there is none, and the servers with it. A roster is not
  -- empty here; the IndexError of an empty one is a key error.
  unfoldable pub open_server :
      Dict String (FederatedServer ka fl)
      → String
      → List (FederatedClient fl)
      → Result (FederatedServer ka fl × Dict String (FederatedServer ka fl))
  unfolding new_federated
  open_server servers key roster = elim (lookup key servers) [
    | some server ↦ ok (server, servers)
    | none ↦ elim roster [
      | [] ↦ err Failure.key_error
      | client ∷ _ ↦
          new_federated ka fl client.dim none >>= λ server. ok (server, insert key server servers)
    ]
  ]

  -- `2.0 * UPDATE_CLIP / len(result.participants)`
  abbrev pub round_sensitivity : ℕ → fl.Float
  round_sensitivity k = fl.div (fl.mul (fl.decimal 2 0) (update_clip ka fl)) (fl.of_int (pos k))

  -- The RDP cost of the noise that a round has added, if any.
  unfoldable pub round_rdp : RoundResult ka fl → Result (Option (Dict ℕ fl.Float))
  unfolding gaussian_rdp_cost
  round_rdp result =
      if result.dp_applied
      then (do
        rdp_cost ←
            gaussian_rdp_cost fl (round_sensitivity (length result.participants)) result.dp_sigma
              rdp_alphas
        ok (some rdp_cost))
      else ok none

  -- The charge of a round that has run.
  unfoldable pub charge_round :
      RoundDraws
      → PrivacyAccountant fl
      → QueryArgs fl formats ka
      → RoundResult ka fl
      → Result (PrivacyAccountant fl × Event fl)
  unfolding new_budget round_rdp ledger_entry charge
  charge_round draws accountant args result = do
    cost ← new_budget fl args.epsilon args.delta
    rdp_cost ← round_rdp result
    let k = length result.participants
    charge fl accountant (record {
      cost = cost;
      rdp_cost = rdp_cost;
      purpose = args.purpose;
      subject = key_of args;
      ledger = some (
          ledger_entry fl formats ka draws.ledger_ts (key_of args) "federated_model_round"
            "gaussian" args.epsilon args.delta (round_sensitivity k) k (some (update_clip ka fl))
            args.purpose args.request_id);
      id = draws.event_id;
      ts = draws.event_ts;
    })

  -- The details of the entry.
  abbrev pub round_details :
      QueryArgs fl formats ka → RoundResult ka fl → Dict String (Detail fl.Float)
  round_details args result =
      let stats = result.eval_stats in
      ("round_id", Detail.text result.round_id)
      ∷ ("participants", Detail.names result.participants)
      ∷ ("dropped", Detail.names result.dropped)
      ∷ ("epsilon", Detail.real args.epsilon)
      ∷ ("delta", Detail.real args.delta)
      ∷ ("eval", Detail.figures stats.n stats.mean_loss stats.accuracy stats.n_correct)
      ∷ []

  -- The last round, the audit entry and the commit of a charged round.
  unfoldable pub record_round :
      Setup fl formats ka
      → RoundDraws
      → (fl.Float × fl.Float)
      → ℕ
      → Platform fl formats ka
      → FederatedServer ka fl
      → QueryArgs fl formats ka
      → RoundResult ka fl
      → Outcome fl formats ka (Unit {0})
  unfolding audit_entry commit_bundle encode_budget encode_server encode_round
  record_round setup draws spent_before rounds_before p server args result =
      let kept : Platform fl formats ka = record p {
        last_round = insert (key_of args) result p.last_round;
      } in
      let (entry, audited) =
        audit_entry fl formats ka setup kept draws.stamp args.request_id "federated.round"
          (round_details args result) in
      commit_bundle fl formats ka setup audited (
        Op.save_budget (encode_budget fl formats audited.accountant) spent_before
        ∷ Op.save_server (encode_server fl formats ka (key_of args) server) rounds_before
        ∷ Op.append_round (key_of args) (encode_round fl formats ka (key_of args) result)
        ∷ Op.append_audit entry entry.prev_hash
        ∷ [])

  -- A round after its charge, on the platform that has the new server.
  unfoldable pub round_charged :
      Setup fl formats ka
      → RoundDraws
      → ℕ
      → Platform fl formats ka
      → FederatedServer ka fl
      → QueryArgs fl formats ka
      → RoundResult ka fl
      → Result (PrivacyAccountant fl × Event fl)
      → Outcome fl formats ka (RoundResult ka fl)
  unfolding record_round
  round_charged setup draws rounds_before p server args result (err f) = (p, err f)
  round_charged setup draws rounds_before p server args result (ok (accountant, event)) =
      and_then fl formats ka
        (record_round setup draws (p.accountant.spent.epsilon, p.accountant.spent.delta)
          rounds_before (record p { accountant = accountant }) server args result)
        (λ p' done. (p', ok result))

  -- A round after the server has run it.
  unfoldable pub round_run :
      Setup fl formats ka
      → RoundDraws
      → ℕ
      → Platform fl formats ka
      → QueryArgs fl formats ka
      → Result (RoundResult ka fl × FederatedServer ka fl)
      → Outcome fl formats ka (RoundResult ka fl)
  unfolding round_charged charge_round
  round_run setup draws rounds_before p args (err f) = (p, err f)
  round_run setup draws rounds_before p args (ok (result, server)) =
      round_charged setup draws rounds_before
        (record p { servers = insert (key_of args) server p.servers }) server args result
        (charge_round draws p.accountant args result)

  -- The arguments of the server's round.
  abbrev pub round_args : QueryArgs fl formats ka → List String → ℕ → RoundArgs ka fl
  round_args args drop epochs = record {
    drop = drop;
    epochs = epochs;
    apply_dp = true;
    epsilon = args.epsilon;
    delta = args.delta;
  }

  -- A round after its server was found or made.
  unfoldable pub round_opened :
      Setup fl formats ka
      → RoundDraws
      → Platform fl formats ka
      → List (FederatedClient fl)
      → QueryArgs fl formats ka
      → List String
      → ℕ
      → Result (FederatedServer ka fl × Dict String (FederatedServer ka fl))
      → Outcome fl formats ka (RoundResult ka fl)
  unfolding round_run run_round
  round_opened setup draws p roster args drop epochs (err f) = (p, err f)
  round_opened setup draws p roster args drop epochs (ok (server, servers)) =
      round_run setup draws (length server.history) (record p { servers = servers }) args
        (run_round ka fl draws.round server roster (round_args args drop epochs))

  -- A round after its roster is known.
  unfoldable pub round_entered :
      Setup fl formats ka
      → RoundDraws
      → Platform fl formats ka
      → QueryArgs fl formats ka
      → List String
      → ℕ
      → Result (QueryDecision fl × List (FederatedClient fl))
      → Outcome fl formats ka (RoundResult ka fl)
  unfolding round_opened open_server
  round_entered setup draws p args drop epochs (err f) = (p, err f)
  round_entered setup draws p args drop epochs (ok (decision, roster)) =
      round_opened setup draws p roster args drop epochs
        (open_server p.servers (key_of args) roster)

  -- `run_federated_round`
  unfoldable pub run_federated_round :
      Setup fl formats ka
      → RoundDraws
      → Platform fl formats ka
      → Dict String (FederatedClient fl)
      → QueryArgs fl formats ka
      → List String
      → ℕ
      → Outcome fl formats ka (RoundResult ka fl)
  unfolding round_roster round_entered
  run_federated_round setup draws p clients_by_org args drop epochs =
      round_entered setup draws p args drop epochs
        (round_roster draws.query_id p clients_by_org args)
