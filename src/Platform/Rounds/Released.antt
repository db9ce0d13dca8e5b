-- ===== src/Platform/Rounds/Released.antt =====
-- What a federated round of sentrylink/platform.py leaves when it is released.
use sentry_link.Base.{
  ℕ, String, text_eq, true, List, [], ◌∷◌, ◌++◌, length, some, ◌≡◌, refl, ap, ◌∙◌,
}
use sentry_link.Base.Dict.{Dict, lookup, insert, lookup-insert_self}
use sentry_link.Errors.{Result, ok, err}
use sentry_link.Floats.{Floats}
use sentry_link.Crypto.SecureAggregation.{KeyAgreement}
use sentry_link.Crypto.DifferentialPrivacy.Accountant.{PrivacyAccountant, Event}
use sentry_link.Federated.Model.{FederatedClient}
use sentry_link.Federated.Server.{RoundResult, FederatedServer}
use sentry_link.Federated.Round.{run_round}
use sentry_link.Governance.Audit.{AuditEntry}
use sentry_link.Governance.Policy.{QueryDecision, evaluate}
use sentry_link.Storage.Codec.{Formats}
use sentry_link.Platform.{Platform, Setup, Entry}
use sentry_link.Platform.Commits.{and_then-ok}
use sentry_link.Platform.Queries.{QueryArgs, request_of, granted}
use sentry_link.Platform.Queries.Release.{granted-ok}
use sentry_link.Platform.Rounds.{
  RoundDraws, key_of, roster_of, round_roster, open_server, charge_round, record_round,
  round_charged, round_run, round_opened, round_entered, round_args, run_federated_round,
}
use sentry_link.Platform.Rounds.Recorded.{
  round_roster-granted, charge_round-ok, record_round-IsRecorded, run_round-history,
}

module _ (fl : Floats) (formats : Formats fl) (ka : KeyAgreement) where
  -- What a released round leaves: the decision that allowed it, the round that the cohort's server has
  -- run, which is the last of that server and of the cohort, the budget with its epsilon and delta
  -- added, one more event, and one new audit entry, the same in memory and in the store.
  pub record IsRoundReleased (draws : RoundDraws fl formats ka) (args : QueryArgs fl formats ka)
      (clients_by_org : Dict String (FederatedClient fl)) (drop : List String) (epochs : ℕ)
      (p p' : Platform fl formats ka) (r : RoundResult ka fl) : Type 0 where
    pub decision : QueryDecision fl
    pub evaluated :
        evaluate fl p.policy draws.query_id (request_of fl formats ka "federated_model_round" args)
        ≡ ok decision
    pub allowed : decision.allowed ≡ true
    pub roster : List (FederatedClient fl)
    pub members : roster ≡ roster_of fl formats ka decision.participants clients_by_org
    pub server : FederatedServer ka fl
    pub servers : Dict String (FederatedServer ka fl)
    pub opened :
        open_server fl formats ka p.servers (key_of fl formats ka args) roster
        ≡ ok (server, servers)
    pub after : FederatedServer ka fl
    pub ran :
        run_round ka fl draws.round server roster (round_args fl formats ka args drop epochs)
        ≡ ok (r, after)
    pub grown : after.history ≡ server.history ++ r ∷ []
    pub served : lookup (key_of fl formats ka args) p'.servers ≡ some after
    pub last : lookup (key_of fl formats ka args) p'.last_round ≡ some r
    pub spent : p'.accountant.spent ≡ record {
      epsilon = fl.add p.accountant.spent.epsilon args.epsilon;
      delta = fl.add p.accountant.spent.delta args.delta;
    }
    pub event : Event fl
    pub charged : p'.accountant.events ≡ p.accountant.events ++ event ∷ []
    pub entry : AuditEntry String (Entry fl formats ka)
    pub logged : p'.audit.entries ≡ p.audit.entries ++ entry ∷ []
    pub stored : p'.store.audit ≡ p.store.audit ++ entry ∷ []

  module _ (setup : Setup fl formats ka) (draws : RoundDraws fl formats ka)
      (p p' : Platform fl formats ka) (clients_by_org : Dict String (FederatedClient fl))
      (args : QueryArgs fl formats ka) (drop : List String) (epochs : ℕ) (r : RoundResult ka fl)
      (d : QueryDecision fl) (roster : List (FederatedClient fl))
      (given : granted fl formats ka draws.query_id p "federated_model_round" args ≡ ok d)
      (members : roster ≡ roster_of fl formats ka d.participants clients_by_org) where
    round_charged-IsRoundReleased :
        (server after : FederatedServer ka fl) (servers : Dict String (FederatedServer ka fl))
        (result : RoundResult ka fl) (out : Result (PrivacyAccountant fl × Event fl))
        → open_server fl formats ka p.servers (key_of fl formats ka args) roster
          ≡ ok (server, servers)
        → run_round ka fl draws.round server roster (round_args fl formats ka args drop epochs)
          ≡ ok (result, after)
        → charge_round fl formats ka draws p.accountant args result ≡ out
        → round_charged fl formats ka setup draws
            (length server.history)
            (record p { servers = insert (key_of fl formats ka args) after servers })
            after
            args
            result
            out
          ≡ (p', ok r)
        → IsRoundReleased draws args clients_by_org drop epochs p p' r
    unfolding round_charged
    round_charged-IsRoundReleased server after servers result (err f) opened ran paid h =
        cc (ap (λ o. o.1) h)
    round_charged-IsRoundReleased server after servers result (ok (a, e)) opened ran paid h =
        let key = key_of fl formats ka args in
        let (evaluated, allowed) =
          granted-ok fl formats ka draws.query_id p "federated_model_round" args given in
        let (spent, events) = charge_round-ok fl formats ka draws p.accountant args result paid in
        let moved : Platform fl formats ka = record p {
          servers = insert key after servers;
          accountant = a;
        } in
        let before : fl.Float × fl.Float = (p.accountant.spent.epsilon, p.accountant.spent.delta) in
        let (_, recorded, same) =
          and_then-ok fl formats ka
            (record_round fl formats ka setup draws before (length server.history) moved after args
              result)
            (λ q done. result) p' r h in
        let left =
          record_round-IsRecorded fl formats ka setup draws before (length server.history) moved p'
            after args result recorded in
        let kept = left.same_accountant in
        let ran' : run_round ka fl draws.round server roster
              (round_args fl formats ka args drop epochs)
            ≡ ok (r, after) =
          ran ∙ ap (λ z. ok (z, after)) same in
        record {
          decision = d;
          evaluated = evaluated;
          allowed = allowed;
          roster = roster;
          members = members;
          server = server;
          servers = servers;
          opened = opened;
          after = after;
          ran = ran';
          grown =
              (run_round-history fl formats ka draws server after roster args drop epochs r ran').0;
          served = ap (lookup key) left.same_servers ∙ lookup-insert_self key after servers;
          last =
              ap (lookup key) left.last_rounds
              ∙ lookup-insert_self key result p.last_round
              ∙ ap some same;
          spent = ap (λ z. z.spent) kept ∙ spent;
          event = e;
          charged = ap (λ z. z.events) kept ∙ events;
          entry = left.entry;
          logged = left.logged;
          stored = left.stored;
        }

    round_run-IsRoundReleased :
        (server : FederatedServer ka fl) (servers : Dict String (FederatedServer ka fl))
        (out : Result (RoundResult ka fl × FederatedServer ka fl))
        → open_server fl formats ka p.servers (key_of fl formats ka args) roster
          ≡ ok (server, servers)
        → run_round ka fl draws.round server roster (round_args fl formats ka args drop epochs)
          ≡ out
        → round_run fl formats ka setup draws
            (length server.history)
            (record p { servers = servers })
            args
            out
          ≡ (p', ok r)
        → IsRoundReleased draws args clients_by_org drop epochs p p' r
    unfolding round_run
    round_run-IsRoundReleased server servers (err f) opened ran h = cc (ap (λ o. o.1) h)
    round_run-IsRoundReleased server servers (ok (result, after)) opened ran h =
        round_charged-IsRoundReleased server after servers result
          (charge_round fl formats ka draws p.accountant args result) opened ran refl h

    round_opened-IsRoundReleased :
        (out : Result (FederatedServer ka fl × Dict String (FederatedServer ka fl)))
        → open_server fl formats ka p.servers (key_of fl formats ka args) roster ≡ out
        → round_opened fl formats ka setup draws p roster args drop epochs out ≡ (p', ok r)
        → IsRoundReleased draws args clients_by_org drop epochs p p' r
    unfolding round_opened
    round_opened-IsRoundReleased (err f) opened h = cc (ap (λ o. o.1) h)
    round_opened-IsRoundReleased (ok (server, servers)) opened h =
        round_run-IsRoundReleased server servers
          (run_round ka fl draws.round server roster (round_args fl formats ka args drop epochs))
          opened refl h

  module _ (setup : Setup fl formats ka) (draws : RoundDraws fl formats ka)
      (p p' : Platform fl formats ka) (clients_by_org : Dict String (FederatedClient fl))
      (args : QueryArgs fl formats ka) (drop : List String) (epochs : ℕ)
      (r : RoundResult ka fl) where
    round_entered-IsRoundReleased :
        (out : Result (QueryDecision fl × List (FederatedClient fl)))
        → round_roster fl formats ka draws.query_id p clients_by_org args ≡ out
        → round_entered fl formats ka setup draws p args drop epochs out ≡ (p', ok r)
        → IsRoundReleased draws args clients_by_org drop epochs p p' r
    unfolding round_entered
    round_entered-IsRoundReleased (err f) made h = cc (ap (λ o. o.1) h)
    round_entered-IsRoundReleased (ok (d, roster)) made h =
        let (given, members) =
          round_roster-granted fl formats ka draws.query_id p clients_by_org args d roster made in
        round_opened-IsRoundReleased setup draws p p' clients_by_org args drop epochs r d roster
          given members (open_server fl formats ka p.servers (key_of fl formats ka args) roster)
          refl h

    -- A federated round that returns was allowed by the policy engine, its result is what the server
    -- of the cohort, found or made, has run over the participants' clients, and the last of that
    -- server's history and of the cohort; its epsilon and delta were added to the spent budget
    -- with one event, and one audit entry was appended, the same in memory and in the store.
    pub run_federated_round-IsRoundReleased :
        run_federated_round fl formats ka setup draws p clients_by_org args drop epochs ≡ (p', ok r)
        → IsRoundReleased draws args clients_by_org drop epochs p p' r
    unfolding run_federated_round
    run_federated_round-IsRoundReleased h =
        round_entered-IsRoundReleased
          (round_roster fl formats ka draws.query_id p clients_by_org args) refl h
