-- ===== src/Platform/Sync/Bundles.antt =====
-- What each call of sentrylink/platform.py that returns does to the agreement with the store.
use sentry_link.Base.{
  ℕ, String, text_eq, false, List, [], ◌∷◌, ◌++◌, length, Option, some_injective, All, ◌≡◌, refl,
  sym, ap, ◌∙◌,
}
use sentry_link.Base.Dict.{Dict, insert}
use sentry_link.Errors.{Result, ok, err}
use sentry_link.Floats.{Floats}
use sentry_link.Crypto.SecureAggregation.{KeyAgreement}
use sentry_link.Crypto.DifferentialPrivacy.Accountant.{PrivacyAccountant, Event}
use sentry_link.Federated.Model.{FederatedClient}
use sentry_link.Federated.Server.{RoundResult, FederatedServer}
use sentry_link.Federated.Round.{run_round}
use sentry_link.Governance.Audit.{record_entry}
use sentry_link.Governance.Policy.{
  PolicyEngine, QueryDecision, policy_of, set_policy, default_policy_for,
}
use sentry_link.Governance.Registry.{Organization, Registry}
use sentry_link.Storage.Codec.{
  Formats, encode_org, encode_policy, encode_budget, encode_server, encode_round,
}
use sentry_link.Storage.Memory.{Op, commit}
use sentry_link.Storage.Memory.Budgets.{is_budget, apply_ops-same_budget, commit-budget}
use sentry_link.Platform.{Platform, Setup, Stamp, Entry, Write, Detail, audit_entry}
use sentry_link.Platform.Commits.{and_then-ok}
use sentry_link.Platform.Onboarding.{join_registered, join_policy, consent_changed}
use sentry_link.Platform.Queries.{
  QueryDraws, QueryArgs, QueryResult, LaplaceQuery, Noisy, record_query, query_details,
  query_result, query_released, query_charged, query_from, charge_laplace,
}
use sentry_link.Platform.Rounds.{
  RoundDraws, round_entered, round_opened, round_run, round_charged, record_round, open_server,
  round_args, round_details, charge_round, key_of,
}
use sentry_link.Platform.Sync.{IsSynced, IsCommitted, commit_bundle-IsCommitted}

module _ (fl : Floats) (formats : Formats fl) (ka : KeyAgreement)
    (setup : Setup fl formats ka) where
  abbrev State : Type 0
  State = Platform fl formats ka

  -- A committed bundle without a budget keeps the platform in agreement.
  quiet-IsSynced :
      (p q p' : State) (writes : List (Write fl formats ka))
      → All (λ w. is_budget fl formats ka (Entry fl formats ka) w ≡ false) writes
      → IsCommitted fl formats ka q p' writes
      → q.store ≡ p.store
      → q.accountant ≡ p.accountant
      → IsSynced fl formats ka p
      → IsSynced fl formats ka p'
  unfolding commit
  quiet-IsSynced p q p' writes quiet left same_store same_accountant synced =
      let budget =
        ap (λ x. x.store.budget) left.same
        ∙ apply_ops-same_budget fl formats ka (Entry fl formats ka) writes _ q.store quiet
        ∙ ap (λ x. x.budget) same_store in
      record {
        same_tip = left.same_tip;
        same_spent = λ b kept.
            synced.same_spent b (sym budget ∙ kept)
            ∙ ap (λ (a : PrivacyAccountant fl). (a.spent.epsilon, a.spent.delta))
                (sym (ap (λ x. x.accountant) left.same ∙ same_accountant));
      }

  -- A committed bundle that starts with the live budget does, too.
  saved-IsSynced :
      (q p' : State) (before : fl.Float × fl.Float) (rest : List (Write fl formats ka))
      → All (λ w. is_budget fl formats ka (Entry fl formats ka) w ≡ false) rest
      → IsCommitted fl formats ka q p'
          (Op.save_budget (encode_budget fl formats q.accountant) before ∷ rest)
      → IsSynced fl formats ka p'
  unfolding encode_budget
  saved-IsSynced q p' before rest quiet left =
      let (b, saved, spent) =
        commit-budget fl formats ka (Entry fl formats ka) (encode_budget fl formats q.accountant)
          before rest q.store quiet left.clean in
      record {
        same_tip = left.same_tip;
        same_spent = λ c kept.
            ap (λ x. x.spent)
              (some_injective (sym kept ∙ ap (λ x. x.store.budget) left.same ∙ saved))
            ∙ spent
            ∙ ap (λ (a : PrivacyAccountant fl). (a.spent.epsilon, a.spent.delta))
                (sym (ap (λ x. x.accountant) left.same));
      }

  pub consent_changed-IsSynced :
      (stamp : Stamp fl formats ka) (p p' : State) (org_id : String) (metrics : List String)
      (request_id : Option String) (engine : Result (PolicyEngine fl))
      → consent_changed fl formats ka setup stamp p org_id metrics request_id engine ≡ (p', ok tt)
      → IsSynced fl formats ka p
      → IsSynced fl formats ka p'
  unfolding consent_changed audit_entry record_entry
  consent_changed-IsSynced stamp p p' org_id metrics request_id (err f) h synced =
      cc (ap (λ o. o.1) h)
  consent_changed-IsSynced stamp p p' org_id metrics request_id (ok engine) h synced =
      let writes : List (Write fl formats ka) =
        Op.save_policy org_id (encode_policy fl (policy_of fl engine org_id)) ∷ [] in
      quiet-IsSynced p _ p' _ (refl, (refl, tt))
        (commit_bundle-IsCommitted fl formats ka setup _ p' writes _ (refl, tt) refl h) refl refl
        synced

  join_policy-IsSynced :
      (stamp : Stamp fl formats ka) (p p' : State) (org r : Organization) (name domain : String)
      (request_id : Option String) (engine : Result (PolicyEngine fl))
      → join_policy fl formats ka setup stamp p org name domain request_id engine ≡ (p', ok r)
      → IsSynced fl formats ka p
      → IsSynced fl formats ka p'
  unfolding join_policy audit_entry record_entry
  join_policy-IsSynced stamp p p' org r name domain request_id (err f) h synced =
      cc (ap (λ o. o.1) h)
  join_policy-IsSynced stamp p p' org r name domain request_id (ok engine) h synced =
      let writes : List (Write fl formats ka) =
        Op.save_org (encode_org setup.key_hash org)
        ∷ Op.save_policy org.org_id (encode_policy fl (policy_of fl engine org.org_id))
        ∷ [] in
      let (_, recorded, _) = and_then-ok fl formats ka _ (λ q done. org) p' r h in
      quiet-IsSynced p _ p' _ (refl, (refl, (refl, tt)))
        (commit_bundle-IsCommitted fl formats ka setup _ p' writes _ (refl, (refl, tt)) refl
          recorded)
        refl refl synced

  pub join_registered-IsSynced :
      (stamp : Stamp fl formats ka) (p p' : State) (r : Organization) (name domain : String)
      (request_id : Option String) (out : Result (Organization × Registry))
      → join_registered fl formats ka setup stamp p name domain request_id out ≡ (p', ok r)
      → IsSynced fl formats ka p
      → IsSynced fl formats ka p'
  unfolding join_registered
  join_registered-IsSynced stamp p p' r name domain request_id (err f) h synced =
      cc (ap (λ o. o.1) h)
  join_registered-IsSynced stamp p p' r name domain request_id (ok (org, registry)) h synced =
      let registered : PolicyEngine fl = record p.policy { registry = registry } in
      join_policy-IsSynced stamp (record p { policy = registered }) p' org r name domain request_id
        (set_policy fl registered org.org_id (default_policy_for fl org)) h
        (record { same_tip = synced.same_tip; same_spent = synced.same_spent })

  record_query-IsSynced :
      (draws : QueryDraws fl formats ka) (before : fl.Float × fl.Float) (p p' : State)
      (action : String) (details : Dict String (Detail fl.Float)) (request_id : Option String)
      → record_query fl formats ka setup draws before p action details request_id ≡ (p', ok tt)
      → IsSynced fl formats ka p'
  unfolding record_query audit_entry record_entry
  record_query-IsSynced draws before p p' action details request_id h =
      let (entry, audited) =
        audit_entry fl formats ka setup p draws.stamp request_id action details in
      let save : Write fl formats ka =
        Op.save_budget (encode_budget fl formats audited.accountant) before in
      saved-IsSynced audited p' before (Op.append_audit entry entry.prev_hash ∷ []) (refl, tt)
        (commit_bundle-IsCommitted fl formats ka setup audited p' (save ∷ []) entry (refl, tt) refl
          h)

  module _ {Raw : Type 0} (q : LaplaceQuery fl formats ka Raw) (draws : QueryDraws fl formats ka)
      (args : QueryArgs fl formats ka) (r : QueryResult fl formats ka) where
    query_released-IsSynced :
        (before : fl.Float × fl.Float) (p p' : State) (d : QueryDecision fl) (raw : Raw)
        (out : Result (Noisy fl formats ka))
        → query_released fl formats ka q setup draws before p d raw args out ≡ (p', ok r)
        → IsSynced fl formats ka p'
    unfolding query_released
    query_released-IsSynced before p p' d raw (err f) h = cc (ap (λ o. o.1) h)
    query_released-IsSynced before p p' d raw (ok out) h =
        let details = query_details fl formats ka q d args out in
        let (_, recorded, _) =
          and_then-ok fl formats ka
            (record_query fl formats ka setup draws before p q.action details args.request_id)
            (λ x done. query_result fl formats ka q draws x.accountant d raw args out) p' r h in
        record_query-IsSynced draws before p p' q.action details args.request_id recorded

    query_charged-IsSynced :
        (p p' : State) (d : QueryDecision fl) (raw : Raw)
        (out : Result (PrivacyAccountant fl × Event fl))
        → query_charged fl formats ka q setup draws p d raw args out ≡ (p', ok r)
        → IsSynced fl formats ka p'
    unfolding query_charged
    query_charged-IsSynced p p' d raw (err f) h = cc (ap (λ o. o.1) h)
    query_charged-IsSynced p p' d raw (ok (a, e)) h =
        query_released-IsSynced (p.accountant.spent.epsilon, p.accountant.spent.delta)
          (record p { accountant = a }) p' d raw (q.release draws raw args) h

    pub query_from-IsSynced :
        (p p' : State) (out : Result (QueryDecision fl × Raw))
        → query_from fl formats ka q setup draws p args out ≡ (p', ok r)
        → IsSynced fl formats ka p'
    unfolding query_from
    query_from-IsSynced p p' (err f) h = cc (ap (λ o. o.1) h)
    query_from-IsSynced p p' (ok (d, raw)) h =
        query_charged-IsSynced p p' d raw (charge_laplace fl formats ka q draws p d args) h

  record_round-IsSynced :
      (draws : RoundDraws fl formats ka) (before : fl.Float × fl.Float) (n : ℕ) (p p' : State)
      (server : FederatedServer ka fl) (args : QueryArgs fl formats ka) (r : RoundResult ka fl)
      → record_round fl formats ka setup draws before n p server args r ≡ (p', ok tt)
      → IsSynced fl formats ka p'
  unfolding record_round audit_entry record_entry
  record_round-IsSynced draws before n p p' server args r h =
      let key = key_of fl formats ka args in
      let kept : State = record p { last_round = insert key r p.last_round } in
      let (entry, audited) =
        audit_entry fl formats ka setup kept draws.stamp args.request_id "federated.round"
          (round_details fl formats ka args r) in
      let save : Write fl formats ka =
        Op.save_budget (encode_budget fl formats audited.accountant) before in
      let others : List (Write fl formats ka) =
        Op.save_server (encode_server fl formats ka key server) n
        ∷ Op.append_round key (encode_round fl formats ka key r)
        ∷ [] in
      saved-IsSynced audited p' before (others ++ Op.append_audit entry entry.prev_hash ∷ [])
        (refl, (refl, (refl, tt)))
        (commit_bundle-IsCommitted fl formats ka setup audited p' (save ∷ others) entry
          (refl, (refl, (refl, tt))) refl h)

  module _ (draws : RoundDraws fl formats ka) (args : QueryArgs fl formats ka) (drop : List String)
      (epochs : ℕ) (r : RoundResult ka fl) where
    round_charged-IsSynced :
        (n : ℕ) (p p' : State) (server : FederatedServer ka fl) (result : RoundResult ka fl)
        (out : Result (PrivacyAccountant fl × Event fl))
        → round_charged fl formats ka setup draws n p server args result out ≡ (p', ok r)
        → IsSynced fl formats ka p'
    unfolding round_charged
    round_charged-IsSynced n p p' server result (err f) h = cc (ap (λ o. o.1) h)
    round_charged-IsSynced n p p' server result (ok (a, e)) h =
        let before : fl.Float × fl.Float = (p.accountant.spent.epsilon, p.accountant.spent.delta) in
        let paid : State = record p { accountant = a } in
        let (_, recorded, _) =
          and_then-ok fl formats ka
            (record_round fl formats ka setup draws before n paid server args result)
            (λ x done. result) p' r h in
        record_round-IsSynced draws before n paid p' server args result recorded

    round_run-IsSynced :
        (n : ℕ) (p p' : State) (out : Result (RoundResult ka fl × FederatedServer ka fl))
        → round_run fl formats ka setup draws n p args out ≡ (p', ok r)
        → IsSynced fl formats ka p'
    unfolding round_run
    round_run-IsSynced n p p' (err f) h = cc (ap (λ o. o.1) h)
    round_run-IsSynced n p p' (ok (result, server)) h =
        round_charged-IsSynced n
          (record p { servers = insert (key_of fl formats ka args) server p.servers }) p' server
          result (charge_round fl formats ka draws p.accountant args result) h

    pub round_entered-IsSynced :
        (p p' : State) (out : Result (QueryDecision fl × List (FederatedClient fl)))
        → round_entered fl formats ka setup draws p args drop epochs out ≡ (p', ok r)
        → IsSynced fl formats ka p'
    unfolding round_entered round_opened
    round_entered-IsSynced p p' (err f) h = cc (ap (λ o. o.1) h)
    round_entered-IsSynced p p' (ok (d, roster)) h =
        opened (open_server fl formats ka p.servers (key_of fl formats ka args) roster) h
      where
        opened :
            (out : Result (FederatedServer ka fl × Dict String (FederatedServer ka fl)))
            → round_opened fl formats ka setup draws p roster args drop epochs out ≡ (p', ok r)
            → IsSynced fl formats ka p'
        opened (err f) made = cc (ap (λ o. o.1) made)
        opened (ok (server, servers)) made =
            round_run-IsSynced (length server.history) (record p { servers = servers }) p'
              (run_round ka fl draws.round server roster
                (round_args fl formats ka args drop epochs))
              made
