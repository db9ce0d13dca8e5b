-- ===== src/Platform/Rounds/Recorded.antt =====
-- What the steps of a federated round of sentrylink/platform.py leave when they return.
use sentry_link.Base.{
  ℕ, String, text_eq, mem, filter, not, List, [], ◌∷◌, ◌++◌, length, ◌≡◌, refl, sym, ap, ◌∙◌, arith,
}
use sentry_link.Base.Dict.{Dict, insert}
use sentry_link.Errors.{ok, returned, ok_injective}
use sentry_link.Floats.{Floats}
use sentry_link.Crypto.SecureAggregation.{KeyAgreement}
use sentry_link.Crypto.DifferentialPrivacy.Accountant.{
  PrivacyBudget, PrivacyAccountant, Event, new_budget,
}
use sentry_link.Crypto.DifferentialPrivacy.Ledger.{charge-ok}
use sentry_link.Crypto.DifferentialPrivacy.{gaussian_sigma}
use sentry_link.Federated.Model.{FederatedClient, flat, from_flat}
use sentry_link.Federated.Server.{RoundResult, FederatedServer}
use sentry_link.Federated.Round.{run_round, mean_update, add_noise, add_vectors, secure_eval}
use sentry_link.Governance.Audit.{AuditEntry, record_entry}
use sentry_link.Governance.Policy.{QueryDecision}
use sentry_link.Storage.Codec.{Formats, encode_budget, encode_server, encode_round}
use sentry_link.Storage.Memory.{Op}
use sentry_link.Storage.Memory.Bundles.{commit-appends}
use sentry_link.Platform.{Platform, Setup, Entry, Write, audit_entry, commit_bundle}
use sentry_link.Platform.Commits.{settle-ok}
use sentry_link.Platform.Queries.{QueryArgs, granted}
use sentry_link.Platform.Queries.Release.{new_budget-ok}
use sentry_link.Platform.Rounds.{
  RoundDraws, key_of, roster_of, round_roster, round_rdp, charge_round, record_round, round_args,
  round_details,
}

module _ (fl : Floats) (formats : Formats fl) (ka : KeyAgreement) where
  pub round_roster-granted :
      (query_id : String) (p : Platform fl formats ka)
      (clients_by_org : Dict String (FederatedClient fl)) (args : QueryArgs fl formats ka)
      (d : QueryDecision fl) (roster : List (FederatedClient fl))
      → round_roster fl formats ka query_id p clients_by_org args ≡ ok (d, roster)
      → (granted fl formats ka query_id p "federated_model_round" args ≡ ok d)
        × (roster ≡ roster_of fl formats ka d.participants clients_by_org)
  unfolding round_roster
  round_roster-granted query_id p clients_by_org args d roster h = ground arith

  pub charge_round-ok :
      (draws : RoundDraws fl formats ka) (accountant : PrivacyAccountant fl)
      (args : QueryArgs fl formats ka) (r : RoundResult ka fl) {a : PrivacyAccountant fl}
      {e : Event fl}
      → charge_round fl formats ka draws accountant args r ≡ ok (a, e)
      → (a.spent ≡ record {
        epsilon = fl.add accountant.spent.epsilon args.epsilon;
        delta = fl.add accountant.spent.delta args.delta;
      })
        × (a.events ≡ accountant.events ++ e ∷ [])
  unfolding charge_round
  charge_round-ok draws accountant args r {a} {e} h =
      let (cost, costed, h₁) = returned (new_budget fl args.epsilon args.delta) _ (a, e) h in
      let (rdp_cost, _, h₂) = returned (round_rdp fl formats ka r) _ (a, e) h₁ in
      let (_, spent, events, _, _, _) = charge-ok fl accountant _ h₂ in
      let same = new_budget-ok fl formats ka args.epsilon args.delta costed in
      (
        spent
            ∙ ap
                (λ (b : PrivacyBudget fl). record {
                  epsilon = fl.add accountant.spent.epsilon b.epsilon;
                  delta = fl.add accountant.spent.delta b.delta;
                })
                same,
        events,
      )

  -- What a round that was recorded and committed leaves.
  pub record IsRecorded (p p' : Platform fl formats ka) (args : QueryArgs fl formats ka)
      (r : RoundResult ka fl) : Type 0 where
    pub entry : AuditEntry String (Entry fl formats ka)
    pub same_accountant : p'.accountant ≡ p.accountant
    pub same_servers : p'.servers ≡ p.servers
    pub last_rounds : p'.last_round ≡ insert (key_of fl formats ka args) r p.last_round
    pub logged : p'.audit.entries ≡ p.audit.entries ++ entry ∷ []
    pub stored : p'.store.audit ≡ p.store.audit ++ entry ∷ []

  pub record_round-IsRecorded :
      (setup : Setup fl formats ka) (draws : RoundDraws fl formats ka)
      (before : fl.Float × fl.Float) (rounds : ℕ) (p p' : Platform fl formats ka)
      (server : FederatedServer ka fl) (args : QueryArgs fl formats ka) (r : RoundResult ka fl)
      → record_round fl formats ka setup draws before rounds p server args r ≡ (p', ok tt)
      → IsRecorded p p' args r
  unfolding record_round commit_bundle audit_entry record_entry
  record_round-IsRecorded setup draws before rounds p p' server args r h =
      let key = key_of fl formats ka args in
      let kept : Platform fl formats ka = record p { last_round = insert key r p.last_round } in
      let (entry, audited) =
        audit_entry fl formats ka setup kept draws.stamp args.request_id "federated.round"
          (round_details fl formats ka args r) in
      let writes : List (Write fl formats ka) =
        Op.save_budget (encode_budget fl formats audited.accountant) before
        ∷ Op.save_server (encode_server fl formats ka key server) rounds
        ∷ Op.append_round key (encode_round fl formats ka key r)
        ∷ [] in
      let (clean, same) = settle-ok fl formats ka setup _ p' _ h in
      let (_, log) =
        commit-appends fl formats ka (Entry fl formats ka) writes entry entry.prev_hash p.store
          (refl, (refl, (refl, tt))) clean in
      record {
        entry = entry;
        same_accountant = ap (λ q. q.accountant) same;
        same_servers = ap (λ q. q.servers) same;
        last_rounds = ap (λ q. q.last_round) same;
        logged = ap (λ q. q.audit.entries) same;
        stored = ap (λ q. q.store.audit) same ∙ log;
      }

  -- The server that a round leaves has that round at the end of its history, and the round reports
  -- the epsilon and the delta that it was run with.
  pub run_round-history :
      (draws : RoundDraws fl formats ka) (server after : FederatedServer ka fl)
      (roster : List (FederatedClient fl)) (args : QueryArgs fl formats ka) (drop : List String)
      (epochs : ℕ) (r : RoundResult ka fl)
      → run_round ka fl draws.round server roster (round_args fl formats ka args drop epochs)
        ≡ ok (r, after)
      → (after.history ≡ server.history ++ r ∷ [])
        × (r.epsilon_used ≡ args.epsilon)
        × (r.delta_used ≡ args.delta)
  unfolding run_round add_noise
  run_round-history draws server after roster args drop epochs r h =
      let active = filter (λ c. not (mem c.org_id drop)) roster in
      let plan = round_args fl formats ka args drop epochs in
      let (mean, _, h₁) =
        returned (mean_update ka fl draws.round server.model roster plan) _ (r, after) h in
      let (noised, added, h₂) =
        returned (add_noise ka fl draws.round plan (length active) mean) _ (r, after) h₁ in
      let (model, _, h₃) =
        returned (from_flat fl server.dim (add_vectors ka fl (flat fl server.model) noised.0)) _
          (r, after) h₂ in
      let (stats, _, h₄) = returned (secure_eval ka fl draws.round active model) _ (r, after) h₃ in
      let (sigma, _, noise) =
        returned (gaussian_sigma fl _ args.epsilon args.delta) _ noised added in
      let same = ok_injective _ (r, after) h₄ in
      (
        ap (λ z. z.1.history) (sym same) ∙ ap (λ z. server.history ++ z.0 ∷ []) same,
        ap (λ z. z.0.epsilon_used) (sym same) ∙ ap (λ z. z.1) (sym (ok_injective _ noised noise)),
        ap (λ z. z.0.delta_used) (sym same),
      )
