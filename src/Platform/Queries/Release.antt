-- ===== src/Platform/Queries/Release.antt =====
-- What a protected query that is released has gone through, whatever its statistic and its noise.
use sentry_link.Base.{
  String, true, not, not-false, subst, [], ◌∷◌, ◌++◌, length, Option, some, ◌≡◌, refl, sym, ap, ◌∙◌,
  arith,
}
use sentry_link.Base.Dict.{Dict}
use sentry_link.Errors.{Result, ok, err, returned, raise_if-ok, ok_injective}
use sentry_link.Errors.Codes.{error_for_code}
use sentry_link.Floats.{Floats, zero_float}
use sentry_link.Crypto.SecureAggregation.{KeyAgreement}
use sentry_link.Crypto.DifferentialPrivacy.{rdp_alphas, laplace_rdp_cost}
use sentry_link.Crypto.DifferentialPrivacy.Accountant.{
  PrivacyBudget, PrivacyAccountant, Event, new_budget,
}
use sentry_link.Crypto.DifferentialPrivacy.Ledger.{charge-ok}
use sentry_link.Governance.Audit.{AuditEntry, record_entry}
use sentry_link.Governance.Policy.{QueryDecision, evaluate, raise_if_denied}
use sentry_link.Privacy.{build_release_card}
use sentry_link.Storage.Codec.{Formats, RawBudget, encode_budget}
use sentry_link.Storage.Memory.{Op}
use sentry_link.Storage.Memory.Bundles.{commit-appends}
use sentry_link.Storage.Memory.Budgets.{commit-budget}
use sentry_link.Platform.{Platform, Setup, Detail, Entry, commit_bundle, audit_entry}
use sentry_link.Platform.Commits.{settle-ok, and_then-ok}
use sentry_link.Platform.Queries.{
  QueryDraws, QueryArgs, QueryResult, Noisy, LaplaceQuery, request_of, granted, charge_laplace,
  record_query, query_details, query_result, query_released, query_charged, query_from,
}

module _ (fl : Floats) (formats : Formats fl) (ka : KeyAgreement) where
  pub granted-ok :
      (query_id : String) (p : Platform fl formats ka) (metric : String)
      (args : QueryArgs fl formats ka) {d : QueryDecision fl}
      → granted fl formats ka query_id p metric args ≡ ok d
      → (evaluate fl p.policy query_id (request_of fl formats ka metric args) ≡ ok d)
        × (d.allowed ≡ true)
  unfolding granted raise_if_denied
  granted-ok query_id p metric args {d} h =
      let (d', made, h₁) =
        returned (evaluate fl p.policy query_id (request_of fl formats ka metric args)) _ d h in
      let (open_to, done) = raise_if-ok (not d'.allowed) (error_for_code d'.code) (ok d') d h₁ in
      let same = ok_injective d' d done in
      (made ∙ ap ok same, subst (λ z. z.allowed ≡ true) same (not-false _ open_to))

  pub new_budget-ok :
      (epsilon delta : fl.Float) {b : PrivacyBudget fl}
      → new_budget fl epsilon delta ≡ ok b
      → b ≡ record { epsilon = epsilon; delta = delta }
  unfolding new_budget
  new_budget-ok epsilon delta h = ground arith

  pub charge_laplace-ok :
      {Raw : Type 0} (q : LaplaceQuery fl formats ka Raw) (draws : QueryDraws fl formats ka)
      (p : Platform fl formats ka) (d : QueryDecision fl) (args : QueryArgs fl formats ka)
      {a : PrivacyAccountant fl} {e : Event fl}
      → charge_laplace fl formats ka q draws p d args ≡ ok (a, e)
      → (a.spent ≡ record {
        epsilon = fl.add p.accountant.spent.epsilon args.epsilon;
        delta = fl.add p.accountant.spent.delta (zero_float fl);
      })
        × (a.events ≡ p.accountant.events ++ e ∷ [])
  unfolding charge_laplace
  charge_laplace-ok q draws p d args {a} {e} h =
      let (cost, costed, h₁) = returned (new_budget fl args.epsilon (zero_float fl)) _ (a, e) h in
      let (rdp_cost, _, h₂) = returned (laplace_rdp_cost fl args.epsilon rdp_alphas) _ (a, e) h₁ in
      let (_, spent, events, _, _, _) = charge-ok fl p.accountant _ h₂ in
      let same = new_budget-ok args.epsilon (zero_float fl) costed in
      (
        spent
            ∙ ap
                (λ (b : PrivacyBudget fl). record {
                  epsilon = fl.add p.accountant.spent.epsilon b.epsilon;
                  delta = fl.add p.accountant.spent.delta b.delta;
                })
                same,
        events,
      )

  -- What a query that was recorded and committed leaves.
  pub record IsRecorded (p p' : Platform fl formats ka) : Type 0 where
    pub entry : AuditEntry String (Entry fl formats ka)
    pub same_accountant : p'.accountant ≡ p.accountant
    pub logged : p'.audit.entries ≡ p.audit.entries ++ entry ∷ []
    pub stored : p'.store.audit ≡ p.store.audit ++ entry ∷ []
    pub budget : RawBudget fl formats
    pub saved : p'.store.budget ≡ some budget
    pub saved_spent : budget.spent ≡ (p.accountant.spent.epsilon, p.accountant.spent.delta)

  record_query-IsRecorded :
      (setup : Setup fl formats ka) (draws : QueryDraws fl formats ka)
      (before : fl.Float × fl.Float) (p p' : Platform fl formats ka) (action : String)
      (details : Dict String (Detail fl.Float)) (request_id : Option String)
      → record_query fl formats ka setup draws before p action details request_id ≡ (p', ok tt)
      → IsRecorded p p'
  unfolding record_query commit_bundle audit_entry record_entry encode_budget
  record_query-IsRecorded setup draws before p p' action details request_id h =
      let (entry, audited) =
        audit_entry fl formats ka setup p draws.stamp request_id action details in
      let raw : RawBudget fl formats = encode_budget fl formats audited.accountant in
      let write : Op fl formats ka (Entry fl formats ka) = Op.save_budget raw before in
      let (clean, same) = settle-ok fl formats ka setup _ p' _ h in
      let (_, log) =
        commit-appends fl formats ka (Entry fl formats ka) (write ∷ []) entry entry.prev_hash
          p.store (refl, tt) clean in
      let (budget, saved, spent) =
        commit-budget fl formats ka (Entry fl formats ka) raw before
          (Op.append_audit entry entry.prev_hash ∷ []) p.store (refl, tt) clean in
      record {
        entry = entry;
        same_accountant = ap (λ q. q.accountant) same;
        logged = ap (λ q. q.audit.entries) same;
        stored = ap (λ q. q.store.audit) same ∙ log;
        budget = budget;
        saved = ap (λ q. q.store.budget) same ∙ saved;
        saved_spent = spent;
      }

  -- What a released query leaves: the decision that allowed it, the budget with its epsilon and no
  -- delta added, live and stored, one more event, one new audit entry, the same in memory and in the
  -- store, and a card with the size of the cohort and what was charged.
  pub record IsReleased (metric : String) (draws : QueryDraws fl formats ka)
      (args : QueryArgs fl formats ka) (p p' : Platform fl formats ka)
      (r : QueryResult fl formats ka) : Type 0 where
    pub decision : QueryDecision fl
    pub evaluated :
        evaluate fl p.policy draws.query_id (request_of fl formats ka metric args) ≡ ok decision
    pub allowed : decision.allowed ≡ true
    pub participants : r.participants ≡ decision.participants
    pub spent : p'.accountant.spent ≡ record {
      epsilon = fl.add p.accountant.spent.epsilon args.epsilon;
      delta = fl.add p.accountant.spent.delta (zero_float fl);
    }
    pub event : Event fl
    pub charged : p'.accountant.events ≡ p.accountant.events ++ event ∷ []
    pub entry : AuditEntry String (Entry fl formats ka)
    pub logged : p'.audit.entries ≡ p.audit.entries ++ entry ∷ []
    pub stored : p'.store.audit ≡ p.store.audit ++ entry ∷ []
    pub budget : RawBudget fl formats
    pub saved : p'.store.budget ≡ some budget
    pub saved_spent : budget.spent ≡ (p'.accountant.spent.epsilon, p'.accountant.spent.delta)
    pub card_cohort : r.privacy_card.cohort_size ≡ length r.participants
    pub card_cost : (r.privacy_card.epsilon ≡ args.epsilon) × (r.privacy_card.delta ≡ zero_float fl)

  module _ {Raw : Type 0} (q : LaplaceQuery fl formats ka Raw) (setup : Setup fl formats ka)
      (draws : QueryDraws fl formats ka) (p p' : Platform fl formats ka)
      (args : QueryArgs fl formats ka) (r : QueryResult fl formats ka) where
    -- A release with the draws that it comes from.
    abbrev Released : Result (QueryDecision fl × Raw) → Type 0
    Released figure =
        IsReleased q.metric draws args p p' r
        × ((d : QueryDecision fl) × (raw : Raw) × (figure ≡ ok (d, raw))
            × (r.participants ≡ d.participants)
            × (out : Noisy fl formats ka) × (q.release draws raw args ≡ ok out)
            × (r.value ≡ out.value)
            × (r.noise_sigma ≡ out.noise_sigma)
            × (r.raw_value ≡ q.raw_value raw))

    query_released-IsReleased :
        (d : QueryDecision fl) (a : PrivacyAccountant fl) (e : Event fl) (raw : Raw)
        (out : Result (Noisy fl formats ka))
        → granted fl formats ka draws.query_id p q.metric args ≡ ok d
        → charge_laplace fl formats ka q draws p d args ≡ ok (a, e)
        → q.release draws raw args ≡ out
        → query_released fl formats ka q setup draws
            (p.accountant.spent.epsilon, p.accountant.spent.delta)
            (record p { accountant = a })
            d
            raw
            args
            out
          ≡ (p', ok r)
        → Released (ok (d, raw))
    unfolding query_released query_result build_release_card
    query_released-IsReleased d a e raw (err f) given paid made h = cc (ap (λ o. o.1) h)
    query_released-IsReleased d a e raw (ok out) given paid made h =
        let (evaluated, allowed) = granted-ok draws.query_id p q.metric args given in
        let (spent, events) = charge_laplace-ok q draws p d args paid in
        let before : fl.Float × fl.Float = (p.accountant.spent.epsilon, p.accountant.spent.delta) in
        let charged : Platform fl formats ka = record p { accountant = a } in
        let details : Dict String (Detail fl.Float) = query_details fl formats ka q d args out in
        let (_, recorded, result) =
          and_then-ok fl formats ka
            (record_query fl formats ka setup draws before charged q.action details args.request_id)
            (λ p' done. query_result fl formats ka q draws p'.accountant d raw args out) p' r h in
        let left =
          record_query-IsRecorded setup draws before charged p' q.action details args.request_id
            recorded in
        let kept = left.same_accountant in
        let same = sym result in
        (
          record {
            decision = d;
            evaluated = evaluated;
            allowed = allowed;
            participants = ap (λ z. z.participants) same;
            spent = ap (λ z. z.spent) kept ∙ spent;
            event = e;
            charged = ap (λ z. z.events) kept ∙ events;
            entry = left.entry;
            logged = left.logged;
            stored = left.stored;
            budget = left.budget;
            saved = left.saved;
            saved_spent =
                left.saved_spent
                ∙ ap (λ (z : PrivacyAccountant fl). (z.spent.epsilon, z.spent.delta)) (sym kept);
            card_cohort =
                ap (λ z. z.privacy_card.cohort_size) same ∙ ap (λ z. length z.participants) result;
            card_cost =
                (ap (λ z. z.privacy_card.epsilon) same, ap (λ z. z.privacy_card.delta) same);
          },
          (
            d,
            raw,
            refl,
            ap (λ z. z.participants) same,
            out,
            made,
            ap (λ z. z.value) same,
            ap (λ z. z.noise_sigma) same,
            ap (λ z. z.raw_value) same,
          ),
        )

    query_charged-IsReleased :
        (d : QueryDecision fl) (raw : Raw) (out : Result (PrivacyAccountant fl × Event fl))
        → granted fl formats ka draws.query_id p q.metric args ≡ ok d
        → charge_laplace fl formats ka q draws p d args ≡ out
        → query_charged fl formats ka q setup draws p d raw args out ≡ (p', ok r)
        → Released (ok (d, raw))
    unfolding query_charged
    query_charged-IsReleased d raw (err f) given paid h = cc (ap (λ o. o.1) h)
    query_charged-IsReleased d raw (ok (a, e)) given paid h =
        query_released-IsReleased d a e raw (q.release draws raw args) given paid refl h

    -- A query whose statistic goes through the policy engine.
    pub query_from-IsReleased :
        (out : Result (QueryDecision fl × Raw))
        → ((d : QueryDecision fl) (raw : Raw)
            → out ≡ ok (d, raw)
            → granted fl formats ka draws.query_id p q.metric args ≡ ok d)
        → query_from fl formats ka q setup draws p args out ≡ (p', ok r)
        → Released out
    unfolding query_from
    query_from-IsReleased (err f) given h = cc (ap (λ o. o.1) h)
    query_from-IsReleased (ok (d, raw)) given h =
        query_charged-IsReleased d raw (charge_laplace fl formats ka q draws p d args)
          (given d raw refl) refl h
