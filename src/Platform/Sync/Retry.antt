-- ===== src/Platform/Sync/Retry.antt =====
-- A query of sentrylink/platform.py on a platform that agrees with its store, as after a conflict.
use sentry_link.Base.{
  String, text_eq, true, List, [], ◌∷◌, Option, none, some, some_injective, ◌≡◌, refl, sym, ap, ◌∙◌,
}
use sentry_link.Base.Dict.{Dict}
use sentry_link.Errors.{Failure, ok, err, returned, ok_injective}
use sentry_link.Floats.{Floats, IsNumber}
use sentry_link.Crypto.SecureAggregation.{KeyAgreement}
use sentry_link.Crypto.DifferentialPrivacy.Accountant.{
  PrivacyBudget, PrivacyAccountant, Event, new_budget,
}
use sentry_link.Governance.Audit.{genesis, tip, record_entry, restore}
use sentry_link.Governance.Policy.{QueryDecision}
use sentry_link.Storage.Codec.{Formats, RawBudget, encode_budget, decode_budget}
use sentry_link.Storage.Memory.{Op, apply_op, commit, stored_budget, merge_events, load}
use sentry_link.Storage.Memory.Bundles.{apply_ops-ok, appended}
use sentry_link.Platform.{
  Platform, Setup, Entry, Store, Write, Detail, and_then, audit_entry, commit_bundle, settle,
  restore_from,
}
use sentry_link.Platform.Commits.{
  commit_bundle-IsReconverged, restore_again, restore_from-IsRestored,
}
use sentry_link.Platform.Queries.Release.{new_budget-ok}
use sentry_link.Platform.Queries.{
  QueryDraws, QueryArgs, QueryResult, LaplaceQuery, Noisy, record_query, query_details,
  query_result, query_released, query_charged, query_from, charge_laplace,
}
use sentry_link.Platform.Sync.{IsSynced}

module _ (fl : Floats) (formats : Formats fl) (ka : KeyAgreement) where
  -- A budget that was written by the platform that now writes another is found unchanged.
  stored_budget-fresh :
      (cur : Option (RawBudget fl formats)) (raw : RawBudget fl formats)
      (expect : fl.Float × fl.Float)
      → IsNumber fl expect.0
      → IsNumber fl expect.1
      → ((b : RawBudget fl formats) → cur ≡ some b → b.spent ≡ expect)
      → (b : RawBudget fl formats) × (stored_budget fl formats ka
            (Entry fl formats ka)
            cur
            raw
            expect
          ≡ ok b)
  unfolding stored_budget
  stored_budget-fresh none raw expect hε hδ same = (raw, refl)
  stored_budget-fresh (some cur) raw expect hε hδ same =
      let spent = same cur refl in
      let e₀ : fl.eq cur.spent.0 expect.0 ≡ true = ap (λ x. fl.eq x.0 expect.0) spent ∙ hε in
      let e₁ : fl.eq cur.spent.1 expect.1 ≡ true = ap (λ x. fl.eq x.1 expect.1) spent ∙ hδ in
      (record raw { events = merge_events fl cur.events raw.events }, rw (e₀, e₁) refl)

  module _ (setup : Setup fl formats ka) where
    record_query-returns :
        (draws : QueryDraws fl formats ka) (before : fl.Float × fl.Float)
        (p : Platform fl formats ka) (action : String) (details : Dict String (Detail fl.Float))
        (request_id : Option String)
        → IsNumber fl before.0
        → IsNumber fl before.1
        → p.audit.prev_hash ≡ tip genesis p.store.audit
        → ((b : RawBudget fl formats) → p.store.budget ≡ some b → b.spent ≡ before)
        → (p' : Platform fl formats ka) × (record_query fl formats ka setup draws before p action
              details request_id
            ≡ (p', ok tt))
    unfolding record_query commit_bundle audit_entry record_entry commit settle
    record_query-returns draws before p action details request_id hε hδ same_tip same_spent =
        let (entry, audited) =
          audit_entry fl formats ka setup p draws.stamp request_id action details in
        let raw : RawBudget fl formats = encode_budget fl formats audited.accountant in
        let (b, fresh) = stored_budget-fresh p.store.budget raw before hε hδ same_spent in
        let saved : Store fl formats ka = record p.store { budget = some b } in
        let last = tip genesis p.store.audit in
        let clean =
          apply_ops-ok fl formats ka (Entry fl formats ka) (Op.save_budget raw before)
            (Op.append_audit entry entry.prev_hash ∷ []) last last p.store saved
            (apply_op-saved raw b fresh)
          ∙ appended fl formats ka (Entry fl formats ka) entry entry.prev_hash last saved
              (sym same_tip) in
        (_, ap (λ o. settle fl formats ka setup (record audited { store = o.0 }) o.1) clean)
      where
        apply_op-saved :
            (raw b : RawBudget fl formats)
            → stored_budget fl formats ka (Entry fl formats ka) p.store.budget raw before ≡ ok b
            → apply_op fl formats ka
                (Entry fl formats ka)
                (Op.save_budget raw before)
                (tip genesis p.store.audit)
                p.store
              ≡ ok (tip genesis p.store.audit, record p.store { budget = some b })
        apply_op-saved raw b h = rw (apply_op, h) refl

    -- On a platform that agrees with its store, and whose spent budget is of numbers, a query whose
    -- statistic is there, which the accountant admits and whose noise is drawn is committed and
    -- returns.
    pub query_from-returns :
        {Raw : Type 0} (q : LaplaceQuery fl formats ka Raw) (draws : QueryDraws fl formats ka)
        (p : Platform fl formats ka) (args : QueryArgs fl formats ka) (d : QueryDecision fl)
        (raw : Raw) (a : PrivacyAccountant fl) (e : Event fl) (out : Noisy fl formats ka)
        → IsSynced fl formats ka p
        → IsNumber fl p.accountant.spent.epsilon
        → IsNumber fl p.accountant.spent.delta
        → charge_laplace fl formats ka q draws p d args ≡ ok (a, e)
        → q.release draws raw args ≡ ok out
        → (p' : Platform fl formats ka) × (r : QueryResult fl formats ka) × (query_from fl formats
              ka q setup draws p args
              (ok (d, raw))
            ≡ (p', ok r))
    unfolding query_from query_charged query_released
    query_from-returns q draws p args d raw a e out synced hε hδ paid made =
        let before : fl.Float × fl.Float = (p.accountant.spent.epsilon, p.accountant.spent.delta) in
        let charged : Platform fl formats ka = record p { accountant = a } in
        let (p', done) =
          record_query-returns draws before charged q.action
            (query_details fl formats ka q d args out) args.request_id hε hδ synced.same_tip
            synced.same_spent in
        let r = query_result fl formats ka q draws p'.accountant d raw args out in
        (
          p',
          r,
          ap (query_charged fl formats ka q setup draws p d raw args) paid
              ∙ ap (query_released fl formats ka q setup draws before charged d raw args) made
              ∙ ap
                  (λ o. and_then fl formats ka o (λ x u.
                    (x, ok (query_result fl formats ka q draws x.accountant d raw args out))))
                  done,
        )

  spent-decoded :
      (raw : RawBudget fl formats) (a : PrivacyAccountant fl)
      → decode_budget fl formats raw ≡ ok a
      → raw.spent ≡ (a.spent.epsilon, a.spent.delta)
  unfolding decode_budget
  spent-decoded raw a h =
      let (limit, _, h₁) = returned (new_budget fl raw.limit.0 raw.limit.1) _ a h in
      let (spent, made, h₂) = returned (new_budget fl raw.spent.0 raw.spent.1) _ a h₁ in
      let same = new_budget-ok fl formats ka raw.spent.0 raw.spent.1 made in
      ap (λ (b : PrivacyBudget fl). (b.epsilon, b.delta)) (sym same)
      ∙ ap (λ (b : PrivacyAccountant fl). (b.spent.epsilon, b.spent.delta)) (ok_injective _ a h₂)

  accountant-decoded :
      (raw : Option (RawBudget fl formats)) (a accountant : PrivacyAccountant fl)
      → (elim raw [ none ↦ ok a | some w ↦ decode_budget fl formats w ]) ≡ ok accountant
      → (b : RawBudget fl formats) → raw ≡ some b
      → b.spent ≡ (accountant.spent.epsilon, accountant.spent.delta)
  accountant-decoded none a accountant h b same = cc
  accountant-decoded (some w) a accountant h b same =
      ap (λ x. x.spent) (sym (some_injective same)) ∙ spent-decoded w accountant h

  -- What is rebuilt from the store agrees with it.
  restore_from-IsSynced :
      (p p' : Platform fl formats ka)
      → restore_from fl formats ka p p.store ≡ ok p'
      → IsSynced fl formats ka p'
  unfolding restore
  restore_from-IsSynced p p' h =
      let parts = restore_from-IsRestored fl formats ka p p' p.store h in
      let (_, kept) = restore_again fl formats ka p p' p.store h in
      record {
        same_tip =
            ap (λ x. x.audit.prev_hash) (sym parts.same) ∙ ap (λ x. tip genesis x.audit) (sym kept);
        same_spent = λ b stored.
            accountant-decoded p.store.budget p.accountant parts.accountant parts.decoded b
              (ap (λ x. x.budget) (sym kept) ∙ stored)
            ∙ ap
                (λ (x : Platform fl formats ka).
                  (x.accountant.spent.epsilon, x.accountant.spent.delta))
                parts.same;
      }

  -- After a bundle that the store has refused, if what the store then holds decodes and its spent
  -- budget is of numbers, the call that raises leaves a platform on which a query whose statistic is
  -- there, which the accountant admits and whose noise is drawn is committed and returns.
  pub retry-returns :
      {Raw : Type 0} (setup : Setup fl formats ka) (p p' : Platform fl formats ka)
      (writes : List (Write fl formats ka)) (after : Store fl formats ka) (f : Failure)
      (q : LaplaceQuery fl formats ka Raw) (draws : QueryDraws fl formats ka)
      (args : QueryArgs fl formats ka) (d : QueryDecision fl) (raw : Raw) (a : PrivacyAccountant fl)
      (e : Event fl) (out : Noisy fl formats ka)
      → commit fl formats ka (Entry fl formats ka) writes p.store ≡ (after, some f)
      → load fl formats ka (Entry fl formats ka) after ≡ some after
      → restore_from fl formats ka (record p { store = after }) after ≡ ok p'
      → IsNumber fl p'.accountant.spent.epsilon
      → IsNumber fl p'.accountant.spent.delta
      → charge_laplace fl formats ka q draws p' d args ≡ ok (a, e)
      → q.release draws raw args ≡ ok out
      → (commit_bundle fl formats ka setup p writes ≡ (p', err f))
        × ((p'' : Platform fl formats ka) × (r : QueryResult fl formats ka) × (query_from fl formats
                ka q setup draws p' args
                (ok (d, raw))
              ≡ (p'', ok r)))
  retry-returns setup p p' writes after f q draws args d raw a e out refused stored decoded hε hδ
        paid made =
      let left =
        commit_bundle-IsReconverged fl formats ka setup p p' writes after f refused stored
          decoded in
      (
        left.raised,
        query_from-returns setup q draws p' args d raw a e out
            (restore_from-IsSynced (record p { store = after }) p' decoded) hε hδ paid made,
      )
