-- ===== src/Storage/Memory/Budgets.antt =====
-- What a bundle leaves of the budget.
use sentry_link.Base.{
  String, text_eq, Bool, true, false, All, arith, inl, inr, List, [], ◌∷◌, Option, none, some, ◌≡◌,
  refl, ap, ◌∙◌, arith,
}
use sentry_link.Errors.{Failure, ok, err, Result-cases}
use sentry_link.Floats.{Floats}
use sentry_link.Crypto.SecureAggregation.{KeyAgreement}
use sentry_link.Governance.Audit.{genesis, tip}
use sentry_link.Storage.Codec.{Formats, RawBudget}
use sentry_link.Storage.Memory.{PersistedState, Op, apply_op, apply_ops, commit, stored_budget}
use sentry_link.Storage.Memory.Bundles.{apply_ops-ok, apply_ops-err}

module _ (fl : Floats) (formats : Formats fl) (ka : KeyAgreement) (P : Type 0) where
  stored_budget-spent :
      (cur : Option (RawBudget fl formats)) (raw b : RawBudget fl formats)
      (expect : fl.Float × fl.Float)
      → stored_budget fl formats ka P cur raw expect ≡ ok b
      → b.spent ≡ raw.spent
  unfolding stored_budget
  stored_budget-spent none raw b expect h = ground arith
  stored_budget-spent (some cur) raw b expect h = ground arith

  abbrev pub is_budget : Op fl formats ka P → Bool
  is_budget (Op.save_budget raw expect) = true
  is_budget _ = false

  apply_op-same_budget :
      (op : Op fl formats ka P) (last last' : String) (s s' : PersistedState fl formats ka P)
      → is_budget op ≡ false
      → apply_op fl formats ka P op last s ≡ ok (last', s')
      → s'.budget ≡ s.budget
  unfolding apply_op
  apply_op-same_budget (Op.save_org org) last last' s s' quiet h = ground arith
  apply_op-same_budget (Op.save_policy i policy) last last' s s' quiet h = ground arith
  apply_op-same_budget (Op.save_budget raw expect) last last' s s' quiet h = cc
  apply_op-same_budget (Op.save_server raw n) last last' s s' quiet h = ground arith
  apply_op-same_budget (Op.append_round key round) last last' s s' quiet h = ground arith
  apply_op-same_budget (Op.append_audit entry prev) last last' s s' quiet h = ground arith

  -- Writes of which none is of the budget leave it, whether they are all done or not.
  pub apply_ops-same_budget :
      (ops : List (Op fl formats ka P)) (last : String) (s : PersistedState fl formats ka P)
      → All (λ op. is_budget op ≡ false) ops
      → (apply_ops fl formats ka P ops last s).0.budget ≡ s.budget
  unfolding apply_ops
  apply_ops-same_budget [] last s quiet = refl
  apply_ops-same_budget (op ∷ ops) last s quiet =
      elim (Result-cases (apply_op fl formats ka P op last s)) [
        | inl (f, e) ↦ ap (λ r. r.0.budget) (apply_ops-err fl formats ka P op ops last s f e)
        | inr (out, e) ↦
            ap (λ r. r.0.budget) (apply_ops-ok fl formats ka P op ops last out.0 s out.1 e)
            ∙ apply_ops-same_budget ops out.0 out.1 quiet.1
            ∙ apply_op-same_budget op last out.0 s out.1 quiet.0 e
      ]

  -- A committed bundle that starts with a budget and has no other leaves a stored budget that is as
  -- spent as the one that was written.
  pub commit-budget :
      (raw : RawBudget fl formats) (expect : fl.Float × fl.Float) (rest : List (Op fl formats ka P))
      (s : PersistedState fl formats ka P)
      → All (λ op. is_budget op ≡ false) rest
      → (commit fl formats ka P (Op.save_budget raw expect ∷ rest) s).1 ≡ none
      → (b : RawBudget fl formats) × ((commit fl formats ka P
            (Op.save_budget raw expect ∷ rest)
            s).0.budget
          ≡ some b)
        × (b.spent ≡ raw.spent)
  unfolding commit apply_op
  commit-budget raw expect rest s quiet done =
      let last = tip genesis s.audit in
      let save : Op fl formats ka P = Op.save_budget raw expect in
      elim (Result-cases (stored_budget fl formats ka P s.budget raw expect)) [
        | inl (f, e) ↦
            cc (apply_ops-err fl formats ka P save rest last s f (apply_op-err f e), done)
        | inr (b, e) ↦
            let s' : PersistedState fl formats ka P = record s { budget = some b } in
            let step = apply_ops-ok fl formats ka P save rest last last s s' (apply_op-ok b e) in
            (
              b,
              ap (λ r. r.0.budget) step ∙ apply_ops-same_budget rest last s' quiet,
              stored_budget-spent s.budget raw b expect e,
            )
      ]
    where
      apply_op-ok :
          (b : RawBudget fl formats)
          → stored_budget fl formats ka P s.budget raw expect ≡ ok b
          → apply_op fl formats ka P (Op.save_budget raw expect) (tip genesis s.audit) s
            ≡ ok (tip genesis s.audit, record s { budget = some b })
      apply_op-ok b e = rw e refl

      apply_op-err :
          (f : Failure)
          → stored_budget fl formats ka P s.budget raw expect ≡ err f
          → apply_op fl formats ka P (Op.save_budget raw expect) (tip genesis s.audit) s ≡ err f
      apply_op-err f e = rw e refl
