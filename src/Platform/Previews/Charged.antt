-- ===== src/Platform/Previews/Charged.antt =====
-- A preview of sentrylink/platform.py against the query that is then run.
use sentry_link.Base.{
  ℕ, String, text_eq, Bool, true, false, not, length, some, some_injective, ◌≡◌, refl, sym, ap,
  subst, fun_ext, ◌∙◌, if◌then◌else◌,
}
use sentry_link.Base.Dict.{Dict}
use sentry_link.Errors.{Failure, Result, ok, err, returned, ok_injective, >>=_assoc, ◌>>=◌}
use sentry_link.Floats.{Floats, IsNumber, OrderLaws, zero_float}
use sentry_link.Crypto.SecureAggregation.{KeyAgreement}
use sentry_link.Crypto.DifferentialPrivacy.{rdp_alphas, laplace_rdp_cost, rdp_to_epsilon}
use sentry_link.Crypto.DifferentialPrivacy.Accountant.{
  PrivacyBudget, PrivacyAccountant, Event, Regime, tolerance, projected_rdp, new_budget, preview,
}
use sentry_link.Crypto.DifferentialPrivacy.Preview.{preview-charge, admitted, foretold}
use sentry_link.Governance.Policy.{
  PolicyEngine, QueryRequest, QueryDecision, Verdict, evaluate, verdict, decide, denied,
  raise_if_denied, budget_of,
}
use sentry_link.Storage.Codec.{Formats}
use sentry_link.Platform.{Platform}
use sentry_link.Platform.Queries.{
  QueryDraws, QueryArgs, LaplaceQuery, request_of, granted, charge_laplace,
}
use sentry_link.Platform.Queries.Release.{new_budget-ok}
use sentry_link.Platform.Previews.{
  QueryPreview, query_preview, preview_spec, preview_base, preview_admission, preview_update,
  preview_rdp, preview_delta, preview_decided,
}

admitted-ok : {A : Type 0} (r : Result A) → admitted r ≡ ok true → (a : A) × (r ≡ ok a)
admitted-ok (ok a) h = (a, refl)
admitted-ok (err Failure.privacy_budget) h = cc
admitted-ok (err f) h = cc

module _ (fl : Floats) (formats : Formats fl) (ka : KeyAgreement) where
  -- The verdict does not depend on the id that is drawn.
  decide-allowed :
      (e : PolicyEngine fl) (i j : String) (req : QueryRequest fl) (v : Verdict)
      (d : QueryDecision fl)
      → decide fl e i req v ≡ ok d
      → d.allowed ≡ true
      → (d' : QueryDecision fl) × (decide fl e j req v ≡ ok d') × (d'.allowed ≡ true)
  unfolding decide denied
  decide-allowed e i j req (Verdict.deny reason ids floor) d h allowed =
      let (budget, _, done) = returned (budget_of fl req) _ d h in
      cc (ap (λ z. z.allowed) (ok_injective _ d done), allowed)
  decide-allowed e i j req (Verdict.allow ids floor) d h allowed =
      let (budget, made, done) = returned (budget_of fl req) _ d h in rw made (_, refl, refl)

  allowed-granted :
      (i j : String) (p : Platform fl formats ka) (metric : String) (args : QueryArgs fl formats ka)
      (d : QueryDecision fl)
      → evaluate fl p.policy i (request_of fl formats ka metric args) ≡ ok d
      → d.allowed ≡ true
      → (d' : QueryDecision fl) × (granted fl formats ka j p metric args ≡ ok d')
  unfolding granted raise_if_denied evaluate
  allowed-granted i j p metric args d made h =
      let req = request_of fl formats ka metric args in
      let (d', made', allowed) =
        decide-allowed p.policy i j req (verdict fl p.policy req) d made h in
      (d', rw (made', allowed) refl)

  -- What a preview shows to be allowed.
  preview_shown :
      (a : PrivacyAccountant fl) (d : QueryDecision fl) (spec : String × fl.Float)
      (args : QueryArgs fl formats ka) (v : QueryPreview fl formats ka) (allowed : Bool)
      (admission : Result (Bool × Regime))
      → (let base = preview_base fl formats ka a d spec args in
          if not allowed
          then ok base
          else (admission >>= λ x. ok (preview_update fl formats ka a d args base x)))
        ≡ ok v
      → v.allowed ≡ true
      → (allowed ≡ true) × ((regime : Regime) × (admission ≡ ok (true, regime)))
  unfolding preview_base preview_update
  preview_shown a d spec args v false admission h shown =
      cc (ap (λ x. x.allowed) (ok_injective _ v h))
  preview_shown a d spec args v true (err f) h shown = cc
  preview_shown a d spec args v true (ok (b, regime)) h shown =
      (refl, (regime, ap (λ x. ok (x, regime)) (ap (λ x. x.allowed) (ok_injective _ v h) ∙ shown)))

  admission-laplace :
      (a : PrivacyAccountant fl) (mechanism : String) (sens : fl.Float)
      (args : QueryArgs fl formats ka)
      → mechanism ≡ "laplace"
      → preview_admission fl formats ka a (mechanism, sens) args ≡ (
          new_budget fl args.epsilon (zero_float fl) >>= λ cost.
          laplace_rdp_cost fl args.epsilon rdp_alphas >>= λ rdp. preview fl a cost (some rdp))
  unfolding preview_admission preview_rdp preview_delta
  admission-laplace a mechanism sens args h = rw h (
      ap (λ k. new_budget fl args.epsilon (zero_float fl) >>= k)
        (fun_ext λ cost.
          >>=_assoc (laplace_rdp_cost fl args.epsilon rdp_alphas) (λ rdp. ok (some rdp))
            (λ rdp. preview fl a cost rdp)))

  module _ (laws : OrderLaws fl) {Raw : Type 0} (q : LaplaceQuery fl formats ka Raw)
      (laplace : (n : ℕ) → (preview_spec fl formats ka q.metric n).0 ≡ "laplace")
      (draws : QueryDraws fl formats ka) (p : Platform fl formats ka)
      (args : QueryArgs fl formats ka) where
    -- The values that are compared with the limits when the query is charged are numbers.
    pub record ArePriced : Type 0 where
      pub limit_epsilon : IsNumber fl (fl.add p.accountant.limit.epsilon (tolerance fl))
      pub spent_epsilon : IsNumber fl (fl.add p.accountant.spent.epsilon args.epsilon)
      pub converted :
          (costs : Dict ℕ fl.Float) (e : fl.Float)
          → laplace_rdp_cost fl args.epsilon rdp_alphas ≡ ok costs
          → rdp_to_epsilon fl
              (projected_rdp fl p.accountant.rdp_totals costs)
              p.accountant.limit.delta
            ≡ ok e
          → IsNumber fl e

    charge_laplace-admitted :
        (d : QueryDecision fl) (cost : PrivacyBudget fl) (rdp : Dict ℕ fl.Float) (regime : Regime)
        → new_budget fl args.epsilon (zero_float fl) ≡ ok cost
        → laplace_rdp_cost fl args.epsilon rdp_alphas ≡ ok rdp
        → preview fl p.accountant cost (some rdp) ≡ ok (true, regime)
        → ArePriced
        → (out : PrivacyAccountant fl × Event fl) × (charge_laplace fl formats ka q draws p d args
            ≡ ok out)
    unfolding charge_laplace
    charge_laplace-admitted d cost rdp regime costed priced previewed numbers =
        let same = new_budget-ok fl formats ka args.epsilon (zero_float fl) costed in
        rw (charge_laplace, costed, priced)
          (admitted-ok _ (
            sym (
              preview-charge fl laws p.accountant _ (record {
                limit_epsilon = numbers.limit_epsilon;
                spent_epsilon =
                    subst (λ x. IsNumber fl (fl.add p.accountant.spent.epsilon x))
                      (ap (λ b. b.epsilon) (sym same)) numbers.spent_epsilon;
                converted = λ costs e priced' done.
                    numbers.converted costs e (priced ∙ ap ok (some_injective priced')) done;
              }))
            ∙ ap foretold previewed))

    -- If the preview of a Laplace query says that it is allowed, the policy engine grants the query
    -- and the accountant admits its charge on the same platform, as long as the values that are
    -- compared with the limits are numbers.
    pub query_preview-charge :
        (preview_id : String) (v : QueryPreview fl formats ka)
        → ArePriced
        → query_preview fl formats ka preview_id p q.metric args ≡ ok v
        → v.allowed ≡ true
        → (d : QueryDecision fl) × (granted fl formats ka draws.query_id p q.metric args ≡ ok d)
          × ((out : PrivacyAccountant fl × Event fl) × (charge_laplace fl formats ka q draws p d
                  args
                ≡ ok out))
    unfolding query_preview preview_decided
    query_preview-charge preview_id v numbers h shown =
        let req = request_of fl formats ka q.metric args in
        let (seen, evaluated, decided) =
          returned (evaluate fl p.policy preview_id req)
            (preview_decided fl formats ka p q.metric args) v h in
        let spec = preview_spec fl formats ka q.metric (length seen.participants) in
        let (allowed, (regime, admission)) =
          preview_shown p.accountant seen spec args v seen.allowed
            (preview_admission fl formats ka p.accountant spec args) decided shown in
        let (d, given) =
          allowed-granted preview_id draws.query_id p q.metric args seen evaluated allowed in
        let direct =
          sym
            (admission-laplace p.accountant spec.0 spec.1 args (laplace (length seen.participants)))
          ∙ admission in
        let (cost, costed, h₁) =
          returned (new_budget fl args.epsilon (zero_float fl)) _ (true, regime) direct in
        let (rdp, priced, previewed) =
          returned (laplace_rdp_cost fl args.epsilon rdp_alphas) _ (true, regime) h₁ in
        (d, given, charge_laplace-admitted d cost rdp regime costed priced previewed numbers)
