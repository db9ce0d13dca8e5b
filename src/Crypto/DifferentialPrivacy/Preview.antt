-- ===== src/Crypto/DifferentialPrivacy/Preview.antt =====
-- `preview` against `charge`.
use sentry_link.Base.{
  ℕ, Bool, true, false, not, ◌||◌, Bool-cases, Option, none, some, [], ◌∷◌, ◌⊎◌, ◌≡◌, refl, sym,
  ◌∙◌, inl, inr, arith,
}
use sentry_link.Base.Dict.{Dict}
use sentry_link.Errors.{Failure, Result, ok, err, ◌>>=◌}
use sentry_link.Floats.{Floats, IsNumber, OrderLaws}
use sentry_link.Crypto.DifferentialPrivacy.{rdp_to_epsilon, is_delta, converted, min_converted}
use sentry_link.Crypto.DifferentialPrivacy.Accountant.{
  PrivacyBudget, PrivacyAccountant, Charge, Regime, tolerance, projected_rdp, preview,
  preview_regime, charge, charge_totals, charge_rdp, charge_basic, commit_charge, is_negative, fits,
  exceeds,
}

-- What `preview` says, and what `charge` does: admitted, refused for the budget, or another
-- exception.
abbrev pub admitted {ℓ} : {A : Type ℓ} → Result A → Result Bool
admitted (ok a) = ok true
admitted (err Failure.privacy_budget) = ok false
admitted (err e) = err e

abbrev pub foretold : Result (Bool × Regime) → Result Bool
foretold (ok (b, r)) = ok b
foretold (err e) = err e

module _ (fl : Floats) (laws : OrderLaws fl) (a : PrivacyAccountant fl) where
  fits-exceeds :
      (x limit : fl.Float)
      → IsNumber fl x
      → IsNumber fl (fl.add limit (tolerance fl))
      → fits fl x limit ≡ not (exceeds fl x limit)
  fits-exceeds x limit hx hl = laws.le_total x (fl.add limit (tolerance fl)) hx hl

  -- The values that are compared with the limits are numbers.
  pub record AreNumbers (c : Charge fl) : Type 0 where
    pub limit_epsilon : IsNumber fl (fl.add a.limit.epsilon (tolerance fl))
    pub spent_epsilon : IsNumber fl (fl.add a.spent.epsilon c.cost.epsilon)
    pub converted :
        (costs : Dict ℕ fl.Float) (e : fl.Float)
        → c.rdp_cost ≡ some costs
        → rdp_to_epsilon fl (projected_rdp fl a.rdp_totals costs) a.limit.delta ≡ ok e
        → IsNumber fl e

  conversion-err :
      (d : Dict ℕ fl.Float) (delta : fl.Float)
      → ((e : fl.Float) × (rdp_to_epsilon fl d delta ≡ ok e))
        ⊎ (rdp_to_epsilon fl d delta ≡ err Failure.value_error)
  unfolding rdp_to_epsilon
  conversion-err [] delta = inr (ground arith)
  conversion-err (e ∷ d) delta = elim (Bool-cases (is_delta fl delta)) [
    | inl t ↦ inl (min_converted fl delta (converted fl delta e) d, rw t)
    | inr t ↦ inr (rw t)
  ]

  rdp_regime :
      (complete : Bool) (projected : PrivacyBudget fl) (d : Dict ℕ fl.Float)
      → IsNumber fl (fl.add a.limit.epsilon (tolerance fl))
      → ((e : fl.Float)
          → rdp_to_epsilon fl (projected_rdp fl a.rdp_totals d) a.limit.delta ≡ ok e
          → IsNumber fl e)
      → let basic = fits fl projected.epsilon a.limit.epsilon in
        foretold (
          rdp_to_epsilon fl (projected_rdp fl a.rdp_totals d) a.limit.delta >>= λ e.
          ok (fits fl e a.limit.epsilon || basic, Regime.rdp))
        ≡ admitted {A = Dict ℕ fl.Float × Bool}
            (charge_rdp fl a projected d >>= λ totals. ok (totals, complete))
  unfolding charge_rdp
  rdp_regime complete projected d hl hc =
      elim (conversion-err (projected_rdp fl a.rdp_totals d) a.limit.delta) [
        | inl (e, done) ↦ rw done (ground (arith, fits-exceeds e a.limit.epsilon (hc e done) hl))
        | inr failed ↦ rw failed
      ]

  basic_regime :
      (projected : PrivacyBudget fl) (costs : Option (Dict ℕ fl.Float))
      → IsNumber fl projected.epsilon
      → IsNumber fl (fl.add a.limit.epsilon (tolerance fl))
      → ok (fits fl projected.epsilon a.limit.epsilon)
        ≡ admitted (charge_basic fl a projected costs)
  unfolding charge_basic
  basic_regime projected none hp hl =
      ground (arith, fits-exceeds projected.epsilon a.limit.epsilon hp hl)
  basic_regime projected (some d) hp hl =
      ground (arith, fits-exceeds projected.epsilon a.limit.epsilon hp hl)

  regime-totals :
      (projected : PrivacyBudget fl) (costs : Option (Dict ℕ fl.Float))
      → IsNumber fl projected.epsilon
      → IsNumber fl (fl.add a.limit.epsilon (tolerance fl))
      → ((d : Dict ℕ fl.Float) (e : fl.Float)
          → costs ≡ some d
          → rdp_to_epsilon fl (projected_rdp fl a.rdp_totals d) a.limit.delta ≡ ok e
          → IsNumber fl e)
      → foretold (preview_regime fl a projected costs)
        ≡ admitted (charge_totals fl a projected costs)
  unfolding preview_regime charge_totals
  regime-totals projected none hp hl hc = basic_regime projected none hp hl
  regime-totals projected (some d) hp hl hc = elim (Bool-cases a.rdp_complete) [
    | inl t ↦ rw t (rdp_regime true projected d hl (λ e. hc d e refl))
    | inr t ↦ rw t (ground (arith, fits-exceeds projected.epsilon a.limit.epsilon hp hl))
  ]

  admitted-bind :
      {A B : Type 0} (r : Result A) (f : A → B) → admitted (r >>= λ x. ok (f x)) ≡ admitted r
  admitted-bind (ok x) f = refl
  admitted-bind (err Failure.privacy_budget) f = refl
  admitted-bind (err _) f = refl

  -- Where the values that are compared with the limits are numbers, `preview` is allowed exactly when
  -- `charge` admits the cost, is refused exactly when it raises for the budget, and raises exactly
  -- the other exceptions that it raises.
  pub preview-charge :
      (c : Charge fl)
      → AreNumbers c
      → foretold (preview fl a c.cost c.rdp_cost) ≡ admitted (charge fl a c)
  unfolding preview charge
  preview-charge c h =
      let sum : PrivacyBudget fl = record {
        epsilon = fl.add a.spent.epsilon c.cost.epsilon;
        delta = fl.add a.spent.delta c.cost.delta;
      } in
      elim (Bool-cases (is_negative fl c.cost)) [
        | inl t ↦ rw t
        | inr t ↦ elim (Bool-cases (is_negative fl sum)) [
          | inl u ↦ rw (t, u)
          | inr u ↦ elim (Bool-cases (exceeds fl sum.delta a.limit.delta)) [
            | inl v ↦ rw (t, u, v)
            | inr v ↦
                rw (t, u, v)
                  (regime-totals sum c.rdp_cost h.spent_epsilon h.limit_epsilon h.converted
                    ∙ sym (
                        admitted-bind (charge_totals fl a sum c.rdp_cost)
                          (λ (r : Dict ℕ fl.Float × Bool). commit_charge fl a c sum r.0 r.1)))
          ]
        ]
      ]
