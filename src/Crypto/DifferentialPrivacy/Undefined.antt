-- ===== src/Crypto/DifferentialPrivacy/Undefined.antt =====
-- Charges whose epsilon is a NaN.
use sentry_link.Base.{ℕ, Bool, false, Bool-cases, Option, none, some, ◌≡◌, refl, ap, ◌∙◌, inl, inr}
use sentry_link.Base.Dict.{Dict}
use sentry_link.Errors.{ok}
use sentry_link.Floats.{Floats, NanLaws, zero_float}
use sentry_link.Crypto.DifferentialPrivacy.{rdp_to_epsilon}
use sentry_link.Crypto.DifferentialPrivacy.Accountant.{
  PrivacyBudget, PrivacyAccountant, Charge, Event, charge, charge_totals, add_totals, commit_charge,
  projected_rdp, exceeds, is_negative,
}

module _ (fl : Floats) (nan : fl.Float) (laws : NanLaws fl nan) (a : PrivacyAccountant fl) where
  -- A charge passes every test of `charge` but that of the spent epsilon.
  pub record PassesDelta (c : Charge fl) : Type 0 where
    pub cost_delta : fl.lt c.cost.delta (zero_float fl) ≡ false
    pub sum_delta : fl.lt (fl.add a.spent.delta c.cost.delta) (zero_float fl) ≡ false
    pub within : exceeds fl (fl.add a.spent.delta c.cost.delta) a.limit.delta ≡ false

  -- The summed costs of a charge convert to a NaN.
  abbrev pub ConvertsToNan : Option (Dict ℕ fl.Float) → Type 0
  ConvertsToNan none = Unit
  ConvertsToNan (some d) =
      rdp_to_epsilon fl (projected_rdp fl a.rdp_totals d) a.limit.delta ≡ ok nan

  not_exceeded : (x limit : fl.Float) → x ≡ nan → exceeds fl x limit ≡ false
  not_exceeded x limit e = rw e (laws.lt_right _)

  charge_totals-nan :
      (projected : PrivacyBudget fl) (costs : Option (Dict ℕ fl.Float))
      → projected.epsilon ≡ nan
      → ConvertsToNan costs
      → (t : Dict ℕ fl.Float × Bool) × (charge_totals fl a projected costs ≡ ok t)
  unfolding charge_totals
  charge_totals-nan projected none e h =
      ((a.rdp_totals, false), rw (not_exceeded projected.epsilon a.limit.epsilon e))
  charge_totals-nan projected (some d) e h = elim (Bool-cases a.rdp_complete) [
    | inl t ↦ (
      (projected_rdp fl a.rdp_totals d, a.rdp_complete),
      rw t (rw h (rw (not_exceeded nan a.limit.epsilon refl))),
    )
    | inr t ↦ (
      (add_totals fl a.rdp_totals d, a.rdp_complete),
      rw t (rw (not_exceeded projected.epsilon a.limit.epsilon e)),
    )
  ]

  -- A charge whose epsilon is a NaN, and whose RDP costs, if it has any, convert to one, is admitted
  -- whatever was spent and whatever the limit of epsilon, if its delta fits; the spent epsilon is a
  -- NaN from then on.
  pub charge-nan :
      (c : Charge fl)
      → c.cost.epsilon ≡ nan
      → ConvertsToNan c.rdp_cost
      → PassesDelta c
      → (b : PrivacyAccountant fl) × (e : Event fl) × (charge fl a c ≡ ok (b, e))
        × (b.spent.epsilon ≡ nan)
  unfolding charge
  charge-nan c isnan conv h =
      let sum : PrivacyBudget fl = record {
        epsilon = fl.add a.spent.epsilon c.cost.epsilon;
        delta = fl.add a.spent.delta c.cost.delta;
      } in
      let eps : sum.epsilon ≡ nan =
        ap (fl.add a.spent.epsilon) isnan ∙ laws.add_right a.spent.epsilon in
      let (t, done) = charge_totals-nan sum c.rdp_cost eps conv in
      let cost_ok : is_negative fl c.cost ≡ false = rw (isnan, laws.lt_left, h.cost_delta) in
      let sum_ok : is_negative fl sum ≡ false =
        rw (isnan, laws.add_right, laws.lt_left, h.sum_delta) in
      let (b, e) = commit_charge fl a c sum t.0 t.1 in
      (b, e, rw (cost_ok, sum_ok, h.within, done), eps)
