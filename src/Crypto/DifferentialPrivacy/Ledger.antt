-- ===== src/Crypto/DifferentialPrivacy/Ledger.antt =====
-- The events of an accountant account for all that was spent, and no run of charges passes the limit.
use sentry_link.Base.{false, List, [], ◌∷◌, ◌++◌, ◌≡◌, ◌≢◌, refl, sym, ap, ◌∙◌, arith}
use sentry_link.Errors.{Result, ok, err}
use sentry_link.Floats.{Floats}
use sentry_link.Crypto.DifferentialPrivacy.Accountant.{
  PrivacyBudget, PrivacyAccountant, Charge, Event, charge, exceeds,
}

module _ (fl : Floats) where
  -- What is spent after the events of a list, added in their order.
  unfoldable pub spent_after : PrivacyBudget fl → List (Event fl) → PrivacyBudget fl
  spent_after b [] = b
  spent_after b (e ∷ events) =
      spent_after
        (record { epsilon = fl.add b.epsilon e.epsilon_cost; delta = fl.add b.delta e.delta_cost })
        events

  spent_after-append :
      (b : PrivacyBudget fl) (xs : List (Event fl)) (e : Event fl)
      → spent_after b (xs ++ e ∷ []) ≡ (
          let s = spent_after b xs in
          record { epsilon = fl.add s.epsilon e.epsilon_cost; delta = fl.add s.delta e.delta_cost })
  unfolding spent_after
  spent_after-append b [] e = refl
  spent_after-append b (x ∷ xs) e =
      spent_after-append
        (record { epsilon = fl.add b.epsilon x.epsilon_cost; delta = fl.add b.delta x.delta_cost })
        xs e

  -- `limit` never changes, the events add up to what is spent, and once something is charged the
  -- spent delta does not exceed its limit.
  pub record IsBalanced (limit start : PrivacyBudget fl) (a : PrivacyAccountant fl) : Type 0 where
    pub same_limit : a.limit ≡ limit
    pub reconciled : a.spent ≡ spent_after start a.events
    pub delta_within : a.events ≢ [] → exceeds fl a.spent.delta limit.delta ≡ false

  -- What a successful charge does.
  pub charge-ok :
      (a : PrivacyAccountant fl) (c : Charge fl) {b : PrivacyAccountant fl} {e : Event fl}
      → charge fl a c ≡ ok (b, e)
      → (b.limit ≡ a.limit)
        × (b.spent ≡ record {
          epsilon = fl.add a.spent.epsilon c.cost.epsilon;
          delta = fl.add a.spent.delta c.cost.delta;
        })
        × (b.events ≡ a.events ++ e ∷ [])
        × (e.epsilon_cost ≡ c.cost.epsilon)
        × (e.delta_cost ≡ c.cost.delta)
        × (exceeds fl b.spent.delta a.limit.delta ≡ false)
  unfolding charge
  charge-ok a c h = ground arith

  charge-IsBalanced :
      {limit start : PrivacyBudget fl} (a : PrivacyAccountant fl) (c : Charge fl)
      {b : PrivacyAccountant fl} {e : Event fl}
      → charge fl a c ≡ ok (b, e)
      → IsBalanced limit start a
      → IsBalanced limit start b
  charge-IsBalanced {limit} {start} a c {b} {e} h v =
      let (lim, spent, events, eps, del, within) = charge-ok a c h in
      record {
        same_limit = lim ∙ v.same_limit;
        reconciled =
            spent
            ∙ (λ i. record {
              epsilon = fl.add (v.reconciled i).epsilon (sym eps i);
              delta = fl.add (v.reconciled i).delta (sym del i);
            })
            ∙ sym (spent_after-append start a.events e)
            ∙ ap (spent_after start) (sym events);
        delta_within = λ _. (λ i. exceeds fl b.spent.delta (sym v.same_limit i).delta) ∙ within;
      }

  -- Charges one after the other; one that raises changes nothing.
  unfoldable pub charge_all : PrivacyAccountant fl → List (Charge fl) → PrivacyAccountant fl
  charge_all a [] = a
  charge_all a (c ∷ charges) =
      charge_all (elim (charge fl a c) [ ok (b, e) ↦ b | err f ↦ a ]) charges

  -- Whatever charges are tried, in any order, the limit stays, the events add up to exactly what is
  -- spent, and once there is an event the spent delta does not exceed the limit with its tolerance.
  pub charge_all-IsBalanced :
      (limit start : PrivacyBudget fl) (charges : List (Charge fl)) (a : PrivacyAccountant fl)
      → IsBalanced limit start a
      → IsBalanced limit start (charge_all a charges)
  unfolding charge_all
  charge_all-IsBalanced limit start [] a v = v
  charge_all-IsBalanced limit start (c ∷ charges) a v =
      charge_all-IsBalanced limit start charges _ (step (charge fl a c) refl)
    where
      step :
          (r : Result (PrivacyAccountant fl × Event fl))
          → charge fl a c ≡ r
          → IsBalanced limit start (elim r [ ok (b, e) ↦ b | err f ↦ a ])
      step (ok (b, e)) h = charge-IsBalanced a c h v
      step (err f) h = v
