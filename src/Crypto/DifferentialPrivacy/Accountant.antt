-- ===== src/Crypto/DifferentialPrivacy/Accountant.antt =====
-- `PrivacyBudget` and `PrivacyAccountant` of sentrylink/crypto/differential_privacy.py, and the ledger
-- entry of sentrylink/privacy.py that an event carries.
use sentry_link.Base.{
  ℕ, String, Bool, true, false, not, ◌&&◌, ◌||◌, Option, none, some, List, [], ◌∷◌, ◌++◌, map,
  filter, nat_eq, if◌then◌else◌,
}
use sentry_link.Base.Dict.{Dict, keys, lookup_or, contains, insert}
use sentry_link.Errors.{Failure, Result, ok, err, ◌>>=◌, ◌>>◌, raise_if}
use sentry_link.Floats.{Floats, zero_float, max_float}
use sentry_link.Crypto.DifferentialPrivacy.{rdp_to_epsilon}

pub data Regime : Type 0 where
  rdp basic : Regime

module _ (fl : Floats) where
  open fl use {Float, decimal, add, sub, lt, le, eq}

  -- The slack of every comparison with a limit, 1e-12.
  abbrev pub tolerance : Float
  tolerance = decimal 1 12

  pub record PrivacyBudget : Type 0 where
    pub epsilon : Float
    pub delta : Float

  abbrev pub is_negative : PrivacyBudget → Bool
  is_negative b = lt b.epsilon (zero_float fl) || lt b.delta (zero_float fl)

  -- `PrivacyBudget(epsilon, delta)` with its `__post_init__`.
  unfoldable pub new_budget : Float → Float → Result PrivacyBudget
  new_budget epsilon delta =
      let b : PrivacyBudget = record { epsilon = epsilon; delta = delta } in
      if is_negative b then err Failure.value_error else ok b

  unfoldable pub is_zero : PrivacyBudget → Bool
  is_zero b = eq b.epsilon (zero_float fl) && eq b.delta (zero_float fl)

  -- `PrivacyBudget.__add__`
  unfoldable pub budget_add : PrivacyBudget → PrivacyBudget → Result PrivacyBudget
  unfolding new_budget
  budget_add a b = new_budget (add a.epsilon b.epsilon) (add a.delta b.delta)

  -- `PrivacyLedgerEntry` of sentrylink/privacy.py.
  pub record LedgerEntry : Type 0 where
    pub scope : String
    pub query_type : String
    pub mechanism : String
    pub epsilon : Float
    pub delta : Float
    pub rdp_orders : List Float
    pub sensitivity : Float
    pub cohort_size : ℕ
    pub clip_bound : Option Float
    pub purpose : String
    pub request_id : Option String
    pub timestamp : Float

  -- The record that `charge` appends to `events`.
  pub record Event : Type 0 where
    pub id : String
    pub ts : Float
    pub purpose : String
    pub subject : String
    pub epsilon_cost : Float
    pub delta_cost : Float
    pub spent_epsilon : Float
    pub spent_delta : Float
    pub rdp_tracked : Bool
    pub ledger : Option LedgerEntry
    pub budget_before : PrivacyBudget
    pub budget_after : PrivacyBudget

  pub record PrivacyAccountant : Type 0 where
    pub limit : PrivacyBudget
    pub spent : PrivacyBudget
    pub events : List Event
    pub rdp_totals : Dict ℕ Float
    pub rdp_complete : Bool

  -- The arguments of `charge` beside the cost, with the id and the time that it draws.
  pub record Charge : Type 0 where
    pub cost : PrivacyBudget
    pub rdp_cost : Option (Dict ℕ Float)
    pub purpose : String
    pub subject : String
    pub ledger : Option LedgerEntry
    pub id : String
    pub ts : Float

  -- `self.rdp_totals.get(a, 0.0) + rdp.get(a, 0.0)` for the orders of either.
  unfoldable pub projected_rdp : Dict ℕ Float → Dict ℕ Float → Dict ℕ Float
  projected_rdp totals rdp_cost =
      let orders = keys totals ++ filter (λ a. not (contains a totals)) (keys rdp_cost) in
      map
        (λ a. (a, add (lookup_or a (zero_float fl) totals) (lookup_or a (zero_float fl) rdp_cost)))
        orders

  -- The loop that adds costs to the totals once tracking is incomplete.
  unfoldable pub add_totals : Dict ℕ Float → Dict ℕ Float → Dict ℕ Float
  add_totals totals [] = totals
  add_totals totals ((a, v) ∷ rdp_cost) =
      add_totals (insert a (add (lookup_or a (zero_float fl) totals) v) totals) rdp_cost

  -- `x > limit + 1e-12` and `x <= limit + 1e-12`
  abbrev pub exceeds : Float → Float → Bool
  exceeds x limit = lt (add limit tolerance) x

  abbrev pub fits : Float → Float → Bool
  fits x limit = le x (add limit tolerance)

  module _ (a : PrivacyAccountant) where
    -- The part of `preview` after the test of delta.
    unfoldable pub preview_regime : PrivacyBudget → Option (Dict ℕ Float) → Result (Bool × Regime)
    unfolding projected_rdp rdp_to_epsilon
    preview_regime projected none = ok (fits projected.epsilon a.limit.epsilon, Regime.basic)
    preview_regime projected (some costs) =
        let basic_fits = fits projected.epsilon a.limit.epsilon in
        if a.rdp_complete
        then (do
          rdp_eps ← rdp_to_epsilon fl (projected_rdp a.rdp_totals costs) a.limit.delta
          ok (fits rdp_eps a.limit.epsilon || basic_fits, Regime.rdp))
        else ok (basic_fits, Regime.basic)

    unfoldable pub preview : PrivacyBudget → Option (Dict ℕ Float) → Result (Bool × Regime)
    unfolding budget_add preview_regime
    preview cost rdp_cost = do
      raise_if (is_negative cost) Failure.value_error
      projected ← budget_add a.spent cost
      if exceeds projected.delta a.limit.delta
          then ok (false, Regime.basic)
          else preview_regime projected rdp_cost

    -- `self.spent = projected` and the record of the event.
    unfoldable pub commit_charge :
        Charge → PrivacyBudget → Dict ℕ Float → Bool → PrivacyAccountant × Event
    commit_charge c projected totals complete =
        let event : Event = record {
          id = c.id;
          ts = c.ts;
          purpose = c.purpose;
          subject = c.subject;
          epsilon_cost = c.cost.epsilon;
          delta_cost = c.cost.delta;
          spent_epsilon = projected.epsilon;
          spent_delta = projected.delta;
          rdp_tracked = elim c.rdp_cost [ none ↦ false | some costs ↦ true ];
          ledger = c.ledger;
          budget_before = a.spent;
          budget_after = projected;
        } in
        (
          record {
            limit = a.limit;
            spent = projected;
            events = a.events ++ event ∷ [];
            rdp_totals = totals;
            rdp_complete = complete;
          },
          event,
        )

    -- Admission with RDP tracking: the new totals, or the exception.
    unfoldable pub charge_rdp : PrivacyBudget → Dict ℕ Float → Result (Dict ℕ Float)
    unfolding projected_rdp rdp_to_epsilon
    charge_rdp projected costs = do
      let totals = projected_rdp a.rdp_totals costs
      rdp_eps ← rdp_to_epsilon fl totals a.limit.delta
      let basic_fits = fits projected.epsilon a.limit.epsilon
      raise_if (exceeds rdp_eps a.limit.epsilon && not basic_fits) Failure.privacy_budget
      ok totals

    -- Admission by basic composition: the new totals and whether tracking is still complete.
    unfoldable pub charge_basic :
        PrivacyBudget → Option (Dict ℕ Float) → Result (Dict ℕ Float × Bool)
    unfolding add_totals
    charge_basic projected rdp_cost = do
      raise_if (exceeds projected.epsilon a.limit.epsilon) Failure.privacy_budget
      elim rdp_cost [
        | none ↦ ok (a.rdp_totals, false)
        | some costs ↦ ok (add_totals a.rdp_totals costs, a.rdp_complete)
      ]

    unfoldable pub charge_totals :
        PrivacyBudget → Option (Dict ℕ Float) → Result (Dict ℕ Float × Bool)
    unfolding charge_rdp charge_basic
    charge_totals projected none = charge_basic projected none
    charge_totals projected (some costs) =
        if a.rdp_complete
        then (do totals ← charge_rdp projected costs; ok (totals, a.rdp_complete))
        else charge_basic projected (some costs)

    unfoldable pub charge : Charge → Result (PrivacyAccountant × Event)
    unfolding budget_add commit_charge
    charge c = do
      raise_if (is_negative c.cost) Failure.value_error
      projected ← budget_add a.spent c.cost
      raise_if (exceeds projected.delta a.limit.delta) Failure.privacy_budget
      (totals, complete) ← charge_totals projected c.rdp_cost
      ok (commit_charge c projected totals complete)

    unfoldable pub rdp_epsilon : Option Float → Result Float
    unfolding rdp_to_epsilon
    rdp_epsilon delta = elim a.rdp_totals [
      | [] ↦ ok (zero_float fl)
      | e ∷ totals ↦
          rdp_to_epsilon fl (e ∷ totals) (elim delta [ none ↦ a.limit.delta | some d ↦ d ])
    ]

    unfoldable pub remaining : Result PrivacyBudget
    unfolding new_budget
    remaining =
        new_budget (max_float fl (zero_float fl) (sub a.limit.epsilon a.spent.epsilon))
          (max_float fl (zero_float fl) (sub a.limit.delta a.spent.delta))
