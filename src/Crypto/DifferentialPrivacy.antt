-- ===== src/Crypto/DifferentialPrivacy.antt =====
-- sentrylink/crypto/differential_privacy.py. An RDP order is a number of hundredths: 1.75 is 175. The
-- draws of numpy's generators, the random ids and the time are arguments.
pub mod Accountant
pub mod Preview
pub mod Ledger
pub mod Undefined
use sentry_link.Base.{
  ℕ, ◌*◌, ◌-◌, String, Bool, true, false, not, ◌&&◌, ◌||◌, Option, none, some, List, [], ◌∷◌, ◌++◌,
  map, leb, if◌then◌else◌,
}
use sentry_link.Base.Int.{pos}
use sentry_link.Base.Dict.{Dict}
use sentry_link.Errors.{Failure, Result, ok, err, ◌>>=◌, ◌>>◌, raise_if}
use sentry_link.Floats.{Floats, zero_float, one_float, min_float}

-- `RDP_ALPHAS`
abbrev pub rdp_alphas : List ℕ
rdp_alphas = 150 ∷ 175 ∷ 200 ∷ 250 ∷ 300 ∷ 400 ∷ 500 ∷ 600 ∷ 800 ∷ 1600 ∷ 3200 ∷ 6400 ∷ []

module _ (fl : Floats) where
  open fl use {Float, decimal, add, sub, mul, div, lt, le, log, exp, sqrt, square}

  abbrev zero_f : Float
  zero_f = zero_float fl

  abbrev one_f : Float
  one_f = one_float fl

  abbrev pub order : ℕ → Float
  order a = decimal a 2

  -- `0 < delta < 1`
  abbrev pub is_delta : Float → Bool
  is_delta delta = lt zero_f delta && lt delta one_f

  unfoldable pub gaussian_sigma : Float → Float → Float → Result Float
  gaussian_sigma sensitivity epsilon delta = do
    raise_if (le sensitivity zero_f) Failure.value_error
    raise_if (le epsilon zero_f) Failure.value_error
    raise_if (not (is_delta delta)) Failure.value_error
    ok (div (mul sensitivity (sqrt (mul (decimal 2 0) (log (div (decimal 125 2) delta))))) epsilon)

  -- The scale of `laplace_noise`; the draws are the generator's.
  unfoldable pub laplace_scale : Float → Float → Result Float
  laplace_scale sensitivity epsilon = do
    raise_if (le sensitivity zero_f) Failure.value_error
    raise_if (le epsilon zero_f) Failure.value_error
    ok (div sensitivity epsilon)

  -- `laplace_noise`, by the generator's draws at a scale.
  unfoldable pub laplace_noise : (Float → List Float) → Float → Float → Result (List Float)
  unfolding laplace_scale
  laplace_noise draw sensitivity epsilon = do
    scale ← laplace_scale sensitivity epsilon
    ok (draw scale)

  -- `gaussian_noise`, by the generator's draws at a sigma.
  unfoldable pub gaussian_noise : (Float → List Float) → Float → Float → Float → Result (List Float)
  unfolding gaussian_sigma
  gaussian_noise draw sensitivity epsilon delta = do
    sigma ← gaussian_sigma sensitivity epsilon delta
    ok (draw sigma)

  unfoldable pub gaussian_rdp_cost : Float → Float → List ℕ → Result (Dict ℕ Float)
  gaussian_rdp_cost sensitivity sigma alphas = do
    raise_if (le sensitivity zero_f) Failure.value_error
    raise_if (le sigma zero_f) Failure.value_error
    let rho = div (square (div sensitivity sigma)) (decimal 2 0)
    ok (map (λ a. (a, mul (order a) rho)) alphas)

  -- The cost of a Laplace release at one order.
  unfoldable pub laplace_rdp_at : Float → ℕ → Float
  laplace_rdp_at epsilon a =
      let x = order a in
      let double = sub (mul (decimal 2 0) x) one_f in
      let w₁ = div x double in
      let w₂ = div (sub x one_f) double in
      let tail = exp (mul (sub zero_f double) epsilon) in
      let val = add epsilon (div (log (add w₁ (mul w₂ tail))) (sub x one_f)) in
      min_float fl val epsilon

  unfoldable pub laplace_orders : Float → List ℕ → Result (Dict ℕ Float)
  unfolding laplace_rdp_at
  laplace_orders epsilon [] = ok []
  laplace_orders epsilon (a ∷ alphas) = do
    raise_if (leb a 100) Failure.value_error
    rest ← laplace_orders epsilon alphas
    ok ((a, laplace_rdp_at epsilon a) ∷ rest)

  unfoldable pub laplace_rdp_cost : Float → List ℕ → Result (Dict ℕ Float)
  unfolding laplace_orders
  laplace_rdp_cost epsilon alphas = do
    raise_if (le epsilon zero_f) Failure.value_error
    laplace_orders epsilon alphas

  -- The epsilon of one order's summed cost.
  abbrev pub converted : Float → ℕ × Float → Float
  converted delta (a, v) = add v (div (log (div one_f delta)) (sub (order a) one_f))

  -- Python's `min` over the orders, after the first.
  unfoldable pub min_converted : Float → Float → Dict ℕ Float → Float
  min_converted delta best [] = best
  min_converted delta best (e ∷ rdp) =
      min_converted delta (min_float fl best (converted delta e)) rdp

  unfoldable pub rdp_to_epsilon : Dict ℕ Float → Float → Result Float
  unfolding min_converted
  rdp_to_epsilon rdp delta =
      if is_delta delta
      then elim rdp [
        | [] ↦ err Failure.value_error
        | e ∷ rest ↦ ok (min_converted delta (converted delta e) rest)
      ]
      else err Failure.value_error
