-- ===== src/Federated/Model.antt =====
-- sentrylink/federated/model.py and client.py: logistic regression, and training on private rows.
use sentry_link.Base.{
  ℕ, zero, suc, ◌+◌, String, ◌==◌, nat_eq, Bool, not, ◌&&◌, ◌||◌, List, [], ◌∷◌, map, all, length,
  replicate, ltb, Option, none, some, if◌then◌else◌,
}
use sentry_link.Base.Int.{pos, leb_ℤ}
use sentry_link.Errors.{Failure, Result, ok, err, ◌>>=◌, ◌>>◌, raise_if}
use sentry_link.Floats.{Floats, zero_float, one_float, clip}

module _ (fl : Floats) where
  open fl use {Float, add, sub, mul, div, lt, le, eq, is_finite, exp, log, dot}

  abbrev half : Float
  half = fl.decimal 5 1

  -- `sigmoid` of one value.
  unfoldable pub sigmoid : Float → Float
  sigmoid z =
      let limit = fl.of_int (pos 35) in
      let z' = clip fl z (sub (zero_float fl) limit) limit in
      div (one_float fl) (add (one_float fl) (exp (sub (zero_float fl) z')))

  pub record LogisticModel : Type 0 where
    pub dim : ℕ
    pub weights : List Float
    pub bias : Float

  -- `LogisticModel.zeros`
  unfoldable pub zeros : ℕ → LogisticModel
  zeros dim = record { dim = dim; weights = replicate dim (zero_float fl); bias = zero_float fl }

  -- `LogisticModel.flat`
  unfoldable pub flat : LogisticModel → List Float
  flat m = m.bias ∷ m.weights

  -- `LogisticModel.from_flat`; reading the bias of an empty vector raises (an IndexError, as a
  -- builtin failure).
  unfoldable pub from_flat : ℕ → List Float → Result LogisticModel
  from_flat dim [] = err Failure.key_error
  from_flat dim (b ∷ w) = ok (record { dim = dim; weights = w; bias = b })

  unfoldable pub logits : LogisticModel → List (List Float) → List Float
  logits m x = map (λ row. add (dot row m.weights) m.bias) x

  unfoldable pub predict_proba : LogisticModel → List (List Float) → List Float
  unfolding logits sigmoid
  predict_proba m x = map sigmoid (logits m x)

  unfoldable pub predict : LogisticModel → List (List Float) → List ℕ
  unfolding predict_proba
  predict m x = map (λ p. if le half p then 1 else 0) (predict_proba m x)

  -- `y * log(p) + (1 - y) * log(1 - p)` for each row.
  unfoldable pub log_terms : List Float → List Float → List Float
  log_terms (p ∷ ps) (y ∷ ys) =
      add (mul y (log p)) (mul (sub (one_float fl) y) (log (sub (one_float fl) p)))
      ∷ log_terms ps ys
  log_terms [] ys = []
  log_terms (p ∷ ps) [] = []

  -- The rows where `p >= 0.5` is the label.
  unfoldable pub count_correct : List Float → List Float → ℕ
  count_correct (p ∷ ps) (y ∷ ys) =
      let label = if le half p then pos 1 else pos 0 in
      let hit = leb_ℤ (fl.fix y) label && leb_ℤ label (fl.fix y) in
      (if hit then 1 else 0) + count_correct ps ys
  count_correct [] ys = 0
  count_correct (p ∷ ps) [] = 0

  -- The number of rows, the summed log loss and the number of correct predictions.
  unfoldable pub evaluate_sufficient_stats :
      LogisticModel → List (List Float) → List Float → ℕ × Float × ℕ
  unfolding predict_proba log_terms count_correct
  evaluate_sufficient_stats m x y =
      let tiny = fl.decimal 1 9 in
      let p = map (λ q. clip fl q tiny (sub (one_float fl) tiny)) (predict_proba m x) in
      (length y, sub (zero_float fl) (fl.sum (log_terms p y)), count_correct p y)

  pub record FederatedClient : Type 0 where
    pub org_id : String
    pub x : List (List Float)
    pub y : List Float
    pub lr : Float
    pub l2 : Float
    pub dim : ℕ

  abbrev is_binary : Float → Bool
  is_binary v = eq v (zero_float fl) || eq v (one_float fl)

  -- `FederatedClient.__post_init__` on a matrix whose rows have `dim` columns.
  unfoldable pub new_client :
      String → ℕ → List (List Float) → List Float → Float → Float → Result FederatedClient
  new_client org_id dim x y lr l2 = do
    raise_if (not (length x == length y)) Failure.invalid_data
    raise_if (length x == 0) Failure.invalid_data
    raise_if (not (all (λ row. length row == dim) x)) Failure.invalid_data
    raise_if (not (all (all is_finite) x && all is_finite y)) Failure.invalid_data
    raise_if (not (all is_binary y)) Failure.invalid_data
    raise_if (not (is_finite lr) || le lr (zero_float fl)) Failure.invalid_data
    raise_if (not (is_finite l2) || lt l2 (zero_float fl)) Failure.invalid_data
    ok (record { org_id = org_id; x = x; y = y; lr = lr; l2 = l2; dim = dim })

  -- The row and the label at an index, for one step of the descent.
  unfoldable pub row_at : List (List Float) → List Float → ℕ → Option (List Float × Float)
  row_at (r ∷ x) (l ∷ y) zero = some (r, l)
  row_at (r ∷ x) (l ∷ y) (suc i) = row_at x y i
  row_at [] y i = none
  row_at (r ∷ x) [] i = none

  -- `w[1:] - lr * (err * xi + l2 * w[1:])`, componentwise.
  unfoldable pub descend : Float → Float → Float → List Float → List Float → List Float
  descend lr l2 residue (w ∷ ws) (xi ∷ xs) =
      sub w (mul lr (add (mul residue xi) (mul l2 w))) ∷ descend lr l2 residue ws xs
  descend lr l2 residue [] xs = []
  descend lr l2 residue (w ∷ ws) [] = []

  -- One step of stochastic gradient descent on a row.
  unfoldable pub train_step : FederatedClient → List Float → ℕ → Result (List Float)
  unfolding sigmoid row_at descend
  train_step c [] idx = err Failure.key_error
  train_step c (b ∷ ws) idx = elim (row_at c.x c.y idx) [
    | none ↦ err Failure.key_error
    | some (xi, yi) ↦
        let p = sigmoid (add b (dot ws xi)) in
        let residue = sub p yi in ok (sub b (mul c.lr residue) ∷ descend c.lr c.l2 residue ws xi)
  ]

  unfoldable pub train_rows : FederatedClient → List Float → List ℕ → Result (List Float)
  unfolding train_step
  train_rows c w [] = ok w
  train_rows c w (idx ∷ order) = do w' ← train_step c w idx; train_rows c w' order

  -- The epochs: `orders k` is the permutation drawn for the k-th.
  unfoldable pub train_epochs :
      FederatedClient → (ℕ → List ℕ) → ℕ → ℕ → List Float → Result (List Float)
  unfolding train_rows
  train_epochs c orders zero k w = ok w
  train_epochs c orders (suc epochs) k w = do
    w' ← train_rows c w (orders k)
    train_epochs c orders epochs (suc k) w'

  -- `a - b`, componentwise.
  unfoldable pub subtract : List Float → List Float → List Float
  subtract (a ∷ as') (b ∷ bs) = sub a b ∷ subtract as' bs
  subtract [] bs = []
  subtract (a ∷ as') [] = []

  unfoldable pub local_train :
      FederatedClient → LogisticModel → (ℕ → List ℕ) → ℕ → Result (List Float)
  unfolding flat train_epochs subtract
  local_train c m orders epochs = do
    raise_if (not (m.dim == c.dim)) Failure.model_dimension_mismatch
    raise_if (ltb epochs 1) Failure.invalid_data
    w ← train_epochs c orders epochs 0 (flat m)
    ok (subtract w (flat m))

  unfoldable pub eval_stats : FederatedClient → LogisticModel → Result (List Float)
  unfolding evaluate_sufficient_stats
  eval_stats c m = do
    raise_if (not (m.dim == c.dim)) Failure.model_dimension_mismatch
    let (n, loss, correct) = evaluate_sufficient_stats m c.x c.y
    ok (fl.of_int (pos n) ∷ loss ∷ fl.of_int (pos correct) ∷ [])
