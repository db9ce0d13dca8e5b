-- ===== src/Tests/Training.antt =====
-- A round of three clients with one row each, of which one is dropped.
use sentry_link.Base.{String, true, some, List, [], ◌∷◌, map, ◌≡◌, refl, arith}
use sentry_link.Base.Int.{pos, ◌+ℤ◌, ◌-ℤ◌, ◌*ℤ◌}
use sentry_link.Errors.{ok, err}
use sentry_link.Floats.Fixed.{Num, fixed}
use sentry_link.Crypto.SecureAggregation.{dequantize}
use sentry_link.Crypto.SecureAggregation.Masks.{word_sum}
use sentry_link.Federated.Model.{LogisticModel, FederatedClient, local_train}
use sentry_link.Federated.Server.{train_all}
use sentry_link.Federated.Aggregate.{prepared}
use sentry_link.Federated.Round.{Draws, RoundArgs, mean_update, update_clip}
use sentry_link.Federated.Round.Mean.{mean_update-mean}
use sentry_link.Tests.Toys.{toy, toy-KeyLaws}

abbrev one : Num
one = fixed.of_int (pos 1)

abbrev pub client : String → FederatedClient fixed
client id = record {
  org_id = id;
  x = (one ∷ []) ∷ [];
  y = one ∷ [];
  lr = one;
  l2 = fixed.decimal 1 3;
  dim = 1;
}

abbrev clients : List (FederatedClient fixed)
clients = client "a" ∷ client "b" ∷ client "c" ∷ []

abbrev model : LogisticModel fixed
model = record { dim = 1; weights = one ∷ []; bias = one }

abbrev pub draws : Draws toy fixed
draws = record {
  round_id = "r";
  private = λ i. 7;
  orders = λ i k. 0 ∷ [];
  normal = λ sigma n. [];
  eval_round_id = "e";
  eval_private = λ i. 7;
}

abbrev args : RoundArgs toy fixed
args = record {
  drop = "c" ∷ [];
  epochs = 1;
  apply_dp = true;
  epsilon = one;
  delta = fixed.decimal 1 5;
}

abbrev update : String → List Num
update i = elim (local_train fixed (client i) model (λ k. 0 ∷ []) 1) [ ok d ↦ d | err f ↦ [] ]

mean_update-mean_example :
    mean_update toy fixed draws model clients args
    ≡ ok (
        map
          (λ x. fixed.div x (fixed.of_int (pos 2)))
          (dequantize fixed (
            word_sum 2
              (λ i. prepared fixed (some (update_clip toy fixed)) (update i))
              ("a" ∷ "b" ∷ []))))
unfolding train_all local_train prepared ◌+ℤ◌ ◌-ℤ◌ ◌*ℤ◌
mean_update-mean_example =
    mean_update-mean toy toy-KeyLaws fixed draws model clients args update (client "a")
      (client "b" ∷ []) refl refl refl (λ i. refl)
      (λ i. record { size = refl; reduced = (omega arith, (omega arith, tt)) })
