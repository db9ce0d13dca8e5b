-- ===== src/Tests/Rounds.antt =====
-- A round of three parties of which one drops out.
use sentry_link.Base.{
  ℕ, String, ◌==◌, text_eq, Bool, not, if◌then◌else◌, some, List, [], ◌∷◌, length, All, ◌≡◌, refl,
  arith,
}
use sentry_link.Base.Int.{pos, ◌*ℤ◌}
use sentry_link.Base.Fill.{tabulate}
use sentry_link.Errors.{ok}
use sentry_link.Floats.Fixed.{Num, fixed}
use sentry_link.Modular.{vadd, signed64}
use sentry_link.Crypto.Prg.{expand_seed, int_masks}
use sentry_link.Crypto.SecureAggregation.{dequantize}
use sentry_link.Crypto.Prg.Bounds.{IsMask, int_masks_bounds}
use sentry_link.Federated.Server.{aggregate_updates}
use sentry_link.Federated.Aggregate.{prepared, aggregate_updates-sum}
use sentry_link.Tests.Toys.{toy, toy-KeyLaws, toy_hmac, toy_hmac-length}

abbrev private_key : String → ℕ
private_key i = if i == "a" then 11 else if i == "b" then 13 else 17

abbrev update : String → List Num
update i = Num.num (pos 2_000_000_000_000) ∷ Num.num (pos 3_000_000_000_000) ∷ []

abbrev everyone : List String
everyone = "a" ∷ "b" ∷ "c" ∷ []

abbrev stays : String → Bool
stays i = not (i == "c")

aggregate_updates-sum_example :
    aggregate_updates toy fixed "r" private_key everyone 2
      (some (Num.num (pos 1_000_000_000_000)))
      (tabulate update ("a" ∷ "b" ∷ []))
      ("c" ∷ [])
    ≡ ok (Num.num (pos 4_000_000_000_000) ∷ Num.num (pos 6_000_000_000_000) ∷ [])
unfolding prepared dequantize vadd aggregate_updates ◌*ℤ◌
aggregate_updates-sum_example =
    aggregate_updates-sum toy toy-KeyLaws private_key "r" 2 everyone fixed
      (some (Num.num (pos 1_000_000_000_000))) update (λ i. refl)
      (λ i. record { size = refl; reduced = (omega arith, (omega arith, tt)) }) refl stays refl

int_masks_bounds_example :
    (length (expand_seed toy_hmac (5 ∷ []) 24) ≡ 24)
    × (length (int_masks toy_hmac (5 ∷ []) 3) ≡ 3)
    × All (λ w. IsMask (signed64 w)) (int_masks toy_hmac (5 ∷ []) 3)
int_masks_bounds_example = int_masks_bounds toy_hmac toy_hmac-length (5 ∷ []) 3
