-- ===== src/Tests/Shares.antt =====
-- Secret sharing over two nodes, and the statistics on shares.
use sentry_link.Base.{ℕ, ◌<◌, List, [], ◌∷◌, map, ◌≡◌, refl, arith}
use sentry_link.Base.Int.{pos, ◌+ℤ◌, ◌*ℤ◌}
use sentry_link.Config.{field_p}
use sentry_link.Errors.{ok, ◌>>=◌}
use sentry_link.Floats.Fixed.{Num, fixed}
use sentry_link.Crypto.SecretSharing.{share_vector, reconstruct}
use sentry_link.Crypto.SecretSharing.Sharing.{gather}
use sentry_link.Crypto.SecretSharing.Split.{reconstruct-share_vector}
use sentry_link.Mpc.{run_histogram, run_variance, variance_of, quantize_ints, sum_ℤ, products}
use sentry_link.Mpc.Exact.{run_histogram-exact, run_variance-pooled, pooled, as_integers}

abbrev tape : ℕ → ℕ
tape k = 5

abbrev tapes : ℕ → ℕ → ℕ
tapes k i = 5

tape_below : (k : ℕ) → tape k < field_p
tape_below k = omega arith

tapes_below : (k i : ℕ) → tapes k i < field_p
tapes_below k i = omega arith

reconstruct-share_vector_example :
    (share_vector tape (map pos (7 ∷ 1 ∷ [])) ("a" ∷ "b" ∷ []) >>= λ d.
    gather ("a" ∷ "b" ∷ []) d >>= reconstruct)
    ≡ ok (7 ∷ 1 ∷ [])
reconstruct-share_vector_example =
    reconstruct-share_vector tape tape_below (7 ∷ 1 ∷ []) "a" "b" [] refl
      (omega arith, (omega arith, tt))

run_histogram-exact_example :
    run_histogram tapes (as_integers (("x", 4 ∷ 2 ∷ []) ∷ ("y", 1 ∷ 9 ∷ []) ∷ [])) ("a" ∷ "b" ∷ [])
    ≡ ok (pos 5 ∷ pos 11 ∷ [])
run_histogram-exact_example =
    run_histogram-exact tapes tapes_below "a" "b" [] refl 2 ("x", 4 ∷ 2 ∷ [])
      (("y", 1 ∷ 9 ∷ []) ∷ [])
      (
        record { size = refl; reduced = (omega arith, (omega arith, tt)) },
        (record { size = refl; reduced = (omega arith, (omega arith, tt)) }, tt),
      )
      (omega arith, (omega arith, tt))

-- Two organizations with the values 1 and 3.
abbrev one_value : List Num
one_value = Num.num (pos 1_000_000_000_000) ∷ []

abbrev three_value : List Num
three_value = Num.num (pos 3_000_000_000_000) ∷ []

run_variance-pooled_example :
    run_variance fixed tapes (("x", one_value) ∷ ("y", three_value) ∷ []) ("a" ∷ "b" ∷ []) ≡ (
      let q = quantize_ints fixed (pooled (one_value ∷ three_value ∷ [])) in
      ok (variance_of fixed 2 (sum_ℤ q) (sum_ℤ (products q q))))
unfolding quantize_ints sum_ℤ products ◌+ℤ◌ ◌*ℤ◌
run_variance-pooled_example =
    run_variance-pooled fixed tapes tapes_below "a" "b" [] refl ("x", one_value)
      (("y", three_value) ∷ []) (omega arith) (record { above = omega arith; below = omega arith })
      (record { above = omega arith; below = omega arith })
