-- ===== src/Tests/Limits.antt =====
-- A limiter of two calls in ten seconds.
use sentry_link.Base.{ℕ, ◌≤◌, true, [], ◌∷◌, filter, length, ◌≡◌, refl, arith}
use sentry_link.Base.Int.{ℤ, pos, -ℤ_parts, ◌*ℤ◌}
use sentry_link.Floats.Fixed.{Num, fixed}
use sentry_link.RateLimit.{within}
use sentry_link.RateLimit.Window.{bucket, admitted_times, allow-within_limit}

abbrev seconds : ℕ → Num
seconds n = fixed.of_int (pos n)

-- What a window that ends later sees, one that ends earlier saw.
fixed_forward :
    (w : ℤ) (e now t : Num)
    → fixed.le now e ≡ true
    → within fixed (Num.num w) e t ≡ true
    → within fixed (Num.num w) now t ≡ true
fixed_forward w (Num.num e) (Num.num now) (Num.num t) early seen =
    ground (arith, -ℤ_parts e w, -ℤ_parts now w)
fixed_forward w Num.nan (Num.num now) t early seen = cc
fixed_forward w e Num.nan t early seen = cc
fixed_forward w (Num.num e) (Num.num now) Num.nan early seen = cc

allow-within_limit_example :
    length (
      filter (within fixed (seconds 10) (seconds 9)) (
        admitted_times fixed "a"
          (bucket fixed (seconds 10) 2 "a" (seconds 9) (λ n t. fixed_forward _ (seconds 9) n t) [])
          (("a", seconds 1) ∷ ("a", seconds 2) ∷ ("b", seconds 3) ∷ ("a", seconds 4) ∷ [])))
    ≤ 2
unfolding ◌*ℤ◌
allow-within_limit_example =
    allow-within_limit fixed (seconds 10) 2 "a" (seconds 9) (λ n t. fixed_forward _ (seconds 9) n t)
      (("a", seconds 1) ∷ ("a", seconds 2) ∷ ("b", seconds 3) ∷ ("a", seconds 4) ∷ [])
      (refl, (refl, (refl, (refl, tt))))
