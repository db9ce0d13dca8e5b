-- ===== src/Base/Text.antt =====
-- The order of Python's texts, by code points.
use Prim.Native.Nat.{ℕ, Ordering}
use Prim.Native.Nat.{compare as compare_ℕ}
use Prim.Native.Char.{code}
use Prim.Native.String.{String, [], ◌∷◌, compare, then as after}
use Prim.Native.String.compare
use mathlib.Core.Path.{◌≡◌, refl, ap, ◌∙◌}
use mathlib.Core.Bool.{Bool, true, false, not, ◌&&◌}
use mathlib.Core.Logic.{◌≢◌}
use native.Mathlib.Omega.{arith}
use text.Mathlib.TextEquality.{path_by_compare}
use sentry_link.Base.Tests.{ltb, if◌then◌else◌}

abbrev is_lt : Ordering → Bool
is_lt Ordering.lt = true
is_lt _ = false

abbrev pub text_lt : String → String → Bool
text_lt s t = is_lt (compare s t)

abbrev swap : Ordering → Ordering
swap Ordering.lt = Ordering.gt
swap Ordering.eq = Ordering.eq
swap Ordering.gt = Ordering.lt

nat_compare-swap : (m n : ℕ) → compare_ℕ n m ≡ swap (compare_ℕ m n)
nat_compare-swap m n = ground arith

then-swap : (o r : Ordering) → after (swap o) (swap r) ≡ swap (after o r)
then-swap Ordering.lt r = refl
then-swap Ordering.eq r = refl
then-swap Ordering.gt r = refl

compare-swap : (s t : String) → compare t s ≡ swap (compare s t)
compare-swap [] [] = refl
compare-swap [] (d ∷ t) = simp (compare.nil-cons, compare.cons-nil)
compare-swap (c ∷ s) [] = simp (compare.nil-cons, compare.cons-nil)
compare-swap (c ∷ s) (d ∷ t) =
    simp (compare.cons-cons, compare-swap s t)
      (rw (nat_compare-swap (code c) (code d)) (then-swap _ _))

is_lt-swap : (o : Ordering) → o ≢ Ordering.eq → is_lt (swap o) ≡ not (is_lt o)
is_lt-swap Ordering.lt n = refl
is_lt-swap Ordering.eq n = absurd (n refl)
is_lt-swap Ordering.gt n = refl

-- Of two different texts exactly one comes first.
pub text_lt-swap : (s t : String) → s ≢ t → text_lt t s ≡ not (text_lt s t)
text_lt-swap s t h =
    ap is_lt (compare-swap s t) ∙ is_lt-swap (compare s t) (λ e. h (path_by_compare s t e))

-- `sorted((i, j))`
abbrev pub sorted_pair : String → String → String × String
sorted_pair i j = if text_lt j i then (j, i) else (i, j)

pub sorted_pair_comm : (i j : String) → i ≢ j → sorted_pair i j ≡ sorted_pair j i
sorted_pair_comm i j h = ground (arith, text_lt-swap i j h)

-- `s.isascii()`
abbrev pub is_ascii : String → Bool
is_ascii [] = true
is_ascii (c ∷ s) = ltb (code c) 128 && is_ascii s
