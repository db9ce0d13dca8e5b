-- ===== src/Floats.antt =====
-- Python's floats and the numpy and math functions on them are not part of the repository, so they
-- are a parameter: a type with its operations. What a proof relies on is a hypothesis of its own.
pub mod Fixed
use sentry_link.Base.{ℕ, ◌≡◌, Bool, true, false, not, List, if◌then◌else◌}
use sentry_link.Base.Int.{ℤ}

pub record Floats : Type 1 where
  pub Float : Type 0
  -- `decimal m e` is the literal m * 10^(-e).
  pub decimal : ℕ → ℕ → Float
  pub of_int : ℤ → Float
  pub add : Float → Float → Float
  pub sub : Float → Float → Float
  pub mul : Float → Float → Float
  pub div : Float → Float → Float
  -- `a / n` of two integers, which is rounded once.
  pub ratio : ℤ → ℕ → Float
  pub lt : Float → Float → Bool
  pub le : Float → Float → Bool
  pub eq : Float → Float → Bool
  pub is_finite : Float → Bool
  pub log : Float → Float
  pub exp : Float → Float
  pub sqrt : Float → Float
  -- `x ** 2`
  pub square : Float → Float
  -- numpy: `a @ b`, `sum`, `linalg.norm`, `std`, `fix` and `rint` to an integer, and `rint` to a
  -- 64-bit pattern.
  pub dot : List Float → List Float → Float
  pub sum : List Float → Float
  pub norm : List Float → Float
  pub std : List Float → Float
  pub abs : Float → Float
  pub fix : Float → ℤ
  pub rint : Float → ℤ
  pub rint_int64 : Float → ℕ
  pub of_int64 : ℕ → Float

-- IEEE 754: a number is equal to itself, and NaN is not.
abbrev pub IsNumber : (fl : Floats) → fl.Float → Type 0
IsNumber fl x = fl.eq x x ≡ true

-- IEEE 754 comparisons of numbers.
pub record OrderLaws (fl : Floats) : Type 0 where
  pub le_total : (a b : fl.Float) → IsNumber fl a → IsNumber fl b → fl.le a b ≡ not (fl.lt b a)
  pub le_trans : (a b c : fl.Float) → fl.le a b ≡ true → fl.le b c ≡ true → fl.le a c ≡ true

-- IEEE 754: every order comparison with a NaN is false, and arithmetic passes a NaN on.
pub record NanLaws (fl : Floats) (nan : fl.Float) : Type 0 where
  pub lt_left : (a : fl.Float) → fl.lt nan a ≡ false
  pub lt_right : (a : fl.Float) → fl.lt a nan ≡ false
  pub le_left : (a : fl.Float) → fl.le nan a ≡ false
  pub le_right : (a : fl.Float) → fl.le a nan ≡ false
  pub add_left : (a : fl.Float) → fl.add nan a ≡ nan
  pub add_right : (a : fl.Float) → fl.add a nan ≡ nan
  pub sub_left : (a : fl.Float) → fl.sub nan a ≡ nan
  pub mul_left : (a : fl.Float) → fl.mul nan a ≡ nan
  pub mul_right : (a : fl.Float) → fl.mul a nan ≡ nan
  pub div_left : (a : fl.Float) → fl.div nan a ≡ nan

-- The literals `0.0` and `1.0`, and the limits of `np.clip`.
abbrev pub zero_float : (fl : Floats) → fl.Float
zero_float fl = fl.decimal 0 0

abbrev pub one_float : (fl : Floats) → fl.Float
one_float fl = fl.decimal 1 0

-- Python's `max(a, b)`, which keeps the first unless the second is greater.
abbrev pub max_float : (fl : Floats) → fl.Float → fl.Float → fl.Float
max_float fl a b = if fl.lt a b then b else a

-- Python's `min(a, b)`.
abbrev pub min_float : (fl : Floats) → fl.Float → fl.Float → fl.Float
min_float fl a b = if fl.lt b a then b else a

-- `np.clip(x, lo, hi)`, which passes a NaN on.
abbrev pub clip : (fl : Floats) → fl.Float → fl.Float → fl.Float → fl.Float
clip fl x lo hi = if fl.lt x lo then lo else if fl.lt hi x then hi else x
