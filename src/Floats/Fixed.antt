-- ===== src/Floats/Fixed.antt =====
-- A concrete set of floats: fixed-point numbers with twelve decimals, and a NaN. The functions that
-- no test computes with are constant. It shows that the hypotheses on floats can be met.
use sentry_link.Floats.{Floats, OrderLaws, NanLaws}
use sentry_link.Base.{
  arith, ◌≡◌, refl, not, ℕ, ◌+◌, ◌*◌, ◌/◌, ◌-◌, ◌^◌, ◌%◌, ◌&&◌, Bool, true, false, leb,
  if◌then◌else◌,
}
use sentry_link.Base.Int.{ℤ, pos, negsuc, pos_part, neg_part, sub_ℕ, leb_ℤ, ltb_ℤ, ◌+ℤ◌, ◌-ℤ◌, ◌*ℤ◌}

pub data Num : Type 0 where
  nan : Num
  num : ℤ → Num

abbrev pub unit : ℕ
unit = 1_000_000_000_000

abbrev pub lift : (ℤ → ℤ → ℤ) → Num → Num → Num
lift f (num a) (num b) = num (f a b)
lift f nan _ = nan
lift f _ nan = nan

abbrev pub compare_with : (ℤ → ℤ → Bool) → Num → Num → Bool
compare_with f (num a) (num b) = f a b
compare_with f nan _ = false
compare_with f _ nan = false

-- Division of the two parts by a positive number, toward zero.
abbrev pub shrink : ℤ → ℕ → ℤ
shrink a n = sub_ℕ (pos_part a / n) (neg_part a / n)

abbrev pub quotient : ℤ → ℤ → ℤ
quotient a (pos n) = sub_ℕ (pos_part a * unit / n) (neg_part a * unit / n)
quotient a (negsuc n) = sub_ℕ (neg_part a * unit / (n + 1)) (pos_part a * unit / (n + 1))

abbrev pub whole : Num → ℤ
whole nan = pos 0
whole (num a) = shrink a unit

abbrev pub rescale : ℕ → ℕ → ℤ
rescale m e = if leb e 12 then pos (m * 10 ^ (12 - e)) else pos (m / 10 ^ (e - 12))

-- The 64-bit pattern of an integer, and the integer of a pattern.
abbrev pub to_pattern : ℤ → ℕ
to_pattern a = (pos_part a + (2 ^ 64 - neg_part a)) % 2 ^ 64

abbrev pub of_pattern : ℕ → ℤ
of_pattern n = if leb (2 ^ 63) n then sub_ℕ n (2 ^ 64) else pos n

abbrev pub is_num : Num → Bool
is_num nan = false
is_num (num a) = true

abbrev pub fixed : Floats
fixed = record {
  Float = Num;
  decimal = λ m e. num (rescale m e);
  of_int = λ a. num (a *ℤ pos unit);
  add = lift (λ a b. a +ℤ b);
  sub = lift (λ a b. a -ℤ b);
  mul = lift (λ a b. shrink (a *ℤ b) unit);
  div = lift quotient;
  ratio = λ a n. num (quotient a (pos n));
  lt = compare_with ltb_ℤ;
  le = compare_with leb_ℤ;
  eq = compare_with (λ a b. leb_ℤ a b && leb_ℤ b a);
  is_finite = is_num;
  log = λ a. num (pos unit);
  exp = λ a. num (pos unit);
  sqrt = λ a. a;
  square = λ a. lift (λ x y. shrink (x *ℤ y) unit) a a;
  dot = λ u v. num (pos 0);
  sum = λ v. num (pos 0);
  norm = λ v. num (pos 0);
  std = λ v. num (pos 0);
  abs = λ a. if compare_with ltb_ℤ a (num (pos 0)) then lift (λ x y. x -ℤ y) (num (pos 0)) a else a;
  fix = whole;
  rint = whole;
  rint_int64 = λ a. to_pattern (whole a);
  of_int64 = λ n. num (of_pattern n *ℤ pos unit);
}

number_le_total :
    (a b : Num)
    → compare_with (λ x y. leb_ℤ x y && leb_ℤ y x) a a ≡ true
    → compare_with (λ x y. leb_ℤ x y && leb_ℤ y x) b b ≡ true
    → compare_with leb_ℤ a b ≡ not (compare_with ltb_ℤ b a)
number_le_total (num a) (num b) h k = ground arith
number_le_total nan b h k = cc
number_le_total (num a) nan h k = cc

number_le_trans :
    (a b c : Num)
    → compare_with leb_ℤ a b ≡ true
    → compare_with leb_ℤ b c ≡ true
    → compare_with leb_ℤ a c ≡ true
number_le_trans (num a) (num b) (num c) h k = ground arith
number_le_trans nan b c h k = cc
number_le_trans (num a) nan c h k = cc
number_le_trans (num a) (num b) nan h k = cc

pub fixed-OrderLaws : OrderLaws fixed
fixed-OrderLaws = record { le_total = number_le_total; le_trans = number_le_trans }

compare_nan : (f : ℤ → ℤ → Bool) (a : Num) → compare_with f a nan ≡ false
compare_nan f nan = refl
compare_nan f (num a) = refl

lift_nan : (f : ℤ → ℤ → ℤ) (a : Num) → lift f a nan ≡ nan
lift_nan f nan = refl
lift_nan f (num a) = refl

pub fixed-NanLaws : NanLaws fixed nan
fixed-NanLaws = record {
  lt_left = λ a. refl;
  lt_right = compare_nan ltb_ℤ;
  le_left = λ a. refl;
  le_right = compare_nan leb_ℤ;
  add_left = λ a. refl;
  add_right = lift_nan (λ a b. a +ℤ b);
  sub_left = λ a. refl;
  mul_left = λ a. refl;
  mul_right = lift_nan (λ a b. shrink (a *ℤ b) unit);
  div_left = λ a. refl;
}
