-- ===== src/Mpc/Residues.antt =====
-- Integers through their residues mod FIELD_P: sums, and `signed_mod` as the way back.
use native.Mathlib.Nat.{mod-eq_of_lt}
use sentry_link.Base.{
  ℕ, suc, ◌-◌, ◌/◌, ◌%◌, ◌≤◌, ◌<◌, List, [], ◌∷◌, map, replicate, length, length-map, All, ◌≡◌,
  refl, sym, ap, ap₂, ◌∙◌, arith,
}
use sentry_link.Base.Int.{ℤ, pos, negsuc, pos_part, neg_part, ◌+ℤ◌, +ℤ_parts}
use sentry_link.Config.{field_p}
use sentry_link.Modular.{add_mod, vadd, mod_ℤ}
use sentry_link.Modular.Vector.{IsVec}
use sentry_link.Crypto.SecretSharing.Sharing.{field_sum}
use sentry_link.Mpc.{signed_mod}

mod_ℤ-+ℤ : (a b : ℤ) → add_mod field_p (mod_ℤ a field_p) (mod_ℤ b field_p) ≡ mod_ℤ (a +ℤ b) field_p
unfolding mod_ℤ
mod_ℤ-+ℤ a b = omega (arith, +ℤ_parts a b)

-- An integer of at most half the field in size.
pub record IsSmall (a : ℤ) : Type 0 where
  pub above : pos_part a ≤ field_p / 2
  pub below : neg_part a ≤ field_p / 2

mod_ℤ-pos : (n : ℕ) → n ≤ field_p / 2 → mod_ℤ (pos n) field_p ≡ n
unfolding mod_ℤ
mod_ℤ-pos n h = omega arith

mod_ℤ-negsuc : (n : ℕ) → suc n ≤ field_p / 2 → mod_ℤ (negsuc n) field_p ≡ field_p - suc n
unfolding mod_ℤ
mod_ℤ-negsuc n h = omega arith

-- A natural number of at most half the field is read back as it is.
pub signed_mod-pos : (n : ℕ) → n ≤ field_p / 2 → signed_mod (n % field_p) ≡ pos n
unfolding signed_mod
signed_mod-pos n h =
    let e : n % field_p ≡ n = mod-eq_of_lt (omega arith) in rw (e, e) (ground arith)

signed_mod-negative : (n : ℕ) → suc n ≤ field_p / 2 → signed_mod (field_p - suc n) ≡ negsuc n
unfolding signed_mod
signed_mod-negative n h =
    let e : (field_p - suc n) % field_p ≡ field_p - suc n = mod-eq_of_lt (omega arith) in
    rw e (ground arith)

pub signed_mod-mod_ℤ : (a : ℤ) → IsSmall a → signed_mod (mod_ℤ a field_p) ≡ a
signed_mod-mod_ℤ (pos n) h =
    ap signed_mod (mod_ℤ-pos n h.above ∙ sym (mod-eq_of_lt (omega arith)))
    ∙ signed_mod-pos n h.above
signed_mod-mod_ℤ (negsuc n) h =
    ap signed_mod (mod_ℤ-negsuc n h.below) ∙ signed_mod-negative n h.below

module _ {A : Type 0} where
  -- The sum of a figure over all items.
  abbrev pub total : (A → ℤ) → List A → ℤ
  total f [] = pos 0
  total f (x ∷ xs) = f x +ℤ total f xs

  abbrev pub residues : List (A → ℤ) → A → List ℕ
  residues fs x = map (λ f. mod_ℤ (f x) field_p) fs

  residues-zero :
      (fs : List (A → ℤ)) → replicate (length fs) 0 ≡ map (λ f. mod_ℤ (pos 0) field_p) fs
  unfolding mod_ℤ
  residues-zero [] = refl
  residues-zero (f ∷ fs) = ap (◌∷◌ 0) (residues-zero fs)

  residues-add :
      (fs : List (A → ℤ)) (x : A) (xs : List A)
      → vadd field_p (residues fs x) (map (λ f. mod_ℤ (total f xs) field_p) fs)
        ≡ map (λ f. mod_ℤ (total f (x ∷ xs)) field_p) fs
  unfolding vadd
  residues-add [] x xs = refl
  residues-add (f ∷ fs) x xs = ap₂ ◌∷◌ (mod_ℤ-+ℤ (f x) (total f xs)) (residues-add fs x xs)

  -- Summing the residues of figures item by item gives the residues of the figures' sums.
  pub field_sum-residues :
      (fs : List (A → ℤ)) (xs : List A)
      → field_sum (length fs) (residues fs) xs ≡ map (λ f. mod_ℤ (total f xs) field_p) fs
  field_sum-residues fs [] = residues-zero fs
  field_sum-residues fs (x ∷ xs) =
      ap (vadd field_p (residues fs x)) (field_sum-residues fs xs) ∙ residues-add fs x xs

mod_ℤ-lt : (a : ℤ) → mod_ℤ a field_p < field_p
unfolding mod_ℤ
mod_ℤ-lt a = omega arith

residues-All : {A : Type 0} (fs : List (A → ℤ)) (x : A) → All (λ t. t < field_p) (residues fs x)
residues-All [] x = tt
residues-All (f ∷ fs) x = (mod_ℤ-lt (f x), residues-All fs x)

pub residues-IsVec :
    {A : Type 0} (fs : List (A → ℤ)) (x : A) → IsVec field_p (length fs) (residues fs x)
residues-IsVec fs x = record {
  size = length-map fs (λ f. mod_ℤ (f x) field_p);
  reduced = residues-All fs x;
}
