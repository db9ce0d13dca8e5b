-- ===== src/Base/Keys.antt =====
-- Equality of keys as an instance argument.
use Prim.Native.Nat.{ℕ}
use Prim.Native.String.{String}
use mathlib.Core.Path.{◌≡◌, refl}
use mathlib.Core.Logic.{◌↔◌, ◌≢◌, inl, inr}
use mathlib.Core.Bool.{Bool, true, false, not, ◌&&◌, ◌||◌}
use mathlib.Core.List.{List, [], ◌∷◌}
use native.Mathlib.Omega.{arith}
use text.Mathlib.Text.{◌==◌ as text_beq}
use text.Mathlib.TextEquality.{eq_iff}
use sentry_link.Base.Tests.{nat_beq, nat_beq_iff, Bool-cases, if◌then◌else◌}
use sentry_link.Base.Lists.{filter, All, All-map}

pub record Eq {ℓ} (A : Type ℓ) : Type ℓ where
  pub beq : A → A → Bool
  pub beq_iff : (x y : A) → (beq x y ≡ true) ↔ (x ≡ y)

instance abbrev pub text_eq : Eq String
text_eq = record { beq = text_beq; beq_iff = eq_iff }

instance abbrev pub nat_eq : Eq ℕ
nat_eq = record { beq = nat_beq; beq_iff = nat_beq_iff }

infix 50 ◌==◌
abbrev pub ◌==◌ {ℓ} : {A : Type ℓ} ⦃d : Eq A⦄ → A → A → Bool
◌==◌ ⦃d⦄ = d.beq

module _ {A : Type 0} {B : Type 0} ⦃a : Eq A⦄ ⦃b : Eq B⦄ where
  abbrev pub pair_beq : A × B → A × B → Bool
  pair_beq (x, y) (x', y') = a.beq x x' && b.beq y y'

  pub pair_beq_iff : (p q : A × B) → (pair_beq p q ≡ true) ↔ (p ≡ q)
  pair_beq_iff (x, y) (x', y') = ground (arith, a.beq_iff x x', b.beq_iff y y')

  instance abbrev pub pair_eq : Eq (A × B)
  pair_eq = record { beq = pair_beq; beq_iff = pair_beq_iff }

module _ {ℓ} {A : Type ℓ} ⦃e : Eq A⦄ where
  pub beq_refl : (a : A) → e.beq a a ≡ true
  beq_refl a = (e.beq_iff a a).1 refl

  -- `a in xs`
  abbrev pub mem : A → List A → Bool
  mem a [] = false
  mem a (x ∷ xs) = e.beq a x || mem a xs

  -- No item is listed twice.
  abbrev pub distinct : List A → Bool
  distinct [] = true
  distinct (x ∷ xs) = if mem x xs then false else distinct xs

module _ {ℓ} {A : Type ℓ} ⦃e : Eq A⦄ where
  pub mem-cons_false :
      (a x : A) (xs : List A) → mem a (x ∷ xs) ≡ false → (a ≢ x) × (mem a xs ≡ false)
  mem-cons_false a x xs h = ground (arith, e.beq_iff a x)

  pub beq-false : (a x : A) → a ≢ x → e.beq a x ≡ false
  beq-false a x h = ground (arith, e.beq_iff a x)

  pub distinct-cons :
      (x : A) (xs : List A) → distinct (x ∷ xs) ≡ true → (mem x xs ≡ false) × (distinct xs ≡ true)
  distinct-cons x xs h = ground arith

  pub mem-filter : (p : A → Bool) (a : A) (xs : List A) → mem a (filter p xs) ≡ (p a && mem a xs)
  mem-filter p a [] = ground arith
  mem-filter p a (x ∷ xs) = elim (Bool-cases (e.beq a x)) [
    | inl t ↦ rw ((e.beq_iff a x).0 t) (ground (arith, mem-filter p x xs, e.beq_iff x x))
    | inr t ↦ ground (arith, mem-filter p a xs)
  ]

  pub All-mem : (xs : List A) → All (λ x. mem x xs ≡ true) xs
  All-mem [] = tt
  All-mem (x ∷ xs) = (ground (arith, e.beq_iff x x), All-map (λ a h. ground arith) xs (All-mem xs))

  -- Of some members of a list, those that a filter of the list drops are those that fail its test.
  pub filter-not-mem :
      (p : A → Bool) (xs zs : List A)
      → All (λ z. mem z xs ≡ true) zs
      → filter (λ z. not (mem z (filter p xs))) zs ≡ filter (λ z. not (p z)) zs
  filter-not-mem p xs [] h = refl
  filter-not-mem p xs (z ∷ zs) h = ground (arith, mem-filter p z xs, filter-not-mem p xs zs h.1)

  pub distinct-filter :
      (p : A → Bool) (xs : List A) → distinct xs ≡ true → distinct (filter p xs) ≡ true
  distinct-filter p [] h = refl
  distinct-filter p (x ∷ xs) h = ground (arith, mem-filter p x xs, distinct-filter p xs)
