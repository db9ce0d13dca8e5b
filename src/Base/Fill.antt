-- ===== src/Base/Fill.antt =====
-- Dicts that a loop fills with the values of a function.
use sentry_link.Base.Keys.{Eq, mem, distinct, distinct-cons, mem-cons_false}
use sentry_link.Base.Lists.{All}
use sentry_link.Base.Tests.{Bool-cases}
use sentry_link.Base.Dict.{
  Dict, keys, lookup, insert, lookup-insert_self, lookup-insert_ne, lookup-insert_agree,
}
use mathlib.Core.Path.{◌≡◌, refl, sym, ap, ◌∙◌}
use mathlib.Core.Logic.{inl, inr}
use mathlib.Core.Bool.{true, false}
use mathlib.Core.List.{List, [], ◌∷◌, ◌++◌, map}
use mathlib.Core.Option.{none, some}
use native.Mathlib.Omega.{arith}

module _ {K V : Type 0} (f : K → V) where
  -- `{k: f(k) for k in ks}` of distinct keys.
  abbrev pub tabulate : List K → Dict K V
  tabulate = map (λ k. (k, f k))

  pub keys-tabulate : (ks : List K) → keys (tabulate ks) ≡ ks
  keys-tabulate [] = refl
  keys-tabulate (k ∷ ks) = ap (◌∷◌ k) (keys-tabulate ks)

module _ {K V : Type 0} ⦃e : Eq K⦄ (f : K → V) where
  -- A loop that stores the value of each key.
  abbrev pub fill : List K → Dict K V → Dict K V
  fill [] d = d
  fill (k ∷ ks) d = fill ks (insert k (f k) d)

  pub fill-append : (ks js : List K) (d : Dict K V) → fill (ks ++ js) d ≡ fill js (fill ks d)
  fill-append [] js d = refl
  fill-append (k ∷ ks) js d = fill-append ks js (insert k (f k) d)

  insert-new : (k : K) (v : V) (d : Dict K V) → lookup k d ≡ none → insert k v d ≡ d ++ (k, v) ∷ []
  insert-new k v [] h = refl
  insert-new k v ((j, w) ∷ d) h = elim (Bool-cases (e.beq k j)) [
    | inl t ↦ ground (arith, h, t)
    | inr t ↦ rw t (ap (◌∷◌ (j, w)) (insert-new k v d (ground (arith, h, t))))
  ]

  append_assoc : {A : Type 0} (xs ys zs : List A) → (xs ++ ys) ++ zs ≡ xs ++ (ys ++ zs)
  append_assoc [] ys zs = refl
  append_assoc (x ∷ xs) ys zs = ap (◌∷◌ x) (append_assoc xs ys zs)

  still_new :
      (k : K) (v : V) (d : Dict K V) (ks : List K)
      → mem k ks ≡ false
      → All (λ j. lookup j d ≡ none) ks
      → All (λ j. lookup j (insert k v d) ≡ none) ks
  still_new k v d [] h hs = tt
  still_new k v d (j ∷ ks) h hs =
      let (apart, rest) = mem-cons_false k j ks h in
      (lookup-insert_ne k j v d (λ p. apart (sym p)) ∙ hs.0, still_new k v d ks rest hs.1)

  -- Distinct new keys are appended in their order.
  pub fill-new :
      (ks : List K) (d : Dict K V)
      → distinct ks ≡ true
      → All (λ j. lookup j d ≡ none) ks
      → fill ks d ≡ d ++ tabulate f ks
  fill-new [] d h hs = sym (append_nil d)
    where
      append_nil : (xs : Dict K V) → xs ++ [] ≡ xs
      append_nil [] = refl
      append_nil (x ∷ xs) = ap (◌∷◌ x) (append_nil xs)
  fill-new (k ∷ ks) d h hs =
      let (fresh, rest) = distinct-cons k ks h in
      fill-new ks (insert k (f k) d) rest (still_new k (f k) d ks fresh hs.1)
      ∙ ap (λ d'. d' ++ tabulate f ks) (insert-new k (f k) d hs.0)
      ∙ append_assoc d ((k, f k) ∷ []) (tabulate f ks)

  all_new : (ks : List K) → All (λ j. lookup {V = V} j [] ≡ none) ks
  all_new [] = tt
  all_new (k ∷ ks) = (refl, all_new ks)

  pub fill-empty : (ks : List K) → distinct ks ≡ true → fill ks [] ≡ tabulate f ks
  fill-empty ks h = fill-new ks [] h (all_new ks)

  pub lookup-tabulate :
      (k : K) (ks : List K) → mem k ks ≡ true → lookup k (tabulate f ks) ≡ some (f k)
  lookup-tabulate k [] h = cc
  lookup-tabulate k (j ∷ ks) h = elim (Bool-cases (e.beq k j)) [
    | inl t ↦ rw t (ap (λ i. some (f i)) (sym ((e.beq_iff k j).0 t)))
    | inr t ↦ rw t (lookup-tabulate k ks (ground (arith, h, t)))
  ]

  pub fill-keep :
      (j : K) (ks : List K) (d : Dict K V)
      → lookup j d ≡ some (f j)
      → lookup j (fill ks d) ≡ some (f j)
  fill-keep j [] d h = h
  fill-keep j (k ∷ ks) d h = fill-keep j ks (insert k (f k) d) (lookup-insert_agree f k j d h)

  pub lookup-fill : (ks : List K) (d : Dict K V) → All (λ j. lookup j (fill ks d) ≡ some (f j)) ks
  lookup-fill [] d = tt
  lookup-fill (k ∷ ks) d = (
    fill-keep k ks (insert k (f k) d) (lookup-insert_self k (f k) d),
    lookup-fill ks (insert k (f k) d),
  )
