-- ===== src/Modular/Group.antt =====
-- Sums in a commutative group whose carrier is marked by a predicate, and the cancellation of
-- antisymmetric terms over all pairs of a list. A round of secure aggregation is an instance.
use sentry_link.Base.{
  ◌≡◌, refl, sym, ◌∙◌, ap, ap₂, Bool, true, not, List, [], ◌∷◌, Bool-cases, inl, inr, filter,
}

pub record GroupLaws (V : Type 0) (IsVec : V → Type 0) (◌⊕◌ : V → V → V) (neg : V → V) (z : V)
    : Type 0 where
  pub assoc : (a b c : V) → ◌⊕◌ (◌⊕◌ a b) c ≡ ◌⊕◌ a (◌⊕◌ b c)
  pub comm : (a b : V) → ◌⊕◌ a b ≡ ◌⊕◌ b a
  pub add_vec : (a b : V) → IsVec a → IsVec b → IsVec (◌⊕◌ a b)
  pub neg_vec : (a : V) → IsVec a → IsVec (neg a)
  pub zero_vec : IsVec z
  pub zero_left : (a : V) → IsVec a → ◌⊕◌ z a ≡ a
  pub neg_right : (a : V) → IsVec a → ◌⊕◌ a (neg a) ≡ z

module _ {V : Type 0} {IsVec : V → Type 0} {◌⊕◌ : V → V → V} {neg : V → V} {z : V}
    (g : GroupLaws V IsVec ◌⊕◌ neg z) where
  open g use {assoc, comm, add_vec, neg_vec, zero_vec, zero_left, neg_right}

  infixl 65 ◌⊕◌
  abbrev pub sum : {A : Type 0} → (A → V) → List A → V
  sum f [] = z
  sum f (x ∷ xs) = f x ⊕ sum f xs

  -- (a ⊕ b) ⊕ (c ⊕ d) with the middle terms exchanged.
  pub interchange : (a b c d : V) → (a ⊕ b) ⊕ (c ⊕ d) ≡ (a ⊕ c) ⊕ (b ⊕ d)
  interchange a b c d =
      cc (assoc a b (c ⊕ d), assoc b c d, assoc a c (b ⊕ d), assoc c b d, comm b c)

  -- What is taken off and added back leaves the value.
  pub add_back : (a b : V) → IsVec a → IsVec b → a ⊕ (b ⊕ neg a ⊕ z) ≡ b
  add_back a b ha hb =
      let n = neg a in
      cc (
        comm (b ⊕ n) z,
        zero_left (b ⊕ n) (add_vec b n hb (neg_vec a ha)),
        comm a (b ⊕ n),
        assoc b n a,
        comm n a,
        neg_right a ha,
        comm b z,
        zero_left b hb,
      )

  module _ {A : Type 0} where
    pub sum-vec : (f : A → V) → ((x : A) → IsVec (f x)) → (xs : List A) → IsVec (sum f xs)
    sum-vec f fv [] = zero_vec
    sum-vec f fv (x ∷ xs) = add_vec _ _ (fv x) (sum-vec f fv xs)

    pub sum-add : (f h : A → V) (xs : List A) → sum (λ x. f x ⊕ h x) xs ≡ sum f xs ⊕ sum h xs
    sum-add f h [] = sym (zero_left z zero_vec)
    sum-add f h (x ∷ xs) =
        ap (λ t. (f x ⊕ h x) ⊕ t) (sum-add f h xs) ∙ interchange (f x) (h x) (sum f xs) (sum h xs)

    pub sum-zero : (f : A → V) (xs : List A) → ((x : A) → f x ≡ z) → sum f xs ≡ z
    sum-zero f [] h = refl
    sum-zero f (x ∷ xs) h = ap₂ ◌⊕◌ (h x) (sum-zero f xs h) ∙ zero_left z zero_vec

    -- The terms of the items that pass a test, and those of the others.
    pub sum-filter :
        (f : A → V) (p : A → Bool) (xs : List A)
        → ((x : A) → IsVec (f x))
        → sum f xs ≡ sum f (filter p xs) ⊕ sum f (filter (λ x. not (p x)) xs)
    sum-filter f p [] fv = sym (zero_left z zero_vec)
    sum-filter f p (x ∷ xs) fv =
        let S = sum f (filter p xs) in
        let D = sum f (filter (λ y. not (p y)) xs) in
        let ih = sum-filter f p xs fv in
        elim (Bool-cases (p x)) [
          | inl e ↦ rw e (ap (λ t. f x ⊕ t) ih ∙ sym (assoc (f x) S D))
          | inr e ↦ rw e (cc (ih, assoc (f x) S D, comm (f x) S, assoc S (f x) D))
        ]

    pub sum-filter_congr :
        (f h : A → V) (p : A → Bool) (xs : List A)
        → ((x : A) → p x ≡ true → f x ≡ h x)
        → sum f (filter p xs) ≡ sum h (filter p xs)
    sum-filter_congr f h p [] e = refl
    sum-filter_congr f h p (x ∷ xs) e = elim (Bool-cases (p x)) [
      | inl t ↦ rw t (ap₂ ◌⊕◌ (e x t) (sum-filter_congr f h p xs e))
      | inr t ↦ rw t (sum-filter_congr f h p xs e)
    ]

    -- Antisymmetric terms cancel over all ordered pairs of a list.
    pub sum-pairs :
        (t : A → A → V)
        → ((i j : A) → IsVec (t i j))
        → ((i j : A) → t i j ⊕ t j i ≡ z)
        → ((i : A) → t i i ≡ z)
        → (xs : List A) → sum (λ i. sum (t i) xs) xs ≡ z
    sum-pairs t tv anti diag [] = refl
    sum-pairs t tv anti diag (k ∷ xs) =
        let row = sum (t k) xs in
        let column = sum (λ i. t i k) xs in
        let square = sum (λ i. sum (t i) xs) xs in
        let split = sum-add (λ i. t i k) (λ i. sum (t i) xs) xs in
        let ih = sum-pairs t tv anti diag xs in
        let both = sum-add (t k) (λ i. t i k) xs in
        let none_left = sum-zero (λ j. t k j ⊕ t j k) xs (anti k) in
        cc (
          split,
          ih,
          both,
          none_left,
          diag k,
          zero_left row (sum-vec (t k) (tv k) xs),
          comm column z,
          zero_left column (sum-vec (λ i. t i k) (λ i. tv i k) xs),
        )

    -- Every active party of a roster adds to its value the terms of all its peers. With the terms
    -- of the parties that are not active taken off again, the values of the active remain.
    pub masked_sum :
        (q : A → V) (t : A → A → V) (p : A → Bool) (xs : List A)
        → ((i : A) → IsVec (q i))
        → ((i j : A) → IsVec (t i j))
        → ((i j : A) → t i j ⊕ t j i ≡ z)
        → ((i : A) → t i i ≡ z)
        → let active = filter p xs in
          let dropped = filter (λ i. not (p i)) xs in
          sum (λ i. q i ⊕ sum (t i) xs) active ⊕ neg (sum (λ i. sum (t i) dropped) active)
          ≡ sum q active
    masked_sum q t p xs qv tv anti diag =
        let active = filter p xs in
        let dropped = filter (λ i. not (p i)) xs in
        let Q = sum q active in
        let inner = λ (i : A). sum (t i) active in
        let outer = λ (i : A). sum (t i) dropped in
        let R = sum outer active in
        let Rv = sum-vec outer (λ i. sum-vec (t i) (tv i) dropped) active in
        let Qv = sum-vec q qv active in
        let parts = sum-add q (λ i. sum (t i) xs) active in
        let split =
          sum-filter_congr (λ i. sum (t i) xs) (λ i. inner i ⊕ outer i) p xs
            (λ i _. sum-filter (t i) p xs (tv i)) in
        let both = sum-add inner outer active in
        let cancelled = sum-pairs t tv anti diag active in
        cc (
          parts,
          split,
          both,
          cancelled,
          zero_left R Rv,
          assoc Q R (neg R),
          neg_right R Rv,
          comm Q z,
          zero_left Q Qv,
        )
