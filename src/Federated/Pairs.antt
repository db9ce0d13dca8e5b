-- ===== src/Federated/Pairs.antt =====
-- Lists of parties of a round, and the pairs whose seeds are revealed.
use sentry_link.Base.{
  String, ◌==◌, text_eq, nat_eq, pair_eq, mem, filter, sorted_pair, Bool, true, false, not,
  Bool-cases, inl, inr, List, [], ◌∷◌, ◌++◌, map, all, All, ◌≡◌, refl, sym, ap, arith,
}

pub all-mem : (xs ys : List String) → All (λ x. mem x ys ≡ true) xs → all (λ x. mem x ys) xs ≡ true
all-mem [] ys h = refl
all-mem (x ∷ xs) ys h = ground (arith, h.0, all-mem xs ys h.1)

-- The pairs whose seeds are revealed.
unfoldable pub pairs : List String → List String → List (String × String)
pairs [] ds = []
pairs (i ∷ ids) ds = map (sorted_pair i) ds ++ pairs ids ds

row_known :
    (i : String) (ds : List String) (ks : List (String × String)) (P : String × String → Type 0)
    → All P (map (sorted_pair i) ds ++ ks)
    → All (λ d. P (sorted_pair i d)) ds × All P ks
row_known i [] ks P h = (tt, h)
row_known i (d ∷ ds) ks P h = let (row, rest) = row_known i ds ks P h.1 in ((h.0, row), rest)

pub pairs-All :
    (ids ds : List String) (P : String × String → Type 0)
    → All P (pairs ids ds)
    → All (λ i. All (λ d. P (sorted_pair i d)) ds) ids
unfolding pairs
pairs-All [] ds P h = tt
pairs-All (i ∷ ids) ds P h =
    let (row, rest) = row_known i ds (pairs ids ds) P h in (row, pairs-All ids ds P rest)

-- A filtered list's members are in the roster and pass the test.
pub in_filter :
    (roster : List String) (q : String → Bool) (xs : List String)
    → All (λ i. mem i roster ≡ true) xs
    → All (λ i. (mem i roster ≡ true) × (q i ≡ true)) (filter q xs)
in_filter roster q [] h = tt
in_filter roster q (x ∷ xs) h = elim (Bool-cases (q x)) [
  | inl t ↦ rw t ((h.0, t), in_filter roster q xs h.1)
  | inr t ↦ rw t (in_filter roster q xs h.1)
]

pub separate : (p : String → Bool) (i j : String) → p i ≡ true → not (p j) ≡ true → (j == i) ≡ false
separate p i j hi hj = elim (Bool-cases (j == i)) [
  | inl t ↦
      let moved : p i ≡ p j = ap p (sym ((text_eq.beq_iff j i).0 t)) in
      ground (arith, moved, hi, hj)
  | inr t ↦ t
]

pub both :
    {A : Type 0} (P Q : A → Type 0) (xs : List A) → All P xs → All Q xs → All (λ a. P a × Q a) xs
both P Q [] hp hq = tt
both P Q (x ∷ xs) hp hq = ((hp.0, hq.0), both P Q xs hp.1 hq.1)
