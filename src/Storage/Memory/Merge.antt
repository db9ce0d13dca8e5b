-- ===== src/Storage/Memory/Merge.antt =====
-- Merging the events of two writers.
use sentry_link.Base.{
  String, ◌==◌, text_eq, beq_refl, mem, true, false, not, Bool-cases, inl, inr, List, [], ◌∷◌, ◌++◌,
  map, filter, All, All-map, ◌≡◌, subst, arith,
}
use sentry_link.Floats.{Floats}
use sentry_link.Crypto.DifferentialPrivacy.Accountant.{Event}
use sentry_link.Storage.Memory.{merge_events}

module _ (fl : Floats) where
  abbrev ids : List (Event fl) → List String
  ids = map (λ e. e.id)

  mem-append_left :
      (k : String) (xs ys : List (Event fl)) → mem k (ids xs) ≡ true → mem k (ids (xs ++ ys)) ≡ true
  mem-append_left k [] ys h = cc
  mem-append_left k (x ∷ xs) ys h = ground (arith, h, mem-append_left k xs ys)

  mem-append_right :
      (k : String) (xs ys : List (Event fl)) → mem k (ids ys) ≡ true → mem k (ids (xs ++ ys)) ≡ true
  mem-append_right k [] ys h = h
  mem-append_right k (x ∷ xs) ys h = ground (arith, mem-append_right k xs ys h)

  own_ids : (xs ys : List (Event fl)) → All (λ e. mem e.id (ids (xs ++ ys)) ≡ true) xs
  own_ids [] ys = tt
  own_ids (x ∷ xs) ys =
      (ground (arith, beq_refl x.id), All-map (λ e h. ground (arith, h)) xs (own_ids xs ys))

  in_fresh :
      (seen : List String) (k : String) (ys : List (Event fl))
      → mem k seen ≡ false
      → mem k (ids ys) ≡ true
      → mem k (ids (filter (λ e. not (mem e.id seen)) ys)) ≡ true
  in_fresh seen k [] new h = cc
  in_fresh seen k (y ∷ ys) new h = elim (Bool-cases (k == y.id)) [
    | inl t ↦
        let same : k ≡ y.id = (text_eq.beq_iff k y.id).0 t in
        let fresh : mem y.id seen ≡ false = subst (λ i. mem i seen ≡ false) same new in
        rw fresh (ground (arith, t))
    | inr t ↦ ground (arith, t, h, in_fresh seen k ys new)
  ]

  merged_id :
      (xs ys : List (Event fl)) (k : String)
      → mem k (ids ys) ≡ true
      → mem k (ids (merge_events fl xs ys)) ≡ true
  unfolding merge_events
  merged_id xs ys k h = elim (Bool-cases (mem k (ids xs))) [
    | inl t ↦ mem-append_left k xs _ t
    | inr t ↦ mem-append_right k xs _ (in_fresh (ids xs) k ys t h)
  ]

  self_ids : (ys : List (Event fl)) → All (λ e. mem e.id (ids ys) ≡ true) ys
  self_ids [] = tt
  self_ids (y ∷ ys) =
      (ground (arith, beq_refl y.id), All-map (λ e h. ground (arith, h)) ys (self_ids ys))

  -- A merge loses no event of either writer: the id of each is among the merged ids.
  pub merge_events-ids :
      (existing incoming : List (Event fl))
      → All (λ e. mem e.id (map (λ x. x.id) (merge_events fl existing incoming)) ≡ true) existing
        × All (λ e. mem e.id (map (λ x. x.id) (merge_events fl existing incoming)) ≡ true) incoming
  unfolding merge_events
  merge_events-ids existing incoming = (
    own_ids existing _,
    All-map (λ e h. merged_id existing incoming e.id h) incoming (self_ids incoming),
  )
