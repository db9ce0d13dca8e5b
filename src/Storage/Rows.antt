-- ===== src/Storage/Rows.antt =====
-- Lists of rows with a key, as sentrylink/storage/store.py keeps its organizations.
use sentry_link.Base.{
  Eq, ◌==◌, not, List, [], ◌∷◌, ◌++◌, filter, Option, none, some, ◌≡◌, refl, if◌then◌else◌, arith,
}

-- The row with a key.
abbrev pub find_row : {K Row : Type 0} ⦃e : Eq K⦄ → (Row → K) → K → List Row → Option Row
find_row key k [] = none
find_row key k (r ∷ rows) = if k == key r then some r else find_row key k rows

module _ {K Row : Type 0} ⦃e : Eq K⦄ (key : Row → K) where
  -- Replacing the row with a key, as `[o for o in rows if key(o) != key(r)] + [r]`.
  abbrev replace_row : Row → List Row → List Row
  replace_row r rows = filter (λ o. not (key o == key r)) rows ++ r ∷ []

  pub find_row-replace_row :
      (k : K) (r : Row) (rows : List Row)
      → find_row key k (replace_row r rows) ≡ (if k == key r then some r else find_row key k rows)
  find_row-replace_row k r [] = refl
  find_row-replace_row k r (o ∷ rows) = ground (
    arith,
    find_row-replace_row k r rows,
    e.beq_iff (key o) (key r),
    e.beq_iff k (key o),
    e.beq_iff k (key r),
  )
