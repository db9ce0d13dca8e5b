-- ===== src/Base/Sorting.antt =====
-- Python's `sorted` on texts.
use Prim.Native.String.{String}
use Prim.Native.Nat.{suc}
use mathlib.Core.Path.{◌≡◌, refl, ap, ◌∙◌}
use mathlib.Core.Logic.{inl, inr}
use mathlib.Core.List.{List, [], ◌∷◌}
use native.Mathlib.Omega.{arith}
use sentry_link.Base.Tests.{if◌then◌else◌, Bool-cases}
use sentry_link.Base.Lists.{length, All}
use sentry_link.Base.Text.{text_lt}

abbrev insert_sorted : String → List String → List String
insert_sorted s [] = s ∷ []
insert_sorted s (t ∷ ts) = if text_lt t s then t ∷ insert_sorted s ts else s ∷ t ∷ ts

-- By insertion from the right, which is stable.
unfoldable pub sorted : List String → List String
sorted [] = []
sorted (t ∷ ts) = insert_sorted t (sorted ts)

length-insert_sorted :
    (s : String) (xs : List String) → length (insert_sorted s xs) ≡ suc (length xs)
length-insert_sorted s [] = refl
length-insert_sorted s (t ∷ ts) = ground (arith, length-insert_sorted s ts)

pub length-sorted : (xs : List String) → length (sorted xs) ≡ length xs
unfolding sorted
length-sorted [] = refl
length-sorted (x ∷ xs) = length-insert_sorted x (sorted xs) ∙ ap suc (length-sorted xs)

module _ {ℓ} (P : String → Type ℓ) where
  All-insert_sorted : (s : String) (xs : List String) → P s → All P xs → All P (insert_sorted s xs)
  All-insert_sorted s [] h hs = (h, tt)
  All-insert_sorted s (t ∷ ts) h hs = elim (Bool-cases (text_lt t s)) [
    | inl e ↦ rw e (hs.0, All-insert_sorted s ts h hs.1)
    | inr e ↦ rw e (h, hs)
  ]

  pub All-sorted : (xs : List String) → All P xs → All P (sorted xs)
  unfolding sorted
  All-sorted [] h = tt
  All-sorted (x ∷ xs) h = All-insert_sorted x (sorted xs) h.0 (All-sorted xs h.1)
