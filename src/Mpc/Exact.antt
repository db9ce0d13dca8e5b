-- ===== src/Mpc/Exact.antt =====
-- The statistics over shares are those of the pooled data.
use sentry_link.Base.{
  ℕ, ◌+◌, ◌/◌, ◌%◌, ◌≤◌, ◌<◌, String, text_eq, List, [], ◌∷◌, ◌++◌, map, length, length-append,
  replicate, All, distinct, true, false, ◌≡◌, refl, sym, ap, ap₂, subst, ◌∙◌, arith, ltb,
}
use sentry_link.Base.Int.{ℤ, pos, pos_part, ◌+ℤ◌, +ℤ_assoc, zero-+ℤ}
use sentry_link.Base.Dict.{Dict, values}
use sentry_link.Errors.{ok}
use sentry_link.Config.{field_p}
use sentry_link.Floats.{Floats}
use sentry_link.Modular.{vadd, zip_with, mod_ℤ}
use sentry_link.Modular.Vector.{IsVec}
use sentry_link.Crypto.SecretSharing.Sharing.{field_sum, map_mod-zip_with, map_mod-zeros}
use sentry_link.Mpc.{
  signed_mod, sum_ℤ, sum_counts, products, quantize_ints, run_histogram, run_variance, variance_of,
  variance_row, variance_opened,
}
use sentry_link.Mpc.Residues.{
  IsSmall, total, residues, residues-IsVec, signed_mod-pos, signed_mod-mod_ℤ, field_sum-residues,
}
use sentry_link.Mpc.Pool.{share_rows-open_total}

-- The bucket totals of some count vectors, as plain numbers.
abbrev pub bucket_totals : ℕ → List (List ℕ) → List ℕ
bucket_totals n [] = replicate n 0
bucket_totals n (v ∷ vs) = zip_with (λ a b. a + b) v (bucket_totals n vs)

totals-field_sum :
    (n : ℕ) (vs : List (List ℕ))
    → map (λ t. t % field_p) (bucket_totals n vs) ≡ field_sum n (λ v. v) vs
totals-field_sum n [] = map_mod-zeros n
totals-field_sum n (v ∷ vs) =
    map_mod-zip_with v (bucket_totals n vs) ∙ ap (vadd field_p v) (totals-field_sum n vs)

abbrev counts : List ℤ → List ℕ
counts = map pos_part

counts-pos : (v : List ℕ) → counts (map pos v) ≡ v
counts-pos [] = refl
counts-pos (x ∷ v) = ap (◌∷◌ x) (counts-pos v)

abbrev pub as_integers : Dict String (List ℕ) → Dict String (List ℤ)
as_integers = map (λ e. (e.0, map pos e.1))

field_sum-counts :
    (n : ℕ) (c : Dict String (List ℕ))
    → field_sum n counts (values (as_integers c)) ≡ field_sum n (λ v. v) (values c)
field_sum-counts n [] = refl
field_sum-counts n (e ∷ c) = ap₂ (vadd field_p) (counts-pos e.1) (field_sum-counts n c)

rows-counts :
    (n : ℕ) (c : Dict String (List ℕ))
    → All (λ e. IsVec field_p n e.1) c
    → All
        (λ v. (ok v ≡ ok (map pos (counts v))) × IsVec field_p n (counts v))
        (values (as_integers c))
rows-counts n [] h = tt
rows-counts n (e ∷ c) h = (
  (
    ap (λ v. ok (map pos v)) (sym (counts-pos e.1)),
    subst (IsVec field_p n) (sym (counts-pos e.1)) h.0,
  ),
  rows-counts n c h.1,
)

signed-totals :
    (ts : List ℕ)
    → All (λ t. t ≤ field_p / 2) ts
    → map signed_mod (map (λ t. t % field_p) ts) ≡ map pos ts
signed-totals [] h = refl
signed-totals (t ∷ ts) h = ap₂ ◌∷◌ (signed_mod-pos t h.0) (signed-totals ts h.1)

module _ (tapes : ℕ → ℕ → ℕ) (below : (k i : ℕ) → tapes k i < field_p) (n₁ n₂ : String)
    (more : List String) (apart : distinct (n₁ ∷ n₂ ∷ more) ≡ true) where
  -- With at least two different nodes, and count vectors of one length whose entries lie in the
  -- field and whose bucket totals are at most half of it, the histogram over shares is exactly the
  -- bucket totals, whatever the random draws.
  pub run_histogram-exact :
      (n : ℕ) (e : String × List ℕ) (c : Dict String (List ℕ))
      → All (λ o. IsVec field_p n o.1) (e ∷ c)
      → All (λ t. t ≤ field_p / 2) (bucket_totals n (values (e ∷ c)))
      → run_histogram tapes (as_integers (e ∷ c)) (n₁ ∷ n₂ ∷ more)
        ≡ ok (map pos (bucket_totals n (values (e ∷ c))))
  unfolding run_histogram
  run_histogram-exact n e c hv ht =
      let orgs = as_integers (e ∷ c) in
      share_rows-open_total tapes below n₁ n₂ more apart n (λ v. ok v) counts
        (λ opened. ok (map signed_mod opened)) (map pos e.1) (values (as_integers c))
        (rows-counts n (e ∷ c) hv)
      ∙ ap (λ t. ok (map signed_mod t))
          (field_sum-counts n (e ∷ c) ∙ sym (totals-field_sum n (values (e ∷ c))))
      ∙ ap ok (signed-totals (bucket_totals n (values (e ∷ c))) ht)

-- The rows of all organizations, one after the other.
abbrev pub pooled {ℓ} : {A : Type ℓ} → List (List A) → List A
pooled [] = []
pooled (xs ∷ rest) = xs ++ pooled rest

module _ (fl : Floats) where
  quantize_ints-append :
      (xs ys : List fl.Float)
      → quantize_ints fl (xs ++ ys) ≡ quantize_ints fl xs ++ quantize_ints fl ys
  unfolding quantize_ints
  quantize_ints-append [] ys = refl
  quantize_ints-append (x ∷ xs) ys = rw (quantize_ints-append xs ys)

sum_ℤ-append : (xs ys : List ℤ) → sum_ℤ (xs ++ ys) ≡ sum_ℤ xs +ℤ sum_ℤ ys
unfolding sum_ℤ
sum_ℤ-append [] ys = sym (zero-+ℤ (sum_ℤ ys))
sum_ℤ-append (x ∷ xs) ys =
    ap (λ t. x +ℤ t) (sum_ℤ-append xs ys) ∙ sym (+ℤ_assoc x (sum_ℤ xs) (sum_ℤ ys))

squares-append :
    (xs ys : List ℤ) → products (xs ++ ys) (xs ++ ys) ≡ products xs xs ++ products ys ys
unfolding products
squares-append [] ys = refl
squares-append (x ∷ xs) ys = rw (squares-append xs ys)

module _ (fl : Floats) where
  abbrev x_sum : List fl.Float → ℤ
  x_sum xs = sum_ℤ (quantize_ints fl xs)

  abbrev square_sum : List fl.Float → ℤ
  square_sum xs = sum_ℤ (products (quantize_ints fl xs) (quantize_ints fl xs))

  total-x_sum : (orgs : List (List fl.Float)) → total x_sum orgs ≡ x_sum (pooled orgs)
  unfolding sum_ℤ quantize_ints
  total-x_sum [] = refl
  total-x_sum (xs ∷ orgs) =
      ap (λ t. x_sum xs +ℤ t) (total-x_sum orgs)
      ∙ sym (
          ap sum_ℤ (quantize_ints-append fl xs (pooled orgs))
          ∙ sum_ℤ-append (quantize_ints fl xs) (quantize_ints fl (pooled orgs)))

  total-square_sum :
      (orgs : List (List fl.Float)) → total square_sum orgs ≡ square_sum (pooled orgs)
  unfolding sum_ℤ quantize_ints products
  total-square_sum [] = refl
  total-square_sum (xs ∷ orgs) =
      let q = quantize_ints fl xs in
      let r = quantize_ints fl (pooled orgs) in
      ap (λ t. square_sum xs +ℤ t) (total-square_sum orgs)
      ∙ sym (
          ap (λ t. sum_ℤ (products t t)) (quantize_ints-append fl xs (pooled orgs))
          ∙ ap sum_ℤ (squares-append q r)
          ∙ sum_ℤ-append (products q q) (products r r))

  sum_counts-pooled :
      (orgs : List (List fl.Float)) → sum_counts (map length orgs) ≡ length (pooled orgs)
  unfolding sum_counts
  sum_counts-pooled [] = refl
  sum_counts-pooled (xs ∷ orgs) =
      ap (λ t. length xs + t) (sum_counts-pooled orgs) ∙ sym (length-append xs (pooled orgs))

  variance_figures : List (List fl.Float → ℤ)
  variance_figures = x_sum ∷ square_sum ∷ []

  enough : (n : ℕ) → 2 ≤ n → ltb n 2 ≡ false
  enough n h = ground arith

  variance_rows :
      (orgs : List (List fl.Float))
      → All
          (λ xs.
            (variance_row fl xs ≡ ok (map pos (residues variance_figures xs)))
            × IsVec field_p 2 (residues variance_figures xs))
          orgs
  unfolding variance_row variance_figures
  variance_rows [] = tt
  variance_rows (xs ∷ orgs) = ((refl, residues-IsVec variance_figures xs), variance_rows orgs)

  module _ (tapes : ℕ → ℕ → ℕ) (below : (k i : ℕ) → tapes k i < field_p) (n₁ n₂ : String)
      (more : List String) (apart : distinct (n₁ ∷ n₂ ∷ more) ≡ true) where
    -- With at least two different nodes and two values in all, the variance over shares is that of
    -- the pooled values, as long as the pooled sums of x and x² are at most half the field in size.
    pub run_variance-pooled :
        (e : String × List fl.Float) (orgs : Dict String (List fl.Float))
        → let xs = pooled (values (e ∷ orgs)) in
          let q = quantize_ints fl xs in
          2 ≤ length xs
          → IsSmall (sum_ℤ q)
          → IsSmall (sum_ℤ (products q q))
          → run_variance fl tapes (e ∷ orgs) (n₁ ∷ n₂ ∷ more)
            ≡ ok (variance_of fl (length xs) (sum_ℤ q) (sum_ℤ (products q q)))
    unfolding run_variance variance_figures
    run_variance-pooled e orgs two hx hq =
        let all = values (e ∷ orgs) in
        let n = sum_counts (map length all) in
        let eN = sum_counts-pooled all in
        let eX : signed_mod (mod_ℤ (total x_sum all) field_p) ≡ x_sum (pooled all) =
          ap (λ t. signed_mod (mod_ℤ t field_p)) (total-x_sum all) ∙ signed_mod-mod_ℤ _ hx in
        let eQ : signed_mod (mod_ℤ (total square_sum all) field_p) ≡ square_sum (pooled all) =
          ap (λ t. signed_mod (mod_ℤ t field_p)) (total-square_sum all) ∙ signed_mod-mod_ℤ _ hq in
        rw (enough n (subst (λ m. 2 ≤ m) (sym eN) two)) (
          share_rows-open_total tapes below n₁ n₂ more apart 2 (variance_row fl)
            (residues variance_figures) (variance_opened fl n) e.1 (values orgs) (variance_rows all)
          ∙ ap (variance_opened fl n) (field_sum-residues variance_figures all)
          ∙ (λ i. ok (variance_of fl (eN i) (eX i) (eQ i))))
