-- ===== src/Storage/Codec/Budgets.antt =====
-- The accountant after a restart.
use sentry_link.Base.{ℕ, false, [], ◌∷◌, map, ◌≡◌, refl, ap, ap₂}
use sentry_link.Base.Dict.{Dict}
use sentry_link.Errors.{ok}
use sentry_link.Floats.{Floats}
use sentry_link.Crypto.DifferentialPrivacy.Accountant.{
  PrivacyBudget, PrivacyAccountant, is_negative, new_budget,
}
use sentry_link.Storage.Codec.{Formats, encode_budget, decode_budget}

module _ (fl : Floats) (formats : Formats fl)
    (exact : (a : ℕ) → formats.read_order (formats.show_order a) ≡ a) where
  same_totals :
      (d : Dict ℕ fl.Float)
      → map
          (λ (e : formats.OrderText × fl.Float). (formats.read_order e.0, e.1))
          (map (λ (e : ℕ × fl.Float). (formats.show_order e.0, e.1)) d)
        ≡ d
  same_totals [] = refl
  same_totals ((a, v) ∷ d) = ap₂ ◌∷◌ (ap (λ k. (k, v)) (exact a)) (same_totals d)

  new_budget-kept :
      (b : PrivacyBudget fl) → is_negative fl b ≡ false → new_budget fl b.epsilon b.delta ≡ ok b
  unfolding new_budget
  new_budget-kept b h = rw h refl

  -- An accountant whose limit and spent budget are not negative is read back from its persisted form
  -- unchanged, if the text of an order gives the order back.
  pub decode_budget-encode_budget :
      (a : PrivacyAccountant fl)
      → is_negative fl a.limit ≡ false
      → is_negative fl a.spent ≡ false
      → decode_budget fl formats (encode_budget fl formats a) ≡ ok a
  unfolding decode_budget encode_budget
  decode_budget-encode_budget a hl hs =
      rw (new_budget-kept a.limit hl, new_budget-kept a.spent hs)
        (ap (λ t. ok (record a { rdp_totals = t })) (same_totals a.rdp_totals))
