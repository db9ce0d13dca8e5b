-- ===== src/Federated/Round/Mean.antt =====
-- The mean update of a round, over the aggregation of its parties.
use sentry_link.Base.{
  String, ◌==◌, text_eq, nat_eq, mem, distinct, Bool, true, false, not, Bool-cases, inl, inr, List,
  [], ◌∷◌, map, filter, all, length, some, ◌≡◌, refl, sym, ap, fun_ext, ◌∙◌, arith,
}
use sentry_link.Base.Int.{pos}
use sentry_link.Base.Fill.{tabulate}
use sentry_link.Errors.{ok}
use sentry_link.Floats.{Floats}
use sentry_link.Modular.Vector.{IsVec}
use sentry_link.Crypto.SecureAggregation.{KeyAgreement, word_mod, dequantize}
use sentry_link.Crypto.SecureAggregation.Masks.{KeyLaws, word_sum}
use sentry_link.Federated.Model.{LogisticModel, FederatedClient, flat}
use sentry_link.Federated.Server.{train_all}
use sentry_link.Federated.Aggregate.{prepared, aggregate_updates-sum}
use sentry_link.Federated.Round.{Draws, RoundArgs, mean_update, update_clip}

module _ (ka : KeyAgreement) (laws : KeyLaws ka) (fl : Floats) (draws : Draws ka fl)
    (m : LogisticModel fl) (clients : List (FederatedClient fl)) (args : RoundArgs ka fl) where
  abbrev pub roster : List String
  roster = map (λ c. c.org_id) clients

  abbrev pub stays : String → Bool
  stays i = not (mem i args.drop)

  abbrev pub active_ids : List String
  active_ids = filter stays roster

  abbrev active : List (FederatedClient fl)
  active = filter (λ c. stays c.org_id) clients

  ids_active :
      (cs : List (FederatedClient fl))
      → map (λ c. c.org_id) (filter (λ c. stays c.org_id) cs)
        ≡ filter stays (map (λ c. c.org_id) cs)
  ids_active [] = refl
  ids_active (c ∷ cs) = elim (Bool-cases (stays c.org_id)) [
    | inl t ↦ rw (t, ids_active cs) refl
    | inr t ↦ rw (t, ids_active cs) refl
  ]

  not-not : (b : Bool) → not (not b) ≡ b
  not-not true = refl
  not-not false = refl

  dropped-eq : filter (λ i. mem i args.drop) roster ≡ filter (λ i. not (stays i)) roster
  dropped-eq = ap (λ q. filter q roster) (fun_ext (λ i. sym (not-not (mem i args.drop))))

  some_active :
      {c : FederatedClient fl} {cs : List (FederatedClient fl)}
      → active ≡ c ∷ cs
      → (length active == 0) ≡ false
  some_active e = rw e (ground arith)

  -- A round with distinct ids and at least one client that is not dropped yields the mean of the
  -- active clients' updates: their clipped and quantized updates are summed mod 2^64, dequantized and
  -- divided by the number of active clients. The updates are the ones that training gives; they
  -- are finite and fit the model's dimension, and both ends of a key exchange agree.
  pub mean_update-mean :
      (u : String → List fl.Float) (first : FederatedClient fl) (others : List (FederatedClient fl))
      → distinct roster ≡ true
      → active ≡ first ∷ others
      → train_all ka fl m draws.orders args.epochs active ≡ ok (tabulate u active_ids)
      → ((i : String) → all fl.is_finite (u i) ≡ true)
      → ((i : String)
          → IsVec word_mod (length (flat fl m)) (prepared fl (some (update_clip ka fl)) (u i)))
      → mean_update ka fl draws m clients args
        ≡ ok (
            map
              (λ x. fl.div x (fl.of_int (pos (length active))))
              (dequantize fl (
                word_sum
                  (length (flat fl m))
                  (λ i. prepared fl (some (update_clip ka fl)) (u i))
                  active_ids)))
  unfolding mean_update
  mean_update-mean u first others apart nonempty trained finite fits =
      let ids : active_ids ≡ first.org_id ∷ map (λ c. c.org_id) others =
        sym (ids_active clients) ∙ ap (map (λ c. c.org_id)) nonempty in
      let sum =
        aggregate_updates-sum ka laws draws.private draws.round_id (length (flat fl m)) roster fl
          (some (update_clip ka fl)) u finite fits apart stays ids in
      rw (apart, some_active nonempty, trained, dropped-eq, sum) refl
