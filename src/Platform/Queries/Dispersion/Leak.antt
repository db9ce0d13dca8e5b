-- ===== src/Platform/Queries/Dispersion/Leak.antt =====
-- What the `noise_sigma` of a variance of sentrylink/platform.py tells of its noise.
use sentry_link.Base.{
  String, ◌==◌, nat_eq, not, length, [], arith, List, ◌≡◌, ◌⊎◌, inl, inr, sym, ap, subst, ◌∙◌,
}
use sentry_link.Base.Dict.{Dict}
use sentry_link.Errors.{Failure, Result, ok, err, returned, ok_injective, raise_if-ok}
use sentry_link.Mpc.{run_variance}
use sentry_link.Governance.Policy.{QueryDecision}
use sentry_link.Floats.{Floats, one_float}
use sentry_link.Crypto.SecureAggregation.{KeyAgreement}
use sentry_link.Crypto.DifferentialPrivacy.{laplace_scale}
use sentry_link.Storage.Codec.{Formats}
use sentry_link.Platform.{Platform, Setup}
use sentry_link.Platform.Queries.{
  QueryDraws, QueryArgs, QueryResult, Value, Noisy, granted, as_invalid,
}
use sentry_link.Platform.Queries.Release.{query_from-IsReleased}
use sentry_link.Platform.Queries.Dispersion.{
  supplied, raw_figure, released_figure, floored, variance_query, variance,
}
use sentry_link.Platform.Queries.Dispersion.Outcomes.{raw_figure-granted}

module _ (fl : Floats) (formats : Formats fl) (ka : KeyAgreement) where
  released_figure-draw :
      (sensitivity : fl.Float) (bound : fl.Float → fl.Float) (draws : QueryDraws fl formats ka)
      (raw : fl.Float) (args : QueryArgs fl formats ka) (out : Noisy fl formats ka)
      → released_figure fl formats ka sensitivity bound draws raw args ≡ ok out
      → (noise : fl.Float) × (out.value ≡ Value.figure (bound (fl.add raw noise)))
        × (out.noise_sigma ≡ fl.abs noise)
  unfolding released_figure
  released_figure-draw sensitivity bound draws raw args out h =
      let (scale, _, made) = returned (laplace_scale fl sensitivity args.epsilon) _ out h in
      let same = sym (ok_injective _ out made) in
      (draws.laplace_one scale, ap (λ z. z.value) same, ap (λ z. z.noise_sigma) same)

  -- A figure that is shifted by the reported spread, up or down, and then bounded.
  abbrev pub IsShifted : fl.Float → Value fl formats ka → fl.Float → Type 0
  IsShifted raw value sigma =
      (value ≡ Value.figure (floored fl formats ka (fl.add raw sigma)))
      ⊎ (value ≡ Value.figure (floored fl formats ka (fl.sub raw sigma)))

  -- The statistic of a figure is that of the data of the participants, when it is known.
  raw_figure-statistic :
      {A : Type 0} (metric : String) (statistic : Dict String A → Result fl.Float)
      (draws : QueryDraws fl formats ka) (p : Platform fl formats ka) (org_data : Dict String A)
      (args : QueryArgs fl formats ka) (d : QueryDecision fl) (raw : fl.Float)
      → raw_figure fl formats ka metric statistic draws p org_data args ≡ ok (d, raw)
      → (vals : Dict String A) × (supplied d.participants org_data [] ≡ ok vals)
        × (statistic vals ≡ ok raw)
  unfolding raw_figure as_invalid
  raw_figure-statistic metric statistic draws p org_data args d raw h =
      let (d', _, h₁) =
        returned (granted fl formats ka draws.query_id p metric args) _ (d, raw) h in
      let (vals, known, h₂) = returned (supplied d'.participants org_data []) _ (d, raw) h₁ in
      let (_, h₃) =
        raise_if-ok (not (length vals == length d'.participants)) Failure.invalid_data _ (d, raw)
          h₂ in
      let (raw', computed, h₄) =
        returned (as_invalid fl formats ka (statistic vals)) _ (d, raw) h₃ in
      let same = ok_injective _ (d, raw) h₄ in
      (
        vals,
        subst (λ z. supplied z.participants org_data [] ≡ ok vals) (ap (λ z. z.0) same) known,
        as_invalid-ok (statistic vals) raw' computed ∙ ap (λ z. ok z.1) same,
      )
    where
      as_invalid-ok :
          (s : Result fl.Float) (x : fl.Float) → as_invalid fl formats ka s ≡ ok x → s ≡ ok x
      as_invalid-ok (ok y) x e = e
      as_invalid-ok (err f) x e = ground arith

  -- What the answer to a variance tells of the variance over the shares of the participants' values.
  pub record IsTold (draws : QueryDraws fl formats ka) (p : Platform fl formats ka)
      (org_values : Dict String (List fl.Float)) (r : QueryResult fl formats ka) : Type 0 where
    pub vals : Dict String (List fl.Float)
    pub of_participants : supplied r.participants org_values [] ≡ ok vals
    pub exact : fl.Float
    pub computed : run_variance fl draws.tapes vals p.node_ids ≡ ok exact
    pub kept : r.raw_value ≡ Value.figure exact
    pub shifted : IsShifted exact r.value r.noise_sigma

  -- A variance that is released is the variance that is computed over the participants' values, shifted
  -- by exactly its noise_sigma, up or down, and floored at zero, where the absolute value of a float is
  -- the float or what adds it when it is subtracted.
  pub variance-IsTold :
      ((n : fl.Float) → (fl.abs n ≡ n) ⊎ ((x : fl.Float) → fl.sub x (fl.abs n) ≡ fl.add x n))
      → (setup : Setup fl formats ka) (draws : QueryDraws fl formats ka)
        (p p' : Platform fl formats ka) (args : QueryArgs fl formats ka)
        (r : QueryResult fl formats ka) (org_values : Dict String (List fl.Float))
      → variance fl formats ka setup draws p org_values args ≡ (p', ok r)
      → IsTold draws p org_values r
  unfolding variance
  variance-IsTold abs_cases setup draws p p' args r org_values h =
      let (_, (d, raw, made, members, out, drawn, value, sigma, kept)) =
        query_from-IsReleased fl formats ka (variance_query fl formats ka) setup draws p p' args r _
          (raw_figure-granted fl formats ka "variance" _ draws p org_values args) h in
      let (vals, known, computed) =
        raw_figure-statistic "variance" (λ vals. run_variance fl draws.tapes vals p.node_ids) draws
          p org_values args d raw made in
      let (noise, shown, spread) =
        released_figure-draw (one_float fl) (floored fl formats ka) draws raw args out drawn in
      let shift : IsShifted raw (Value.figure (floored fl formats ka (fl.add raw noise)))
          (fl.abs noise) =
        elim (abs_cases noise) [
          | inl up ↦ inl (ap (λ n. Value.figure (floored fl formats ka (fl.add raw n))) (sym up))
          | inr down ↦ inr (ap (λ v. Value.figure (floored fl formats ka v)) (sym (down raw)))
        ] in
      record {
        vals = vals;
        of_participants = subst (λ ids. supplied ids org_values [] ≡ ok vals) (sym members) known;
        exact = raw;
        computed = computed;
        kept = kept;
        shifted =
            subst (λ z. IsShifted raw z r.noise_sigma) (sym (value ∙ shown))
              (subst (IsShifted raw _) (sym (sigma ∙ spread)) shift);
      }
