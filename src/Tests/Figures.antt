-- ===== src/Tests/Figures.antt =====
-- A variance and a correlation over the three retailers, and previews of queries.
use sentry_link.Base.{
  String, true, false, ◌⊎◌, inl, inr, Bool-cases, arith, none, List, [], ◌∷◌, map, ◌≡◌, refl, subst,
  ap, ◌∙◌,
}
use sentry_link.Base.Int.{ℤ, pos, ltb_ℤ, ◌+ℤ◌, ◌-ℤ◌, ◌*ℤ◌, -ℤ_parts, +ℤ_parts, int_laws}
use sentry_link.Base.Dict.{Dict}
use sentry_link.Modular.{vadd, vsub}
use sentry_link.Errors.{Failure, Result, ok, err, ok_injective}
use sentry_link.Floats.Fixed.{Num, fixed, fixed-OrderLaws}
use sentry_link.Crypto.DifferentialPrivacy.{rdp_to_epsilon}
use sentry_link.Crypto.DifferentialPrivacy.Accountant.{
  PrivacyAccountant, Event, charge_totals, projected_rdp,
}
use sentry_link.Governance.Policy.{QueryDecision, evaluate, policy_of, default_policy}
use sentry_link.Platform.{Platform}
use sentry_link.Platform.Queries.{
  QueryResult, Value, request_of, granted, charge_laplace, query_result,
}
use sentry_link.Platform.Queries.Release.{IsReleased}
use sentry_link.Platform.Queries.Dispersion.{variance, correlation, released_figure, variance_query}
use sentry_link.Platform.Queries.Dispersion.Outcomes.{variance-IsReleased, correlation-IsReleased}
use sentry_link.Platform.Queries.Dispersion.Leak.{IsTold, variance-IsTold}
use sentry_link.Platform.Queries.Dispersion.Missing.{Figures, figure-missing}
use sentry_link.Platform.Previews.{QueryPreview, query_preview}
use sentry_link.Platform.Previews.Charged.{query_preview-charge}
use sentry_link.Tests.Toys.{toy}
use sentry_link.Tests.Budgets.{plain}
use sentry_link.Tests.Policies.{engine, decision_or}
use sentry_link.Tests.Platforms.{setup, platform, draws, args, result}

abbrev one : Num
one = fixed.of_int (pos 1)

abbrev numbers : List Num
numbers = one ∷ fixed.of_int (pos 2) ∷ []

abbrev pub org_values : Dict String (List Num)
org_values = map (λ i. (i, numbers)) ("a" ∷ "b" ∷ "c" ∷ [])

abbrev org_pairs : Dict String (List Num × List Num)
org_pairs = map (λ i. (i, (numbers, numbers))) ("a" ∷ "b" ∷ "c" ∷ [])

abbrev pub returned_or : Result (QueryResult fixed plain toy) → QueryResult fixed plain toy
returned_or (ok r) = r
returned_or (err f) = result

fixed_asym : (a b : Num) → fixed.lt a b ≡ true → fixed.lt b a ≡ false
fixed_asym (Num.num a) (Num.num b) h = ground (arith, h)
fixed_asym Num.nan b h = cc
fixed_asym (Num.num a) Num.nan h = cc

sub_negated :
    (a : ℤ) (x : Num)
    → fixed.sub x (fixed.sub (fixed.decimal 0 0) (Num.num a)) ≡ fixed.add x (Num.num a)
sub_negated a Num.nan = refl
sub_negated a (Num.num b) =
    ap Num.num (grind (int_laws, -ℤ_parts b (pos 0 -ℤ a), -ℤ_parts (pos 0) a, +ℤ_parts b a))

abbrev pub ran : Platform fixed plain toy × Result (QueryResult fixed plain toy)
ran = variance fixed plain toy setup draws platform org_values args

variance-IsReleased_example :
    IsReleased fixed plain toy "variance" draws args platform ran.0 (returned_or ran.1)
    × ((v : Num) × ((returned_or ran.1).value ≡ Value.figure v)
        × (fixed.lt v (fixed.decimal 0 0) ≡ false))
unfolding variance released_figure query_result policy_of default_policy vsub vadd charge_totals
    ◌+ℤ◌ ◌-ℤ◌ ◌*ℤ◌
variance-IsReleased_example =
    variance-IsReleased fixed plain toy fixed_asym setup draws platform ran.0 args
      (returned_or ran.1) org_values refl

fixed_abs : (n : Num) → (fixed.abs n ≡ n) ⊎ ((x : Num) → fixed.sub x (fixed.abs n) ≡ fixed.add x n)
fixed_abs Num.nan = inl refl
fixed_abs (Num.num a) = elim (Bool-cases (ltb_ℤ a (pos 0))) [
  | inl t ↦ inr (λ x. rw t (sub_negated a x))
  | inr t ↦ inl (rw t refl)
]

variance-IsTold_example : IsTold fixed plain toy draws platform org_values (returned_or ran.1)
unfolding variance released_figure query_result policy_of default_policy vsub vadd charge_totals
    ◌+ℤ◌ ◌-ℤ◌ ◌*ℤ◌
variance-IsTold_example =
    variance-IsTold fixed plain toy fixed_abs setup draws platform ran.0 args (returned_or ran.1)
      org_values refl

abbrev correlated : Platform fixed plain toy × Result (QueryResult fixed plain toy)
correlated = correlation fixed plain toy setup draws platform org_pairs args

correlation-IsReleased_example :
    IsReleased fixed plain toy "correlation" draws args platform correlated.0
      (returned_or correlated.1)
    × ((v : Num) × ((returned_or correlated.1).value ≡ Value.figure v)
        × (fixed.lt v (fixed.sub (fixed.decimal 0 0) (fixed.decimal 1 0)) ≡ false)
        × (fixed.lt (fixed.decimal 1 0) v ≡ false))
unfolding correlation released_figure query_result policy_of default_policy vsub vadd charge_totals
    ◌+ℤ◌ ◌-ℤ◌ ◌*ℤ◌
correlation-IsReleased_example =
    correlation-IsReleased fixed plain toy fixed_asym setup draws platform correlated.0 args
      (returned_or correlated.1) org_pairs refl refl

abbrev decision : String → QueryDecision fixed
decision metric = decision_or (evaluate fixed engine "q" (request_of fixed plain toy metric args))

figure-missing_example :
    correlation fixed plain toy setup draws platform [] args ≡ (platform, err Failure.key_error)
unfolding granted evaluate policy_of default_policy ◌*ℤ◌
figure-missing_example =
    figure-missing fixed plain toy setup draws platform args "a" (Figures.of_pairs [])
      (decision "correlation") refl refl refl

abbrev shown : Result (QueryPreview fixed plain toy)
shown = query_preview fixed plain toy "p" platform "variance" args

abbrev refused_preview : QueryPreview fixed plain toy
refused_preview = record {
  allowed = true;
  reason_code = none;
  cohort_size = 0;
  mechanism = "";
  epsilon_requested = one;
  delta = one;
  estimated_cost = one;
  remaining_budget_before = one;
  remaining_budget_after = one;
  accounting_regime = "";
  sensitivity = one;
  request_id = none;
  cohort_floor_satisfied = true;
  sector_scope_valid = true;
  consent_valid = true;
}

abbrev shown_or : Result (QueryPreview fixed plain toy) → QueryPreview fixed plain toy
shown_or (ok v) = v
shown_or (err f) = refused_preview

query_preview-charge_example :
    (d : QueryDecision fixed) × (granted fixed plain toy "q" platform "variance" args ≡ ok d)
    × ((out : PrivacyAccountant fixed × Event fixed) × (charge_laplace fixed plain toy
            (variance_query fixed plain toy)
            draws
            platform
            d
            args
          ≡ ok out))
unfolding query_preview policy_of default_policy ◌+ℤ◌ ◌-ℤ◌ ◌*ℤ◌
query_preview-charge_example =
    query_preview-charge fixed plain toy fixed-OrderLaws (variance_query fixed plain toy)
      (λ n. refl) draws platform args "p" (shown_or shown)
      (record {
        limit_epsilon = refl;
        spent_epsilon = refl;
        converted = λ costs e priced done.
            let same = ok_injective _ costs priced in
            subst (λ x. fixed.eq x x ≡ true)
              (ok_injective _ e (
                ap (λ c. rdp_to_epsilon fixed (projected_rdp fixed [] c) (fixed.decimal 1 5)) same
                ∙ done))
              refl;
      })
      refl refl
