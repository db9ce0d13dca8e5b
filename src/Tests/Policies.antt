-- ===== src/Tests/Policies.antt =====
-- Three retailers, and requests over their cohort.
use sentry_link.Base.{sorted, none, String, true, false, List, [], ◌∷◌, ◌≡◌, refl}
use sentry_link.Base.Int.{pos, ◌-ℤ◌, ◌+ℤ◌, ◌*ℤ◌}
use sentry_link.Errors.{Result, ok, err, Failure}
use sentry_link.Floats.Fixed.{Num, fixed, fixed-NanLaws}
use sentry_link.Governance.Registry.{Organization, cohort}
use sentry_link.Governance.Policy.{
  PolicyEngine, QueryRequest, QueryDecision, required_floor, evaluate, policy_of, default_policy,
  consents,
}
use sentry_link.Governance.Policy.Sound.{IsAdmitted, evaluate-IsAdmitted}
use sentry_link.Governance.Policy.Denied.{IsDenial, evaluate-IsDenial, consenting, evaluate-nan}

abbrev pub retailer : String → Organization
retailer id = record {
  org_id = id;
  name = id;
  domain = "retail";
  sector_group = "eu";
  api_key = "k";
  active = true;
  api_key_hash = "h";
  key_salt = "s";
}

abbrev pub retailers : List Organization
retailers = retailer "a" ∷ retailer "b" ∷ retailer "c" ∷ []

abbrev pub engine : PolicyEngine fixed
engine = record {
  registry = ("a", retailer "a") ∷ ("b", retailer "b") ∷ ("c", retailer "c") ∷ [];
  policies = [];
}

abbrev request : String → Num → QueryRequest fixed
request metric epsilon = record {
  metric = metric;
  sector_group = "eu";
  domain = "retail";
  epsilon = epsilon;
  delta = fixed.decimal 1 5;
  purpose = "test";
}

abbrev fair : QueryRequest fixed
fair = request "histogram" (fixed.of_int (pos 1))

abbrev unlisted : QueryRequest fixed
unlisted = request "dump" (fixed.of_int (pos 1))

abbrev no_decision : QueryDecision fixed
no_decision = record {
  allowed = false;
  query_id = "";
  participants = [];
  budget = record { epsilon = fixed.decimal 0 0; delta = fixed.decimal 0 0 };
  code = none;
  policy_snapshot = record {
    metric = "";
    floor_required = 0;
    candidates = 0;
    epsilon_cap_min = none;
  };
}

abbrev pub decision_or : Result (QueryDecision fixed) → QueryDecision fixed
decision_or (ok d) = d
decision_or (err f) = no_decision

evaluate-IsAdmitted_example :
    IsAdmitted fixed engine fair (decision_or (evaluate fixed engine "q" fair)).participants
unfolding evaluate policy_of default_policy ◌+ℤ◌ ◌*ℤ◌
evaluate-IsAdmitted_example =
    evaluate-IsAdmitted fixed engine fair "q" (decision_or (evaluate fixed engine "q" fair)) refl
      refl

evaluate-IsDenial_example :
    (failure : Failure) × IsDenial fixed engine unlisted
      (decision_or (evaluate fixed engine "q" unlisted))
      failure
unfolding evaluate policy_of default_policy ◌+ℤ◌ ◌*ℤ◌
evaluate-IsDenial_example =
    evaluate-IsDenial fixed engine unlisted "q" (decision_or (evaluate fixed engine "q" unlisted))
      refl refl

abbrev unpriced : QueryRequest fixed
unpriced = request "histogram" Num.nan

evaluate-nan_example :
    (d : QueryDecision fixed) × (evaluate fixed engine "q" unpriced ≡ ok d)
    × (d.allowed ≡ true)
    × (d.participants ≡ sorted ("a" ∷ "b" ∷ "c" ∷ []))
unfolding consenting policy_of default_policy required_floor ◌*ℤ◌ cohort consents
evaluate-nan_example =
    evaluate-nan fixed Num.nan fixed-NanLaws engine unpriced "q" "a" ("b" ∷ "c" ∷ []) refl refl refl
      refl refl refl

-- A negative epsilon is not denied but raised.
negative_raised :
    evaluate fixed engine "q"
      (request "histogram" (fixed.sub (fixed.decimal 0 0) (fixed.decimal 1 0)))
    ≡ err Failure.value_error
unfolding evaluate ◌-ℤ◌ ◌*ℤ◌
negative_raised = refl
