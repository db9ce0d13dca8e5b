-- ===== src/Errors/Codes.antt =====
-- The table of sentrylink/governance/policy.py that turns a reason code back into its exception.
use sentry_link.Base.{
  String, ◌≡◌, refl, Bool, true, false, Option, none, some, ◌==◌, text_eq, if◌then◌else◌,
}
use sentry_link.Errors.{Failure, code}

-- `_CODE_TO_ERROR`, and `_error_for_code` with its default.
unfoldable pub error_for_code : Option String → Failure
error_for_code none = Failure.governance
error_for_code (some c) =
    if c == "QUERY_NOT_ALLOWED"
    then Failure.query_not_allowed
    else if c == "COHORT_TOO_SMALL"
    then Failure.cohort_too_small
    else if c == "HEALTHCARE_COHORT_TOO_SMALL"
    then Failure.healthcare_cohort_too_small
    else if c == "EPSILON_TOO_HIGH"
    then Failure.epsilon_too_high
    else if c == "HEALTHCARE_EPSILON_TOO_HIGH"
    then Failure.healthcare_epsilon_too_high
    else if c == "CONSENT_REQUIRED"
    then Failure.consent_denied
    else if c == "SECTOR_MISMATCH"
    then Failure.scope_mismatch
    else if c == "DOMAIN_MISMATCH"
    then Failure.domain_mismatch
    else if c == "INVALID_DATA"
    then Failure.invalid_data
    else Failure.governance

-- The exceptions that a policy decision may raise.
abbrev pub is_denial : Failure → Bool
is_denial Failure.governance = true
is_denial Failure.query_not_allowed = true
is_denial Failure.cohort_too_small = true
is_denial Failure.healthcare_cohort_too_small = true
is_denial Failure.epsilon_too_high = true
is_denial Failure.healthcare_epsilon_too_high = true
is_denial Failure.consent_denied = true
is_denial Failure.scope_mismatch = true
is_denial Failure.domain_mismatch = true
is_denial Failure.invalid_data = true
is_denial _ = false

-- For each of the nine denial exceptions and the generic one, looking up the class's own code in
-- the table gives that class back.
pub error_for_code-code : (e : Failure) → is_denial e ≡ true → error_for_code (code e) ≡ e
unfolding error_for_code code
error_for_code-code Failure.governance h = refl
error_for_code-code Failure.query_not_allowed h = refl
error_for_code-code Failure.cohort_too_small h = refl
error_for_code-code Failure.healthcare_cohort_too_small h = refl
error_for_code-code Failure.epsilon_too_high h = refl
error_for_code-code Failure.healthcare_epsilon_too_high h = refl
error_for_code-code Failure.consent_denied h = refl
error_for_code-code Failure.scope_mismatch h = refl
error_for_code-code Failure.domain_mismatch h = refl
error_for_code-code Failure.invalid_data h = refl
error_for_code-code _ h = cc
