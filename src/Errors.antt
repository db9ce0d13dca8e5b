-- ===== src/Errors.antt =====
-- sentrylink/errors.py: the exceptions with their reason codes and HTTP statuses, and the results
-- of functions that may raise. The builtin exceptions that the code raises directly stand beside
-- them.
pub mod Codes
use sentry_link.Base.{
  ℕ, String, ◌≡◌, refl, ap, ◌⊎◌, inl, inr, Bool, true, false, Option, none, some,
}

pub data Failure : Type 0 where
  internal authentication authorization rate_limited concurrent_write : Failure
  governance cohort_too_small healthcare_cohort_too_small : Failure
  epsilon_too_high healthcare_epsilon_too_high consent_denied : Failure
  query_not_allowed scope_mismatch domain_mismatch : Failure
  privacy_budget : Failure
  invalid_data model_dimension_mismatch duplicate_roster : Failure
  protocol storage audit_integrity : Failure
  value_error key_error permission_error assertion_error type_error : Failure

-- The class attribute `code`; the builtin exceptions have none.
unfoldable pub code : Failure → Option String
code Failure.internal = some "INTERNAL_ERROR"
code Failure.authentication = some "BAD_CREDENTIAL"
code Failure.authorization = some "ORG_NOT_MEMBER"
code Failure.rate_limited = some "RATE_LIMITED"
code Failure.concurrent_write = some "CONCURRENT_WRITE"
code Failure.governance = some "GOVERNANCE_DENIED"
code Failure.cohort_too_small = some "COHORT_TOO_SMALL"
code Failure.healthcare_cohort_too_small = some "HEALTHCARE_COHORT_TOO_SMALL"
code Failure.epsilon_too_high = some "EPSILON_TOO_HIGH"
code Failure.healthcare_epsilon_too_high = some "HEALTHCARE_EPSILON_TOO_HIGH"
code Failure.consent_denied = some "CONSENT_REQUIRED"
code Failure.query_not_allowed = some "QUERY_NOT_ALLOWED"
code Failure.scope_mismatch = some "SECTOR_MISMATCH"
code Failure.domain_mismatch = some "DOMAIN_MISMATCH"
code Failure.privacy_budget = some "BUDGET_EXHAUSTED"
code Failure.invalid_data = some "INVALID_DATA"
code Failure.model_dimension_mismatch = some "MODEL_DIMENSION_MISMATCH"
code Failure.duplicate_roster = some "DUPLICATE_ROSTER"
code Failure.protocol = some "PROTOCOL_ERROR"
code Failure.storage = some "STORAGE_ERROR"
code Failure.audit_integrity = some "AUDIT_CORRUPT"
code _ = none

-- The class attribute `http_status`.
unfoldable pub http_status : Failure → Option ℕ
http_status Failure.internal = some 500
http_status Failure.authentication = some 401
http_status Failure.authorization = some 403
http_status Failure.rate_limited = some 429
http_status Failure.concurrent_write = some 409
http_status Failure.governance = some 403
http_status Failure.cohort_too_small = some 403
http_status Failure.healthcare_cohort_too_small = some 403
http_status Failure.epsilon_too_high = some 403
http_status Failure.healthcare_epsilon_too_high = some 403
http_status Failure.consent_denied = some 403
http_status Failure.query_not_allowed = some 403
http_status Failure.scope_mismatch = some 403
http_status Failure.domain_mismatch = some 403
http_status Failure.privacy_budget = some 403
http_status Failure.invalid_data = some 400
http_status Failure.model_dimension_mismatch = some 400
http_status Failure.duplicate_roster = some 400
http_status Failure.protocol = some 400
http_status Failure.storage = some 500
http_status Failure.audit_integrity = some 500
http_status _ = none

-- `isinstance(e, ValueError)`
abbrev pub is_value_error : Failure → Bool
is_value_error Failure.value_error = true
is_value_error Failure.invalid_data = true
is_value_error Failure.model_dimension_mismatch = true
is_value_error Failure.duplicate_roster = true
is_value_error _ = false

-- `isinstance(e, PermissionError)`
abbrev pub is_permission_error : Failure → Bool
is_permission_error Failure.permission_error = true
is_permission_error Failure.governance = true
is_permission_error Failure.cohort_too_small = true
is_permission_error Failure.healthcare_cohort_too_small = true
is_permission_error Failure.epsilon_too_high = true
is_permission_error Failure.healthcare_epsilon_too_high = true
is_permission_error Failure.consent_denied = true
is_permission_error Failure.query_not_allowed = true
is_permission_error Failure.scope_mismatch = true
is_permission_error Failure.domain_mismatch = true
is_permission_error Failure.privacy_budget = true
is_permission_error _ = false

-- `isinstance(e, RuntimeError)`
abbrev pub is_runtime_error : Failure → Bool
is_runtime_error Failure.protocol = true
is_runtime_error Failure.storage = true
is_runtime_error Failure.audit_integrity = true
is_runtime_error _ = false

-- What a call returns or raises.
pub data Result {ℓ} (A : Type ℓ) : Type ℓ where
  ok : A → Result A
  err : Failure → Result A

infixl 5 ◌>>=◌
infixl 5 ◌>>◌
abbrev pub ◌>>=◌ {ℓ κ} : {A : Type ℓ} {B : Type κ} → Result A → (A → Result B) → Result B
ok x >>= k = k x
err failure >>= k = err failure

abbrev pub ◌>>◌ {ℓ} : {B : Type ℓ} → Result (Unit {0}) → Result B → Result B
first >> next = first >>= λ _. next

-- `if b: raise e`
abbrev pub raise_if : Bool → Failure → Result (Unit {0})
raise_if true e = err e
raise_if false e = ok tt

abbrev pub or_raise {ℓ} : {A : Type ℓ} → Option A → Failure → Result A
or_raise none e = err e
or_raise (some a) e = ok a

-- A call after two calls, of which either may raise.
pub >>=_assoc {ℓ κ μ} :
    {A : Type ℓ} {B : Type κ} {C : Type μ} (call : Result A) (k : A → Result B)
    (last : B → Result C)
    → ((call >>= k) >>= last) ≡ (call >>= λ x. k x >>= last)
>>=_assoc (ok x) k last = refl
>>=_assoc (err failure) k last = refl

-- A call that goes on after another has returned only if that one has.
pub returned {ℓ} :
    {A B : Type ℓ} (call : Result A) (k : A → Result B) (b : B)
    → (call >>= k) ≡ ok b
    → (x : A) × (call ≡ ok x) × (k x ≡ ok b)
returned (ok x) k b done = (x, refl, done)
returned (err failure) k b done = cc

-- To split on a call and keep the equation.
pub Result-cases {ℓ} :
    {A : Type ℓ} (call : Result A)
    → ((failure : Failure) × (call ≡ err failure)) ⊎ ((x : A) × (call ≡ ok x))
Result-cases (err failure) = inl (failure, refl)
Result-cases (ok x) = inr (x, refl)

pub ok_injective {ℓ} : {A : Type ℓ} (x y : A) → ok x ≡ ok y → x ≡ y
ok_injective x y same = ap (λ r. elim r [ ok z ↦ z | err failure ↦ x ]) same

-- A guard that lets a call return.
pub raise_if-ok {ℓ} :
    {A : Type ℓ} (b : Bool) (f : Failure) (rest : Result A) (a : A)
    → (raise_if b f >> rest) ≡ ok a
    → (b ≡ false) × (rest ≡ ok a)
raise_if-ok true f rest a h = cc
raise_if-ok false f rest a h = (refl, h)

pub err_injective {ℓ} : {A : Type ℓ} (e f : Failure) → ◌≡◌ {A = Result A} (err e) (err f) → e ≡ f
err_injective e f same = ap (λ r. elim r [ ok z ↦ e | err g ↦ g ]) same
