-- ===== src/Api.antt =====
-- sentrylink/api/app.py: the replies to what a call raises, and the guards of the endpoints. FastAPI
-- reads a request into its arguments and calls the handler of what was raised; the texts of the
-- messages are left out.
pub mod Queries
pub mod Members
pub mod Learning
pub mod Transparency
pub mod Guarded
pub mod Answered
pub mod Refused
pub mod Denied
pub mod Joined
use Prim.Native.String.{◌++◌ as text_append}
use sentry_link.Base.{
  ℕ, String, ◌==◌, text_eq, nat_eq, mem, Bool, true, false, not, ◌||◌, map, Option, none, some,
  if◌then◌else◌,
}
use sentry_link.Errors.{
  Failure, Result, ok, err, ◌>>=◌, ◌>>◌, raise_if, code, http_status, is_permission_error,
  is_value_error, is_runtime_error,
}
use sentry_link.Floats.{Floats}
use sentry_link.Crypto.SecureAggregation.{KeyAgreement}
use sentry_link.Governance.Registry.{Organization, Registry, KeyHash, is_set, authenticate, cohort}
use sentry_link.RateLimit.{TokenBucket, allow}
use sentry_link.Storage.Codec.{Formats}
use sentry_link.Platform.{Platform, Setup, Outcome}

-- What an endpoint raises: an exception of a call, or `HTTPException` with a status.
pub data Raised : Type 0 where
  failure : Failure → Raised
  http : ℕ → Raised

-- What an endpoint returns or raises.
pub data Reply (A : Type 0) : Type 0 where
  answered : A → Reply A
  raised : Raised → Reply A

-- The status of an error response and the code in its body, if that has one.
pub record ErrorResponse : Type 0 where
  pub status : ℕ
  pub code : Option String

-- `_STATUS_CODES.get(status, "HTTP_ERROR")`
unfoldable pub status_code : ℕ → String
status_code status =
    if status == 400
    then "INVALID_REQUEST"
    else if status == 401
    then "BAD_CREDENTIAL"
    else if status == 403
    then "FORBIDDEN"
    else if status == 404
    then "NOT_FOUND"
    else if status == 503
    then "SERVICE_UNAVAILABLE"
    else "HTTP_ERROR"

-- `_unhandled`
abbrev pub internal_error : ErrorResponse
internal_error = record { status = 500; code = some "INTERNAL_ERROR" }

-- `_storage_failure`, whose body has a detail in place of a code.
abbrev pub storage_failure : ErrorResponse
storage_failure = record { status = 500; code = none }

-- `_domain_error`, whose exception has a status and a code; the others are not handled.
unfoldable pub domain_response : Option ℕ → Option String → ErrorResponse
domain_response (some status) (some code) = record { status = status; code = some code }
domain_response (some status) none = internal_error
domain_response none code = internal_error

-- The handler of an exception is that of the first of its class's bases that has one, in the order of
-- inheritance: a class that names RuntimeError before SentryLinkError goes to `_storage_failure`.
unfoldable pub failure_response : Failure → ErrorResponse
unfolding domain_response
failure_response f =
    if is_runtime_error f then storage_failure else domain_response (http_status f) (code f)

-- The response to what is raised.
unfoldable pub error_response : Raised → ErrorResponse
unfolding failure_response status_code
error_response (Raised.failure f) = failure_response f
error_response (Raised.http status) = record { status = status; code = some (status_code status) }

-- `isinstance(e, SentryLinkError)`
abbrev pub is_domain_error : Failure → Bool
is_domain_error f = elim (code f) [ none ↦ false | some c ↦ true ]

abbrev pub is_key_error : Failure → Bool
is_key_error Failure.key_error = true
is_key_error _ = false

-- What the `except` clauses around a platform call make of what it raises.
unfoldable pub query_raised : Failure → Raised
query_raised f =
    if is_domain_error f
    then Raised.failure f
    else if is_permission_error f
    then Raised.http 403
    else if is_key_error f || is_value_error f
    then Raised.http 400
    else Raised.failure f

-- `except (KeyError, PermissionError)`, which raises another exception instead.
unfoldable pub as_authentication {ℓ} : {A : Type ℓ} → Result A → Result A
as_authentication (ok a) = ok a
as_authentication (err f) =
    if is_key_error f || is_permission_error f then err Failure.authentication else err f

-- A credential that may be missing or empty.
abbrev pub is_given : Option String → Bool
is_given none = false
is_given (some s) = is_set s

abbrev pub text_of : Option String → String
text_of none = ""
text_of (some s) = s

-- The credentials of a caller.
pub record Caller : Type 0 where
  pub org_id : Option String
  pub api_key : Option String

unfoldable pub require_cohort_member :
    KeyHash → Registry → String → String → Caller → Result Organization
unfolding authenticate as_authentication cohort
require_cohort_member hash orgs sector_group domain caller = do
  raise_if (not (is_given caller.org_id) || not (is_given caller.api_key)) Failure.authentication
  org ← as_authentication (authenticate hash orgs (text_of caller.org_id) (text_of caller.api_key))
  let cohort_ids = map (λ (o : Organization). o.org_id) (cohort orgs sector_group (some domain))
  raise_if (not (mem org.org_id cohort_ids)) Failure.authorization
  ok org

-- `f"spend:{org_id}"`
abbrev pub spend_key : String → String
spend_key org_id = text_append "spend:" org_id

module _ (fl : Floats) (formats : Formats fl) (ka : KeyAgreement) where
  -- `PLATFORM` and `RATE_LIMITER`
  pub record Service : Type 0 where
    pub platform : Platform fl formats ka
    pub limiter : TokenBucket fl

  -- What a request is answered, and the state that it leaves.
  abbrev pub Served : Type 0 → Type 0
  Served A = Service × Reply A

  -- `_check_rate_limit`
  unfoldable pub check_rate_limit :
      TokenBucket fl → String → fl.Float → Result (Unit {0}) × TokenBucket fl
  unfolding allow
  check_rate_limit limiter org_id now =
      let (admitted, limiter') = allow fl limiter (spend_key org_id) now in
      (raise_if (not admitted) Failure.rate_limited, limiter')

  -- The reply of an endpoint to what its platform call has done.
  unfoldable pub replied : {A : Type 0} → TokenBucket fl → Outcome fl formats ka A → Served A
  unfolding query_raised
  replied limiter (p, ok a) = (record { platform = p; limiter = limiter }, Reply.answered a)
  replied limiter (p, err f) =
      (record { platform = p; limiter = limiter }, Reply.raised (query_raised f))

  -- A member's request after the limiter has decided.
  unfoldable pub admitted :
      {A : Type 0}
      → Platform fl formats ka
      → (Service → Served A)
      → Result (Unit {0}) × TokenBucket fl
      → Served A
  admitted p next (ok done, limiter) = next (record { platform = p; limiter = limiter })
  admitted p next (err f, limiter) =
      (record { platform = p; limiter = limiter }, Reply.raised (Raised.failure f))

  -- A request after the caller is known, or is not a member.
  unfoldable pub entered :
      {A : Type 0}
      → Service
      → Caller
      → fl.Float
      → (Service → Served A)
      → Result Organization
      → Served A
  unfolding admitted check_rate_limit
  entered s caller now next (err f) = (s, Reply.raised (Raised.failure f))
  entered s caller now next (ok org) =
      admitted s.platform next (check_rate_limit s.limiter (text_of caller.org_id) now)

  -- An endpoint that spends: the member check, the limiter, and what follows them.
  unfoldable pub spending :
      {A : Type 0}
      → Setup fl formats ka
      → Service
      → Caller
      → String
      → String
      → fl.Float
      → (Service → Served A)
      → Served A
  unfolding entered require_cohort_member
  spending setup s caller sector_group domain now next =
      entered s caller now next
        (require_cohort_member setup.key_hash s.platform.policy.registry sector_group domain caller)
