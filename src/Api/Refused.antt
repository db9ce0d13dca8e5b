-- ===== src/Api/Refused.antt =====
-- What the endpoints of sentrylink/api/app.py answer to a request that they turn away.
use sentry_link.Base.{
  ℕ, String, is_ascii, ◌&&◌, some, if◌then◌else◌, ◌==◌, text_eq, nat_eq, Bool, true, false,
  Bool-cases, Option-cases, not, ◌||◌, ◌⊎◌, inl, inr, ◌≡◌, ◌≢◌, refl, ap, ◌∙◌, arith,
}
use sentry_link.Base.Dict.{lookup}
use sentry_link.Errors.{
  Failure, Result, ok, err, raise_if, ◌>>=◌, code, http_status, is_permission_error, Result-cases,
}
use sentry_link.Floats.{Floats}
use sentry_link.Crypto.SecureAggregation.{KeyAgreement}
use sentry_link.Governance.Registry.{
  Organization, Registry, KeyHash, authenticate, get, verify_key, is_set, matches, compare_digest,
}
use sentry_link.Storage.Codec.{Formats}
use sentry_link.Platform.{Setup}
use sentry_link.Api.{
  Raised, Reply, Caller, Service, Served, text_of, as_authentication, require_cohort_member,
  is_key_error, check_rate_limit, error_response, failure_response, admitted, entered, spending,
}
use sentry_link.Api.Guarded.{limited}

-- A key that could not be compared with the organization's: one of the texts is not ASCII.
pub record IsUncompared (hash : KeyHash) (orgs : Registry) (org_id api_key : String) : Type 0 where
  pub org : Organization
  pub registered : lookup org_id orgs ≡ some org
  pub compared : verify_key hash org api_key ≡ err Failure.type_error
  pub salt : String
  pub not_plain :
      (is_ascii api_key
        && is_ascii org.api_key
        && is_ascii (hash api_key salt)
        && is_ascii org.api_key_hash)
      ≡ false

-- What a caller raises who is unknown, or not of the cohort, or whose key is not compared.
abbrev IsStranger : KeyHash → Registry → Caller → Failure → Type 0
IsStranger hash orgs caller f =
    ((f ≡ Failure.authentication) ⊎ (f ≡ Failure.authorization))
    ⊎ ((f ≡ Failure.type_error)
        × IsUncompared hash orgs (text_of caller.org_id) (text_of caller.api_key))

matches-err :
    (b : Bool) (x y : String) (f : Failure)
    → matches b x y ≡ err f
    → (f ≡ Failure.type_error) × ((is_ascii x && is_ascii y) ≡ false)
unfolding matches compare_digest
matches-err true x y f h = ground arith
matches-err false x y f h = cc

-- Two comparisons, of which the second is made if the first finds no match.
second-err :
    (first second : Result Bool) (f : Failure)
    → (first >>= λ found. if found then ok true else second) ≡ err f
    → (first ≡ err f) ⊎ (second ≡ err f)
second-err (err e) second f h = inl h
second-err (ok true) second f h = cc
second-err (ok false) second f h = inr h

verify_key-err :
    (hash : KeyHash) (o : Organization) (api_key : String) (f : Failure)
    → verify_key hash o api_key ≡ err f
    → (f ≡ Failure.type_error)
      × ((salt : String) × ((is_ascii api_key
              && is_ascii o.api_key
              && is_ascii (hash api_key salt)
              && is_ascii o.api_key_hash)
            ≡ false))
unfolding verify_key
verify_key-err hash o api_key f h =
    let salt = if is_set o.key_salt then o.key_salt else o.org_id in
    elim (second-err (matches (is_set o.api_key) api_key o.api_key)
      (matches (is_set o.api_key_hash) (hash api_key salt) o.api_key_hash) f h) [
        | inl failed ↦
            let (same, apart) = matches-err (is_set o.api_key) api_key o.api_key f failed in
            (same, (salt, ground (arith, apart)))
        | inr failed ↦
            let (same, apart) =
              matches-err (is_set o.api_key_hash) (hash api_key salt) o.api_key_hash f failed in
            (same, (salt, ground (arith, apart)))
      ]

as_authentication-err :
    (r : Result Organization) (f : Failure)
    → as_authentication r ≡ err f
    → (f ≡ Failure.authentication)
      ⊎ ((r ≡ err f) × ((is_key_error f || is_permission_error f) ≡ false))
unfolding as_authentication
as_authentication-err (ok org) f h = cc
as_authentication-err (err e) f h = elim (Bool-cases (is_key_error e || is_permission_error e)) [
  | inl t ↦ ground (arith, t)
  | inr t ↦ ground (arith, t)
]

authenticate-err :
    (hash : KeyHash) (orgs : Registry) (org_id api_key : String) (f : Failure)
    → authenticate hash orgs org_id api_key ≡ err f
    → ((f ≡ Failure.key_error) ⊎ (f ≡ Failure.permission_error))
      ⊎ ((f ≡ Failure.type_error) × IsUncompared hash orgs org_id api_key)
unfolding authenticate get
authenticate-err hash orgs org_id api_key f h = elim (Option-cases (lookup org_id orgs)) [
  | inl gone ↦ ground (arith, gone)
  | inr (org, found) ↦ elim (Result-cases (verify_key hash org api_key)) [
    | inl (e, failed) ↦
        let same : e ≡ f = ground (arith, found, failed) in
        let compared : verify_key hash org api_key ≡ err f = failed ∙ ap err same in
        let (is_type, (salt, not_plain)) = verify_key-err hash org api_key f compared in
        inr (
          is_type,
          record {
            org = org;
            registered = found;
            compared = compared ∙ ap err is_type;
            salt = salt;
            not_plain = not_plain;
          },
        )
    | inr (b, compared) ↦ ground (arith, found, compared)
  ]
]

require_cohort_member-IsStranger :
    (hash : KeyHash) (orgs : Registry) (sector_group domain : String) (caller : Caller)
    (f : Failure)
    → require_cohort_member hash orgs sector_group domain caller ≡ err f
    → IsStranger hash orgs caller f
unfolding require_cohort_member
require_cohort_member-IsStranger hash orgs sector_group domain caller f h =
    let missing_or : (g e : Failure)
        → as_authentication
            (authenticate hash orgs (text_of caller.org_id) (text_of caller.api_key))
          ≡ err e
        → require_cohort_member hash orgs sector_group domain caller ≡ err g
        → (g ≡ Failure.authentication) ⊎ (g ≡ e) =
      λ g e failed h. ground (arith, failed) in
    let org_id = text_of caller.org_id in
    let api_key = text_of caller.api_key in
    elim (Result-cases (as_authentication (authenticate hash orgs org_id api_key))) [
      | inl (e, failed) ↦ elim (as_authentication-err _ e failed) [
        | inl known ↦ ground (arith, known, failed)
        | inr (raised, apart) ↦ elim (authenticate-err hash orgs org_id api_key e raised) [
          | inl builtin ↦ ground (arith, apart, builtin)
          | inr (is_type, uncompared) ↦ elim (missing_or f e failed h) [
            | inl missing ↦ inl (inl missing)
            | inr same ↦ inr (same ∙ is_type, uncompared)
          ]
        ]
      ]
      | inr (org, found) ↦ ground (arith, found)
    ]

-- The statuses of a request that is turned away before the platform is called.
abbrev pub is_turned_away : ℕ → Bool
is_turned_away status = status == 401 || status == 403 || status == 429

module _ (fl : Floats) (formats : Formats fl) (ka : KeyAgreement) where
  module _ {A : Type 0} (setup : Setup fl formats ka) (s : Service fl formats ka) (caller : Caller)
      (sector_group domain : String) (now : fl.Float)
      (next : Service fl formats ka → Served fl formats ka A) where
    abbrev member : Result Organization
    member =
        require_cohort_member setup.key_hash s.platform.policy.registry sector_group domain caller

    -- A reply that turns a request away: the platform is as it was, and the status says why.
    pub record IsTurnedAway (served : Served fl formats ka A) : Type 0 where
      pub same_platform : served.0.platform ≡ s.platform
      pub cause : Raised
      pub reply : served.1 ≡ Reply.raised cause
      pub status :
          (is_turned_away (error_response cause).status ≡ true)
          ⊎ (((error_response cause).status ≡ 500)
              × IsUncompared setup.key_hash s.platform.policy.registry
                  (text_of caller.org_id)
                  (text_of caller.api_key))

    admitted-IsTurnedAway :
        (b : Bool)
        → (limited fl formats ka s caller now).0 ≡ b
        → b ≡ false
        → IsTurnedAway (
            admitted fl formats ka s.platform next
              (raise_if (not b) Failure.rate_limited, (limited fl formats ka s caller now).1))
    unfolding admitted error_response failure_response http_status code
    admitted-IsTurnedAway true known h = cc
    admitted-IsTurnedAway false known h = record {
      same_platform = refl;
      cause = Raised.failure Failure.rate_limited;
      reply = refl;
      status = inl refl;
    }

    stranger-status :
        (f : Failure)
        → (f ≡ Failure.authentication) ⊎ (f ≡ Failure.authorization)
        → is_turned_away (error_response (Raised.failure f)).status ≡ true
    unfolding error_response failure_response http_status code
    stranger-status Failure.authentication h = refl
    stranger-status Failure.authorization h = refl
    stranger-status f h = ground arith

    type_error-status :
        (f : Failure) → f ≡ Failure.type_error → (error_response (Raised.failure f)).status ≡ 500
    unfolding error_response failure_response http_status code
    type_error-status f h = rw h refl

    entered-IsTurnedAway :
        (r : Result Organization)
        → member ≡ r
        → ((org : Organization) → r ≢ ok org) ⊎ ((limited fl formats ka s caller now).0 ≡ false)
        → IsTurnedAway (entered fl formats ka s caller now next r)
    unfolding entered check_rate_limit
    entered-IsTurnedAway (err f) known h = record {
      same_platform = refl;
      cause = Raised.failure f;
      reply = refl;
      status =
          elim (require_cohort_member-IsStranger setup.key_hash s.platform.policy.registry
            sector_group domain caller f known) [
              | inl stranger ↦ inl (stranger-status f stranger)
              | inr (is_type, uncompared) ↦ inr (type_error-status f is_type, uncompared)
            ];
    }
    entered-IsTurnedAway (ok org) known (inl nobody) = elim (nobody org refl) [ ]
    entered-IsTurnedAway (ok org) known (inr over) = admitted-IsTurnedAway _ refl over

    -- A request for anything that spends, whose caller is not let into the cohort or is over its
    -- rate limit, leaves the platform as it was, and its status is 401, 403 or 429, or 500 where the
    -- key could not be compared because a text is not ASCII.
    pub spending-IsTurnedAway :
        ((org : Organization) → member ≢ ok org) ⊎ ((limited fl formats ka s caller now).0 ≡ false)
        → IsTurnedAway (spending fl formats ka setup s caller sector_group domain now next)
    unfolding spending
    spending-IsTurnedAway h = entered-IsTurnedAway member refl h
