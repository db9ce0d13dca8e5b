-- ===== src/Api/Guarded.antt =====
-- What the guards of sentrylink/api/app.py ensure: who gets a query answered, and what a request that
-- is turned away leaves.
use sentry_link.Base.{
  String, ◌∙◌, not-false, text_eq, mem, Bool, true, false, not, ◌||◌, map, none, some, Option, ◌≡◌,
  refl, ap, subst, arith,
}
use sentry_link.Base.Dict.{lookup}
use sentry_link.Errors.{
  Failure, Result, ok, err, raise_if, or_raise, returned, ok_injective, raise_if-ok,
}
use sentry_link.Floats.{Floats}
use sentry_link.Crypto.SecureAggregation.{KeyAgreement}
use sentry_link.Governance.Registry.{
  Organization, Registry, KeyHash, authenticate, cohort, get, verify_key,
}
use sentry_link.RateLimit.{TokenBucket, allow}
use sentry_link.Storage.Codec.{Formats}
use sentry_link.Platform.{Setup}
use sentry_link.Api.{
  Reply, Caller, Service, Served, is_given, text_of, as_authentication, spend_key,
  require_cohort_member, check_rate_limit, admitted, entered, spending,
}

pub answered_injective : {A : Type 0} (a b : A) → Reply.answered a ≡ Reply.answered b → a ≡ b
answered_injective a b h = ap (λ x. elim x [ Reply.answered y ↦ y | Reply.raised e ↦ a ]) h

-- A caller that a registry lets into a cohort: an organization of its id, whose key the caller has,
-- among the active organizations of the cohort.
pub record IsMember (hash : KeyHash) (orgs : Registry) (sector_group domain : String)
    (caller : Caller) : Type 0 where
  pub org : Organization
  pub registered : lookup (text_of caller.org_id) orgs ≡ some org
  pub verified : verify_key hash org (text_of caller.api_key) ≡ ok true
  pub belongs :
      mem org.org_id (map (λ (o : Organization). o.org_id) (cohort orgs sector_group (some domain)))
      ≡ true

as_authentication-ok : {A : Type 0} (r : Result A) (a : A) → as_authentication r ≡ ok a → r ≡ ok a
unfolding as_authentication
as_authentication-ok (ok b) a h = h
as_authentication-ok (err f) a h = ground arith

or_raise-ok : {A : Type 0} (o : Option A) (f : Failure) (a : A) → or_raise o f ≡ ok a → o ≡ some a
or_raise-ok none f a h = cc
or_raise-ok (some b) f a h = ap some (ok_injective b a h)

authenticate-ok :
    (hash : KeyHash) (orgs : Registry) (org_id api_key : String) (org : Organization)
    → authenticate hash orgs org_id api_key ≡ ok org
    → (lookup org_id orgs ≡ some org) × (verify_key hash org api_key ≡ ok true)
unfolding authenticate get
authenticate-ok hash orgs org_id api_key org h =
    let (o, found, h₁) = returned (get orgs org_id) _ org h in
    let (b, compared, checked) = returned (verify_key hash o api_key) _ org h₁ in
    let (verified, done) = raise_if-ok (not b) Failure.permission_error (ok o) org checked in
    subst (λ z. (lookup org_id orgs ≡ some z) × (verify_key hash z api_key ≡ ok true))
      (ok_injective o org done)
      (
        or_raise-ok (lookup org_id orgs) Failure.key_error o found,
        compared ∙ ap ok (not-false b verified),
      )

pub require_cohort_member-IsMember :
    (hash : KeyHash) (orgs : Registry) (sector_group domain : String) (caller : Caller)
    (org : Organization)
    → require_cohort_member hash orgs sector_group domain caller ≡ ok org
    → IsMember hash orgs sector_group domain caller
unfolding require_cohort_member
require_cohort_member-IsMember hash orgs sector_group domain caller org h =
    let missing = not (is_given caller.org_id) || not (is_given caller.api_key) in
    let (_, given, entered) = returned (raise_if missing Failure.authentication) _ org h in
    let (o, known, checked) =
      returned
        (as_authentication
          (authenticate hash orgs (text_of caller.org_id) (text_of caller.api_key)))
        _ org entered in
    let (registered, verified) =
      authenticate-ok hash orgs (text_of caller.org_id) (text_of caller.api_key) o
        (as_authentication-ok _ o known) in
    record { org = o; registered = registered; verified = verified; belongs = ground arith }

module _ (fl : Floats) (formats : Formats fl) (ka : KeyAgreement) where
  -- The call of the limiter for a caller.
  abbrev pub limited : Service fl formats ka → Caller → fl.Float → Bool × TokenBucket fl
  limited s caller now = allow fl s.limiter (spend_key (text_of caller.org_id)) now

  module _ {A : Type 0} (setup : Setup fl formats ka) (s s' : Service fl formats ka)
      (caller : Caller) (sector_group domain : String) (now : fl.Float)
      (next : Service fl formats ka → Served fl formats ka A) (a : A) where
    abbrev orgs : Registry
    orgs = s.platform.policy.registry

    -- The service once the limiter has counted the call.
    abbrev counted : Service fl formats ka
    counted = record { platform = s.platform; limiter = (limited s caller now).1 }

    admitted-answered :
        (b : Bool)
        → (limited s caller now).0 ≡ b
        → admitted fl formats ka s.platform next
            (raise_if (not b) Failure.rate_limited, (limited s caller now).1)
          ≡ (s', Reply.answered a)
        → ((limited s caller now).0 ≡ true) × (next counted ≡ (s', Reply.answered a))
    unfolding admitted
    admitted-answered true known h = (known, h)
    admitted-answered false known h = cc (ap (λ o. o.1) h)

    entered-answered :
        (r : Result Organization)
        → require_cohort_member setup.key_hash orgs sector_group domain caller ≡ r
        → entered fl formats ka s caller now next r ≡ (s', Reply.answered a)
        → IsMember setup.key_hash orgs sector_group domain caller
          × ((limited s caller now).0 ≡ true)
          × (next counted ≡ (s', Reply.answered a))
    unfolding entered check_rate_limit
    entered-answered (err f) known h = cc (ap (λ o. o.1) h)
    entered-answered (ok org) known h =
        let (allowed, done) = admitted-answered (limited s caller now).0 refl h in
        (
          require_cohort_member-IsMember setup.key_hash orgs sector_group domain caller org known,
          allowed,
          done,
        )

    pub spending-answered :
        spending fl formats ka setup s caller sector_group domain now next ≡ (s', Reply.answered a)
        → IsMember setup.key_hash orgs sector_group domain caller
          × ((limited s caller now).0 ≡ true)
          × (next counted ≡ (s', Reply.answered a))
    unfolding spending
    spending-answered h = entered-answered _ refl h

  -- A request of a member within its limit goes on to what follows the guards.
  module _ {A : Type 0} (setup : Setup fl formats ka) (s : Service fl formats ka) (caller : Caller)
      (sector_group domain : String) (now : fl.Float)
      (next : Service fl formats ka → Served fl formats ka A) (org : Organization)
      (allowed : (limited s caller now).0 ≡ true) where
    admitted-called :
        (b : Bool) (limiter : TokenBucket fl)
        → b ≡ true
        → admitted fl formats ka s.platform next (raise_if (not b) Failure.rate_limited, limiter)
          ≡ next (record { platform = s.platform; limiter = limiter })
    unfolding admitted
    admitted-called true limiter h = refl
    admitted-called false limiter h = cc

    entered-called :
        (r : Result Organization)
        → r ≡ ok org
        → entered fl formats ka s caller now next r
          ≡ next (record { platform = s.platform; limiter = (limited s caller now).1 })
    unfolding entered check_rate_limit
    entered-called (ok o) h = admitted-called _ _ allowed
    entered-called (err f) h = cc

    pub spending-called :
        require_cohort_member setup.key_hash s.platform.policy.registry sector_group domain caller
          ≡ ok org
        → spending fl formats ka setup s caller sector_group domain now next
          ≡ next (record { platform = s.platform; limiter = (limited s caller now).1 })
    unfolding spending
    spending-called h = entered-called _ h
