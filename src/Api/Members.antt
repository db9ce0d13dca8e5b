-- ===== src/Api/Members.antt =====
-- The endpoints of sentrylink/api/app.py for organizations and their consent.
use sentry_link.Base.{String, text_eq, mem, ◌||◌, List, [], ◌∷◌, sorted, map, Option, if◌then◌else◌}
use sentry_link.Errors.{Result, ok, err, is_value_error, is_permission_error}
use sentry_link.Floats.{Floats}
use sentry_link.Crypto.SecureAggregation.{KeyAgreement}
use sentry_link.Governance.Registry.{Organization, PublicOrg, Fresh, public, list, authenticate}
use sentry_link.Storage.Codec.{Formats}
use sentry_link.Platform.{Setup, Stamp, Outcome}
use sentry_link.Platform.Onboarding.{join, set_consent}
use sentry_link.Api.{Raised, Reply, Service, Served, is_key_error}

-- `set(items)`, of which the order does not matter.
unfoldable pub set_of : List String → List String
set_of [] = []
set_of (x ∷ xs) = let rest = set_of xs in if mem x rest then rest else x ∷ rest

pub record JoinRequest : Type 0 where
  pub name : String
  pub domain : String
  pub sector_group : String

pub record JoinResponse : Type 0 where
  pub org_id : String
  pub name : String
  pub api_key : String
  pub domain : String
  pub sector_group : String

pub record ConsentRequest : Type 0 where
  pub org_id : String
  pub api_key : String
  pub allowed_metrics : List String

-- The dict that `update_consent` returns.
pub record ConsentResponse : Type 0 where
  pub org_id : String
  pub allowed_metrics : List String

unfoldable pub join_response : Organization → JoinResponse
join_response org = record {
  org_id = org.org_id;
  name = org.name;
  api_key = org.api_key;
  domain = org.domain;
  sector_group = org.sector_group;
}

module _ (fl : Floats) (formats : Formats fl) (ka : KeyAgreement) where
  -- The reply of `join_org`, which catches a value error.
  unfoldable pub joined :
      Service fl formats ka → Outcome fl formats ka Organization → Served fl formats ka JoinResponse
  unfolding join_response
  joined s (p, ok org) = (record s { platform = p }, Reply.answered (join_response org))
  joined s (p, err f) = (
    record s { platform = p },
    Reply.raised (if is_value_error f then Raised.http 400 else Raised.failure f),
  )

  unfoldable pub join_org :
      Setup fl formats ka
      → Fresh
      → Stamp fl formats ka
      → Service fl formats ka
      → JoinRequest
      → Option String
      → Served fl formats ka JoinResponse
  unfolding joined join
  join_org setup fresh stamp s req request_id = joined s (
      join fl formats ka setup fresh stamp s.platform req.name req.domain req.sector_group
        request_id)

  unfoldable pub list_orgs : Service fl formats ka → List PublicOrg
  unfolding list public
  list_orgs s = map public (list s.platform.policy.registry)

  -- The reply of `update_consent` to what the platform has done.
  unfoldable pub consented :
      Service fl formats ka
      → ConsentRequest
      → Outcome fl formats ka (Unit {0})
      → Served fl formats ka ConsentResponse
  unfolding sorted
  consented s req (p, ok done) = (
    record s { platform = p },
    Reply.answered (record { org_id = req.org_id; allowed_metrics = sorted req.allowed_metrics }),
  )
  consented s req (p, err f) = (record s { platform = p }, Reply.raised (Raised.failure f))

  -- `update_consent` after the check of the credentials.
  unfoldable pub consent_entered :
      Setup fl formats ka
      → Stamp fl formats ka
      → Service fl formats ka
      → ConsentRequest
      → Option String
      → Result Organization
      → Served fl formats ka ConsentResponse
  unfolding consented set_consent set_of
  consent_entered setup stamp s req request_id (err f) = (
    s,
    Reply.raised
        (if is_key_error f || is_permission_error f then Raised.http 401 else Raised.failure f),
  )
  consent_entered setup stamp s req request_id (ok org) = consented s req (
      set_consent fl formats ka setup stamp s.platform req.org_id (set_of req.allowed_metrics)
        request_id)

  unfoldable pub update_consent :
      Setup fl formats ka
      → Stamp fl formats ka
      → Service fl formats ka
      → ConsentRequest
      → Option String
      → Served fl formats ka ConsentResponse
  unfolding consent_entered authenticate
  update_consent setup stamp s req request_id =
      consent_entered setup stamp s req request_id
        (authenticate setup.key_hash s.platform.policy.registry req.org_id req.api_key)
