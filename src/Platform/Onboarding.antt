-- ===== src/Platform/Onboarding.antt =====
-- Onboarding on the platform of sentrylink/platform.py: joining, and changing consent.
use sentry_link.Base.{String, text_eq, List, [], ◌∷◌, sorted, Option, none}
use sentry_link.Base.Dict.{lookup_or}
use sentry_link.Errors.{Result, ok, err, ◌>>=◌}
use sentry_link.Floats.{Floats}
use sentry_link.Crypto.SecureAggregation.{KeyAgreement}
use sentry_link.Governance.Registry.{Organization, Registry, Fresh, register, get}
use sentry_link.Governance.Policy.{PolicyEngine, set_policy, default_policy_for, policy_of}
use sentry_link.Storage.Codec.{Formats, encode_org, encode_policy}
use sentry_link.Storage.Memory.{Op}
use sentry_link.Platform.{
  Platform, Setup, Stamp, Outcome, Detail, audit_entry, commit_bundle, and_then,
}

module _ (fl : Floats) (formats : Formats fl) (ka : KeyAgreement) where
  -- `join` after the policy is set: the entry, the commit and the result.
  unfoldable pub join_policy :
      Setup fl formats ka
      → Stamp fl formats ka
      → Platform fl formats ka
      → Organization
      → String
      → String
      → Option String
      → Result (PolicyEngine fl)
      → Outcome fl formats ka Organization
  unfolding audit_entry commit_bundle encode_org encode_policy policy_of
  join_policy setup stamp p org name domain request_id (err f) = (p, err f)
  join_policy setup stamp p org name domain request_id (ok engine) =
      let (entry, audited) =
        audit_entry fl formats ka setup (record p { policy = engine }) stamp request_id "org.join"
          (("org_id", Detail.text org.org_id)
            ∷ ("name", Detail.text name)
            ∷ ("domain", Detail.text domain)
            ∷ []) in
      and_then fl formats ka
        (commit_bundle fl formats ka setup audited (
          Op.save_org (encode_org setup.key_hash org)
          ∷ Op.save_policy org.org_id (encode_policy fl (policy_of fl engine org.org_id))
          ∷ Op.append_audit entry entry.prev_hash
          ∷ []))
        (λ p' done. (p', ok org))

  -- `join` after the registration, which the registry keeps if setting the policy raises.
  unfoldable pub join_registered :
      Setup fl formats ka
      → Stamp fl formats ka
      → Platform fl formats ka
      → String
      → String
      → Option String
      → Result (Organization × Registry)
      → Outcome fl formats ka Organization
  unfolding join_policy set_policy default_policy_for
  join_registered setup stamp p name domain request_id (err f) = (p, err f)
  join_registered setup stamp p name domain request_id (ok (org, registry)) =
      let registered : PolicyEngine fl = record p.policy { registry = registry } in
      join_policy setup stamp (record p { policy = registered }) org name domain request_id
        (set_policy fl registered org.org_id (default_policy_for fl org))

  -- `join`
  unfoldable pub join :
      Setup fl formats ka
      → Fresh
      → Stamp fl formats ka
      → Platform fl formats ka
      → String
      → String
      → String
      → Option String
      → Outcome fl formats ka Organization
  unfolding register join_registered
  join setup fresh stamp p name domain sector_group request_id =
      join_registered setup stamp p name domain request_id
        (register setup.key_hash fresh p.policy.registry name domain sector_group none)

  -- The engine with the new allow-list of an organization that exists.
  unfoldable pub consent_engine : PolicyEngine fl → String → List String → Result (PolicyEngine fl)
  unfolding get set_policy default_policy_for
  consent_engine e org_id allowed_metrics = do
    org ← get e.registry org_id
    let base = lookup_or org_id (default_policy_for fl org) e.policies
    set_policy fl e org_id (record base { allowed_metrics = allowed_metrics })

  -- `set_consent` after the policy is set: the entry and the commit.
  unfoldable pub consent_changed :
      Setup fl formats ka
      → Stamp fl formats ka
      → Platform fl formats ka
      → String
      → List String
      → Option String
      → Result (PolicyEngine fl)
      → Outcome fl formats ka (Unit {0})
  unfolding audit_entry commit_bundle encode_policy policy_of sorted
  consent_changed setup stamp p org_id allowed_metrics request_id (err f) = (p, err f)
  consent_changed setup stamp p org_id allowed_metrics request_id (ok engine) =
      let (entry, audited) =
        audit_entry fl formats ka setup (record p { policy = engine }) stamp request_id
          "consent.update"
          (("org_id", Detail.text org_id)
            ∷ ("metrics", Detail.names (sorted allowed_metrics))
            ∷ []) in
      commit_bundle fl formats ka setup audited (
        Op.save_policy org_id (encode_policy fl (policy_of fl engine org_id))
        ∷ Op.append_audit entry entry.prev_hash
        ∷ [])

  -- `set_consent`: only the allow-list of the organization's policy is replaced.
  unfoldable pub set_consent :
      Setup fl formats ka
      → Stamp fl formats ka
      → Platform fl formats ka
      → String
      → List String
      → Option String
      → Outcome fl formats ka (Unit {0})
  unfolding consent_engine consent_changed
  set_consent setup stamp p org_id allowed_metrics request_id =
      consent_changed setup stamp p org_id allowed_metrics request_id
        (consent_engine p.policy org_id allowed_metrics)
