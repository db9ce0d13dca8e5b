-- ===== src/Api/Joined.antt =====
-- What `join_org` of sentrylink/api/app.py gives to a new organization: credentials that let it in.
use sentry_link.Base.{
  String, is_ascii, ◌==◌, text_eq, mem, beq_refl, true, false, Bool-cases, inl, inr, List, [], ◌∷◌,
  map, filter, Option, none, some, ◌≡◌, refl, sym, ap, subst, arith,
}
use sentry_link.Base.Dict.{values, insert, contains, lookup-insert_self}
use sentry_link.Errors.{Failure, Result, ok, err, returned, ok_injective, raise_if-ok}
use sentry_link.Floats.{Floats}
use sentry_link.Crypto.SecureAggregation.{KeyAgreement}
use sentry_link.Governance.Registry.{
  Organization, Registry, KeyHash, Fresh, is_set, register, get, authenticate, verify_key, matches,
  compare_digest, in_cohort, cohort,
}
use sentry_link.Governance.Policy.{PolicyEngine, ConsentPolicy, set_policy, policy_of}
use sentry_link.Storage.Codec.{Formats, encode_org, encode_policy}
use sentry_link.Storage.Memory.{Op, commit}
use sentry_link.Platform.{
  Platform, Setup, Stamp, Outcome, Detail, Write, Entry, audit_entry, commit_bundle,
}
use sentry_link.Platform.Commits.{settle-ok, and_then-ok}
use sentry_link.Platform.Onboarding.{join, join_registered, join_policy}
use sentry_link.Api.{Reply, Caller, Service, require_cohort_member, as_authentication}
use sentry_link.Api.Guarded.{answered_injective}
use sentry_link.Api.Members.{JoinRequest, JoinResponse, join_response, joined, join_org}

-- The organization that a registration makes.
abbrev new_org : KeyHash → Fresh → String → String → String → Organization
new_org hash fresh name domain sector_group = record {
  org_id = fresh.id;
  name = name;
  domain = domain;
  sector_group = sector_group;
  api_key = fresh.api_key;
  active = true;
  api_key_hash = hash fresh.api_key fresh.salt;
  key_salt = fresh.salt;
}

register-ok :
    (hash : KeyHash) (fresh : Fresh) (orgs : Registry) (name domain sector_group : String)
    {out : Organization × Registry}
    → register hash fresh orgs name domain sector_group none ≡ ok out
    → (contains fresh.id orgs ≡ false)
      × (out ≡ (
        new_org hash fresh name domain sector_group,
        insert fresh.id (new_org hash fresh name domain sector_group) orgs,
      ))
unfolding register
register-ok hash fresh orgs name domain sector_group {out} h =
    let (absent, done) = raise_if-ok (contains fresh.id orgs) Failure.value_error _ out h in
    (absent, sym (ok_injective _ out done))

set_policy-registry :
    (fl : Floats) (e e' : PolicyEngine fl) (org_id : String) (policy : ConsentPolicy fl)
    → set_policy fl e org_id policy ≡ ok e'
    → e'.registry ≡ e.registry
unfolding set_policy
set_policy-registry fl e e' org_id policy h =
    let (org, found, done) = returned (get e.registry org_id) _ e' h in
    ap (λ z. z.registry) (sym (ok_injective _ e' done))

-- An organization that is written to a registry is found in its cohort.
mem-cohort :
    (sector_group domain : String) (org : Organization) (orgs : Registry)
    → in_cohort sector_group (some domain) org ≡ true
    → mem org.org_id (
        map
          (λ (o : Organization). o.org_id)
          (filter (in_cohort sector_group (some domain)) (values (insert org.org_id org orgs))))
      ≡ true
mem-cohort sector_group domain org [] h = ground (arith, h, beq_refl org.org_id)
mem-cohort sector_group domain org ((id, o) ∷ orgs) h =
    let rest = mem-cohort sector_group domain org orgs h in
    elim (Bool-cases (org.org_id == id)) [
      | inl t ↦ rw t (ground (arith, h, beq_refl org.org_id))
      | inr t ↦ elim (Bool-cases (in_cohort sector_group (some domain) o)) [
        | inl u ↦ rw t (ground (arith, u, rest))
        | inr u ↦ rw t (ground (arith, u, rest))
      ]
    ]

-- The credentials of an organization of a cohort that a registry has just been given.
abbrev caller_of : Organization → Caller
caller_of org = record { org_id = some org.org_id; api_key = some org.api_key }

verify_key-own :
    (hash : KeyHash) (org : Organization)
    → is_set org.api_key ≡ true
    → is_ascii org.api_key ≡ true
    → verify_key hash org org.api_key ≡ ok true
unfolding verify_key matches compare_digest
verify_key-own hash org keyed plain = rw (keyed, plain, beq_refl org.api_key) refl

require_cohort_member-insert :
    (hash : KeyHash) (orgs : Registry) (sector_group domain : String) (org : Organization)
    → is_set org.org_id ≡ true
    → is_set org.api_key ≡ true
    → is_ascii org.api_key ≡ true
    → in_cohort sector_group (some domain) org ≡ true
    → require_cohort_member hash (insert org.org_id org orgs) sector_group domain (caller_of org)
      ≡ ok org
unfolding require_cohort_member as_authentication authenticate get cohort
require_cohort_member-insert hash orgs sector_group domain org named keyed plain belongs =
    rw
      (
        named,
        keyed,
        lookup-insert_self org.org_id org orgs,
        verify_key-own hash org keyed plain,
        cohort,
        mem-cohort sector_group domain org orgs belongs,
      )
      refl

module _ (fl : Floats) (formats : Formats fl) (ka : KeyAgreement) where
  commit_bundle-policy :
      (setup : Setup fl formats ka) (q p' : Platform fl formats ka)
      (writes : List (Write fl formats ka))
      → commit_bundle fl formats ka setup q writes ≡ (p', ok tt)
      → q.policy ≡ p'.policy
  unfolding commit_bundle
  commit_bundle-policy setup q p' writes h =
      let outcome = commit fl formats ka (Entry fl formats ka) writes q.store in
      let (_, left) =
        settle-ok fl formats ka setup (record q { store = outcome.0 }) p' outcome.1 h in
      sym (ap (λ z. z.policy) left)

  module _ (setup : Setup fl formats ka) (stamp : Stamp fl formats ka)
      (p p' : Platform fl formats ka) (o : Organization) (name domain : String)
      (request_id : Option String) where
    join_policy-ok :
        (q : Platform fl formats ka) (org : Organization) (r : Result (PolicyEngine fl))
        → join_policy fl formats ka setup stamp q org name domain request_id r ≡ (p', ok o)
        → (r ≡ ok p'.policy) × (org ≡ o)
    unfolding join_policy audit_entry
    join_policy-ok q org (err f) h = cc (ap (λ z. z.1) h)
    join_policy-ok q org (ok engine) h =
        let (entry, audited) =
          audit_entry fl formats ka setup (record q { policy = engine }) stamp request_id "org.join"
            (("org_id", Detail.text org.org_id)
              ∷ ("name", Detail.text name)
              ∷ ("domain", Detail.text domain)
              ∷ []) in
        let writes : List (Write fl formats ka) =
          Op.save_org (encode_org setup.key_hash org)
          ∷ Op.save_policy org.org_id (encode_policy fl (policy_of fl engine org.org_id))
          ∷ Op.append_audit entry entry.prev_hash
          ∷ [] in
        let (_, committed, same) =
          and_then-ok fl formats ka (commit_bundle fl formats ka setup audited writes) (λ q u. org)
            p' o h in
        (ap ok (commit_bundle-policy setup audited p' writes committed), same)

    join_registered-ok :
        (out : Result (Organization × Registry))
        → join_registered fl formats ka setup stamp p name domain request_id out ≡ (p', ok o)
        → out ≡ ok (o, p'.policy.registry)
    unfolding join_registered
    join_registered-ok (err f) h = cc (ap (λ z. z.1) h)
    join_registered-ok (ok (org, registry)) h =
        let registered : PolicyEngine fl = record p.policy { registry = registry } in
        let (set, same) = join_policy-ok (record p { policy = registered }) org _ h in
        let kept = set_policy-registry fl registered p'.policy org.org_id _ set in
        let back = sym kept in (λ i. ok (same i, back i))

    join-ok :
        (fresh : Fresh) (sector_group : String)
        → join fl formats ka setup fresh stamp p name domain sector_group request_id ≡ (p', ok o)
        → register setup.key_hash fresh p.policy.registry name domain sector_group none
          ≡ ok (o, p'.policy.registry)
    unfolding join
    join-ok fresh sector_group h = join_registered-ok _ h

  -- A new organization that is answered: its id was not taken, and its credentials, as they are
  -- answered, let it into the cohort of its request.
  pub record IsJoined (setup : Setup fl formats ka) (s s' : Service fl formats ka)
      (req : JoinRequest) (r : JoinResponse) : Type 0 where
    pub org : Organization
    pub same_name : r.name ≡ req.name
    pub same_domain : r.domain ≡ req.domain
    pub same_sector_group : r.sector_group ≡ req.sector_group
    pub new : contains r.org_id s.platform.policy.registry ≡ false
    pub same_id : org.org_id ≡ r.org_id
    pub let_in :
        require_cohort_member setup.key_hash s'.platform.policy.registry req.sector_group req.domain
          (record { org_id = some r.org_id; api_key = some r.api_key })
        ≡ ok org

  module _ (setup : Setup fl formats ka) (fresh : Fresh) (stamp : Stamp fl formats ka)
      (s s' : Service fl formats ka) (req : JoinRequest) (r : JoinResponse)
      (request_id : Option String) where
    new_org-in_cohort :
        in_cohort req.sector_group
          (some req.domain)
          (new_org setup.key_hash fresh req.name req.domain req.sector_group)
        ≡ true
    unfolding in_cohort
    new_org-in_cohort = rw (beq_refl req.sector_group, beq_refl req.domain) refl

    joined-IsJoined :
        (out : Outcome fl formats ka Organization)
        → join fl formats ka setup fresh stamp s.platform req.name req.domain req.sector_group
            request_id
          ≡ out
        → joined fl formats ka s out ≡ (s', Reply.answered r)
        → is_set fresh.id ≡ true
        → is_set fresh.api_key ≡ true
        → is_ascii fresh.api_key ≡ true
        → IsJoined setup s s' req r
    unfolding joined join_response
    joined-IsJoined (p, err f) known h named keyed plain = cc (ap (λ z. z.1) h)
    joined-IsJoined (p, ok org) known h named keyed plain =
        let hash = setup.key_hash in
        let o : Organization = new_org hash fresh req.name req.domain req.sector_group in
        let (absent, made) =
          register-ok hash fresh s.platform.policy.registry req.name req.domain req.sector_group (
            join-ok setup stamp s.platform p org req.name req.domain request_id fresh
              req.sector_group known) in
        let entered =
          require_cohort_member-insert hash s.platform.policy.registry req.sector_group req.domain o
            named keyed plain new_org-in_cohort in
        let here : IsJoined setup s (record s { platform = p }) req (join_response org) = record {
          org = org;
          same_name = ap (λ z. z.0.name) made;
          same_domain = ap (λ z. z.0.domain) made;
          same_sector_group = ap (λ z. z.0.sector_group) made;
          new =
              subst (λ z. contains z.org_id s.platform.policy.registry ≡ false)
                (sym (ap (λ z. z.0) made)) absent;
          same_id = refl;
          let_in =
              subst
                (λ (z : Organization × Registry).
                  require_cohort_member hash z.1 req.sector_group req.domain (caller_of z.0)
                  ≡ ok z.0)
                (sym made) entered;
        } in
        subst (IsJoined setup s s' req) (answered_injective (join_response org) r (ap (λ z. z.1) h))
          (subst (λ z. IsJoined setup s z req (join_response org)) (ap (λ z. z.0) h) here)

    -- An organization that joins is answered an id that was not taken and a key, with which it is a
    -- member of the cohort that it has asked for, under the name that it gave, provided that the drawn
    -- id and key are not empty and the key is ASCII.
    pub join_org-IsJoined :
        join_org fl formats ka setup fresh stamp s req request_id ≡ (s', Reply.answered r)
        → is_set fresh.id ≡ true
        → is_set fresh.api_key ≡ true
        → is_ascii fresh.api_key ≡ true
        → IsJoined setup s s' req r
    unfolding join_org
    join_org-IsJoined h named keyed plain = joined-IsJoined _ refl h named keyed plain
