-- ===== src/Platform/Commits.antt =====
-- What the commit of the platform does when the store refuses a bundle.
use sentry_link.Base.{
  String, inl, inr, List, [], subst, Option, none, some, Option-cases, ◌≡◌, refl, sym, ap, ◌∙◌,
}
use sentry_link.Base.Dict.{Dict}
use sentry_link.Errors.{Failure, ok, err, Result-cases, returned, ok_injective}
use sentry_link.Floats.{Floats}
use sentry_link.Crypto.SecureAggregation.{KeyAgreement}
use sentry_link.Crypto.DifferentialPrivacy.Accountant.{PrivacyAccountant}
use sentry_link.Federated.Server.{FederatedServer}
use sentry_link.Governance.Audit.{genesis, tip, restore}
use sentry_link.Governance.Registry.{Registry}
use sentry_link.Governance.Policy.{PolicyEngine}
use sentry_link.Storage.Codec.{Formats, RawBudget, decode_budget}
use sentry_link.Storage.Memory.{load, commit}
use sentry_link.Platform.{
  Platform, Outcome, and_then, Setup, Entry, Store, Write, restore_from, settle, reconverge,
  commit_bundle, restore_orgs, restore_policies, restore_servers, last_rounds,
}

module _ (fl : Floats) (formats : Formats fl) (ka : KeyAgreement) where
  pub reconverge-err :
      (setup : Setup fl formats ka) (p : Platform fl formats ka) (f : Failure)
      → (e : Failure) × ((reconverge fl formats ka setup p f).1 ≡ err e)
  unfolding reconverge
  reconverge-err setup p f =
      elim (Option-cases (load fl formats ka (Entry fl formats ka) p.store)) [
        | inl gone ↦ (f, rw (reconverge, gone) refl)
        | inr (s, kept) ↦ elim (Result-cases (restore_from fl formats ka p s)) [
          | inl (e, failed) ↦ (e, rw (reconverge, kept, failed) refl)
          | inr (p', restored) ↦ (f, rw (reconverge, kept, restored) refl)
        ]
      ]

  pub settle-ok :
      (setup : Setup fl formats ka) (p p' : Platform fl formats ka) (o : Option Failure)
      → settle fl formats ka setup p o ≡ (p', ok tt)
      → (o ≡ none) × (p' ≡ p)
  unfolding settle
  settle-ok setup p p' none h = (refl, sym (ap (λ r. r.0) h))
  settle-ok setup p p' (some f) h =
      let (e, failed) = reconverge-err setup p f in cc (sym failed ∙ ap (λ r. r.1) h)

  pub and_then-ok :
      {A B : Type 0} (o : Outcome fl formats ka A) (next : Platform fl formats ka → A → B)
      (p' : Platform fl formats ka) (r : B)
      → and_then fl formats ka o (λ q a. (q, ok (next q a))) ≡ (p', ok r)
      → (a : A) × (o ≡ (p', ok a)) × (next p' a ≡ r)
  and_then-ok {A} {B} (q, ok a) next p' r h =
      let same : q ≡ p' = ap (λ o. o.0) h in
      (
        a,
        (λ i. (same i, ok a)),
        ap (λ z. next z a) (sym same)
            ∙ ap (λ (o : Outcome fl formats ka B). elim o.1 [ ok x ↦ x | err f ↦ next q a ]) h,
      )
  and_then-ok (q, err f) next p' r h = cc (ap (λ o. o.1) h)

  accountant_again :
      (raw : Option (RawBudget fl formats)) (a b : PrivacyAccountant fl)
      → (elim raw [ none ↦ ok a | some w ↦ decode_budget fl formats w ]) ≡ ok b
      → (elim raw [ none ↦ ok b | some w ↦ decode_budget fl formats w ]) ≡ ok b
  accountant_again none a b h = refl
  accountant_again (some w) a b h = h

  -- The platform with the objects that a state decodes to.
  abbrev pub rebuilt :
      Platform fl formats ka
      → Store fl formats ka
      → PolicyEngine fl
      → PrivacyAccountant fl
      → Dict String (FederatedServer ka fl)
      → Platform fl formats ka
  rebuilt p s policy accountant servers = record p {
    policy = policy;
    accountant = accountant;
    audit = restore genesis s.audit;
    servers = servers;
    last_round = last_rounds fl formats ka servers;
  }

  restore_from-rebuilt :
      (p : Platform fl formats ka) (s : Store fl formats ka) {registry : Registry}
      {policy : PolicyEngine fl} {accountant : PrivacyAccountant fl}
      {servers : Dict String (FederatedServer ka fl)}
      → restore_orgs fl formats ka s.orgs [] ≡ ok registry
      → restore_policies fl formats ka s.policies (record { registry = registry; policies = [] })
        ≡ ok policy
      → (elim s.budget [ none ↦ ok p.accountant | some raw ↦ decode_budget fl formats raw ])
        ≡ ok accountant
      → restore_servers fl formats ka s.servers s.rounds ≡ ok servers
      → restore_from fl formats ka p s ≡ ok (rebuilt p s policy accountant servers)
  unfolding restore_from
  restore_from-rebuilt p s e₁ e₂ e₃ e₄ = rw (restore_from, e₁, e₂, e₃, e₄) refl

  -- The parts that a platform was rebuilt from.
  pub record IsRestored (p p' : Platform fl formats ka) (s : Store fl formats ka) : Type 0 where
    pub registry : Registry
    pub policy : PolicyEngine fl
    pub accountant : PrivacyAccountant fl
    pub servers : Dict String (FederatedServer ka fl)
    pub orgs : restore_orgs fl formats ka s.orgs [] ≡ ok registry
    pub policies :
        restore_policies fl formats ka s.policies (record { registry = registry; policies = [] })
        ≡ ok policy
    pub decoded :
        (elim s.budget [ none ↦ ok p.accountant | some raw ↦ decode_budget fl formats raw ])
        ≡ ok accountant
    pub served : restore_servers fl formats ka s.servers s.rounds ≡ ok servers
    pub same : rebuilt p s policy accountant servers ≡ p'

  pub restore_from-IsRestored :
      (p p' : Platform fl formats ka) (s : Store fl formats ka)
      → restore_from fl formats ka p s ≡ ok p'
      → IsRestored p p' s
  unfolding restore_from
  restore_from-IsRestored p p' s h =
      let (registry, e₁, h₁) = returned (restore_orgs fl formats ka s.orgs []) _ p' h in
      let (policy, e₂, h₂) =
        returned
          (restore_policies fl formats ka s.policies
            (record { registry = registry; policies = [] }))
          _ p' h₁ in
      let (accountant, e₃, h₃) =
        returned
          (elim s.budget [ none ↦ ok p.accountant | some raw ↦ decode_budget fl formats raw ]) _ p'
          h₂ in
      let (servers, e₄, h₄) = returned (restore_servers fl formats ka s.servers s.rounds) _ p' h₃ in
      record {
        registry = registry;
        policy = policy;
        accountant = accountant;
        servers = servers;
        orgs = e₁;
        policies = e₂;
        decoded = e₃;
        served = e₄;
        same = ok_injective _ p' h₄;
      }

  -- Rebuilding again from the same state changes nothing.
  pub restore_again :
      (p p' : Platform fl formats ka) (s : Store fl formats ka)
      → restore_from fl formats ka p s ≡ ok p'
      → (restore_from fl formats ka p' s ≡ ok p') × (p'.store ≡ p.store)
  restore_again p p' s h =
      let parts = restore_from-IsRestored p p' s h in
      let q = rebuilt p s parts.policy parts.accountant parts.servers in
      let again = accountant_again s.budget p.accountant parts.accountant parts.decoded in
      (
        subst (λ z. restore_from fl formats ka z s ≡ ok z) parts.same
            (restore_from-rebuilt q s parts.orgs parts.policies again parts.served),
        sym (ap (λ z. z.store) parts.same),
      )

  -- A platform that has raised what the store raised, and whose live objects are those of the store:
  -- its log has the stored entries and continues from the last of them, and its registry, policies,
  -- accountant and servers are what the stored parts decode to, and its last rounds are those of the
  -- servers. An accountant that was never stored is kept.
  pub record IsReconverged (setup : Setup fl formats ka) (p p' : Platform fl formats ka)
      (after : Store fl formats ka) (f : Failure) (o : Outcome fl formats ka (Unit {0}))
      : Type 0 where
    pub raised : o ≡ (p', err f)
    pub same_store : p'.store ≡ after
    pub logged : p'.audit.entries ≡ after.audit
    pub continued : p'.audit.prev_hash ≡ tip genesis after.audit
    pub registry : Registry
    pub orgs : restore_orgs fl formats ka after.orgs [] ≡ ok registry
    pub policies :
        restore_policies fl formats ka after.policies
          (record { registry = registry; policies = [] })
        ≡ ok p'.policy
    pub decoded :
        (elim after.budget [ none ↦ ok p.accountant | some raw ↦ decode_budget fl formats raw ])
        ≡ ok p'.accountant
    pub served : restore_servers fl formats ka after.servers after.rounds ≡ ok p'.servers
    pub recent : p'.last_round ≡ last_rounds fl formats ka p'.servers

  reconverge-restored :
      (setup : Setup fl formats ka) (p p' : Platform fl formats ka) (f : Failure)
      → load fl formats ka (Entry fl formats ka) p.store ≡ some p.store
      → restore_from fl formats ka p p.store ≡ ok p'
      → reconverge fl formats ka setup p f ≡ (p', err f)
  unfolding reconverge
  reconverge-restored setup p p' f stored decoded = rw (reconverge, stored, decoded) refl

  pub commit_bundle-IsReconverged :
      (setup : Setup fl formats ka) (p p' : Platform fl formats ka)
      (writes : List (Write fl formats ka)) (after : Store fl formats ka) (f : Failure)
      → commit fl formats ka (Entry fl formats ka) writes p.store ≡ (after, some f)
      → load fl formats ka (Entry fl formats ka) after ≡ some after
      → restore_from fl formats ka (record p { store = after }) after ≡ ok p'
      → IsReconverged setup p p' after f (commit_bundle fl formats ka setup p writes)
  unfolding commit_bundle settle restore
  commit_bundle-IsReconverged setup p p' writes after f refused stored decoded =
      let parts = restore_from-IsRestored (record p { store = after }) p' after decoded in
      let same = parts.same in
      record {
        raised =
            ap (λ o. settle fl formats ka setup (record p { store = o.0 }) o.1) refused
            ∙ reconverge-restored setup (record p { store = after }) p' f stored decoded;
        same_store = ap (λ z. z.store) (sym same);
        logged = ap (λ z. z.audit.entries) (sym same);
        continued = ap (λ z. z.audit.prev_hash) (sym same);
        registry = parts.registry;
        orgs = parts.orgs;
        policies = parts.policies ∙ ap (λ z. ok z.policy) same;
        decoded = parts.decoded ∙ ap (λ z. ok z.accountant) same;
        served = parts.served ∙ ap (λ z. ok z.servers) same;
        recent =
            ap (λ z. z.last_round) (sym same) ∙ ap (λ z. last_rounds fl formats ka z.servers) same;
      }
