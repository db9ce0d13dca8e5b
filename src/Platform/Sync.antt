-- ===== src/Platform/Sync.antt =====
-- When the live objects of the platform of sentrylink/platform.py agree with its store, so that the
-- freshness proofs of its next bundle match.
pub mod Bundles
pub mod Calls
pub mod Retry
use sentry_link.Base.{
  String, true, false, List, [], ◌∷◌, ◌++◌, Option, none, some, All, ◌≡◌, refl, sym, ap, ◌∙◌,
}
use sentry_link.Errors.{Failure, ok, err}
use sentry_link.Floats.{Floats}
use sentry_link.Crypto.SecureAggregation.{KeyAgreement}
use sentry_link.Governance.Audit.{AuditEntry, genesis, tip}
use sentry_link.Storage.Codec.{Formats, RawBudget}
use sentry_link.Storage.Memory.{Op, commit}
use sentry_link.Storage.Memory.Bundles.{is_audit, commit-appends, tip-append}
use sentry_link.Platform.{Platform, Setup, Entry, Write, commit_bundle}
use sentry_link.Platform.Commits.{settle-ok}

module _ (fl : Floats) (formats : Formats fl) (ka : KeyAgreement) where
  -- The live log continues from the end of the stored one, and a stored budget is as spent as the
  -- live one.
  pub record IsSynced (p : Platform fl formats ka) : Type 0 where
    pub same_tip : p.audit.prev_hash ≡ tip genesis p.store.audit
    pub same_spent :
        (b : RawBudget fl formats)
        → p.store.budget ≡ some b
        → b.spent ≡ (p.accountant.spent.epsilon, p.accountant.spent.delta)

  -- What a bundle that was committed leaves: the platform but for its store, in which the log ends in
  -- the entry.
  pub record IsCommitted (p p' : Platform fl formats ka) (writes : List (Write fl formats ka))
      : Type 0 where
    pub clean : (commit fl formats ka (Entry fl formats ka) writes p.store).1 ≡ none
    pub same :
        p' ≡ record p { store = (commit fl formats ka (Entry fl formats ka) writes p.store).0 }
    pub same_tip : p'.audit.prev_hash ≡ tip genesis p'.store.audit

  pub commit_bundle-IsCommitted :
      (setup : Setup fl formats ka) (p p' : Platform fl formats ka)
      (writes : List (Write fl formats ka)) (entry : AuditEntry String (Entry fl formats ka))
      → All (λ w. is_audit fl formats ka (Entry fl formats ka) w ≡ false) writes
      → p.audit.prev_hash ≡ entry.hash
      → commit_bundle fl formats ka setup p (writes ++ Op.append_audit entry entry.prev_hash ∷ [])
        ≡ (p', ok tt)
      → IsCommitted p p' (writes ++ Op.append_audit entry entry.prev_hash ∷ [])
  unfolding commit_bundle
  commit_bundle-IsCommitted setup p p' writes entry quiet last h =
      let (clean, same) = settle-ok fl formats ka setup _ p' _ h in
      let (_, log) =
        commit-appends fl formats ka (Entry fl formats ka) writes entry entry.prev_hash p.store
          quiet clean in
      record {
        clean = clean;
        same = same;
        same_tip =
            ap (λ q. q.audit.prev_hash) same
            ∙ last
            ∙ sym (tip-append fl formats ka (Entry fl formats ka) genesis p.store.audit entry)
            ∙ ap (tip genesis) (sym (ap (λ q. q.store.audit) same ∙ log));
      }
