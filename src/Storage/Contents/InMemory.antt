-- ===== src/Storage/Contents/InMemory.antt =====
-- The in-memory store of sentrylink/storage/store.py, seen through its contents.
use sentry_link.Base.{
  String, ◌==◌, text_eq, apply_if, List, [], Option, none, some, ◌⊎◌, ◌≡◌, sym, ap, ◌∙◌,
}
use sentry_link.Base.Dict.{Dict, lookup, lookup_or, insert, lookup-insert}
use sentry_link.Errors.{Failure, Result, ok, err}
use sentry_link.Floats.{Floats}
use sentry_link.Crypto.SecureAggregation.{KeyAgreement}
use sentry_link.Governance.Audit.{genesis, tip}
use sentry_link.Storage.Codec.{Formats}
use sentry_link.Storage.Memory.{PersistedState, Op, apply_op}
use sentry_link.Storage.Rows.{find_row}
use sentry_link.Storage.Contents.{Contents, write, perform}

pub lookup_or-insert :
    {V : Type 0} (k j : String) (v : List V) (d : Dict String (List V))
    → write k v (λ i. lookup_or i [] d) j ≡ lookup_or j [] (insert k v d)
lookup_or-insert k j v d = sym (
    ap (λ o. elim o [ none ↦ [] | some w ↦ w ]) (lookup-insert k j v d)
    ∙ apply_if (λ o. elim o [ none ↦ [] | some w ↦ w ]) (j == k) (some v) (lookup j d))

module _ (fl : Floats) (formats : Formats fl) (ka : KeyAgreement) (P : Type 0) where
  abbrev State : Type 0
  State = PersistedState fl formats ka P

  abbrev Write : Type 0
  Write = Op fl formats ka P

  unfoldable pub contents_of : State → Contents fl formats ka P
  contents_of s = record {
    org = λ k. find_row (λ o. o.org_id) k s.orgs;
    policy = λ k. lookup k s.policies;
    budget = s.budget;
    server = λ k. lookup k s.servers;
    rounds = λ k. lookup_or k [] s.rounds;
    audit = s.audit;
  }

  -- A write is refused by both, or done by both with the same effect.
  abbrev Agrees : Write → State → Type 0
  Agrees op s =
      let run = apply_op fl formats ka P op (tip genesis s.audit) s in
      let abstract_run = perform fl formats ka P op (contents_of s) in
      ((f : Failure) × (run ≡ err f) × (abstract_run ≡ err f))
      ⊎ ((s' : State) × (run ≡ ok (tip genesis s'.audit, s'))
          × (abstract_run ≡ ok (contents_of s')))

  -- The contents after a bundle that was committed, or what it raised.
  abbrev pub outcome : State × Option Failure → Result (Contents fl formats ka P)
  outcome (s, none) = ok (contents_of s)
  outcome (s, some f) = err f
