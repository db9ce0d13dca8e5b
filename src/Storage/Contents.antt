-- ===== src/Storage/Contents.antt =====
-- What a store of sentrylink/storage/store.py (StoreTx) promises, apart from how it keeps its rows: its
-- contents as functions of the keys, and a bundle of writes on them.
pub mod InMemory
use sentry_link.Base.{
  ℕ, String, ◌==◌, text_eq, nat_eq, Bool, true, false, not, ◌&&◌, List, [], ◌∷◌, ◌++◌, Option, none,
  some, if◌then◌else◌,
}
use sentry_link.Base.Dict.{Dict}
use sentry_link.Errors.{Failure, Result, ok, err, ◌>>=◌, ◌>>◌, raise_if}
use sentry_link.Floats.{Floats}
use sentry_link.Crypto.SecureAggregation.{KeyAgreement}
use sentry_link.Governance.Audit.{AuditEntry, genesis, tip}
use sentry_link.Storage.Codec.{RawOrg, RawPolicy, RawBudget, RawServer, RawRound, Formats}
use sentry_link.Storage.Memory.{Op, stored_budget, server_moved}

-- A function with the value at one key replaced.
abbrev pub write : {A : Type 0} → String → A → (String → A) → String → A
write k a f j = if j == k then a else f j

module _ (fl : Floats) (formats : Formats fl) (ka : KeyAgreement) (P : Type 0) where
  pub record Contents : Type 0 where
    pub org : String → Option RawOrg
    pub policy : String → Option (RawPolicy fl)
    pub budget : Option (RawBudget fl formats)
    pub server : String → Option (RawServer fl formats)
    pub rounds : String → List (RawRound fl formats ka)
    pub audit : List (AuditEntry String P)

  -- A write that is fresh, on the contents.
  unfoldable pub perform : Op fl formats ka P → Contents → Result Contents
  unfolding stored_budget server_moved tip
  perform (Op.save_org org) c = ok (record c { org = write org.org_id (some org) c.org })
  perform (Op.save_policy org_id policy) c =
      ok (record c { policy = write org_id (some policy) c.policy })
  perform (Op.save_budget raw expect) c = do
    budget ← stored_budget fl formats ka P c.budget raw expect
    ok (record c { budget = some budget })
  perform (Op.save_server raw expect_rounds) c = do
    raise_if (server_moved fl formats ka P (c.server raw.key) expect_rounds)
        Failure.concurrent_write
    ok (record c { server = write raw.key (some raw) c.server })
  perform (Op.append_round key round) c =
      ok (record c { rounds = write key (c.rounds key ++ round ∷ []) c.rounds })
  perform (Op.append_audit entry expect_prev) c = do
    raise_if (not (tip genesis c.audit == expect_prev)) Failure.concurrent_write
    ok (record c { audit = c.audit ++ entry ∷ [] })

  -- A bundle, which has an effect only as a whole.
  unfoldable pub perform_all : List (Op fl formats ka P) → Contents → Result Contents
  unfolding perform
  perform_all [] c = ok c
  perform_all (op ∷ ops) c = do c' ← perform op c; perform_all ops c'
