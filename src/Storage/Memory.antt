-- ===== src/Storage/Memory.antt =====
-- The in-memory store of sentrylink/storage/store.py: a bundle of writes is collected by its
-- transaction and applied on exit. The copies are left out, since nothing here is shared. Two NaNs,
-- which Python compares by identity inside a tuple, are different here.
pub mod Bundles
pub mod Merge
pub mod Budgets
use sentry_link.Base.{
  ℕ, String, ◌==◌, text_eq, nat_eq, mem, Bool, true, false, not, ◌&&◌, List, [], ◌∷◌, ◌++◌, map,
  filter, length, Option, none, some, if◌then◌else◌,
}
use sentry_link.Base.Dict.{Dict, lookup, lookup_or, insert}
use sentry_link.Errors.{Failure, Result, ok, err, ◌>>=◌, ◌>>◌, raise_if}
use sentry_link.Floats.{Floats}
use sentry_link.Crypto.SecureAggregation.{KeyAgreement}
use sentry_link.Crypto.DifferentialPrivacy.Accountant.{Event}
use sentry_link.Governance.Audit.{AuditEntry, genesis, tip}
use sentry_link.Storage.Codec.{RawOrg, RawPolicy, RawBudget, RawServer, RawRound, Formats}

module _ (fl : Floats) where
  -- `_merge_events`
  unfoldable pub merge_events : List (Event fl) → List (Event fl) → List (Event fl)
  merge_events existing incoming =
      existing ++ filter (λ e. not (mem e.id (map (λ x. x.id) existing))) incoming

  module _ (formats : Formats fl) (ka : KeyAgreement) (P : Type 0) where
    pub record PersistedState : Type 0 where
      pub orgs : List RawOrg
      pub policies : Dict String (RawPolicy fl)
      pub budget : Option (RawBudget fl formats)
      pub servers : Dict String (RawServer fl formats)
      pub rounds : Dict String (List (RawRound fl formats ka))
      pub audit : List (AuditEntry String P)

    abbrev pub empty_state : PersistedState
    empty_state = record {
      orgs = [];
      policies = [];
      budget = none;
      servers = [];
      rounds = [];
      audit = [];
    }

    -- `PersistedState.is_empty`
    unfoldable pub is_empty : PersistedState → Bool
    is_empty s =
        length s.orgs == 0
        && (elim s.budget [ none ↦ true | some _ ↦ false ])
        && length s.audit == 0
        && length s.servers == 0
        && length s.rounds == 0

    -- The writes that a transaction collects.
    pub data Op : Type 0 where
      save_org : RawOrg → Op
      save_policy : String → RawPolicy fl → Op
      save_budget : RawBudget fl formats → fl.Float × fl.Float → Op
      save_server : RawServer fl formats → ℕ → Op
      append_round : String → RawRound fl formats ka → Op
      append_audit : AuditEntry String P → String → Op

    -- The budget that is stored over the current one.
    unfoldable pub stored_budget :
        Option (RawBudget fl formats)
        → RawBudget fl formats
        → fl.Float × fl.Float
        → Result (RawBudget fl formats)
    unfolding merge_events
    stored_budget none raw expect = ok raw
    stored_budget (some cur) raw expect = do
      raise_if (not (fl.eq cur.spent.0 expect.0 && fl.eq cur.spent.1 expect.1))
          Failure.concurrent_write
      ok (record raw { events = merge_events cur.events raw.events })

    -- Whether the stored server is not the one that was read.
    unfoldable pub server_moved : Option (RawServer fl formats) → ℕ → Bool
    server_moved none expect_rounds = false
    server_moved (some cur) expect_rounds = not (cur.rounds == expect_rounds)

    -- One step of `_apply` on the hash that it tracks and the state.
    unfoldable pub apply_op : Op → String → PersistedState → Result (String × PersistedState)
    unfolding stored_budget server_moved
    apply_op (Op.save_org org) last s =
        ok (last, record s { orgs = filter (λ o. not (o.org_id == org.org_id)) s.orgs ++ org ∷ [] })
    apply_op (Op.save_policy org_id policy) last s =
        ok (last, record s { policies = insert org_id policy s.policies })
    apply_op (Op.save_budget raw expect) last s = do
      budget ← stored_budget s.budget raw expect
      ok (last, record s { budget = some budget })
    apply_op (Op.save_server raw expect_rounds) last s = do
      raise_if (server_moved (lookup raw.key s.servers) expect_rounds) Failure.concurrent_write
      ok (last, record s { servers = insert raw.key raw s.servers })
    apply_op (Op.append_round key round) last s =
        ok (
          last,
          record s { rounds = insert key (lookup_or key [] s.rounds ++ round ∷ []) s.rounds },
        )
    apply_op (Op.append_audit entry expect_prev) last s = do
      raise_if (not (last == expect_prev)) Failure.concurrent_write
      ok (entry.hash, record s { audit = s.audit ++ entry ∷ [] })

    -- The loop of `_apply`: the state it leaves and what it raises, if anything.
    unfoldable pub apply_ops : List Op → String → PersistedState → PersistedState × Option Failure
    unfolding apply_op
    apply_ops [] last s = (s, none)
    apply_ops (op ∷ ops) last s = elim (apply_op op last s) [
      | ok (last', s') ↦ apply_ops ops last' s'
      | err f ↦ (s, some f)
    ]

    -- `__exit__` of a transaction whose body raised nothing.
    unfoldable pub commit : List Op → PersistedState → PersistedState × Option Failure
    unfolding apply_ops tip
    commit ops s = apply_ops ops (tip genesis s.audit) s

    -- `InMemoryStateStore.load`
    unfoldable pub load : PersistedState → Option PersistedState
    unfolding is_empty
    load s = if is_empty s then none else some s
