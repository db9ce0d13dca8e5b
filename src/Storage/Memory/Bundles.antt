-- ===== src/Storage/Memory/Bundles.antt =====
-- Bundles of writes that compete for the end of the audit log.
use sentry_link.Base.{
  String, ◌==◌, text_eq, beq-false, Bool, true, false, ◌&&◌, Bool-cases, inl, inr, List, [], ◌∷◌,
  ◌++◌, Option, none, some, All, ◌≡◌, ◌≢◌, ◌⊎◌, refl, sym, ap, ◌∙◌, arith,
}
use sentry_link.Base.Dict.{lookup, insert}
use sentry_link.Errors.{Failure, ok, err}
use sentry_link.Floats.{Floats}
use sentry_link.Crypto.SecureAggregation.{KeyAgreement}
use sentry_link.Governance.Audit.{AuditEntry, genesis, tip}
use sentry_link.Storage.Codec.{Formats, RawBudget}
use sentry_link.Storage.Memory.{
  PersistedState, Op, apply_op, apply_ops, commit, merge_events, stored_budget, server_moved,
}

module _ (fl : Floats) (formats : Formats fl) (ka : KeyAgreement) (P : Type 0) where
  abbrev State : Type 0
  State = PersistedState fl formats ka P

  abbrev Write : Type 0
  Write = Op fl formats ka P

  abbrev pub is_audit : Write → Bool
  is_audit (Op.append_audit entry expect_prev) = true
  is_audit _ = false

  pub stored_budget-cases :
      (cur : Option (RawBudget fl formats)) (raw : RawBudget fl formats)
      (expect : fl.Float × fl.Float)
      → (stored_budget fl formats ka P cur raw expect ≡ err Failure.concurrent_write)
        ⊎ ((b : RawBudget fl formats) × (stored_budget fl formats ka P cur raw expect ≡ ok b))
  unfolding stored_budget
  stored_budget-cases none raw expect = inr (raw, refl)
  stored_budget-cases (some cur) raw expect =
      elim (Bool-cases (fl.eq cur.spent.0 expect.0 && fl.eq cur.spent.1 expect.1)) [
        | inl t ↦ inr (record raw { events = merge_events fl cur.events raw.events }, rw t refl)
        | inr t ↦ inl (rw t refl)
      ]

  -- What a write that appends no entry does to the log.
  apply_op-quiet :
      (op : Write) (last : String) (s : State)
      → is_audit op ≡ false
      → (apply_op fl formats ka P op last s ≡ err Failure.concurrent_write)
        ⊎ ((s' : State) × (apply_op fl formats ka P op last s ≡ ok (last, s'))
            × (s'.audit ≡ s.audit))
  unfolding apply_op
  apply_op-quiet (Op.save_org org) last s h = inr (_, refl, refl)
  apply_op-quiet (Op.save_policy i q) last s h = inr (_, refl, refl)
  apply_op-quiet (Op.save_budget raw expect) last s h =
      elim (stored_budget-cases s.budget raw expect) [
        | inl e ↦ inl (rw e refl)
        | inr (b, e) ↦ inr (record s { budget = some b }, rw e refl, refl)
      ]
  apply_op-quiet (Op.save_server raw n) last s h =
      elim (Bool-cases (server_moved fl formats ka P (lookup raw.key s.servers) n)) [
        | inl t ↦ inl (rw t refl)
        | inr t ↦ inr (record s { servers = insert raw.key raw s.servers }, rw t refl, refl)
      ]
  apply_op-quiet (Op.append_round key round) last s h = inr (_, refl, refl)
  apply_op-quiet (Op.append_audit entry expect_prev) last s h = cc

  -- Writes that append no entry, then one entry over the hash that was last when it was made.
  abbrev pub bundle : List Write → AuditEntry String P → String → List Write
  bundle writes entry prev = writes ++ Op.append_audit entry prev ∷ []

  pub apply_ops-ok :
      (op : Write) (ops : List Write) (last last' : String) (s s' : State)
      → apply_op fl formats ka P op last s ≡ ok (last', s')
      → apply_ops fl formats ka P (op ∷ ops) last s ≡ apply_ops fl formats ka P ops last' s'
  unfolding apply_ops
  apply_ops-ok op ops last last' s s' e = rw (apply_ops, e) refl

  pub apply_ops-err :
      (op : Write) (ops : List Write) (last : String) (s : State) (f : Failure)
      → apply_op fl formats ka P op last s ≡ err f
      → apply_ops fl formats ka P (op ∷ ops) last s ≡ (s, some f)
  unfolding apply_ops
  apply_ops-err op ops last s f e = rw (apply_ops, e) refl

  audit-moved :
      (entry : AuditEntry String P) (prev last : String) (s : State)
      → last ≢ prev
      → apply_op fl formats ka P (Op.append_audit entry prev) last s ≡ err Failure.concurrent_write
  unfolding apply_op
  audit-moved entry prev last s moved = rw (beq-false last prev moved) refl

  stale :
      (writes : List Write) (entry : AuditEntry String P) (prev last : String) (s : State)
      → All (λ w. is_audit w ≡ false) writes
      → last ≢ prev
      → (apply_ops fl formats ka P (bundle writes entry prev) last s).1
        ≡ some Failure.concurrent_write
  stale [] entry prev last s quiet moved =
      ap (λ r. r.1) (apply_ops-err _ [] last s _ (audit-moved entry prev last s moved))
  stale (w ∷ writes) entry prev last s quiet moved = elim (apply_op-quiet w last s quiet.0) [
    | inl e ↦ ap (λ r. r.1) (apply_ops-err w (bundle writes entry prev) last s _ e)
    | inr (s', e, same) ↦
        ap (λ r. r.1) (apply_ops-ok w (bundle writes entry prev) last last s s' e)
        ∙ stale writes entry prev last s' quiet.1 moved
  ]

  pub appended :
      (entry : AuditEntry String P) (prev last : String) (s : State)
      → last ≡ prev
      → apply_ops fl formats ka P (bundle [] entry prev) last s
        ≡ (record s { audit = s.audit ++ entry ∷ [] }, none)
  unfolding apply_ops apply_op
  appended entry prev last s same =
      rw (apply_ops, apply_op, (text_eq.beq_iff last prev).1 same) refl

  -- The end of the log after the entry of a bundle that was committed.
  committed :
      (writes : List Write) (entry : AuditEntry String P) (prev last : String) (s : State)
      → All (λ w. is_audit w ≡ false) writes
      → (apply_ops fl formats ka P (bundle writes entry prev) last s).1 ≡ none
      → (let after = (apply_ops fl formats ka P (bundle writes entry prev) last s).0 in
          (last ≡ prev) × (after.audit ≡ s.audit ++ entry ∷ []))
  committed [] entry prev last s quiet done = elim (Bool-cases (last == prev)) [
    | inl t ↦
        let same = (text_eq.beq_iff last prev).0 t in
        (same, ap (λ r. r.0.audit) (appended entry prev last s same))
    | inr t ↦
        let moved : last ≢ prev = λ p. ground (arith, t, text_eq.beq_iff last prev, p) in
        cc (stale [] entry prev last s tt moved, done)
  ]
  committed (w ∷ writes) entry prev last s quiet done = elim (apply_op-quiet w last s quiet.0) [
    | inl e ↦ cc (apply_ops-err w (bundle writes entry prev) last s _ e, done)
    | inr (s', e, same) ↦
        let step = apply_ops-ok w (bundle writes entry prev) last last s s' e in
        let (at, log) =
          committed writes entry prev last s' quiet.1 (sym (ap (λ r. r.1) step) ∙ done) in
        (at, ap (λ r. r.0.audit) step ∙ log ∙ ap (λ a. a ++ entry ∷ []) same)
  ]

  pub tip-append :
      (start : String) (xs : List (AuditEntry String P)) (y : AuditEntry String P)
      → tip start (xs ++ y ∷ []) ≡ y.hash
  unfolding tip
  tip-append start [] y = refl
  tip-append start (x ∷ xs) y = tip-append x.hash xs y

  -- A bundle whose one log entry stands at its end is committed only if the log still ends in the
  -- hash that the entry was made over, and the entry is then appended to the log.
  pub commit-appends :
      (writes : List Write) (entry : AuditEntry String P) (prev : String) (s : State)
      → All (λ w. is_audit w ≡ false) writes
      → (commit fl formats ka P (bundle writes entry prev) s).1 ≡ none
      → (tip genesis s.audit ≡ prev)
        × ((commit fl formats ka P (bundle writes entry prev) s).0.audit ≡ s.audit ++ entry ∷ [])
  unfolding commit
  commit-appends writes entry prev s quiet done =
      committed writes entry prev (tip genesis s.audit) s quiet done

  -- Of two such bundles that were made over the same hash, the second is refused as a concurrent
  -- write once the first is committed, whatever else they write, if the first entry's hash is a new
  -- one.
  pub commit-serial :
      (writes writes' : List Write) (entry entry' : AuditEntry String P) (prev : String) (s : State)
      → All (λ w. is_audit w ≡ false) writes
      → All (λ w. is_audit w ≡ false) writes'
      → entry.hash ≢ prev
      → (commit fl formats ka P (bundle writes entry prev) s).1 ≡ none
      → (commit fl formats ka P
          (bundle writes' entry' prev)
          (commit fl formats ka P (bundle writes entry prev) s).0).1
        ≡ some Failure.concurrent_write
  unfolding commit
  commit-serial writes writes' entry entry' prev s quiet quiet' new done =
      let (at, log) = commit-appends writes entry prev s quiet done in
      let last = ap (tip genesis) log ∙ tip-append genesis s.audit entry in
      stale writes' entry' prev _ _ quiet' (λ p. new (sym last ∙ p))
