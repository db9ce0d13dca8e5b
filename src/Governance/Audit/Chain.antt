-- ===== src/Governance/Audit/Chain.antt =====
-- The hash chain of the audit log: growth, recovery and tamper evidence.
use sentry_link.Base.{
  Eq, text_eq, true, List, [], ◌∷◌, ◌++◌, length, ◌≡◌, refl, sym, ◌∙◌, arith, beq_refl,
}
use sentry_link.Governance.Audit.{
  AuditEntry, AuditLog, record_entry, verify_from, verify_chain, tip, restore,
}

module _ {Digest P : Type 0} ⦃e : Eq Digest⦄ (entry_hash : Digest → P → Digest)
    (start : Digest) where
  -- A log that verifies, and continues from its last entry.
  pub record IsChained (log : AuditLog Digest P) : Type 0 where
    pub verified : verify_chain entry_hash start log ≡ true
    pub continues : log.prev_hash ≡ tip start log.entries

  verify_from-append :
      (prev : Digest) (xs : List (AuditEntry Digest P)) (payload : P)
      → verify_from entry_hash prev xs ≡ true
      → (let before = tip prev xs in
          verify_from entry_hash prev (
            xs
            ++ record { payload = payload; prev_hash = before; hash = entry_hash before payload }
              ∷ [])
          ≡ true)
  unfolding verify_from tip
  verify_from-append prev [] payload h =
      ground (arith, beq_refl prev, beq_refl (entry_hash prev payload))
  verify_from-append prev (x ∷ xs) payload h = ground (arith, verify_from-append x.hash xs payload)

  tip-append :
      (prev : Digest) (xs : List (AuditEntry Digest P)) (y : AuditEntry Digest P)
      → tip prev (xs ++ y ∷ []) ≡ y.hash
  unfolding tip
  tip-append prev [] y = refl
  tip-append prev (x ∷ xs) y = tip-append x.hash xs y

  -- Recording a payload in a chained log gives a chained log, whose new last entry carries the payload
  -- and the hash that was last before.
  pub record_entry-IsChained :
      (log : AuditLog Digest P) (payload : P)
      → IsChained log
      → (let (entry, after) = record_entry entry_hash log payload in
          IsChained after
          × (after.entries ≡ log.entries ++ entry ∷ [])
          × (entry.payload ≡ payload)
          × (entry.prev_hash ≡ tip start log.entries))
  unfolding record_entry verify_chain
  record_entry-IsChained log payload h = (
    record {
      verified = rw h.continues (verify_from-append start log.entries payload h.verified);
      continues = sym (tip-append start log.entries _);
    },
    refl,
    refl,
    h.continues,
  )

  -- A log that is restored from the entries of a chained log is that log.
  pub restore-IsChained :
      (log : AuditLog Digest P) → IsChained log → restore start log.entries ≡ log
  unfolding restore
  restore-IsChained log h = λ i. record { entries = log.entries; prev_hash = sym h.continues i }

module _ {Digest P : Type 0} ⦃e : Eq Digest⦄ (entry_hash : Digest → P → Digest)
    (injective : (p q : Digest) (x y : P)
      → entry_hash p x ≡ entry_hash q y
      → (p ≡ q) × (x ≡ y)) where
  verify_from-cons :
      (p : Digest) (x : AuditEntry Digest P) (xs : List (AuditEntry Digest P))
      → verify_from entry_hash p (x ∷ xs) ≡ true
      → (x.hash ≡ entry_hash p x.payload)
        × (x.prev_hash ≡ p)
        × (verify_from entry_hash x.hash xs ≡ true)
  unfolding verify_from
  verify_from-cons p x xs h =
      ground (arith, e.beq_iff x.hash (entry_hash p x.payload), e.beq_iff x.prev_hash p)

  same_entries :
      (p q : Digest) (xs ys : List (AuditEntry Digest P))
      → length xs ≡ length ys
      → verify_from entry_hash p xs ≡ true
      → verify_from entry_hash q ys ≡ true
      → tip p xs ≡ tip q ys
      → (p ≡ q) × (xs ≡ ys)
  unfolding tip
  same_entries p q [] [] len hx hy same = (same, refl)
  same_entries p q [] (y ∷ ys) len hx hy same = ground (arith, len)
  same_entries p q (x ∷ xs) [] len hx hy same = ground (arith, len)
  same_entries p q (x ∷ xs) (y ∷ ys) len hx hy same =
      let (x_hash, x_prev, x_rest) = verify_from-cons p x xs hx in
      let (y_hash, y_prev, y_rest) = verify_from-cons q y ys hy in
      let (ends, rest) = same_entries x.hash y.hash xs ys (omega (arith, len)) x_rest y_rest same in
      let (starts, payloads) = injective p q x.payload y.payload (sym x_hash ∙ ends ∙ y_hash) in
      (
        starts,
        λ i.
            record {
              payload = payloads i;
              prev_hash = (x_prev ∙ starts ∙ sym y_prev) i;
              hash = ends i;
            }
            ∷ rest i,
      )

  -- If no two inputs have one hash, two logs that verify, have as many entries and end in the same hash
  -- have the same entries: no entry can be altered under a known last hash.
  pub verify_chain-same_entries :
      (start : Digest) (xs ys : AuditLog Digest P)
      → length xs.entries ≡ length ys.entries
      → verify_chain entry_hash start xs ≡ true
      → verify_chain entry_hash start ys ≡ true
      → tip start xs.entries ≡ tip start ys.entries
      → xs.entries ≡ ys.entries
  unfolding verify_chain
  verify_chain-same_entries start xs ys len hx hy same =
      (same_entries start start xs.entries ys.entries len hx hy same).1
