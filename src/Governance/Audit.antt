-- ===== src/Governance/Audit.antt =====
-- sentrylink/governance/audit.py. SHA-256 of the JSON text is a parameter; the drawn id and the time
-- of an entry are part of its payload.
pub mod Chain
use sentry_link.Base.{
  ℕ, String, ◌==◌, Eq, text_eq, Bool, true, false, ◌&&◌, List, [], ◌∷◌, ◌++◌, map, filter, last_or,
  if◌then◌else◌,
}

-- The payload of an entry: its id, time, action and details.
pub record Payload (Time Details : Type 0) : Type 0 where
  pub id : String
  pub ts : Time
  pub action : String
  pub details : Details

-- A payload with the hash of the entry before it and its own.
pub record AuditEntry (Digest P : Type 0) : Type 0 where
  pub payload : P
  pub prev_hash : Digest
  pub hash : Digest

pub record AuditLog (Digest P : Type 0) : Type 0 where
  pub entries : List (AuditEntry Digest P)
  pub prev_hash : Digest

-- `"0" * 64`
abbrev pub genesis : String
genesis = "0000000000000000000000000000000000000000000000000000000000000000"

module _ {Digest P : Type 0} (entry_hash : Digest → P → Digest) where
  -- `AuditLog.record`
  unfoldable pub record_entry : AuditLog Digest P → P → AuditEntry Digest P × AuditLog Digest P
  record_entry log payload =
      let h = entry_hash log.prev_hash payload in
      let entry : AuditEntry Digest P = record {
        payload = payload;
        prev_hash = log.prev_hash;
        hash = h;
      } in
      (entry, record { entries = log.entries ++ entry ∷ []; prev_hash = h })

  module _ ⦃e : Eq Digest⦄ where
    -- The loop of `verify_chain` from the hash before its first entry.
    unfoldable pub verify_from : Digest → List (AuditEntry Digest P) → Bool
    verify_from prev [] = true
    verify_from prev (x ∷ xs) =
        x.hash == entry_hash prev x.payload && x.prev_hash == prev && verify_from x.hash xs

    unfoldable pub verify_chain : Digest → AuditLog Digest P → Bool
    unfolding verify_from
    verify_chain start log = verify_from start log.entries

module _ {Digest P : Type 0} where
  -- The hash of the last entry, or the one that a chain starts from.
  unfoldable pub tip : Digest → List (AuditEntry Digest P) → Digest
  tip start entries = last_or start (map (λ x. x.hash) entries)

  unfoldable pub restore : Digest → List (AuditEntry Digest P) → AuditLog Digest P
  unfolding tip
  restore start entries = record { entries = entries; prev_hash = tip start entries }

module _ {Digest Time Details : Type 0} where
  unfoldable pub by_action :
      String
      → AuditLog Digest (Payload Time Details)
      → List (AuditEntry Digest (Payload Time Details))
  by_action action log = filter (λ x. x.payload.action == action) log.entries
