-- ===== src/Platform/Timeline.antt =====
-- `AuditLog.timeline` of sentrylink/governance/audit.py over the platform's entries. What Python
-- prints of a number and of a value are arguments.
use Prim.Native.String.{◌++◌ as text_append}
use text.Mathlib.Text.{starts_with}
use sentry_link.Base.{
  ℕ, String, ◌==◌, text_eq, nat_eq, List, [], ◌∷◌, ◌++◌, length, drop, ◌+◌, ◌-◌, Option, none, some,
  if◌then◌else◌,
}
use sentry_link.Base.Int.{ℤ, pos, negsuc}
use sentry_link.Base.Dict.{Dict, lookup}
use sentry_link.Floats.{Floats}
use sentry_link.Crypto.SecureAggregation.{KeyAgreement}
use sentry_link.Governance.Audit.{AuditEntry, AuditLog}
use sentry_link.Storage.Codec.{Formats}
use sentry_link.Platform.{Detail, Entry}

-- `entries[-limit:]`, which is the whole list for the limit 0.
unfoldable pub last_entries : {A : Type 0} → ℤ → List A → List A
last_entries (pos limit) entries =
    if limit == 0 then entries else drop (length entries - limit) entries
last_entries (negsuc n) entries = drop (n + 1) entries

-- The stage of an action, by its prefix.
unfoldable pub stage_of : String → String
stage_of action =
    if starts_with action "org."
    then "governance"
    else if starts_with action "consent."
    then "governance"
    else if starts_with action "query."
    then "release"
    else if starts_with action "federated."
    then "model_release"
    else "other"

-- `" ".join(parts)`
unfoldable pub join_parts : String → List String → String
join_parts part [] = part
join_parts part (next ∷ parts) = text_append part (text_append " " (join_parts next parts))

module _ (fl : Floats) (formats : Formats fl) (ka : KeyAgreement) (show_length : ℕ → String)
    (show_detail : Detail fl.Float → String) where
  -- An item of the timeline.
  pub record Item : Type 0 where
    pub seq : ℕ
    pub stage : String
    pub action : String
    pub ts : fl.Float
    pub summary : String

  -- The length of a detail that is a list.
  unfoldable pub length_part : String → Option (Detail fl.Float) → List String
  length_part label (some (Detail.names xs)) = text_append label (show_length (length xs)) ∷ []
  length_part label _ = []

  -- The values of the details that are shown, in the order of their keys.
  unfoldable pub value_parts : List String → Dict String (Detail fl.Float) → List String
  value_parts [] details = []
  value_parts (key ∷ keys) details =
      let rest = value_parts keys details in
      elim (lookup key details) [
        | none ↦ rest
        | some d ↦ text_append key (text_append "=" (show_detail d)) ∷ rest
      ]

  unfoldable pub summary_of : String → Dict String (Detail fl.Float) → String
  unfolding length_part value_parts join_parts
  summary_of action details =
      let parts =
        length_part "n=" (lookup "participants" details)
        ++ value_parts ("epsilon" ∷ "delta" ∷ "round_id" ∷ "name" ∷ "domain" ∷ "buckets" ∷ [])
            details
        ++ length_part "dropped=" (lookup "dropped" details) in
      elim parts [ [] ↦ action | part ∷ others ↦ join_parts part others ]

  -- The loop of `timeline`, from a number of entries on.
  unfoldable pub items_from : ℕ → List (AuditEntry String (Entry fl formats ka)) → List Item
  unfolding stage_of summary_of
  items_from seq [] = []
  items_from seq (e ∷ entries) =
      record {
        seq = seq;
        stage = stage_of e.payload.action;
        action = e.payload.action;
        ts = e.payload.ts;
        summary = summary_of e.payload.action e.payload.details;
      }
      ∷ items_from (seq + 1) entries

  unfoldable pub timeline : AuditLog String (Entry fl formats ka) → ℤ → List Item
  unfolding last_entries items_from
  timeline log limit =
      let tail = last_entries limit log.entries in
      items_from (length log.entries - length tail) tail
