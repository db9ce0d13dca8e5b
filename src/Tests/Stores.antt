-- ===== src/Tests/Stores.antt =====
-- Audit logs, persisted forms and bundles.
use sentry_link.Base.{
  ℕ, String, nat_eq, text_eq, true, false, none, some, List, [], ◌∷◌, ◌++◌, mem, map, All, ◌≡◌,
  refl,
}
use sentry_link.Base.Int.{pos}
use sentry_link.Errors.{Failure, ok}
use sentry_link.Floats.Fixed.{fixed}
use sentry_link.Crypto.DifferentialPrivacy.Accountant.{Event}
use sentry_link.Federated.Model.{LogisticModel}
use sentry_link.Federated.Server.{FederatedServer}
use sentry_link.Governance.Audit.{AuditEntry, AuditLog, record_entry, verify_chain, tip, genesis}
use sentry_link.Governance.Audit.Chain.{
  IsChained, record_entry-IsChained, verify_chain-same_entries,
}
use sentry_link.Governance.Registry.{Organization, KeyHash, verify_key}
use sentry_link.Storage.Codec.{encode_org, decode_org, encode_server, decode_server}
use sentry_link.Storage.Codec.Organizations.{decode_org-verify_key}
use sentry_link.Storage.Codec.Servers.{decode_server-encode_server}
use sentry_link.Storage.Memory.{Op, PersistedState, empty_state, merge_events, commit}
use sentry_link.Storage.Memory.Merge.{merge_events-ids}
use sentry_link.Storage.Memory.Bundles.{bundle, commit-serial}
use sentry_link.Tests.Toys.{toy, list_eq, chain_hash, chain_hash-injective}
use sentry_link.Tests.Budgets.{plain, fresh}

abbrev log : AuditLog (List ℕ) ℕ
log = record {
  entries = record { payload = 5; prev_hash = []; hash = 5 ∷ [] } ∷ [];
  prev_hash = 5 ∷ [];
}

log-IsChained : IsChained chain_hash [] log
unfolding verify_chain tip
log-IsChained = record { verified = refl; continues = refl }

record_entry-IsChained_example :
    (let (entry, after) = record_entry chain_hash log 7 in
      IsChained chain_hash [] after
      × (after.entries ≡ log.entries ++ entry ∷ [])
      × (entry.payload ≡ 7)
      × (entry.prev_hash ≡ tip [] log.entries))
record_entry-IsChained_example = record_entry-IsChained chain_hash [] log 7 log-IsChained

verify_chain-same_entries_example : log.entries ≡ log.entries
unfolding verify_chain
verify_chain-same_entries_example =
    verify_chain-same_entries chain_hash chain_hash-injective [] log log refl refl refl refl

abbrev model : LogisticModel fixed
model = record { dim = 1; weights = fixed.of_int (pos 2) ∷ []; bias = fixed.of_int (pos 3) }

abbrev server : FederatedServer toy fixed
server = record { dim = 1; model = model; history = [] }

decode_server-encode_server_example :
    decode_server fixed plain toy (encode_server fixed plain toy "k" server) [] ≡ ok server
decode_server-encode_server_example =
    decode_server-encode_server fixed plain toy (λ v. refl) "k" server
      (record { same_dim = refl; all_weights = refl }) tt

abbrev salted : KeyHash
salted key salt = "digest"

abbrev shop : Organization
shop = record {
  org_id = "a";
  name = "shop";
  domain = "retail";
  sector_group = "eu";
  api_key = "k";
  active = true;
  api_key_hash = "digest";
  key_salt = "s";
}

decode_org-verify_key_example :
    ((decode_org (encode_org salted shop)).api_key ≡ "")
    × (verify_key salted (decode_org (encode_org salted shop)) "k" ≡ ok true)
decode_org-verify_key_example =
    decode_org-verify_key salted (λ key salt. refl) (λ key salt. refl) shop refl (λ h. refl)

abbrev event : String → Event fixed
event id = record {
  id = id;
  ts = fixed.decimal 0 0;
  purpose = "p";
  subject = "s";
  epsilon_cost = fixed.decimal 1 0;
  delta_cost = fixed.decimal 0 0;
  spent_epsilon = fixed.decimal 1 0;
  spent_delta = fixed.decimal 0 0;
  rdp_tracked = false;
  ledger = none;
  budget_before = fresh.spent;
  budget_after = fresh.spent;
}

merge_events-ids_example :
    (let merged = merge_events fixed (event "a" ∷ []) (event "a" ∷ event "b" ∷ []) in
      All (λ e. mem e.id (map (λ x. x.id) merged) ≡ true) (event "a" ∷ [])
      × All (λ e. mem e.id (map (λ x. x.id) merged) ≡ true) (event "a" ∷ event "b" ∷ []))
merge_events-ids_example = merge_events-ids fixed (event "a" ∷ []) (event "a" ∷ event "b" ∷ [])

abbrev pub entry : String → AuditEntry String ℕ
entry hash = record { payload = 1; prev_hash = genesis; hash = hash }

abbrev pub nothing : PersistedState fixed plain toy ℕ
nothing = empty_state fixed plain toy ℕ

abbrev pub first_bundle : List (Op fixed plain toy ℕ)
first_bundle =
    Op.save_policy "a" (record {
      allowed_metrics = [];
      min_participants = 3;
      max_epsilon_per_query = fixed.decimal 1 0;
      purpose = "p";
    })
    ∷ []

commit-serial_example :
    (commit fixed plain toy ℕ
      (bundle fixed plain toy ℕ [] (entry "y") genesis)
      (commit fixed plain toy ℕ
        (bundle fixed plain toy ℕ first_bundle (entry "x") genesis)
        nothing).0).1
    ≡ some Failure.concurrent_write
unfolding commit
commit-serial_example =
    commit-serial fixed plain toy ℕ first_bundle [] (entry "x") (entry "y") genesis nothing
      (refl, tt) tt (λ p. cc) refl
