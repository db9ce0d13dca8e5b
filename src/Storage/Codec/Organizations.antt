-- ===== src/Storage/Codec/Organizations.antt =====
-- Organizations after a restart.
use sentry_link.Base.{
  String, is_ascii, text_eq, beq_refl, true, Bool-cases, inl, inr, ◌≡◌, refl, if◌then◌else◌,
}
use sentry_link.Errors.{ok}
use sentry_link.Governance.Registry.{Organization, KeyHash, is_set, verify_key}
use sentry_link.Storage.Codec.{encode_org, decode_org}

module _ (hash : KeyHash) (filled : (key salt : String) → is_set (hash key salt) ≡ true)
    (plain : (key salt : String) → is_ascii (hash key salt) ≡ true) where
  -- The salt that a key of the organization is hashed with.
  abbrev pub salt_of : Organization → String
  salt_of o = if is_set o.key_salt then o.key_salt else o.org_id

  -- The salt of the persisted form is the same one.
  salt-kept : (o : Organization) → (if is_set (salt_of o) then salt_of o else o.org_id) ≡ salt_of o
  salt-kept o = elim (Bool-cases (is_set o.key_salt)) [
    | inl t ↦ rw (t, t) refl
    | inr t ↦ rw t (elim (Bool-cases (is_set o.org_id)) [ inl u ↦ rw u refl | inr u ↦ rw u refl ])
  ]

  -- An organization that has an API key, and whose stored hash, if any, is that key's, is read back
  -- from its persisted form without the plain key, and still authenticates with it. A hash is an
  -- ASCII text that is never empty.
  pub decode_org-verify_key :
      (o : Organization)
      → is_set o.api_key ≡ true
      → (is_set o.api_key_hash ≡ true → o.api_key_hash ≡ hash o.api_key (salt_of o))
      → ((decode_org (encode_org hash o)).api_key ≡ "")
        × (verify_key hash (decode_org (encode_org hash o)) o.api_key ≡ ok true)
  unfolding decode_org encode_org verify_key
  decode_org-verify_key o has_key keyed = (
    refl,
    elim (Bool-cases (is_set o.api_key_hash)) [
      | inl t ↦
          rw (t, t, keyed t, plain o.api_key (salt_of o), beq_refl (hash o.api_key (salt_of o)))
            refl
      | inr t ↦
          rw
            (
              t,
              has_key,
              salt-kept o,
              filled o.api_key (salt_of o),
              plain o.api_key (salt_of o),
              beq_refl (hash o.api_key (salt_of o)),
            )
            refl
    ],
  )
