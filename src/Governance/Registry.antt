-- ===== src/Governance/Registry.antt =====
-- sentrylink/governance/registry.py. PBKDF2 is a parameter; fresh ids, keys and salts are arguments.
use sentry_link.Base.{
  ℕ, String, ◌==◌, text_eq, is_ascii, Bool, true, false, not, ◌&&◌, Option, none, some, List,
  filter, if◌then◌else◌,
}
use sentry_link.Base.Dict.{Dict, lookup, contains, insert, values}
use sentry_link.Errors.{Failure, Result, ok, ◌>>=◌, ◌>>◌, raise_if, or_raise}
use sentry_link.Config.{min_participants}

pub record Organization : Type 0 where
  pub org_id : String
  pub name : String
  pub domain : String
  pub sector_group : String
  pub api_key : String
  pub active : Bool
  pub api_key_hash : String
  pub key_salt : String

-- `Organization.public`
pub record PublicOrg : Type 0 where
  pub org_id : String
  pub name : String
  pub domain : String
  pub sector_group : String
  pub active : Bool

unfoldable pub public : Organization → PublicOrg
public o = record {
  org_id = o.org_id;
  name = o.name;
  domain = o.domain;
  sector_group = o.sector_group;
  active = o.active;
}

-- A text is true in a condition unless it is empty.
abbrev pub is_set : String → Bool
is_set s = not (s == "")

-- The hash of a key with a salt, as `hash_api_key` prints it.
abbrev pub KeyHash : Type 0
KeyHash = String → String → String

-- `hmac.compare_digest`, which raises for a text that is not ASCII.
unfoldable pub compare_digest : String → String → Result Bool
compare_digest a b = do raise_if (not (is_ascii a && is_ascii b)) Failure.type_error; ok (a == b)

-- `x and hmac.compare_digest(...)`
unfoldable pub matches : Bool → String → String → Result Bool
unfolding compare_digest
matches true a b = compare_digest a b
matches false a b = ok false

unfoldable pub verify_key : KeyHash → Organization → String → Result Bool
unfolding matches
verify_key hash o api_key = do
  let salt = if is_set o.key_salt then o.key_salt else o.org_id
  resident ← matches (is_set o.api_key) api_key o.api_key
  if resident then ok true else matches (is_set o.api_key_hash) (hash api_key salt) o.api_key_hash

-- The organizations by id.
abbrev pub Registry : Type 0
Registry = Dict String Organization

-- The random draws of `register`: an id, an API key and a salt.
pub record Fresh : Type 0 where
  pub id : String
  pub api_key : String
  pub salt : String

unfoldable pub register :
    KeyHash
    → Fresh
    → Registry
    → String
    → String
    → String
    → Option String
    → Result (Organization × Registry)
register hash fresh orgs name domain sector_group org_id = do
  let given : String = elim org_id [ none ↦ "" | some i ↦ i ]
  let id : String = if is_set given then given else fresh.id
  raise_if (contains id orgs) Failure.value_error
  let org : Organization = record {
    org_id = id;
    name = name;
    domain = domain;
    sector_group = sector_group;
    api_key = fresh.api_key;
    active = true;
    api_key_hash = hash fresh.api_key fresh.salt;
    key_salt = fresh.salt;
  }
  ok (org, insert id org orgs)

unfoldable pub add_restored : Registry → Organization → Result Registry
add_restored orgs org = do
  raise_if (contains org.org_id orgs) Failure.value_error
  ok (insert org.org_id org orgs)

unfoldable pub get : Registry → String → Result Organization
get orgs org_id = or_raise (lookup org_id orgs) Failure.key_error

unfoldable pub authenticate : KeyHash → Registry → String → String → Result Organization
unfolding get verify_key
authenticate hash orgs org_id api_key = do
  org ← get orgs org_id
  verified ← verify_key hash org api_key
  raise_if (not verified) Failure.permission_error
  ok org

-- `Registry.list`
unfoldable pub list : Registry → List Organization
list orgs = values orgs

-- Whether an organization belongs to a cohort.
unfoldable pub in_cohort : String → Option String → Organization → Bool
in_cohort sector_group domain o =
    o.active
    && o.sector_group == sector_group
    && (elim domain [ none ↦ true | some d ↦ o.domain == d ])

unfoldable pub cohort : Registry → String → Option String → List Organization
unfolding in_cohort
cohort orgs sector_group domain = filter (in_cohort sector_group domain) (values orgs)

unfoldable pub min_cohort : ℕ
min_cohort = min_participants
