-- ===== src/Governance/Policy.antt =====
-- sentrylink/governance/policy.py. The random query id is an argument.
pub mod Sound
pub mod Denied
use sentry_link.Base.{
  ℕ, ◌+◌, String, ◌==◌, text_eq, nat_eq, mem, sorted, Bool, true, false, not, ◌&&◌, ◌||◌, Option,
  none, some, List, [], ◌∷◌, ◌++◌, map, filter, length, max, ltb, leb, if◌then◌else◌,
}
use sentry_link.Base.Int.{ℤ, pos}
use sentry_link.Base.Dict.{Dict, lookup_or, insert}
use sentry_link.Config.{min_participants, max_org_contrib}
use sentry_link.Errors.{Failure, Result, ok, err, ◌>>=◌, ◌>>◌, raise_if, code}
use sentry_link.Errors.Codes.{error_for_code}
use sentry_link.Floats.{Floats, zero_float, one_float}
use sentry_link.Crypto.DifferentialPrivacy.Accountant.{PrivacyBudget, new_budget}
use sentry_link.Governance.Registry.{Organization, Registry, get, cohort}
use sentry_link.Governance.Verticals.{full_metrics, policy_for_domain}

-- `ALLOWED_METRICS`
abbrev pub allowed_metrics_all : List String
allowed_metrics_all = full_metrics

-- The verdict on a request: the participants, or the reason of the denial with the participants
-- and the floor of its snapshot.
pub data Verdict : Type 0 where
  allow : List String → ℕ → Verdict
  deny : Failure → List String → ℕ → Verdict

module _ (fl : Floats) where
  open fl use {Float, decimal, lt, le}

  pub record ConsentPolicy : Type 0 where
    pub allowed_metrics : List String
    pub min_participants : ℕ
    pub max_epsilon_per_query : Float
    pub purpose : String

  -- `ConsentPolicy.default()`
  unfoldable pub default_policy : ConsentPolicy
  default_policy = record {
    allowed_metrics = allowed_metrics_all;
    min_participants = min_participants;
    max_epsilon_per_query = decimal 25 0;
    purpose = "cross-org intelligence";
  }

  pub record QueryRequest : Type 0 where
    pub metric : String
    pub sector_group : String
    pub domain : String
    pub epsilon : Float
    pub delta : Float
    pub purpose : String

  pub record Snapshot : Type 0 where
    pub metric : String
    pub floor_required : ℕ
    pub candidates : ℕ
    pub epsilon_cap_min : Option Float

  -- The texts of `reasons` are left out.
  pub record QueryDecision : Type 0 where
    pub allowed : Bool
    pub query_id : String
    pub participants : List String
    pub budget : PrivacyBudget fl
    pub code : Option String
    pub policy_snapshot : Snapshot

  -- `QueryDecision.raise_if_denied`
  unfoldable pub raise_if_denied : QueryDecision → Result (Unit {0})
  raise_if_denied d = raise_if (not d.allowed) (error_for_code d.code)

  pub record PolicyEngine : Type 0 where
    pub registry : Registry
    pub policies : Dict String ConsentPolicy

  unfoldable pub set_policy : PolicyEngine → String → ConsentPolicy → Result PolicyEngine
  set_policy e org_id policy =
      get e.registry org_id >>= λ _. ok (record e { policies = insert org_id policy e.policies })

  -- `self.policies.get(oid, ConsentPolicy.default())`
  unfoldable pub policy_of : PolicyEngine → String → ConsentPolicy
  policy_of e oid = lookup_or oid default_policy e.policies

  -- What the loop over the candidates does with an organization.
  unfoldable pub consents : PolicyEngine → QueryRequest → Organization → Bool
  consents e req org = mem req.metric (policy_of e org.org_id).allowed_metrics

  unfoldable pub too_costly : PolicyEngine → QueryRequest → Organization → Bool
  too_costly e req org = lt (policy_of e org.org_id).max_epsilon_per_query req.epsilon

  -- The loop over the candidates: the ids of the participants, and how many were blocked by epsilon.
  unfoldable pub select : PolicyEngine → QueryRequest → List Organization → List String × ℕ
  unfolding consents too_costly
  select e req [] = ([], 0)
  select e req (org ∷ orgs) =
      let (ids, blocked) = select e req orgs in
      if consents e req org
      then if too_costly e req org then (ids, blocked + 1) else (org.org_id ∷ ids, blocked)
      else (ids, blocked)

  -- The loop that raises the cohort floor to the strictest participant's.
  unfoldable pub required_floor : PolicyEngine → List String → ℕ → ℕ
  required_floor e [] required = required
  required_floor e (oid ∷ ids) required =
      required_floor e ids (max required (policy_of e oid).min_participants)

  -- `min(caps) if caps else None`
  unfoldable pub cap_min : List Float → Option Float
  cap_min [] = none
  cap_min (c ∷ cs) = elim (cap_min cs) [ none ↦ some c | some m ↦ some (if lt m c then m else c) ]

  unfoldable pub snapshot :
      PolicyEngine → QueryRequest → List Organization → List String → ℕ → Snapshot
  unfolding cap_min
  snapshot e req candidates participants floor = record {
    metric = req.metric;
    floor_required = floor;
    candidates = length candidates;
    epsilon_cap_min = cap_min (map (λ oid. (policy_of e oid).max_epsilon_per_query) participants);
  }

  -- `QueryRequest.budget`, which raises for a negative epsilon or delta.
  abbrev pub budget_of : QueryRequest → Result (PrivacyBudget fl)
  budget_of req = new_budget fl req.epsilon req.delta

  -- `denied`
  unfoldable pub denied :
      PolicyEngine
      → String
      → QueryRequest
      → List Organization
      → List String
      → Failure
      → ℕ
      → Result QueryDecision
  unfolding snapshot new_budget
  denied e query_id req candidates participants reason floor = do
    budget ← budget_of req
    ok (record {
      allowed = false;
      query_id = query_id;
      participants = [];
      budget = budget;
      code = code reason;
      policy_snapshot = snapshot e req candidates participants floor;
    })

  -- The tests before the candidates are looked at.
  unfoldable pub request_fault : QueryRequest → Option Failure
  request_fault req =
      if not (mem req.metric allowed_metrics_all)
      then some Failure.query_not_allowed
      else if le req.epsilon (zero_float fl)
      then some Failure.invalid_data
      else if le req.delta (zero_float fl) || le (one_float fl) req.delta
      then some Failure.invalid_data
      else none

  -- The tests of the participants against consent, epsilon and the cohort floor.
  unfoldable pub judge : PolicyEngine → QueryRequest → ℕ → List String → ℕ → Verdict
  unfolding required_floor
  judge e req candidates [] blocked =
      if blocked == candidates
      then deny
          (if req.domain == "healthcare"
            then Failure.healthcare_epsilon_too_high
            else Failure.epsilon_too_high)
          [] min_participants
      else deny Failure.consent_denied [] min_participants
  judge e req candidates (oid ∷ ids) blocked =
      let required = required_floor e (oid ∷ ids) min_participants in
      if ltb (length (oid ∷ ids)) required
      then deny
          (if req.domain == "healthcare" && leb 4 required
            then Failure.healthcare_cohort_too_small
            else Failure.cohort_too_small)
          (oid ∷ ids) required
      else allow (oid ∷ ids) required

  unfoldable pub verdict : PolicyEngine → QueryRequest → Verdict
  unfolding request_fault select judge cohort
  verdict e req =
      let candidates = cohort e.registry req.sector_group (some req.domain) in
      elim (request_fault req) [
        | some reason ↦ deny reason [] min_participants
        | none ↦
            if length candidates == 0
            then deny
                (if length (cohort e.registry req.sector_group none) == 0
                  then Failure.scope_mismatch
                  else Failure.domain_mismatch)
                [] min_participants
            else judge e req (length candidates) (select e req candidates).0
                (select e req candidates).1
      ]

  -- The decision that reports a verdict.
  unfoldable pub decide : PolicyEngine → String → QueryRequest → Verdict → Result QueryDecision
  unfolding denied snapshot sorted cohort new_budget
  decide e query_id req (Verdict.deny reason participants floor) =
      denied e query_id req (cohort e.registry req.sector_group (some req.domain)) participants
        reason floor
  decide e query_id req (Verdict.allow participants required) = do
    budget ← budget_of req
    let candidates = cohort e.registry req.sector_group (some req.domain)
    ok (record {
      allowed = true;
      query_id = query_id;
      participants = sorted participants;
      budget = budget;
      code = none;
      policy_snapshot = snapshot e req candidates participants required;
    })

  unfoldable pub evaluate : PolicyEngine → String → QueryRequest → Result QueryDecision
  unfolding verdict decide
  evaluate e query_id req = decide e query_id req (verdict e req)

  -- `cap_contributions` with the default radius.
  unfoldable pub cap_contributions : List ℤ → List ℤ
  cap_contributions values =
      let r = fl.of_int (pos max_org_contrib) in
      let v = map fl.of_int values in
      let norm = fl.norm v in
      let scaled =
        (if lt r norm && lt (zero_float fl) norm
          then map (λ x. fl.mul x (fl.div r norm)) v
          else v) in
      map fl.fix scaled

  unfoldable pub default_policy_for : Organization → ConsentPolicy
  unfolding policy_for_domain
  default_policy_for org =
      let vp = policy_for_domain fl org.domain in
      record {
        allowed_metrics = vp.allowed_metrics;
        min_participants = max min_participants vp.min_participants;
        max_epsilon_per_query = vp.max_epsilon_per_query;
        purpose = vp.purpose;
      }
