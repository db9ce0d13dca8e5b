-- ===== src/Governance/Policy/Denied.antt =====
-- Decisions of the engine that deny, and requests whose epsilon is a NaN.
use sentry_link.Base.{
  ℕ, String, text_eq, nat_eq, mem, ltb, ◌==◌, sorted, ◌||◌, subst, true, false, none, some, List,
  [], ◌∷◌, length, if◌then◌else◌, ◌≡◌, refl, ap, inl, inr, Bool-cases, Option-cases, arith,
}
use sentry_link.Config.{min_participants}
use sentry_link.Errors.{Failure, ok, err, code, returned, ok_injective}
use sentry_link.Crypto.DifferentialPrivacy.Accountant.{new_budget}
use sentry_link.Errors.Codes.{is_denial, error_for_code-code}
use sentry_link.Floats.{Floats, NanLaws, zero_float, one_float}
use sentry_link.Governance.Registry.{Organization, cohort}
use sentry_link.Governance.Policy.{
  PolicyEngine, QueryRequest, QueryDecision, Verdict, consents, too_costly, select, request_fault,
  judge, verdict, evaluate, decide, denied, raise_if_denied, budget_of, allowed_metrics_all,
  required_floor,
}

module _ (fl : Floats) (e : PolicyEngine fl) (req : QueryRequest fl) where
  request_fault-some : (r : Failure) → request_fault fl req ≡ some r → is_denial r ≡ true
  unfolding request_fault
  request_fault-some r h = ground arith

  judge-deny :
      (candidates : ℕ) (ids : List String) (blocked : ℕ) {r : Failure} {ps : List String}
      {floor : ℕ}
      → judge fl e req candidates ids blocked ≡ Verdict.deny r ps floor
      → is_denial r ≡ true
  unfolding judge
  judge-deny candidates [] blocked h = ground arith
  judge-deny candidates (i ∷ ids) blocked h = ground arith

  verdict-deny :
      {r : Failure} {ps : List String} {floor : ℕ}
      → verdict fl e req ≡ Verdict.deny r ps floor
      → is_denial r ≡ true
  unfolding verdict
  verdict-deny {r} h = elim (Option-cases (request_fault fl req)) [
    | inl none_eq ↦
        let candidates = cohort e.registry req.sector_group (some req.domain) in
        let (ids, blocked) = select fl e req candidates in
        grind (arith, judge-deny (length candidates) ids blocked)
    | inr (f, some_eq) ↦ ground (arith, request_fault-some f some_eq)
  ]

  -- What a decision that does not allow its request raises.
  pub record IsDenial (d : QueryDecision fl) (failure : Failure) : Type 0 where
    pub raised : raise_if_denied fl d ≡ err failure
    pub same_code : code failure ≡ d.code
    pub listed : is_denial failure ≡ true
    pub nobody : d.participants ≡ []

  decide-IsDenial :
      (query_id : String) (v : Verdict) (d : QueryDecision fl)
      → verdict fl e req ≡ v
      → decide fl e query_id req v ≡ ok d
      → d.allowed ≡ false
      → (failure : Failure) × IsDenial d failure
  unfolding decide denied raise_if_denied
  decide-IsDenial query_id (Verdict.deny r ps floor) d eq made h =
      let (budget, _, done) = returned (budget_of fl req) _ d made in
      let same = ok_injective _ d done in
      (
        r,
        subst (λ z. IsDenial z r) same
            (record {
              raised = ap err (error_for_code-code r (verdict-deny eq));
              same_code = refl;
              listed = verdict-deny eq;
              nobody = refl;
            }),
      )
  decide-IsDenial query_id (Verdict.allow ps floor) d eq made h =
      let (budget, _, done) = returned (budget_of fl req) _ d made in
      cc (ap (λ z. z.allowed) (ok_injective _ d done))

  -- If the engine decides not to allow a request, the decision names no participant, and raising it
  -- raises the exception whose code it carries, which is one of the table's or the generic denial.
  pub evaluate-IsDenial :
      (query_id : String) (d : QueryDecision fl)
      → evaluate fl e query_id req ≡ ok d
      → d.allowed ≡ false
      → (failure : Failure) × IsDenial d failure
  unfolding evaluate
  evaluate-IsDenial query_id d made h = decide-IsDenial query_id (verdict fl e req) d refl made h

module _ (fl : Floats) (nan : fl.Float) (laws : NanLaws fl nan) (e : PolicyEngine fl)
    (req : QueryRequest fl) where
  -- The ids of the candidates that consent to the metric, whatever their caps.
  unfoldable pub consenting : List Organization → List String
  consenting [] = []
  consenting (o ∷ orgs) =
      let ids = consenting orgs in if consents fl e req o then o.org_id ∷ ids else ids

  select-consenting :
      req.epsilon ≡ nan → (os : List Organization) → select fl e req os ≡ (consenting os, 0)
  unfolding select consenting too_costly
  select-consenting isnan [] = refl
  select-consenting isnan (o ∷ os) = elim (Bool-cases (consents fl e req o)) [
    | inl t ↦ rw (t, isnan, laws.lt_right, select-consenting isnan os) refl
    | inr t ↦ rw (t, select-consenting isnan os) refl
  ]

  request_fault-nan :
      req.epsilon ≡ nan
      → mem req.metric allowed_metrics_all ≡ true
      → (fl.le req.delta (zero_float fl) || fl.le (one_float fl) req.delta) ≡ false
      → request_fault fl req ≡ none
  unfolding request_fault
  request_fault-nan isnan listed delta = rw (listed, isnan, laws.le_left, delta) refl

  nonempty :
      (os : List Organization) (i : String) (is : List String)
      → consenting os ≡ i ∷ is
      → (length os == 0) ≡ false
  unfolding consenting
  nonempty [] i is h = cc
  nonempty (o ∷ os) i is h = ground arith

  judge-enough :
      (candidates : ℕ) (i : String) (is : List String) (blocked : ℕ)
      → ltb (length (i ∷ is)) (required_floor fl e (i ∷ is) min_participants) ≡ false
      → judge fl e req candidates (i ∷ is) blocked
        ≡ Verdict.allow (i ∷ is) (required_floor fl e (i ∷ is) min_participants)
  unfolding judge
  judge-enough candidates i is blocked enough = rw enough refl

  verdict-nan :
      (i : String) (is : List String)
      → req.epsilon ≡ nan
      → request_fault fl req ≡ none
      → consenting (cohort e.registry req.sector_group (some req.domain)) ≡ i ∷ is
      → ltb (length (i ∷ is)) (required_floor fl e (i ∷ is) min_participants) ≡ false
      → verdict fl e req ≡ Verdict.allow (i ∷ is) (required_floor fl e (i ∷ is) min_participants)
  unfolding verdict
  verdict-nan i is isnan clear chosen enough =
      let candidates = cohort e.registry req.sector_group (some req.domain) in
      rw
        (
          verdict,
          clear,
          nonempty candidates i is chosen,
          select-consenting isnan candidates,
          chosen,
        )
        (judge-enough (length candidates) i is 0 enough)

  -- A request whose epsilon is a NaN passes every test of its epsilon: on a listed metric and with a
  -- delta inside (0, 1), all the organizations of the cohort that consent to the metric are admitted,
  -- whatever their caps, as soon as they are as many as their floors ask for.
  pub evaluate-nan :
      (query_id : String) (i : String) (is : List String)
      → req.epsilon ≡ nan
      → mem req.metric allowed_metrics_all ≡ true
      → (fl.le req.delta (zero_float fl) || fl.le (one_float fl) req.delta) ≡ false
      → fl.lt req.delta (zero_float fl) ≡ false
      → consenting (cohort e.registry req.sector_group (some req.domain)) ≡ i ∷ is
      → ltb (length (i ∷ is)) (required_floor fl e (i ∷ is) min_participants) ≡ false
      → (d : QueryDecision fl) × (evaluate fl e query_id req ≡ ok d)
        × (d.allowed ≡ true)
        × (d.participants ≡ sorted (i ∷ is))
  unfolding evaluate decide new_budget
  evaluate-nan query_id i is isnan listed delta sign chosen enough =
      rw
        (
          verdict-nan i is isnan (request_fault-nan isnan listed delta) chosen enough,
          isnan,
          laws.lt_left,
          sign,
        )
        (_, refl, refl, refl)
