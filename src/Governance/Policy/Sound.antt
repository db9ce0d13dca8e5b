-- ===== src/Governance/Policy/Sound.antt =====
-- What an allowed decision promises to every participant.
use sentry_link.Base.{
  ℕ, ◌≤◌, String, text_eq, nat_eq, mem, Occurs, sorted, Bool, true, false, none, some, List, [],
  ◌∷◌, filter, length, max, ◌≡◌, refl, sym, ap, subst, inl, inr, Bool-cases, arith, All, All-map,
  All-sorted, length-sorted,
}
use sentry_link.Base.Dict.{values}
use sentry_link.Errors.{ok, returned, ok_injective}
use sentry_link.Config.{min_participants}
use sentry_link.Floats.{Floats, zero_float}
use sentry_link.Governance.Registry.{Organization, cohort, in_cohort}
use sentry_link.Governance.Policy.{
  PolicyEngine, QueryRequest, QueryDecision, Verdict, budget_of, allowed_metrics_all, policy_of,
  consents, too_costly, select, required_floor, request_fault, judge, verdict, evaluate, decide,
  denied,
}

module _ (fl : Floats) (e : PolicyEngine fl) (req : QueryRequest fl) where
  -- An active organization of the registry and of the requested cohort whose policy allows the
  -- metric and whose cap is not below the epsilon.
  pub record MayJoin (oid : String) : Type 0 where
    pub org : Organization
    pub registered : Occurs org (values e.registry)
    pub same_id : org.org_id ≡ oid
    pub belongs : in_cohort req.sector_group (some req.domain) org ≡ true
    pub consented : mem req.metric (policy_of fl e oid).allowed_metrics ≡ true
    pub affordable : fl.lt (policy_of fl e oid).max_epsilon_per_query req.epsilon ≡ false

  -- What the list of candidates has, one by one.
  abbrev IsCandidate : Organization → Type 0
  IsCandidate o =
      Occurs o (values e.registry) × (in_cohort req.sector_group (some req.domain) o ≡ true)

  filter-All :
      (p : Organization → Bool) (all_orgs orgs : List Organization)
      → ((o : Organization) → Occurs o orgs → Occurs o all_orgs)
      → All (λ o. Occurs o all_orgs × (p o ≡ true)) (filter p orgs)
  filter-All p all_orgs [] within = tt
  filter-All p all_orgs (o ∷ orgs) within =
      let rest = filter-All p all_orgs orgs (λ x m. within x (Occurs.there m)) in
      elim (Bool-cases (p o)) [
        | inl t ↦ rw t ((within o (Occurs.here), t), rest)
        | inr t ↦ rw t rest
      ]

  select-MayJoin :
      (orgs : List Organization) → All IsCandidate orgs → All MayJoin (select fl e req orgs).0
  unfolding select consents too_costly
  select-MayJoin [] h = tt
  select-MayJoin (o ∷ orgs) h = elim (Bool-cases (consents fl e req o)) [
    | inl t ↦ elim (Bool-cases (too_costly fl e req o)) [
      | inl c ↦ rw t (rw c (select-MayJoin orgs h.1))
      | inr c ↦ rw t (
          rw c (
            record {
              org = o;
              registered = h.0.0;
              same_id = refl;
              belongs = h.0.1;
              consented = t;
              affordable = c;
            },
            select-MayJoin orgs h.1,
          ))
    ]
    | inr t ↦ rw t (select-MayJoin orgs h.1)
  ]

  -- The floor is at least the one it starts from and every participant's.
  required_floor-start : (ids : List String) (n : ℕ) → n ≤ required_floor fl e ids n
  unfolding required_floor
  required_floor-start [] n = omega arith
  required_floor-start (i ∷ ids) n =
      omega (arith, required_floor-start ids (max n (policy_of fl e i).min_participants))

  required_floor-each :
      (ids : List String) (n : ℕ)
      → All (λ i. (policy_of fl e i).min_participants ≤ required_floor fl e ids n) ids
  unfolding required_floor
  required_floor-each [] n = tt
  required_floor-each (i ∷ ids) n =
      let m = max n (policy_of fl e i).min_participants in
      (omega (arith, required_floor-start ids m), required_floor-each ids m)

  -- What a list of participants of a cohort needs for a query to run over it.
  pub record IsAdmitted (ids : List String) : Type 0 where
    pub listed : mem req.metric allowed_metrics_all ≡ true
    pub epsilon_sign : fl.le req.epsilon (zero_float fl) ≡ false
    pub members : All MayJoin ids
    pub global_floor : min_participants ≤ length ids
    pub own_floors : All (λ i. (policy_of fl e i).min_participants ≤ length ids) ids

  judge-allow :
      (candidates : ℕ) (ids : List String) (blocked : ℕ) {ps : List String} {floor : ℕ}
      → judge fl e req candidates ids blocked ≡ Verdict.allow ps floor
      → (ps ≡ ids) × (floor ≡ required_floor fl e ids min_participants) × (floor ≤ length ids)
  unfolding judge
  judge-allow candidates [] blocked h = ground arith
  judge-allow candidates (i ∷ ids) blocked h = ground arith

  request_fault-none :
      request_fault fl req ≡ none
      → (mem req.metric allowed_metrics_all ≡ true) × (fl.le req.epsilon (zero_float fl) ≡ false)
  unfolding request_fault
  request_fault-none h = ground arith

  verdict-judge :
      {ps : List String} {floor : ℕ}
      → verdict fl e req ≡ Verdict.allow ps floor
      → (let candidates = cohort e.registry req.sector_group (some req.domain) in
          let (ids, blocked) = select fl e req candidates in
          (request_fault fl req ≡ none)
          × (judge fl e req (length candidates) ids blocked ≡ Verdict.allow ps floor))
  unfolding verdict
  verdict-judge h = ground arith

  verdict-allow :
      {ps : List String} {floor : ℕ}
      → verdict fl e req ≡ Verdict.allow ps floor
      → IsAdmitted ps × (floor ≤ length ps)
  unfolding cohort
  verdict-allow {ps} {floor} h =
      let candidates = cohort e.registry req.sector_group (some req.domain) in
      let (ids, blocked) = select fl e req candidates in
      let (fault, judged) = verdict-judge h in
      let (listed, sign) = request_fault-none fault in
      let (same, raised, enough) = judge-allow (length candidates) ids blocked judged in
      let reaches : required_floor fl e ids min_participants ≤ length ids =
        subst (λ n. n ≤ length ids) raised enough in
      (
        subst IsAdmitted (sym same) (record {
          listed = listed;
          epsilon_sign = sign;
          members = select-MayJoin candidates (
              filter-All (in_cohort req.sector_group (some req.domain)) (values e.registry)
                (values e.registry) (λ o m. m));
          global_floor = omega (arith, required_floor-start ids min_participants, reaches);
          own_floors =
              All-map (λ i le. omega (arith, le, reaches)) ids
                (required_floor-each ids min_participants);
        }),
        subst (λ xs. floor ≤ length xs) (sym same) enough,
      )

  IsAdmitted-sorted : (ids : List String) → IsAdmitted ids → IsAdmitted (sorted ids)
  IsAdmitted-sorted ids h = record {
    listed = h.listed;
    epsilon_sign = h.epsilon_sign;
    members = All-sorted MayJoin ids h.members;
    global_floor = omega (arith, length-sorted ids, h.global_floor);
    own_floors =
        All-sorted (λ i. (policy_of fl e i).min_participants ≤ length (sorted ids)) ids
          (All-map (λ i le. omega (arith, length-sorted ids, le)) ids h.own_floors);
  }

  decide-IsAdmitted :
      (query_id : String) (v : Verdict) (d : QueryDecision fl)
      → verdict fl e req ≡ v
      → decide fl e query_id req v ≡ ok d
      → d.allowed ≡ true
      → IsAdmitted d.participants
  unfolding decide denied
  decide-IsAdmitted query_id (Verdict.deny reason ps floor) d eq made h =
      let (budget, _, done) = returned (budget_of fl req) _ d made in
      cc (ap (λ z. z.allowed) (ok_injective _ d done))
  decide-IsAdmitted query_id (Verdict.allow ps floor) d eq made h =
      let (budget, _, done) = returned (budget_of fl req) _ d made in
      subst (λ z. IsAdmitted z.participants) (ok_injective _ d done)
        (IsAdmitted-sorted ps (verdict-allow eq).0)

  -- If the engine allows a request, its metric is on the platform's list, its epsilon is not at most
  -- zero, every participant is an active organization of the registry and of the requested sector
  -- group and domain that allows the metric and whose cap is not below the epsilon, and there are as
  -- many participants as the platform's floor and each participant's own floor ask for.
  pub evaluate-IsAdmitted :
      (query_id : String) (d : QueryDecision fl)
      → evaluate fl e query_id req ≡ ok d
      → d.allowed ≡ true
      → IsAdmitted d.participants
  unfolding evaluate
  evaluate-IsAdmitted query_id d made h =
      decide-IsAdmitted query_id (verdict fl e req) d refl made h
