-- ===== src/Tests/Endpoints.antt =====
-- Requests to the endpoints by a retailer, by a stranger, and by one over its limit.
use sentry_link.Base.{ℕ, String, ◌≢◌, refl, inl, none, some, [], ◌≡◌, ◌∷◌}
use sentry_link.Base.Int.{pos, ◌+ℤ◌, ◌-ℤ◌, ◌*ℤ◌}
use sentry_link.Modular.{vadd, vsub}
use sentry_link.Errors.{ok}
use sentry_link.Floats.Fixed.{Num, fixed}
use sentry_link.Crypto.DifferentialPrivacy.Accountant.{charge_totals}
use sentry_link.Governance.Registry.{Organization, Fresh, get}
use sentry_link.Governance.Policy.{policy_of, default_policy, evaluate}
use sentry_link.RateLimit.{allow}
use sentry_link.Platform.Queries.{QueryResult, QueryArgs, query_result}
use sentry_link.Platform.Queries.Dispersion.{variance, released_figure}
use sentry_link.Platform.Timeline.{stage_of, last_entries}
use sentry_link.Api.{Caller, Service, Served, require_cohort_member, replied, spending}
use sentry_link.Api.Queries.{response_of}
use sentry_link.Api.Members.{JoinRequest, JoinResponse, join_org}
use sentry_link.Api.Answered.{Query, IsAnswered, ask, ask-IsAnswered}
use sentry_link.Api.Refused.{IsTurnedAway, spending-IsTurnedAway}
use sentry_link.Api.Denied.{IsDenied, decision_on, ask-IsDenied}
use sentry_link.Api.Joined.{IsJoined, join_org-IsJoined}
use sentry_link.Tests.Toys.{toy}
use sentry_link.Tests.Budgets.{plain}
use sentry_link.Tests.Policies.{retailer, decision_or}
use sentry_link.Tests.Platforms.{setup, platform, draws, args}
use sentry_link.Tests.Figures.{org_values, ran, returned_or}

abbrev service : Service fixed plain toy
service = record {
  platform = platform;
  limiter = record { limit = 2; window = fixed.of_int (pos 10); hits = [] };
}

abbrev now : Num
now = fixed.of_int (pos 1)

abbrev caller : String → Caller
caller id = record { org_id = some id; api_key = some "k" }

abbrev query : Query fixed plain toy
query = Query.of_values org_values

abbrev served : Service fixed plain toy
served = (ask fixed plain toy setup draws service (caller "a") now args query).0

ask-IsAnswered_example :
    IsAnswered fixed plain toy setup draws service
      (caller "a")
      now
      args
      query
      served
      (response_of fixed plain toy (returned_or ran.1))
unfolding ask variance released_figure query_result policy_of default_policy vsub vadd charge_totals
    require_cohort_member ◌+ℤ◌ ◌-ℤ◌ ◌*ℤ◌
ask-IsAnswered_example =
    ask-IsAnswered fixed plain toy setup draws service (caller "a") now args query served
      (response_of fixed plain toy (returned_or ran.1)) refl

-- An epsilon over every cap.
abbrev greedy : QueryArgs fixed plain toy
greedy = record args { epsilon = fixed.of_int (pos 26) }

ask-IsDenied_example :
    IsDenied fixed plain toy setup draws service
      (caller "a")
      now
      greedy
      (decision_or (decision_on fixed plain toy setup draws service (caller "a") now greedy query))
      (ask fixed plain toy setup draws service (caller "a") now greedy query)
unfolding require_cohort_member policy_of default_policy allow evaluate ◌+ℤ◌ ◌-ℤ◌ ◌*ℤ◌
ask-IsDenied_example =
    ask-IsDenied fixed plain toy setup draws service (caller "a") now greedy query (retailer "a")
      (decision_or (decision_on fixed plain toy setup draws service (caller "a") now greedy query))
      refl refl refl refl

stranger_refused :
    (org : Organization)
    → require_cohort_member setup.key_hash platform.policy.registry "eu" "retail" (caller "z")
      ≢ ok org
unfolding require_cohort_member
stranger_refused org h = cc

abbrev variance_of : Service fixed plain toy → Served fixed plain toy (QueryResult fixed plain toy)
variance_of s =
    replied fixed plain toy s.limiter
      (variance fixed plain toy setup draws s.platform org_values args)

spending-IsTurnedAway_example :
    IsTurnedAway fixed plain toy setup service
      (caller "z")
      "eu"
      "retail"
      now
      variance_of
      (spending fixed plain toy setup service (caller "z") "eu" "retail" now variance_of)
spending-IsTurnedAway_example =
    spending-IsTurnedAway fixed plain toy setup service (caller "z") "eu" "retail" now variance_of
      (inl stranger_refused)

abbrev newcomer : Fresh
newcomer = record { id = "d"; api_key = "key"; salt = "salt" }

abbrev request : JoinRequest
request = record { name = "Delta"; domain = "retail"; sector_group = "eu" }

abbrev response : JoinResponse
response = record {
  org_id = "d";
  name = "Delta";
  api_key = "key";
  domain = "retail";
  sector_group = "eu";
}

join_org-IsJoined_example :
    IsJoined fixed plain toy setup service
      (join_org fixed plain toy setup newcomer draws.stamp service request none).0
      request
      response
unfolding join_org get
join_org-IsJoined_example =
    join_org-IsJoined fixed plain toy setup newcomer draws.stamp service
      (join_org fixed plain toy setup newcomer draws.stamp service request none).0 request response
      none refl refl refl refl

query_stage : stage_of "query.histogram" ≡ "release"
unfolding stage_of
query_stage = refl

-- The limit 0 gives the whole log.
whole_log : last_entries {A = ℕ} (pos 0) (1 ∷ 2 ∷ 3 ∷ []) ≡ 1 ∷ 2 ∷ 3 ∷ []
unfolding last_entries
whole_log = refl
