-- ===== src/Tests/Platforms.antt =====
-- A histogram over the three retailers.
use sentry_link.Base.{String, true, none, List, [], ◌∷◌, refl}
use sentry_link.Base.Int.{ℤ, pos, ◌+ℤ◌, ◌-ℤ◌, ◌*ℤ◌}
use sentry_link.Modular.{vadd, vsub}
use sentry_link.Crypto.DifferentialPrivacy.Accountant.{PrivacyAccountant, Event, charge_totals}
use sentry_link.Governance.Policy.{QueryDecision, evaluate, policy_of, default_policy}
use sentry_link.Base.Dict.{Dict}
use sentry_link.Errors.{Result, ok, err}
use sentry_link.Floats.Fixed.{Num, fixed}
use sentry_link.Governance.Audit.{genesis}
use sentry_link.Platform.{Platform, Setup}
use sentry_link.Platform.Queries.{
  QueryDraws, QueryArgs, QueryResult, Value, request_of, charge_laplace, query_result,
}
use sentry_link.Platform.Queries.Histogram.{released_histogram, histogram_query, histogram}
use sentry_link.Platform.Queries.Release.{IsReleased}
use sentry_link.Platform.Queries.Histogram.Outcomes.{histogram-IsReleased}
use sentry_link.Storage.Memory.{empty_state}
use sentry_link.Tests.Toys.{toy}
use sentry_link.Tests.Budgets.{plain, fresh, budget_of}
use sentry_link.Tests.Policies.{engine, decision_or}

abbrev pub setup : Setup fixed plain toy
setup = record {
  entry_hash = λ prev payload. "next";
  key_hash = λ key salt. "digest";
  limit = budget_of 10;
}

abbrev pub platform : Platform fixed plain toy
platform = record {
  policy = engine;
  audit = record { entries = []; prev_hash = genesis };
  accountant = record fresh {
    limit = record { epsilon = fixed.of_int (pos 10); delta = fixed.decimal 1 5 };
  };
  node_ids = "node-a" ∷ "node-b" ∷ [];
  servers = [];
  last_round = [];
  store = empty_state fixed plain toy _;
}

abbrev pub draws : QueryDraws fixed plain toy
draws = record {
  query_id = "q";
  tapes = λ k i. 5;
  laplace = λ scale. Num.num (pos 0) ∷ Num.num (pos 0) ∷ [];
  laplace_one = λ scale. Num.num (pos 0);
  event_id = "e";
  event_ts = fixed.decimal 0 0;
  ledger_ts = fixed.decimal 0 0;
  stamp = record { id = "s"; ts = fixed.decimal 0 0 };
  result_ts = fixed.decimal 0 0;
}

abbrev pub args : QueryArgs fixed plain toy
args = record {
  sector_group = "eu";
  domain = "retail";
  epsilon = fixed.of_int (pos 1);
  delta = fixed.decimal 1 5;
  purpose = "test";
  request_id = none;
}

abbrev pub buckets : Dict String (List ℤ)
buckets = ("a", pos 1 ∷ pos 2 ∷ []) ∷ ("b", pos 3 ∷ pos 4 ∷ []) ∷ ("c", pos 5 ∷ pos 6 ∷ []) ∷ []

abbrev decision : QueryDecision fixed
decision = decision_or (evaluate fixed engine "q" (request_of fixed plain toy "histogram" args))

abbrev pub result : QueryResult fixed plain toy
result =
    query_result fixed plain toy (histogram_query fixed plain toy none) draws fresh decision
      (pos 9 ∷ pos 12 ∷ []) args
      (record {
        value = Value.counts (pos 9 ∷ pos 12 ∷ []);
        noise_sigma = fixed.decimal 0 0;
        details = [];
      })

histogram-IsReleased_example :
    IsReleased fixed plain toy "histogram" draws args platform
      (histogram fixed plain toy setup draws platform buckets none args).0
      result
unfolding histogram released_histogram query_result policy_of default_policy vsub vadd charge_totals
    ◌+ℤ◌ ◌-ℤ◌ ◌*ℤ◌
histogram-IsReleased_example =
    histogram-IsReleased fixed plain toy setup draws platform
      (histogram fixed plain toy setup draws platform buckets none args).0 buckets none args result
      refl

abbrev paid : Result (PrivacyAccountant fixed × Event fixed)
paid =
    charge_laplace fixed plain toy (histogram_query fixed plain toy none) draws platform decision
      args

abbrev pub accountant_after : PrivacyAccountant fixed
accountant_after = elim paid [ ok (a, e) ↦ a | err f ↦ fresh ]

abbrev no_event : Event fixed
no_event = record {
  id = "";
  ts = fixed.decimal 0 0;
  purpose = "";
  subject = "";
  epsilon_cost = fixed.decimal 0 0;
  delta_cost = fixed.decimal 0 0;
  spent_epsilon = fixed.decimal 0 0;
  spent_delta = fixed.decimal 0 0;
  rdp_tracked = true;
  ledger = none;
  budget_before = fresh.spent;
  budget_after = fresh.spent;
}

abbrev event_after : Event fixed
event_after = elim paid [ ok (a, e) ↦ e | err f ↦ no_event ]
