-- ===== src/Tests/Databases.antt =====
-- The store and its contents, and calls of a platform one after the other.
use sentry_link.Base.{ℕ, text_eq, nat_eq, true, none, List, [], ◌≡◌, refl}
use sentry_link.Base.Int.{pos, ◌+ℤ◌, ◌-ℤ◌, ◌*ℤ◌}
use sentry_link.Modular.{vadd, vsub}
use sentry_link.Errors.{Failure, Result, ok, err}
use sentry_link.Floats.Fixed.{fixed}
use sentry_link.Crypto.DifferentialPrivacy.Accountant.{PrivacyAccountant, Event, charge_totals}
use sentry_link.Governance.Audit.{genesis, tip}
use sentry_link.Governance.Policy.{QueryDecision, evaluate, policy_of, default_policy}
use sentry_link.Platform.{Platform, commit_bundle, restore_from}
use sentry_link.Platform.Queries.{
  QueryResult, Noisy, Value, charge_laplace, query_from, query_result, request_of,
}
use sentry_link.Platform.Queries.Histogram.{histogram, released_histogram}
use sentry_link.Platform.Queries.Dispersion.{variance_query, released_figure}
use sentry_link.Platform.Sync.{IsSynced}
use sentry_link.Platform.Sync.Calls.{Call, Calls, Calls-IsSynced}
use sentry_link.Platform.Sync.Retry.{retry-returns}
use sentry_link.Storage.Memory.{Op, commit, load}
use sentry_link.Tests.Toys.{toy}
use sentry_link.Tests.Budgets.{plain}
use sentry_link.Tests.Policies.{engine, decision_or}
use sentry_link.Tests.Platforms.{setup, platform, draws, args, buckets, result}
use sentry_link.Tests.Learning.{behind, stale_writes, stored, rebuilt}
use sentry_link.Tests.Stores.{entry, first_bundle}
use sentry_link.Storage.Memory.Bundles.{bundle}

abbrev writes : List (Op fixed plain toy ℕ)
writes = bundle fixed plain toy ℕ first_bundle (entry "x") genesis

synced : IsSynced fixed plain toy platform
unfolding tip
synced = record { same_tip = refl; same_spent = λ b same. cc }

counted_once :
    Calls fixed plain toy setup platform
      (histogram fixed plain toy setup draws platform buckets none args).0
unfolding histogram released_histogram query_result policy_of default_policy vsub vadd charge_totals
    ◌+ℤ◌ ◌-ℤ◌ ◌*ℤ◌
counted_once = Calls.then Calls.none_yet (Call.counted draws buckets none args result refl)

Calls-IsSynced_example :
    IsSynced fixed plain toy (histogram fixed plain toy setup draws platform buckets none args).0
Calls-IsSynced_example = Calls-IsSynced fixed plain toy setup counted_once synced

abbrev decision : QueryDecision fixed
decision = decision_or (evaluate fixed engine "q" (request_of fixed plain toy "variance" args))

abbrev paid : Result (PrivacyAccountant fixed × Event fixed)
paid = charge_laplace fixed plain toy (variance_query fixed plain toy) draws rebuilt decision args

abbrev event : Event fixed
event = record {
  id = "";
  ts = fixed.decimal 0 0;
  purpose = "";
  subject = "";
  epsilon_cost = fixed.decimal 0 0;
  delta_cost = fixed.decimal 0 0;
  spent_epsilon = fixed.decimal 0 0;
  spent_delta = fixed.decimal 0 0;
  rdp_tracked = true;
  ledger = none;
  budget_before = platform.accountant.spent;
  budget_after = platform.accountant.spent;
}

abbrev paid_or : PrivacyAccountant fixed × Event fixed
paid_or = elim paid [ ok out ↦ out | err f ↦ (platform.accountant, event) ]

abbrev noisy : Noisy fixed plain toy
noisy = record {
  value = Value.figure (fixed.of_int (pos 2));
  noise_sigma = fixed.decimal 0 0;
  details = [];
}

retry-returns_example :
    (commit_bundle fixed plain toy setup behind stale_writes
      ≡ (rebuilt, err Failure.concurrent_write))
    × ((p'' : Platform fixed plain toy) × (r : QueryResult fixed plain toy) × (query_from fixed
            plain toy
            (variance_query fixed plain toy)
            setup
            draws
            rebuilt
            args
            (ok (decision, fixed.of_int (pos 2)))
          ≡ (p'', ok r)))
unfolding restore_from commit load charge_laplace released_figure policy_of default_policy
    charge_totals ◌+ℤ◌ ◌-ℤ◌ ◌*ℤ◌
retry-returns_example =
    retry-returns fixed plain toy setup behind rebuilt stale_writes stored Failure.concurrent_write
      (variance_query fixed plain toy) draws args decision (fixed.of_int (pos 2)) paid_or.0
      paid_or.1 noisy refl refl refl refl refl refl refl
