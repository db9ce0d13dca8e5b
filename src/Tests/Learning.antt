-- ===== src/Tests/Learning.antt =====
-- A federated round of the three retailers, one that their budget refuses, and a refused bundle.
use sentry_link.Base.{String, true, none, List, [], ◌∷◌, map, length, ◌≡◌, refl}
use sentry_link.Base.Int.{pos, ◌+ℤ◌, ◌-ℤ◌, ◌*ℤ◌}
use sentry_link.Base.Dict.{Dict}
use sentry_link.Modular.{vadd, vsub}
use sentry_link.Errors.{Result, ok, err}
use sentry_link.Floats.Fixed.{Num, fixed}
use sentry_link.Crypto.Prg.{int_masks}
use sentry_link.Crypto.SecureAggregation.{mask_step, residual_inner, dequantize}
use sentry_link.Crypto.DifferentialPrivacy.Accountant.{charge_totals}
use sentry_link.Federated.Model.{FederatedClient}
use sentry_link.Federated.Server.{RoundResult}
use sentry_link.Governance.Audit.{AuditEntry, genesis}
use sentry_link.Governance.Policy.{policy_of, default_policy}
use sentry_link.Platform.{Platform, Entry, Store, Write, restore_from}
use sentry_link.Platform.Rounds.{RoundDraws, key_of, run_federated_round}
use sentry_link.Platform.Rounds.Released.{IsRoundReleased, run_federated_round-IsRoundReleased}
use sentry_link.Platform.Reports.{federated_release_card}
use sentry_link.Platform.Reports.Cards.{federated_release_card-charged}
use sentry_link.Privacy.{ReleaseCard}
use sentry_link.Storage.Memory.{Op, empty_state}
use sentry_link.Tests.Toys.{toy}
use sentry_link.Tests.Budgets.{plain}
use sentry_link.Tests.Platforms.{setup, platform, args}
use sentry_link.Tests.Training.{client, draws}

abbrev clients_by_org : Dict String (FederatedClient fixed)
clients_by_org = map (λ i. (i, client i)) ("a" ∷ "b" ∷ "c" ∷ [])

abbrev round_draws : RoundDraws fixed plain toy
round_draws = record {
  query_id = "q";
  round = record draws { normal = λ sigma n. Num.num (pos 0) ∷ Num.num (pos 0) ∷ [] };
  event_id = "e";
  event_ts = fixed.decimal 0 0;
  ledger_ts = fixed.decimal 0 0;
  stamp = record { id = "s"; ts = fixed.decimal 0 0 };
}

abbrev ran : Platform fixed plain toy × Result (RoundResult toy fixed)
ran = run_federated_round fixed plain toy setup round_draws platform clients_by_org args [] 1

abbrev no_round : RoundResult toy fixed
no_round = record {
  round_id = "";
  participants = [];
  dropped = [];
  aggregate_delta = [];
  model = record { dim = 0; weights = []; bias = Num.nan };
  eval_stats = record { n = pos 0; mean_loss = none; accuracy = none; n_correct = pos 0 };
  dp_applied = true;
  epsilon_used = Num.nan;
  dp_sigma = Num.nan;
  delta_used = Num.nan;
}

abbrev returned_or : Result (RoundResult toy fixed) → RoundResult toy fixed
returned_or (ok r) = r
returned_or (err f) = no_round

finished :
    run_federated_round fixed plain toy setup round_draws platform clients_by_org args [] 1
    ≡ (ran.0, ok (returned_or ran.1))
unfolding run_federated_round mask_step int_masks residual_inner dequantize policy_of default_policy
    vsub vadd charge_totals ◌+ℤ◌ ◌-ℤ◌ ◌*ℤ◌
finished = refl

run_federated_round-IsRoundReleased_example :
    IsRoundReleased fixed plain toy round_draws args clients_by_org [] 1 platform ran.0
      (returned_or ran.1)
run_federated_round-IsRoundReleased_example =
    run_federated_round-IsRoundReleased fixed plain toy setup round_draws platform ran.0
      clients_by_org args [] 1 (returned_or ran.1) finished

federated_release_card-charged_example :
    (card : ReleaseCard fixed) × (federated_release_card fixed plain toy ran.0
        (key_of fixed plain toy args)
        "retail"
      ≡ ok card)
    × (card.cohort_size ≡ length (returned_or ran.1).participants)
    × (card.epsilon ≡ args.epsilon)
    × (card.delta ≡ args.delta)
federated_release_card-charged_example =
    federated_release_card-charged fixed plain toy setup round_draws platform ran.0 clients_by_org
      args [] 1 (returned_or ran.1) finished

abbrev entry : AuditEntry String (Entry fixed plain toy)
entry = record {
  payload = record { id = "1"; ts = fixed.decimal 0 0; action = "a"; details = [] };
  prev_hash = genesis;
  hash = "h";
}

abbrev pub stored : Store fixed plain toy
stored = record (empty_state fixed plain toy (Entry fixed plain toy)) { audit = entry ∷ [] }

abbrev pub behind : Platform fixed plain toy
behind = record platform { store = stored }

abbrev pub stale_writes : List (Write fixed plain toy)
stale_writes = Op.append_audit entry genesis ∷ []

abbrev pub rebuilt : Platform fixed plain toy
rebuilt = elim (restore_from fixed plain toy behind stored) [ ok p ↦ p | err f ↦ behind ]
