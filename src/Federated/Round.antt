-- ===== src/Federated/Round.antt =====
-- `run_round` and `_secure_eval` of sentrylink/federated/server.py.
pub mod Mean
use sentry_link.Base.{
  ℕ, String, ◌==◌, nat_eq, text_eq, mem, distinct, sorted, Bool, not, ◌&&◌, List, [], ◌∷◌, ◌++◌,
  map, filter, length, none, some, if◌then◌else◌,
}
use sentry_link.Base.Int.{pos, leb_ℤ}
use sentry_link.Base.Dict.{Dict}
use sentry_link.Errors.{Failure, Result, ok, err, ◌>>=◌, ◌>>◌, raise_if}
use sentry_link.Floats.{Floats, zero_float}
use sentry_link.Crypto.DifferentialPrivacy.{gaussian_sigma}
use sentry_link.Crypto.SecureAggregation.{KeyAgreement}
use sentry_link.Federated.Model.{LogisticModel, flat, from_flat, FederatedClient, eval_stats}
use sentry_link.Federated.Server.{
  EvalStats, RoundResult, FederatedServer, train_all, aggregate_updates,
}

module _ (ka : KeyAgreement) (fl : Floats) where
  open fl use {Float, add, mul, div}
  open ka use {PrivateKey}

  -- What the round and its evaluation draw.
  pub record Draws : Type 0 where
    pub round_id : String
    pub private : String → PrivateKey
    pub orders : String → ℕ → List ℕ
    -- `rng.normal(0.0, sigma, size)`
    pub normal : Float → ℕ → List Float
    pub eval_round_id : String
    pub eval_private : String → PrivateKey

  abbrev pub update_clip : Float
  update_clip = fl.decimal 1 0

  -- `a + b`, componentwise.
  unfoldable pub add_vectors : List Float → List Float → List Float
  add_vectors (a ∷ as') (b ∷ bs) = add a b ∷ add_vectors as' bs
  add_vectors [] bs = []
  add_vectors (a ∷ as') [] = []

  -- The tallies of the clients.
  unfoldable pub tallies :
      LogisticModel fl → List (FederatedClient fl) → Result (Dict String (List Float))
  unfolding eval_stats
  tallies m [] = ok []
  tallies m (c ∷ clients) = do
    stats ← eval_stats fl c m
    rest ← tallies m clients
    ok ((c.org_id, stats) ∷ rest)

  -- The figures of the opened totals.
  unfoldable pub eval_of : List Float → Result (EvalStats ka fl)
  eval_of (n ∷ loss ∷ correct ∷ _) =
      let n_total = fl.rint n in
      let none_seen = leb_ℤ n_total (pos 0) && leb_ℤ (pos 0) n_total in
      ok (record {
        n = n_total;
        mean_loss = if none_seen then none else some (div loss (fl.of_int n_total));
        accuracy =
            if none_seen
            then none
            else some (div (fl.of_int (fl.rint correct)) (fl.of_int n_total));
        n_correct = fl.rint correct;
      })
  eval_of _ = err Failure.key_error

  unfoldable pub secure_eval :
      Draws → List (FederatedClient fl) → LogisticModel fl → Result (EvalStats ka fl)
  unfolding tallies aggregate_updates eval_of
  secure_eval draws [] m =
      ok (record { n = pos 0; mean_loss = none; accuracy = none; n_correct = pos 0 })
  secure_eval draws (c ∷ clients) m = do
    stats ← tallies m (c ∷ clients)
    let roster = map (λ x. x.org_id) (c ∷ clients)
    total ← aggregate_updates ka fl draws.eval_round_id draws.eval_private roster 3 none stats []
    eval_of total

  -- The arguments of `run_round` with their defaults filled in.
  pub record RoundArgs : Type 0 where
    pub drop : List String
    pub epochs : ℕ
    pub apply_dp : Bool
    pub epsilon : Float
    pub delta : Float

  -- The noise that a round adds, with its scale and the epsilon it reports.
  unfoldable pub add_noise :
      Draws → RoundArgs → ℕ → List Float → Result (List Float × Float × Float)
  unfolding gaussian_sigma add_vectors
  add_noise draws args n_active aggregate =
      if args.apply_dp
      then (do
        let sens = div (mul (fl.decimal 2 0) update_clip) (fl.of_int (pos n_active))
        sigma ← gaussian_sigma fl sens args.epsilon args.delta
        ok (add_vectors aggregate (draws.normal sigma (length aggregate)), args.epsilon, sigma))
      else ok (aggregate, zero_float fl, zero_float fl)

  -- The part of the round up to the mean of the updates.
  unfoldable pub mean_update :
      Draws → LogisticModel fl → List (FederatedClient fl) → RoundArgs → Result (List Float)
  unfolding flat train_all aggregate_updates
  mean_update draws m clients args = do
    let roster = map (λ c. c.org_id) clients
    raise_if (not (distinct roster)) Failure.duplicate_roster
    let active = filter (λ c. not (mem c.org_id args.drop)) clients
    raise_if (length active == 0) Failure.protocol
    deltas ← train_all ka fl m draws.orders args.epochs active
    let dropped = filter (λ oid. mem oid args.drop) roster
    total ←
        aggregate_updates ka fl draws.round_id draws.private roster (length (flat fl m))
          (some update_clip) deltas dropped
    ok (map (λ x. div x (fl.of_int (pos (length active)))) total)

  -- `run_round`. The source sets the model before the evaluation, so an evaluation that raises leaves
  -- the new model there; here the server of before the call stands.
  unfoldable pub run_round :
      Draws
      → FederatedServer ka fl
      → List (FederatedClient fl)
      → RoundArgs
      → Result (RoundResult ka fl × FederatedServer ka fl)
  unfolding mean_update add_noise add_vectors flat from_flat secure_eval sorted
  run_round draws server clients args = do
    let active = filter (λ c. not (mem c.org_id args.drop)) clients
    let roster = map (λ c. c.org_id) clients
    mean ← mean_update draws server.model clients args
    (aggregate, eps_used, dp_sigma) ← add_noise draws args (length active) mean
    model ← from_flat fl server.dim (add_vectors (flat fl server.model) aggregate)
    stats ← secure_eval draws active model
    let result : RoundResult ka fl = record {
      round_id = draws.round_id;
      participants = sorted (map (λ c. c.org_id) active);
      dropped = sorted (filter (λ oid. mem oid args.drop) roster);
      aggregate_delta = aggregate;
      model = model;
      eval_stats = stats;
      dp_applied = args.apply_dp;
      epsilon_used = eps_used;
      dp_sigma = dp_sigma;
      delta_used = args.delta;
    }
    ok (result, record { dim = server.dim; model = model; history = server.history ++ result ∷ [] })
