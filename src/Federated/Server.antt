-- ===== src/Federated/Server.antt =====
-- `FederatedServer` of sentrylink/federated/server.py, without the round. What a round draws is an
-- argument: the ids, the private keys, the orders of the training rows and the noise.
use sentry_link.Base.{
  ℕ, String, ◌==◌, nat_eq, text_eq, Bool, not, List, [], ◌∷◌, map, Option, none, some,
}
use sentry_link.Base.Int.{ℤ}
use sentry_link.Base.Dict.{Dict, lookup}
use sentry_link.Errors.{Failure, Result, ok, ◌>>=◌, ◌>>◌, raise_if, or_raise}
use sentry_link.Floats.{Floats}
use sentry_link.Crypto.SecureAggregation.{
  KeyAgreement, SecAggServer, SecAggClient, new_server, new_client, mask_and_send, reveal_seed,
  register, receive, add_recovery_seed, finalize,
}
use sentry_link.Federated.Model.{LogisticModel, zeros, FederatedClient, local_train}

module _ (ka : KeyAgreement) (fl : Floats) where
  open fl use {Float, add, div, eq}
  open ka use {PrivateKey, public_bytes}

  -- `_secure_eval`'s figures; the constant entry on the mechanism is left out, and a missing mean is
  -- `none` where the source has a NaN.
  pub record EvalStats : Type 0 where
    pub n : ℤ
    pub mean_loss : Option Float
    pub accuracy : Option Float
    pub n_correct : ℤ

  pub record RoundResult : Type 0 where
    pub round_id : String
    pub participants : List String
    pub dropped : List String
    pub aggregate_delta : List Float
    pub model : LogisticModel fl
    pub eval_stats : EvalStats
    pub dp_applied : Bool
    pub epsilon_used : Float
    pub dp_sigma : Float
    pub delta_used : Float

  pub record FederatedServer : Type 0 where
    pub dim : ℕ
    pub model : LogisticModel fl
    pub history : List RoundResult

  -- `FederatedServer.__post_init__`
  unfoldable pub new_federated : ℕ → Option (LogisticModel fl) → Result FederatedServer
  unfolding zeros
  new_federated dim none = ok (record { dim = dim; model = zeros fl dim; history = [] })
  new_federated dim (some m) = do
    raise_if (not (m.dim == dim)) Failure.model_dimension_mismatch
    ok (record { dim = dim; model = m; history = [] })

  -- `{c.org_id: SecAggClient(...) for c in clients}`, of distinct ids.
  unfoldable pub make_parties :
      String
      → List String
      → ℕ
      → (String → PrivateKey)
      → List String
      → Result (Dict String (SecAggClient ka))
  unfolding new_client
  make_parties round_id roster dim private [] = ok []
  make_parties round_id roster dim private (oid ∷ ids) = do
    party ← new_client ka oid round_id roster dim (private oid)
    rest ← make_parties round_id roster dim private ids
    ok ((oid, party) ∷ rest)

  -- The loop that registers the parties' public keys.
  unfoldable pub register_parties :
      SecAggServer → Dict String (SecAggClient ka) → Result SecAggServer
  unfolding register
  register_parties agg [] = ok agg
  register_parties agg ((oid, party) ∷ parties) = do
    agg' ← register ka agg oid (public_bytes party.private_key)
    register_parties agg' parties

  -- `{c.org_id: c.local_train(model) for c in active}`, of distinct ids.
  unfoldable pub train_all :
      LogisticModel fl
      → (String → ℕ → List ℕ)
      → ℕ
      → List (FederatedClient fl)
      → Result (Dict String (List Float))
  unfolding local_train
  train_all m orders epochs [] = ok []
  train_all m orders epochs (c ∷ active) = do
    update ← local_train fl c m (orders c.org_id) epochs
    rest ← train_all m orders epochs active
    ok ((c.org_id, update) ∷ rest)

  -- The loop that receives the masked updates.
  unfoldable pub send_all :
      Dict String (SecAggClient ka)
      → Option Float
      → Dict String (List Float)
      → SecAggServer
      → Result SecAggServer
  unfolding mask_and_send receive
  send_all parties clip_bound [] agg = ok agg
  send_all parties clip_bound ((oid, update) ∷ deltas) agg = do
    party ← or_raise (lookup oid parties) Failure.key_error
    contrib ← mask_and_send ka fl party update agg.public_keys clip_bound
    agg' ← receive ka agg contrib
    send_all parties clip_bound deltas agg'

  -- The inner loop that reveals a survivor's seeds with the dropped parties.
  unfoldable pub reveal_inner :
      SecAggClient ka → String → List String → SecAggServer → Result SecAggServer
  unfolding reveal_seed add_recovery_seed
  reveal_inner party survivor [] agg = ok agg
  reveal_inner party survivor (d ∷ dropped) agg = do
    key ← or_raise (lookup d agg.public_keys) Failure.key_error
    seed ← reveal_seed ka party d key
    agg' ← add_recovery_seed ka agg survivor d seed
    reveal_inner party survivor dropped agg'

  unfoldable pub reveal_all :
      Dict String (SecAggClient ka) → List String → List String → SecAggServer → Result SecAggServer
  unfolding reveal_inner
  reveal_all parties [] dropped agg = ok agg
  reveal_all parties (survivor ∷ survivors) dropped agg = do
    party ← or_raise (lookup survivor parties) Failure.key_error
    agg' ← reveal_inner party survivor dropped agg
    reveal_all parties survivors dropped agg'

  -- The aggregation of a round or of its evaluation: the parties register, those with an update send
  -- it masked, and they reveal their seeds with the dropped.
  unfoldable pub aggregate_updates :
      String
      → (String → PrivateKey)
      → List String
      → ℕ
      → Option Float
      → Dict String (List Float)
      → List String
      → Result (List Float)
  unfolding make_parties register_parties send_all reveal_all finalize
  aggregate_updates round_id private roster dim clip_bound deltas dropped = do
    parties ← make_parties round_id roster dim private roster
    registered ← register_parties (new_server round_id roster dim) parties
    sent ← send_all parties clip_bound deltas registered
    revealed ← reveal_all parties (map (λ e. e.0) deltas) dropped sent
    finalize ka fl revealed
