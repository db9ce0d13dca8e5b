-- ===== src/Storage/Codec.antt =====
-- sentrylink/storage/codec.py. The bytes of a float64 vector and the text of an RDP order are made by
-- code that is not in the repository; a persisted dict is a record.
pub mod Organizations
pub mod Budgets
pub mod Servers
use sentry_link.Base.{
  ℕ, suc, ◌+◌, String, ◌==◌, text_eq, nat_eq, sorted, Bool, true, false, not, List, [], ◌∷◌, map,
  length, if◌then◌else◌,
}
use sentry_link.Base.Dict.{Dict, lookup_or}
use sentry_link.Errors.{Failure, Result, ok, err, ◌>>=◌, ◌>>◌, raise_if}
use sentry_link.Floats.{Floats}
use sentry_link.Crypto.SecureAggregation.{KeyAgreement}
use sentry_link.Crypto.DifferentialPrivacy.Accountant.{
  PrivacyBudget, PrivacyAccountant, Event, new_budget,
}
use sentry_link.Federated.Model.{LogisticModel, flat, from_flat}
use sentry_link.Federated.Server.{EvalStats, RoundResult, FederatedServer, new_federated}
use sentry_link.Governance.Registry.{Organization, KeyHash, is_set}
use sentry_link.Governance.Policy.{ConsentPolicy}

-- The dict that `encode_org` returns.
pub record RawOrg : Type 0 where
  pub org_id : String
  pub name : String
  pub domain : String
  pub sector_group : String
  pub api_key_hash : String
  pub key_algo : String
  pub key_salt : String
  pub active : Bool

unfoldable pub encode_org : KeyHash → Organization → RawOrg
encode_org hash org =
    let has_hash = is_set org.api_key_hash in
    let salt =
      (if has_hash
        then org.key_salt
        else if is_set org.api_key
        then (if is_set org.key_salt then org.key_salt else org.org_id)
        else org.key_salt) in
    record {
      org_id = org.org_id;
      name = org.name;
      domain = org.domain;
      sector_group = org.sector_group;
      api_key_hash =
          if has_hash
          then org.api_key_hash
          else if is_set org.api_key
          then hash org.api_key salt
          else org.api_key_hash;
      key_algo =
          if has_hash then "pbkdf2-sha256" else if is_set org.api_key then "pbkdf2-sha256" else "";
      key_salt = salt;
      active = org.active;
    }

unfoldable pub decode_org : RawOrg → Organization
decode_org raw = record {
  org_id = raw.org_id;
  name = raw.name;
  domain = raw.domain;
  sector_group = raw.sector_group;
  api_key = "";
  active = raw.active;
  api_key_hash = raw.api_key_hash;
  key_salt = raw.key_salt;
}

-- What numpy and the text conversions of an order do.
pub record Formats (fl : Floats) : Type 1 where
  -- The raw bytes of a vector.
  pub Blob : Type 0
  pub to_bytes : List fl.Float → Blob
  pub from_bytes : Blob → List fl.Float
  -- The text of an order, `str(a)`, and `float(a)`.
  pub OrderText : Type 0
  pub show_order : ℕ → OrderText
  pub read_order : OrderText → ℕ

module _ (fl : Floats) where
  pub record RawPolicy : Type 0 where
    pub allowed_metrics : List String
    pub min_participants : ℕ
    pub max_epsilon_per_query : fl.Float
    pub purpose : String

  unfoldable pub encode_policy : ConsentPolicy fl → RawPolicy
  unfolding sorted
  encode_policy policy = record {
    allowed_metrics = sorted policy.allowed_metrics;
    min_participants = policy.min_participants;
    max_epsilon_per_query = policy.max_epsilon_per_query;
    purpose = policy.purpose;
  }

  unfoldable pub decode_policy : RawPolicy → ConsentPolicy fl
  decode_policy raw = record {
    allowed_metrics = raw.allowed_metrics;
    min_participants = raw.min_participants;
    max_epsilon_per_query = raw.max_epsilon_per_query;
    purpose = raw.purpose;
  }

  module _ (formats : Formats fl) where
    -- The budgets are dicts of two floats here, not yet checked.
    pub record RawBudget : Type 0 where
      pub limit : fl.Float × fl.Float
      pub spent : fl.Float × fl.Float
      pub events : List (Event fl)
      pub rdp_totals : Dict formats.OrderText fl.Float
      pub rdp_complete : Bool

    unfoldable pub encode_budget : PrivacyAccountant fl → RawBudget
    encode_budget a = record {
      limit = (a.limit.epsilon, a.limit.delta);
      spent = (a.spent.epsilon, a.spent.delta);
      events = a.events;
      rdp_totals = map (λ e. (formats.show_order e.0, e.1)) a.rdp_totals;
      rdp_complete = a.rdp_complete;
    }

    unfoldable pub decode_budget : RawBudget → Result (PrivacyAccountant fl)
    unfolding new_budget
    decode_budget raw = do
      limit ← new_budget fl raw.limit.0 raw.limit.1
      spent ← new_budget fl raw.spent.0 raw.spent.1
      ok (record {
        limit = limit;
        spent = spent;
        events = raw.events;
        rdp_totals = map (λ e. (formats.read_order e.0, e.1)) raw.rdp_totals;
        rdp_complete = raw.rdp_complete;
      })

    unfoldable pub encode_vector : List fl.Float → formats.Blob
    encode_vector v = formats.to_bytes v

    unfoldable pub decode_vector : formats.Blob → ℕ → Result (List fl.Float)
    decode_vector blob dim = do
      let v = formats.from_bytes blob
      raise_if (not (length v == dim)) Failure.value_error
      ok v

    pub record RawServer : Type 0 where
      pub key : String
      pub dim : ℕ
      pub bias : fl.Float
      pub weights : formats.Blob
      pub rounds : ℕ

    module _ (ka : KeyAgreement) where
      pub record RawRound : Type 0 where
        pub server_key : String
        pub round_id : String
        pub participants : List String
        pub dropped : List String
        pub aggregate_delta : formats.Blob
        pub weights : formats.Blob
        pub eval_stats : EvalStats ka fl
        pub dp_applied : Bool
        pub epsilon_used : fl.Float
        pub dp_sigma : fl.Float
        pub delta_used : fl.Float

      unfoldable pub encode_server : String → FederatedServer ka fl → RawServer
      unfolding encode_vector flat
      encode_server key server = record {
        key = key;
        dim = server.dim;
        bias = server.model.bias;
        weights = encode_vector (flat fl server.model);
        rounds = length server.history;
      }

      unfoldable pub encode_round : String → RoundResult ka fl → RawRound
      unfolding encode_vector flat
      encode_round server_key result = record {
        server_key = server_key;
        round_id = result.round_id;
        participants = result.participants;
        dropped = result.dropped;
        aggregate_delta = encode_vector result.aggregate_delta;
        weights = encode_vector (flat fl result.model);
        eval_stats = result.eval_stats;
        dp_applied = result.dp_applied;
        epsilon_used = result.epsilon_used;
        dp_sigma = result.dp_sigma;
        delta_used = result.delta_used;
      }

      unfoldable pub decode_round : RawRound → ℕ → Result (RoundResult ka fl)
      unfolding decode_vector from_flat
      decode_round raw dim = do
        weights ← decode_vector raw.weights (suc dim)
        model ← from_flat fl dim weights
        delta ← decode_vector raw.aggregate_delta (suc dim)
        ok (record {
          round_id = raw.round_id;
          participants = raw.participants;
          dropped = raw.dropped;
          aggregate_delta = delta;
          model = model;
          eval_stats = raw.eval_stats;
          dp_applied = raw.dp_applied;
          epsilon_used = raw.epsilon_used;
          dp_sigma = raw.dp_sigma;
          delta_used = raw.delta_used;
        })

      unfoldable pub decode_rounds : List RawRound → ℕ → Result (List (RoundResult ka fl))
      unfolding decode_round
      decode_rounds [] dim = ok []
      decode_rounds (r ∷ rounds) dim = do
        result ← decode_round r dim
        rest ← decode_rounds rounds dim
        ok (result ∷ rest)

      unfoldable pub decode_server : RawServer → List RawRound → Result (FederatedServer ka fl)
      unfolding decode_vector from_flat decode_rounds
      decode_server raw rounds = do
        weights ← decode_vector raw.weights (suc raw.dim)
        model ← from_flat fl raw.dim weights
        history ← decode_rounds rounds raw.dim
        raise_if (not (length history == raw.rounds)) Failure.assertion_error
        ok (record { dim = raw.dim; model = model; history = history })
