-- ===== src/Api/Learning.antt =====
-- The endpoints of sentrylink/api/app.py for federated learning. numpy raises a ValueError for rows of
-- different lengths; no call of a round raises a bare RuntimeError.
use sentry_link.Base.{
  ℕ, String, ◌==◌, text_eq, nat_eq, Bool, not, List, [], ◌∷◌, length, all, Option, none, some,
}
use sentry_link.Base.Dict.{Dict, lookup, insert}
use sentry_link.Errors.{Failure, Result, ok, err, ◌>>=◌, ◌>>◌, raise_if}
use sentry_link.Floats.{Floats}
use sentry_link.Crypto.SecureAggregation.{KeyAgreement}
use sentry_link.Federated.Model.{FederatedClient, new_client, flat}
use sentry_link.Federated.Server.{EvalStats, RoundResult, FederatedServer}
use sentry_link.Governance.Registry.{Organization}
use sentry_link.Privacy.{ReleaseCard}
use sentry_link.Storage.Codec.{Formats}
use sentry_link.Platform.{Platform, Setup, Outcome}
use sentry_link.Platform.Queries.{QueryArgs}
use sentry_link.Platform.Rounds.{RoundDraws, server_key, run_federated_round}
use sentry_link.Platform.Reports.{ModelMetadata, model_release_metadata, federated_release_card}
use sentry_link.Api.{
  Raised, Reply, Caller, Service, Served, query_raised, require_cohort_member, spending,
}

module _ (fl : Floats) (formats : Formats fl) (ka : KeyAgreement) where
  -- `FederatedClientData`
  pub record ClientData : Type 0 where
    pub org_id : String
    pub x : List (List fl.Float)
    pub y : List fl.Float

  pub record RoundRequest : Type 0 where
    pub args : QueryArgs fl formats ka
    pub clients : List ClientData
    pub epochs : ℕ
    pub drop : List String

  -- The columns of a matrix.
  abbrev pub columns : List (List fl.Float) → ℕ
  columns [] = 0
  columns (row ∷ rows) = length row

  -- `np.asarray`, and `FederatedClient` with its default rates.
  unfoldable pub client_of : ClientData → Result (FederatedClient fl)
  unfolding new_client
  client_of c = do
    raise_if (not (all (λ row. length row == columns c.x) c.x)) Failure.value_error
    new_client fl c.org_id (columns c.x) c.x c.y (fl.decimal 1 1) (fl.decimal 1 3)

  -- `{c.org_id: c for c in clients}`, over what the dict has so far.
  unfoldable pub clients_of :
      List ClientData → Dict String (FederatedClient fl) → Result (Dict String (FederatedClient fl))
  unfolding client_of
  clients_of [] d = ok d
  clients_of (c ∷ cs) d = do client ← client_of c; clients_of cs (insert c.org_id client d)

  pub record RoundResponse : Type 0 where
    pub round_id : String
    pub participants : List String
    pub dropped : List String
    pub dp_applied : Bool
    pub epsilon_used : fl.Float
    pub eval_stats : EvalStats ka fl
    pub weights : List fl.Float
    pub metadata : ModelMetadata fl formats ka
    pub privacy_card : ReleaseCard fl

  -- The response for a round that has returned, with the card of the new model.
  unfoldable pub round_response :
      Platform fl formats ka → QueryArgs fl formats ka → RoundResult ka fl → Result RoundResponse
  unfolding model_release_metadata federated_release_card flat
  round_response p args result = do
    let key = server_key args.sector_group args.domain
    metadata ← model_release_metadata fl formats ka p key
    card ← federated_release_card fl formats ka p key args.domain
    ok (record {
      round_id = result.round_id;
      participants = result.participants;
      dropped = result.dropped;
      dp_applied = result.dp_applied;
      epsilon_used = result.epsilon_used;
      eval_stats = result.eval_stats;
      weights = flat fl result.model;
      metadata = metadata;
      privacy_card = card;
    })

  -- What is raised outside the `try` is not caught.
  abbrev pub uncaught : {A : Type 0} → Result A → Reply A
  uncaught (ok a) = Reply.answered a
  uncaught (err f) = Reply.raised (Raised.failure f)

  -- The reply to what a round has done.
  unfoldable pub round_replied :
      Service fl formats ka
      → QueryArgs fl formats ka
      → Outcome fl formats ka (RoundResult ka fl)
      → Served fl formats ka RoundResponse
  unfolding round_response query_raised
  round_replied s args (p, ok result) =
      (record s { platform = p }, uncaught (round_response p args result))
  round_replied s args (p, err f) = (record s { platform = p }, Reply.raised (query_raised f))

  -- A round whose caller was admitted, once its clients are built.
  unfoldable pub round_admitted :
      Setup fl formats ka
      → RoundDraws fl formats ka
      → RoundRequest
      → Service fl formats ka
      → Result (Dict String (FederatedClient fl))
      → Served fl formats ka RoundResponse
  unfolding round_replied run_federated_round
  round_admitted setup draws req s (err f) = (s, Reply.raised (Raised.failure f))
  round_admitted setup draws req s (ok clients) = round_replied s req.args (
      run_federated_round fl formats ka setup draws s.platform clients req.args req.drop req.epochs)

  unfoldable pub federated_round :
      Setup fl formats ka
      → RoundDraws fl formats ka
      → Service fl formats ka
      → Caller
      → fl.Float
      → RoundRequest
      → Served fl formats ka RoundResponse
  unfolding spending round_admitted clients_of
  federated_round setup draws s caller now req =
      spending fl formats ka setup s caller req.args.sector_group req.args.domain now
        (λ s'. round_admitted setup draws req s' (clients_of req.clients []))

  -- The dict that `get_model` returns.
  pub record ModelResponse : Type 0 where
    pub key : String
    pub dim : ℕ
    pub weights : List fl.Float
    pub rounds : ℕ
    pub metadata : ModelMetadata fl formats ka
    pub privacy_card : ReleaseCard fl

  -- The response for a server of the cohort; a server always has a model.
  unfoldable pub model_response :
      Platform fl formats ka → String → String → FederatedServer ka fl → Result ModelResponse
  unfolding model_release_metadata federated_release_card flat
  model_response p key domain server = do
    metadata ← model_release_metadata fl formats ka p key
    card ← federated_release_card fl formats ka p key domain
    ok (record {
      key = key;
      dim = server.dim;
      weights = flat fl server.model;
      rounds = length server.history;
      metadata = metadata;
      privacy_card = card;
    })

  -- `get_model` after the member check.
  unfoldable pub model_found :
      Platform fl formats ka
      → String
      → String
      → Option (FederatedServer ka fl)
      → Result Organization
      → Reply ModelResponse
  unfolding model_response
  model_found p key domain found (err f) = Reply.raised (Raised.failure f)
  model_found p key domain none (ok org) = Reply.raised (Raised.http 404)
  model_found p key domain (some server) (ok org) = uncaught (model_response p key domain server)

  unfoldable pub get_model :
      Setup fl formats ka → Service fl formats ka → Caller → String → String → Reply ModelResponse
  unfolding model_found require_cohort_member
  get_model setup s caller sector_group domain =
      let key = server_key sector_group domain in
      model_found s.platform key domain (lookup key s.platform.servers)
        (require_cohort_member setup.key_hash s.platform.policy.registry sector_group domain caller)
