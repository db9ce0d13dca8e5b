-- ===== src/Storage/Codec/Servers.antt =====
-- A federated server survives its persisted form.
use sentry_link.Base.{
  ℕ, suc, String, nat_eq, beq_refl, List, [], ◌∷◌, map, length, All, ◌≡◌, refl, sym, ap,
}
use sentry_link.Errors.{ok}
use sentry_link.Floats.{Floats}
use sentry_link.Crypto.SecureAggregation.{KeyAgreement}
use sentry_link.Federated.Model.{LogisticModel, flat, from_flat}
use sentry_link.Federated.Server.{RoundResult, FederatedServer}
use sentry_link.Storage.Codec.{
  Formats, encode_vector, decode_vector, encode_server, encode_round, decode_round, decode_rounds,
  decode_server,
}

module _ (fl : Floats) (formats : Formats fl) (ka : KeyAgreement)
    (exact : (v : List fl.Float) → formats.from_bytes (formats.to_bytes v) ≡ v) where
  -- A model of a dimension, with as many weights.
  pub record HasDim (dim : ℕ) (m : LogisticModel fl) : Type 0 where
    pub same_dim : m.dim ≡ dim
    pub all_weights : length m.weights ≡ dim

  pub record IsRound (dim : ℕ) (r : RoundResult ka fl) : Type 0 where
    pub model : HasDim dim r.model
    pub delta : length r.aggregate_delta ≡ suc dim

  decode_vector-encode_vector :
      (v : List fl.Float) (n : ℕ)
      → length v ≡ n
      → decode_vector fl formats (encode_vector fl formats v) n ≡ ok v
  unfolding decode_vector encode_vector
  decode_vector-encode_vector v n h = rw (exact v) (rw h (rw (beq_refl n) refl))

  -- The model that is read back, which has the dimension it is read with.
  same_model : (dim : ℕ) (m : LogisticModel fl) → HasDim dim m → record m { dim = dim } ≡ m
  same_model dim m h = λ i. record { dim = sym h.same_dim i; weights = m.weights; bias = m.bias }

  flat-length : (dim : ℕ) (m : LogisticModel fl) → HasDim dim m → length (flat fl m) ≡ suc dim
  unfolding flat
  flat-length dim m h = ap suc h.all_weights

  decode_round-encode_round :
      (key : String) (dim : ℕ) (r : RoundResult ka fl)
      → IsRound dim r
      → decode_round fl formats ka (encode_round fl formats ka key r) dim ≡ ok r
  unfolding decode_round encode_round from_flat flat
  decode_round-encode_round key dim r h =
      rw
        (
          decode_vector-encode_vector (flat fl r.model) (suc dim) (flat-length dim r.model h.model),
          decode_vector-encode_vector r.aggregate_delta (suc dim) h.delta,
        )
        (ap (λ m. ok (record r { model = m })) (same_model dim r.model h.model))

  decode_rounds-encode_round :
      (key : String) (dim : ℕ) (rs : List (RoundResult ka fl))
      → All (IsRound dim) rs
      → decode_rounds fl formats ka (map (encode_round fl formats ka key) rs) dim ≡ ok rs
  unfolding decode_rounds
  decode_rounds-encode_round key dim [] h = refl
  decode_rounds-encode_round key dim (r ∷ rs) h =
      rw (decode_round-encode_round key dim r h.0)
        (rw (decode_rounds-encode_round key dim rs h.1) refl)

  -- A server whose model and rounds have its dimension is read back from the persisted forms of
  -- itself and of its rounds unchanged, if the bytes of a vector give the vector back.
  pub decode_server-encode_server :
      (key : String) (server : FederatedServer ka fl)
      → HasDim server.dim server.model
      → All (IsRound server.dim) server.history
      → decode_server fl formats ka
          (encode_server fl formats ka key server)
          (map (encode_round fl formats ka key) server.history)
        ≡ ok server
  unfolding decode_server encode_server from_flat flat
  decode_server-encode_server key server hm hr =
      rw
        (
          decode_vector-encode_vector (flat fl server.model) (suc server.dim)
              (flat-length server.dim server.model hm),
          decode_rounds-encode_round key server.dim server.history hr,
          beq_refl (length server.history),
        )
        (ap (λ m. ok (record server { model = m })) (same_model server.dim server.model hm))
