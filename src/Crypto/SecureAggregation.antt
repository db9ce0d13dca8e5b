-- ===== src/Crypto/SecureAggregation.antt =====
-- sentrylink/crypto/secure_aggregation.py. X25519, HKDF and SHA-256 are a parameter, as are floats and
-- the HMAC of the mask generator. A numpy int64 array is a list of 64-bit patterns.
pub mod Masks
pub mod Unmask
use Prim.Native.String.{◌++◌ as text_append}
use sentry_link.Base.{
  ℕ, ◌^◌, String, ◌==◌, text_eq, nat_eq, pair_eq, mem, text_lt, sorted, sorted_pair, Bool, true,
  false, not, ◌&&◌, Option, none, some, List, [], ◌∷◌, map, filter, all, length, replicate,
  if◌then◌else◌,
}
use sentry_link.Base.Int.{pos}
use sentry_link.Base.Dict.{Dict, keys, values, lookup, insert}
use sentry_link.Errors.{Failure, Result, ok, err, ◌>>=◌, ◌>>◌, raise_if, or_raise}
use sentry_link.Config.{quant_scale}
use sentry_link.Floats.{Floats, zero_float}
use sentry_link.Modular.{vadd, vsub}
use sentry_link.Crypto.Prg.{Bytes, int_masks}

pub record KeyAgreement : Type 1 where
  pub PrivateKey : Type 0
  -- `private_key.public_key().public_bytes_raw()`
  pub public_bytes : PrivateKey → Bytes
  -- Whether `X25519PublicKey.from_public_bytes` accepts.
  pub is_public : Bytes → Bool
  pub exchange : PrivateKey → Bytes → Bytes
  -- HKDF over SHA-256 to 32 bytes: the shared secret, the salt and the info text.
  pub hkdf : Bytes → Bytes → String → Bytes
  pub sha256 : String → Bytes
  -- HMAC-SHA256 of a seed and a counter.
  pub hmac : Bytes → ℕ → Bytes

-- numpy's int64 arithmetic.
abbrev pub word_mod : ℕ
word_mod = 2 ^ 64

unfoldable pub quantize : (fl : Floats) → List fl.Float → List ℕ
quantize fl = map (λ x. fl.rint_int64 (fl.mul x (fl.of_int (pos quant_scale))))

unfoldable pub dequantize : (fl : Floats) → List ℕ → List fl.Float
dequantize fl = map (λ n. fl.div (fl.of_int64 n) (fl.of_int (pos quant_scale)))

unfoldable pub clip_l2 : (fl : Floats) → List fl.Float → fl.Float → List fl.Float
clip_l2 fl v bound =
    let norm = fl.norm v in
    if fl.lt bound norm && fl.lt (zero_float fl) norm
    then map (λ x. fl.mul x (fl.div bound norm)) v
    else v

pub record Contribution : Type 0 where
  pub org_id : String
  pub masked_update : List ℕ
  pub public_key : Bytes

pub record SecAggServer : Type 0 where
  pub round_id : String
  pub roster : List String
  pub dim : ℕ
  pub public_keys : Dict String Bytes
  pub contributions : Dict String Contribution
  pub revealed_seeds : Dict (String × String) Bytes

abbrev pub new_server : String → List String → ℕ → SecAggServer
new_server round_id roster dim = record {
  round_id = round_id;
  roster = roster;
  dim = dim;
  public_keys = [];
  contributions = [];
  revealed_seeds = [];
}

-- `info` of the key derivation.
unfoldable pub info_text : String × String → String
info_text (a, b) = text_append "sentrylink/agg/v1/" (text_append a (text_append "/" b))

-- The sum of the contributions in `finalize`.
unfoldable pub total_loop : List Contribution → List ℕ → List ℕ
total_loop [] total = total
total_loop (c ∷ contributions) total =
    total_loop contributions (vadd word_mod total c.masked_update)

module _ (ka : KeyAgreement) where
  open ka use {PrivateKey, public_bytes, is_public, exchange, hkdf, sha256, hmac}

  -- `_pairwise_seed`
  unfoldable pub pairwise_seed : PrivateKey → Bytes → String → String → String → Result Bytes
  pairwise_seed private peer_public round_id i j =
      if is_public peer_public
      then ok (hkdf (exchange private peer_public) (sha256 round_id) (info_text (sorted_pair i j)))
      else err Failure.value_error

  pub record SecAggClient : Type 0 where
    pub org_id : String
    pub round_id : String
    pub roster : List String
    pub dim : ℕ
    pub private_key : PrivateKey

  -- `SecAggClient.__init__`, with the private key that it generates.
  unfoldable pub new_client : String → String → List String → ℕ → PrivateKey → Result SecAggClient
  new_client org_id round_id roster dim private_key =
      if mem org_id roster
      then ok (record {
        org_id = org_id;
        round_id = round_id;
        roster = roster;
        dim = dim;
        private_key = private_key;
      })
      else err Failure.permission_error

  -- The body of the loop over the roster in `mask_and_send`.
  unfoldable pub mask_step : SecAggClient → Dict String Bytes → String → List ℕ → Result (List ℕ)
  unfolding pairwise_seed
  mask_step client peer_keys peer mask = if peer == client.org_id then ok mask else do
    peer_key ← or_raise (lookup peer peer_keys) Failure.key_error
    seed ← pairwise_seed client.private_key peer_key client.round_id client.org_id peer
    let stream = int_masks hmac seed client.dim
    ok (if text_lt client.org_id peer then vadd word_mod mask stream else vsub word_mod mask stream)

  unfoldable pub mask_loop :
      SecAggClient → Dict String Bytes → List String → List ℕ → Result (List ℕ)
  mask_loop client peer_keys [] mask = ok mask
  mask_loop client peer_keys (peer ∷ roster) mask = do
    mask' ← mask_step client peer_keys peer mask
    mask_loop client peer_keys roster mask'

  -- `set(peer_keys) == set(self.roster)`
  abbrev pub same_set : List String → List String → Bool
  same_set xs ys = all (λ x. mem x ys) xs && all (λ y. mem y xs) ys

  unfoldable pub mask_and_send :
      (fl : Floats)
      → SecAggClient
      → List fl.Float
      → Dict String Bytes
      → Option fl.Float
      → Result Contribution
  unfolding mask_loop clip_l2 quantize
  mask_and_send fl client update peer_keys clip_bound = do
    raise_if (not (same_set (keys peer_keys) client.roster)) Failure.protocol
    raise_if (not (all fl.is_finite update)) Failure.invalid_data
    let v : List fl.Float = elim clip_bound [ none ↦ update | some bound ↦ clip_l2 fl update bound ]
    let q = quantize fl v
    raise_if (not (length q == client.dim)) Failure.invalid_data
    mask ← mask_loop client peer_keys client.roster (replicate client.dim 0)
    ok (record {
      org_id = client.org_id;
      masked_update = vadd word_mod q mask;
      public_key = public_bytes client.private_key;
    })

  unfoldable pub reveal_seed : SecAggClient → String → Bytes → Result Bytes
  unfolding pairwise_seed
  reveal_seed client dropped_id dropped_public = do
    raise_if (not (mem dropped_id client.roster)) Failure.value_error
    raise_if (dropped_id == client.org_id) Failure.value_error
    pairwise_seed client.private_key dropped_public client.round_id client.org_id dropped_id

  -- `SecAggServer.register`
  unfoldable pub register : SecAggServer → String → Bytes → Result SecAggServer
  register server org_id public_key = do
    raise_if (not (mem org_id server.roster)) Failure.permission_error
    raise_if (not (is_public public_key)) Failure.value_error
    ok (record server { public_keys = insert org_id public_key server.public_keys })

  -- `SecAggServer.receive`
  unfoldable pub receive : SecAggServer → Contribution → Result SecAggServer
  receive server contrib = do
    raise_if (not (mem contrib.org_id server.roster)) Failure.permission_error
    raise_if (not (length contrib.masked_update == server.dim)) Failure.value_error
    ok (record server { contributions = insert contrib.org_id contrib server.contributions })

  -- `SecAggServer.add_recovery_seed`
  unfoldable pub add_recovery_seed : SecAggServer → String → String → Bytes → Result SecAggServer
  add_recovery_seed server survivor dropped seed = do
    raise_if (not (mem survivor server.roster && mem dropped server.roster)) Failure.value_error
    ok (record server {
      revealed_seeds = insert (sorted_pair survivor dropped) seed server.revealed_seeds;
    })

  -- The body of the inner loop of `finalize`.
  unfoldable pub residual_step : SecAggServer → String → String → List ℕ → Result (List ℕ)
  residual_step server survivor drop residual = do
    seed ← or_raise (lookup (sorted_pair survivor drop) server.revealed_seeds) Failure.protocol
    let stream = int_masks hmac seed server.dim
    ok (
        if text_lt survivor drop
        then vadd word_mod residual stream
        else vsub word_mod residual stream)

  unfoldable pub residual_inner : SecAggServer → String → List String → List ℕ → Result (List ℕ)
  residual_inner server survivor [] residual = ok residual
  residual_inner server survivor (drop ∷ dropped) residual = do
    residual' ← residual_step server survivor drop residual
    residual_inner server survivor dropped residual'

  unfoldable pub residual_loop : SecAggServer → List String → List String → List ℕ → Result (List ℕ)
  residual_loop server [] dropped residual = ok residual
  residual_loop server (survivor ∷ received) dropped residual = do
    residual' ← residual_inner server survivor dropped residual
    residual_loop server received dropped residual'

  -- `SecAggServer.finalize`
  unfoldable pub finalize : (fl : Floats) → SecAggServer → Result (List fl.Float)
  unfolding residual_loop total_loop
  finalize fl server = do
    raise_if (length server.contributions == 0) Failure.protocol
    let received = keys server.contributions
    let dropped = filter (λ oid. not (mem oid received)) server.roster
    residual ← residual_loop server received dropped (replicate server.dim 0)
    let total = total_loop (values server.contributions) (replicate server.dim 0)
    ok (dequantize fl (vsub word_mod total residual))

unfoldable pub participants : SecAggServer → List String
unfolding sorted
participants server = sorted (keys server.contributions)
