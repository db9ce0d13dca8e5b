-- ===== src/Crypto/SecretSharing.antt =====
-- sentrylink/crypto/secret_sharing.py. The draws of `secrets.randbelow(FIELD_P)` are a tape, a
-- parameter: the k-th draw of a call is `tape k`.
pub mod Sharing
pub mod Split
use sentry_link.Base.{
  ℕ, zero, suc, ◌+◌, ◌*◌, ◌%◌, String, ◌==◌, text_eq, nat_eq, Bool, true, false, not, ◌&&◌, ◌||◌,
  List, [], ◌∷◌, map, any, length, replicate, ltb, if◌then◌else◌, ◌≡◌, refl,
}
use sentry_link.Base.Int.{ℤ, pos, negsuc}
use sentry_link.Base.Dict.{Dict, insert}
use sentry_link.Errors.{Failure, Result, ok, err, ◌>>=◌, ◌>>◌, raise_if}
use sentry_link.Config.{field_p}
use sentry_link.Modular.{zip_with, vadd, vsub}

pub record Share : Type 0 where
  pub node_id : String
  pub values : List ℕ

abbrev same_shape : Share → Share → Bool
same_shape s t = s.node_id == t.node_id && length s.values == length t.values

-- `Share.__add__`
unfoldable pub share_add : Share → Share → Result Share
share_add s t =
    if same_shape s t
    then ok (record { node_id = s.node_id; values = vadd field_p s.values t.values })
    else err Failure.value_error

-- `Share.__sub__`
unfoldable pub share_sub : Share → Share → Result Share
share_sub s t =
    if same_shape s t
    then ok (record { node_id = s.node_id; values = vsub field_p s.values t.values })
    else err Failure.value_error

-- `Share.scale`
unfoldable pub scale : Share → ℕ → Share
scale s k = record { node_id = s.node_id; values = map (λ v. (k * v) % field_p) s.values }

-- `_as_ints`: every value must lie in the field.
unfoldable pub as_ints : List ℤ → Result (List ℕ)
as_ints [] = ok []
as_ints (pos x ∷ xs) =
    let rest = as_ints xs in
    if ltb x field_p then (do ys ← rest; ok (x ∷ ys)) else err Failure.value_error
as_ints (negsuc x ∷ xs) = err Failure.value_error

-- The next `n` draws, from position `k` of the tape.
unfoldable pub draws : (ℕ → ℕ) → ℕ → ℕ → List ℕ
draws tape k zero = []
draws tape k (suc n) = tape k ∷ draws tape (suc k) n

-- The loop over `node_ids[:-1]`, and the last node's share.
unfoldable pub share_loop :
    (ℕ → ℕ) → ℕ → List ℕ → List String → List ℕ → Dict String Share → Dict String Share
unfolding draws
share_loop tape k ints [] acc shares = shares
share_loop tape k ints (last ∷ []) acc shares =
    insert last (record { node_id = last; values = vsub field_p ints acc }) shares
share_loop tape k ints (node ∷ next ∷ nodes) acc shares =
    let vals = draws tape k (length ints) in
    share_loop tape (k + length ints) ints (next ∷ nodes) (vadd field_p acc vals)
      (insert node (record { node_id = node; values = vals }) shares)

unfoldable pub share_vector : (ℕ → ℕ) → List ℤ → List String → Result (Dict String Share)
unfolding share_loop as_ints
share_vector tape values node_ids = do
  raise_if (ltb (length node_ids) 2) Failure.value_error
  ints ← as_ints values
  ok (share_loop tape 0 ints node_ids (replicate (length ints) 0) [])

unfoldable pub share_scalar : (ℕ → ℕ) → ℤ → List String → Result (Dict String Share)
unfolding share_vector
share_scalar tape value node_ids = share_vector tape (value ∷ []) node_ids

-- `sum(s.values[i] for s in shares)` for each of the first `n` positions.
unfoldable pub column_sums : ℕ → List Share → List ℕ
column_sums n [] = replicate n 0
column_sums n (s ∷ shares) = zip_with (λ a b. a + b) s.values (column_sums n shares)

unfoldable pub reconstruct : List Share → Result (List ℕ)
unfolding column_sums
reconstruct [] = err Failure.value_error
reconstruct (s ∷ shares) =
    let n = length s.values in
    if any (λ t. not (length t.values == n)) (s ∷ shares)
    then err Failure.value_error
    else ok (map (λ t. t % field_p) (column_sums n (s ∷ shares)))
