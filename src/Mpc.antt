-- ===== src/Mpc.antt =====
-- sentrylink/mpc/stats.py: statistics over additively shared sufficient statistics. The random draws
-- of the k-th `share_vector` call of a run are `tapes k`.
pub mod Residues
pub mod Pool
pub mod Exact
use sentry_link.Base.{
  ℕ, zero, suc, ◌+◌, ◌*◌, ◌/◌, ◌%◌, String, ◌==◌, text_eq, Option, none, some, List, [], ◌∷◌, map,
  length, ltb, nat_eq, not, if◌then◌else◌, ◌≡◌, refl, Bool, ◌||◌,
}
use sentry_link.Base.Int.{ℤ, pos, negsuc, sub_ℕ, ◌+ℤ◌, ◌*ℤ◌, ltb_ℤ}
use sentry_link.Base.Dict.{Dict, lookup, insert, values}
use sentry_link.Errors.{Failure, Result, ok, err, ◌>>=◌, ◌>>◌, raise_if, or_raise}
use sentry_link.Config.{field_p, quant_scale}
use sentry_link.Floats.{Floats, zero_float, one_float, max_float, clip}
use sentry_link.Modular.{signed64, mod_ℤ, vadd, vsub}
use sentry_link.Crypto.SecretSharing.{Share, share_add, share_vector, reconstruct}
use sentry_link.Crypto.SecretSharing.Sharing.{gather}

-- `int(round half to even of v * QUANT_SCALE)` for each value, through int64.
unfoldable pub quantize_ints : (fl : Floats) → List fl.Float → List ℤ
unfolding signed64
quantize_ints fl = map (λ v. signed64 (fl.rint_int64 (fl.mul v (fl.of_int (pos quant_scale)))))

unfoldable pub signed_mod : ℕ → ℤ
signed_mod v = let r = v % field_p in if ltb (field_p / 2) r then sub_ℕ r field_p else pos r

unfoldable pub dequantize_sum : (fl : Floats) → ℕ → fl.Float
unfolding signed_mod
dequantize_sum fl v = fl.div (fl.of_int (signed_mod v)) (fl.of_int (pos quant_scale))

pub record ComputeNode : Type 0 where
  pub node_id : String
  pub shares : Dict String Share

-- `ComputeNode.receive`
unfoldable pub receive : ComputeNode → String → Share → Result ComputeNode
receive node query_id share =
    if share.node_id == node.node_id
    then ok (record node { shares = insert query_id share node.shares })
    else err Failure.value_error

-- `ComputeNode.get`
unfoldable pub get : ComputeNode → String → Result Share
get node query_id = or_raise (lookup query_id node.shares) Failure.key_error

-- The loop of the dict comprehension in `elementwise_add`.
unfoldable pub add_loop :
    Dict String Share
    → Dict String Share
    → List String
    → Dict String Share
    → Result (Dict String Share)
unfolding share_add
add_loop x y [] d = ok d
add_loop x y (node ∷ nodes) d = do
  s ← or_raise (lookup node x) Failure.key_error
  t ← or_raise (lookup node y) Failure.key_error
  r ← share_add s t
  add_loop x y nodes (insert node r d)

unfoldable pub elementwise_add :
    Dict String Share → Dict String Share → List String → Result (Dict String Share)
unfolding add_loop
elementwise_add x y node_ids = add_loop x y node_ids []

-- `acc = sh if acc is None else elementwise_add(acc, sh, node_ids)`
unfoldable pub accumulate :
    Option (Dict String Share) → Dict String Share → List String → Result (Dict String Share)
unfolding elementwise_add
accumulate none sh node_ids = ok sh
accumulate (some acc) sh node_ids = elementwise_add acc sh node_ids

-- The loop over the organizations that the three statistics share: each organization's row is
-- reduced to a vector, which is shared and added to what came before.
module _ {A : Type 0} (tapes : ℕ → ℕ → ℕ) (row : A → Result (List ℤ)) (node_ids : List String) where
  unfoldable pub share_rows :
      ℕ → Option (Dict String Share) → List A → Result (Option (Dict String Share))
  unfolding accumulate share_vector
  share_rows k acc [] = ok acc
  share_rows k acc (org ∷ orgs) = do
    vector ← row org
    sh ← share_vector (tapes k) vector node_ids
    acc' ← accumulate acc sh node_ids
    share_rows (suc k) (some acc') orgs

-- `assert acc is not None`, and the opened totals.
unfoldable pub open_total : List String → Option (Dict String Share) → Result (List ℕ)
unfolding gather reconstruct
open_total node_ids acc = do
  d ← or_raise acc Failure.assertion_error
  shares ← gather node_ids d
  reconstruct shares

unfoldable pub run_histogram : (ℕ → ℕ → ℕ) → Dict String (List ℤ) → List String → Result (List ℤ)
unfolding share_rows open_total signed_mod
run_histogram tapes [] node_ids = err Failure.value_error
run_histogram tapes (c ∷ contributions) node_ids = do
  acc ← share_rows tapes (λ v. ok v) node_ids 0 none (values (c ∷ contributions))
  opened ← open_total node_ids acc
  ok (map signed_mod opened)

unfoldable pub sum_counts : List ℕ → ℕ
sum_counts [] = 0
sum_counts (n ∷ ns) = n + sum_counts ns

-- `none` is the NaN that is returned when nothing was counted.
unfoldable pub run_mean : (fl : Floats) → List fl.Float → List ℕ → Option fl.Float
unfolding sum_counts
run_mean fl value_sums counts =
    let n = sum_counts counts in
    if n == 0 then none else some (fl.div (fl.sum value_sums) (fl.of_int (pos n)))

unfoldable pub sum_ℤ : List ℤ → ℤ
sum_ℤ [] = pos 0
sum_ℤ (x ∷ xs) = x +ℤ sum_ℤ xs

-- The products of paired items, `x[i] * y[i]`.
unfoldable pub products : List ℤ → List ℤ → List ℤ
products (x ∷ xs) (y ∷ ys) = (x *ℤ y) ∷ products xs ys
products [] ys = []
products (x ∷ xs) [] = []

-- An organization's `[sum x, sum x²]`, mod FIELD_P.
unfoldable pub variance_row : (fl : Floats) → List fl.Float → Result (List ℤ)
unfolding quantize_ints sum_ℤ products mod_ℤ
variance_row fl xs =
    let q = quantize_ints fl xs in
    ok (pos (mod_ℤ (sum_ℤ q) field_p) ∷ pos (mod_ℤ (sum_ℤ (products q q)) field_p) ∷ [])

-- The pooled variance from the count and the signed totals of x and x².
unfoldable pub variance_of : (fl : Floats) → ℕ → ℤ → ℤ → fl.Float
variance_of fl n sx sq =
    let total_x = fl.div (fl.of_int sx) (fl.of_int (pos quant_scale)) in
    let total_sq = fl.div (fl.of_int sq) (fl.of_int (pos (quant_scale * quant_scale))) in
    let mean = fl.div total_x (fl.of_int (pos n)) in
    max_float fl (zero_float fl) (fl.sub (fl.div total_sq (fl.of_int (pos n))) (fl.mul mean mean))

unfoldable pub variance_opened : (fl : Floats) → ℕ → List ℕ → Result fl.Float
unfolding variance_of signed_mod
variance_opened fl n (x ∷ sq ∷ rest) = ok (variance_of fl n (signed_mod x) (signed_mod sq))
variance_opened fl n opened = err Failure.value_error

unfoldable pub run_variance :
    (fl : Floats) → (ℕ → ℕ → ℕ) → Dict String (List fl.Float) → List String → Result fl.Float
unfolding sum_counts share_rows variance_row open_total variance_opened
run_variance fl tapes org_values node_ids =
    let n_total = sum_counts (map length (values org_values)) in
    if ltb n_total 2 then ok (zero_float fl) else do
      acc ← share_rows tapes (variance_row fl) node_ids 0 none (values org_values)
      opened ← open_total node_ids acc
      variance_opened fl n_total opened

-- An organization's `[sum x, sum y, sum x², sum y², sum xy, n]`.
unfoldable pub correlation_row : (fl : Floats) → List fl.Float × List fl.Float → Result (List ℤ)
unfolding quantize_ints sum_ℤ products mod_ℤ
correlation_row fl (xs, ys) = do
  raise_if (not (length xs == length ys)) Failure.value_error
  let qx = quantize_ints fl xs
  let qy = quantize_ints fl ys
  ok (
      pos (mod_ℤ (sum_ℤ qx) field_p)
      ∷ pos (mod_ℤ (sum_ℤ qy) field_p)
      ∷ pos (mod_ℤ (sum_ℤ (products qx qx)) field_p)
      ∷ pos (mod_ℤ (sum_ℤ (products qy qy)) field_p)
      ∷ pos (mod_ℤ (sum_ℤ (products qx qy)) field_p)
      ∷ pos (length qx)
      ∷ [])

-- Pearson's r from the signed totals.
unfoldable pub correlation_of : (fl : Floats) → ℤ → ℤ → ℤ → ℤ → ℤ → ℤ → fl.Float
correlation_of fl sx sy sxx syy sxy n =
    let scale2 = quant_scale * quant_scale in
    let count = fl.of_int n in
    let mx = fl.div (fl.ratio sx quant_scale) count in
    let my = fl.div (fl.ratio sy quant_scale) count in
    let cov = fl.sub (fl.div (fl.ratio sxy scale2) count) (fl.mul mx my) in
    let vx = fl.sub (fl.div (fl.ratio sxx scale2) count) (fl.square mx) in
    let vy = fl.sub (fl.div (fl.ratio syy scale2) count) (fl.square my) in
    let one = one_float fl in
    if ltb_ℤ n (pos 2)
    then zero_float fl
    else if fl.le vx (zero_float fl) || fl.le vy (zero_float fl)
    then zero_float fl
    else clip fl (fl.div cov (fl.sqrt (fl.mul vx vy))) (fl.sub (zero_float fl) one) one

unfoldable pub correlation_opened : (fl : Floats) → List ℕ → Result fl.Float
unfolding correlation_of signed_mod
correlation_opened fl (sx ∷ sy ∷ sxx ∷ syy ∷ sxy ∷ n ∷ []) = ok (
    correlation_of fl (signed_mod sx) (signed_mod sy) (signed_mod sxx) (signed_mod syy)
      (signed_mod sxy) (signed_mod n))
correlation_opened fl opened = err Failure.value_error

unfoldable pub run_correlation :
    (fl : Floats)
    → (ℕ → ℕ → ℕ)
    → Dict String (List fl.Float × List fl.Float)
    → List String
    → Result fl.Float
unfolding share_rows correlation_row open_total correlation_opened
run_correlation fl tapes org_pairs node_ids = do
  acc ← share_rows tapes (correlation_row fl) node_ids 0 none (values org_pairs)
  opened ← open_total node_ids acc
  correlation_opened fl opened
