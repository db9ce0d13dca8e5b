-- ===== src/Crypto/Prg.antt =====
-- sentrylink/crypto/prg.py. Bytes are numbers; HMAC-SHA256 of a seed and a counter is a parameter.
pub mod Bounds
use sentry_link.Base.{
  ℕ, zero, suc, ◌+◌, ◌-◌, ◌*◌, ◌%◌, ◌^◌, List, [], ◌∷◌, ◌++◌, take, drop, length, ltb,
  if◌then◌else◌,
}
use sentry_link.Config.{mask_bound}
use sentry_link.Errors.{Result}

abbrev pub Bytes : Type 0
Bytes = List ℕ

-- `while len(out) < n_bytes`, on fuel: each round appends a digest.
unfoldable pub expand_loop : (Bytes → ℕ → Bytes) → ℕ → Bytes → ℕ → ℕ → Bytes → Bytes
expand_loop hmac zero seed n_bytes counter out = out
expand_loop hmac (suc fuel) seed n_bytes counter out =
    let rest = expand_loop hmac fuel seed n_bytes (suc counter) (out ++ hmac seed counter) in
    if ltb (length out) n_bytes then rest else out

-- `n_bytes` rounds are enough, since a digest is not empty.
unfoldable pub expand_seed : (Bytes → ℕ → Bytes) → Bytes → ℕ → Bytes
unfolding expand_loop
expand_seed hmac seed n_bytes = take n_bytes (expand_loop hmac n_bytes seed n_bytes 0 [])

-- A big-endian number.
unfoldable pub big_endian : Bytes → ℕ → ℕ
big_endian [] acc = acc
big_endian (b ∷ bs) acc = big_endian bs (acc * 256 + b)

-- `centered` of one 64-bit word: an int64 pattern of a number in [-MASK_BOUND, MASK_BOUND].
unfoldable pub center : ℕ → ℕ
center u = (u % (2 * mask_bound + 1) + (2 ^ 64 - mask_bound)) % 2 ^ 64

-- `np.frombuffer(raw, dtype=">u8")` and the centering of each word.
unfoldable pub words : ℕ → Bytes → List ℕ
unfolding big_endian center
words zero raw = []
words (suc n) raw = center (big_endian (take 8 raw) 0) ∷ words n (drop 8 raw)

-- For `length = 0` the result is the empty vector too.
unfoldable pub int_masks : (Bytes → ℕ → Bytes) → Bytes → ℕ → List ℕ
unfolding expand_seed words
int_masks hmac seed n = words n (expand_seed hmac seed (n * 8))
