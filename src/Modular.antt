-- ===== src/Modular.antt =====
-- Vectors of residues: the arithmetic mod FIELD_P of sentrylink/crypto/secret_sharing.py, and numpy's
-- int64 arrays, whose sums wrap around mod 2^64.
pub mod Group
pub mod Vector
use sentry_link.Base.{ℕ, ◌+◌, ◌-◌, ◌%◌, ◌^◌, List, [], ◌∷◌, ltb, if◌then◌else◌}
use sentry_link.Base.Int.{ℤ, pos, pos_part, neg_part, sub_ℕ}

-- `(a + b) % p`, and Python's `(a - b) % p`, which is not negative.
abbrev pub add_mod : ℕ → ℕ → ℕ → ℕ
add_mod p a b = (a + b) % p

abbrev pub sub_mod : ℕ → ℕ → ℕ → ℕ
sub_mod p a b = (a + (p - b % p)) % p

-- Componentwise, as `zip` pairs two vectors.
abbrev pub zip_with : (ℕ → ℕ → ℕ) → List ℕ → List ℕ → List ℕ
zip_with f (x ∷ xs) (y ∷ ys) = f x y ∷ zip_with f xs ys
zip_with f [] ys = []
zip_with f (x ∷ xs) [] = []

unfoldable pub vadd : ℕ → List ℕ → List ℕ → List ℕ
vadd p = zip_with (add_mod p)

unfoldable pub vsub : ℕ → List ℕ → List ℕ → List ℕ
vsub p = zip_with (sub_mod p)

-- The signed integer of a 64-bit pattern: `int(x)` of a numpy int64.
unfoldable pub signed64 : ℕ → ℤ
signed64 n = if ltb n (2 ^ 63) then pos n else sub_ℕ n (2 ^ 64)

-- Python's `a % p` for an integer `a`, which is not negative.
unfoldable pub mod_ℤ : ℤ → ℕ → ℕ
mod_ℤ a p = (pos_part a % p + (p - neg_part a % p)) % p
