-- ===== src/Crypto/Prg/Bounds.antt =====
-- The generated masks: their number and range, and that the expansion yields all the bytes.
use sentry_link.Base.{
  ℕ, zero, suc, ◌+◌, ◌*◌, ◌^◌, ◌≤◌, ◌<◌, [], ◌∷◌, ◌++◌, take, drop, length, length-append, All, ◌≡◌,
  refl, ap, arith,
}
use sentry_link.Base.Int.{ℤ, pos_part, neg_part}
use sentry_link.Config.{mask_bound}
use sentry_link.Modular.{signed64}
use sentry_link.Modular.Vector.{IsVec}
use sentry_link.Crypto.Prg.{Bytes, expand_loop, expand_seed, center, words, int_masks}

words-length : (n : ℕ) (raw : Bytes) → length (words n raw) ≡ n
unfolding words
words-length zero raw = refl
words-length (suc n) raw = ap suc (words-length n (drop 8 raw))

center-lt : (u : ℕ) → center u < 2 ^ 64
unfolding center
center-lt u = omega arith

words-All : (n : ℕ) (raw : Bytes) → All (λ x. x < 2 ^ 64) (words n raw)
unfolding words
words-All zero raw = tt
words-All (suc n) raw = (center-lt _, words-All n (drop 8 raw))

-- A mask vector of `n` int64 words.
pub int_masks-IsVec :
    (hmac : Bytes → ℕ → Bytes) (seed : Bytes) (n : ℕ) → IsVec (2 ^ 64) n (int_masks hmac seed n)
unfolding int_masks
int_masks-IsVec hmac seed n = record { size = words-length n _; reduced = words-All n _ }

-- A signed integer between -MASK_BOUND and MASK_BOUND.
pub record IsMask (a : ℤ) : Type 0 where
  pub above : pos_part a ≤ mask_bound
  pub below : neg_part a ≤ mask_bound

center-IsMask : (u : ℕ) → IsMask (signed64 (center u))
unfolding center signed64
center-IsMask u = ground arith

words-IsMask : (n : ℕ) (raw : Bytes) → All (λ w. IsMask (signed64 w)) (words n raw)
unfolding words
words-IsMask zero raw = tt
words-IsMask (suc n) raw = (center-IsMask _, words-IsMask n (drop 8 raw))

module _ (hmac : Bytes → ℕ → Bytes) (digest : (s : Bytes) (k : ℕ) → length (hmac s k) ≡ 32) where
  expand_loop-length :
      (fuel : ℕ) (seed : Bytes) (n counter : ℕ) (out : Bytes)
      → n ≤ length out + fuel
      → n ≤ length (expand_loop hmac fuel seed n counter out)
  unfolding expand_loop
  expand_loop-length zero seed n counter out h = omega arith
  expand_loop-length (suc fuel) seed n counter out h = ground (
    arith,
    digest seed counter,
    length-append out (hmac seed counter),
    expand_loop-length fuel seed n (suc counter) (out ++ hmac seed counter),
  )

  take-length : (n : ℕ) (xs : Bytes) → n ≤ length xs → length (take n xs) ≡ n
  take-length zero xs h = refl
  take-length (suc n) [] h = absurd (omega arith)
  take-length (suc n) (x ∷ xs) h = ap suc (take-length n xs (omega arith))

  -- With digests of 32 bytes the expansion ends by its test and yields exactly the bytes asked for.
  expand_seed-length : (seed : Bytes) (n : ℕ) → length (expand_seed hmac seed n) ≡ n
  unfolding expand_seed
  expand_seed-length seed n = take-length n _ (expand_loop-length n seed n 0 [] (omega arith))

  -- With digests of 32 bytes, the expansion has exactly the bytes that a mask vector reads, the
  -- vector has the length asked for, and each mask is between -MASK_BOUND and MASK_BOUND.
  pub int_masks_bounds :
      (seed : Bytes) (n : ℕ)
      → (length (expand_seed hmac seed (n * 8)) ≡ n * 8)
        × (length (int_masks hmac seed n) ≡ n)
        × All (λ w. IsMask (signed64 w)) (int_masks hmac seed n)
  unfolding int_masks
  int_masks_bounds seed n = (expand_seed-length seed (n * 8), words-length n _, words-IsMask n _)
