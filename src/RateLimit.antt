-- ===== src/RateLimit.antt =====
-- sentrylink/ratelimit.py: the sliding-window limiter. The time of a call is an argument.
pub mod Window
use sentry_link.Base.{
  ℕ, String, text_eq, Bool, true, false, List, [], ◌∷◌, ◌++◌, filter, length, leb, ltb,
  if◌then◌else◌,
}
use sentry_link.Base.Dict.{Dict, lookup_or, insert}
use sentry_link.Errors.{Failure, Result, ok, err, ◌>>=◌, ◌>>◌, raise_if}
use sentry_link.Floats.{Floats, zero_float}

module _ (fl : Floats) where
  -- `InMemoryTokenBucket`
  pub record TokenBucket : Type 0 where
    pub limit : ℕ
    pub window : fl.Float
    pub hits : Dict String (List fl.Float)

  unfoldable pub new_bucket : ℕ → fl.Float → Result TokenBucket
  new_bucket limit window = do
    raise_if (ltb limit 1) Failure.value_error
    raise_if (fl.le window (zero_float fl)) Failure.value_error
    ok (record { limit = limit; window = window; hits = [] })

  -- `t > now - self.window`
  abbrev pub within : fl.Float → fl.Float → fl.Float → Bool
  within window now t = fl.lt (fl.sub now window) t

  unfoldable pub allow : TokenBucket → String → fl.Float → Bool × TokenBucket
  allow b key now =
      let recent = filter (within b.window now) (lookup_or key [] b.hits) in
      if leb b.limit (length recent)
      then (false, record b { hits = insert key recent b.hits })
      else (true, record b { hits = insert key (recent ++ now ∷ []) b.hits })
