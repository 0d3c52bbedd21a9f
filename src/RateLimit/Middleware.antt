-- ===== src/RateLimit/Middleware.antt =====
-- src/core/rate_limit/middleware.py: `RateLimitMiddleware.dispatch`, with a registry and a limiter in
-- place. The request's route and identity are arguments, and the answer is the decision that the
-- 429 response is built from, or that the request goes on to the application.
use fastapi_foundation.Base.{
  ◌≡◌, has_char, arith, ℕ, String, Bool, true, false, Option, none, some, if◌then◌else◌, pos,
  ErrorCode, Result, ok, err, Exec,
}
use fastapi_foundation.Cache.Provider.{CacheProvider}
use fastapi_foundation.RateLimit.{
  Dimension, attribute, RateLimitRule, RateLimitIdentity, RateLimitRegistry, find,
}
use fastapi_foundation.RateLimit.Keys.{Has, key_for_colon}
use fastapi_foundation.RateLimit.Limiter.{RateLimitDecision, CacheRateLimiter, check}

pub data Answer : Type 0 where
  call_next : Answer
  limited : RateLimitDecision → Answer

abbrev is_validation_error : ErrorCode → Bool
is_validation_error ErrorCode.validation_error = true
is_validation_error _ = false

answer : Result RateLimitDecision → Result Answer
answer (ok d) = ok (if d.allowed then call_next else limited d)
answer (err e) = if is_validation_error e.error_code then ok call_next else err e

module _ {S : Type 0} (p : CacheProvider S) where
  dispatch_rule :
      ℕ → ℕ → Option RateLimitRule → RateLimitIdentity → Exec (CacheRateLimiter S) Answer
  unfolding answer
  dispatch_rule t u none identity l = (ok call_next, l)
  dispatch_rule t u (some rule) identity l =
      let (r, l') = check p t u rule identity (pos 1) l in (answer r, l')

  unfoldable pub dispatch :
      ℕ → ℕ → RateLimitRegistry → String → RateLimitIdentity → Exec (CacheRateLimiter S) Answer
  unfolding dispatch_rule
  dispatch t u registry path identity = dispatch_rule t u (find registry path) identity

module _ {S : Type 0} (p : CacheProvider S) where
  -- Where a rule applies to the request but the identity's value in one of the rule's dimensions
  -- has a colon in it, as an IPv6 address has, the request goes on unlimited and uncounted, also
  -- under a rule that is to fail closed.
  pub dispatch_colon :
      (t u : ℕ) (g : RateLimitRegistry) (path : String) (i : RateLimitIdentity)
      (l : CacheRateLimiter S) (rule : RateLimitRule) (d : Dimension) (v : String)
      → find g path ≡ some rule
      → Has d rule.dimensions
      → attribute i d ≡ some v
      → has_char b':' v ≡ true
      → dispatch p t u g path i l ≡ (ok Answer.call_next, l)
  unfolding dispatch check
  dispatch_colon t u g path i l rule d v found m a h =
      rw found (ground (arith, key_for_colon rule i d v m a h))
