-- ===== src/RateLimit/Decisions.antt =====
-- src/core/rate_limit/provider.py: what `check` makes of the cache's answer, whatever the cache.
use fastapi_foundation.Base.{
  ℕ, ◌≡◌, false, true, some, List, [], ◌∷◌, ◌++◌, arith, if◌then◌else◌, ℤ, pos, ◌<ℤ◌, AppError,
  String, rate_limited, ok, err, app_error,
}
use fastapi_foundation.Cache.Provider.{CacheProvider}
use fastapi_foundation.RateLimit.{RateLimitRule, RateLimitIdentity, key_for}
use fastapi_foundation.RateLimit.Limiter.{
  Reason, RateLimitDecision, CacheRateLimiter, failure_decision, count_decision, check, require,
}

-- The limiter after a decision: a refusal is recorded.
abbrev pub after :
    {S : Type 0} → S → List RateLimitDecision → RateLimitDecision → CacheRateLimiter S
after c hits d = record { cache = c; hits = if d.allowed then hits else hits ++ d ∷ [] }

-- The refusal for a whole window, of a cache that is down.
abbrev pub refused_decision : RateLimitRule → String → RateLimitDecision
refused_decision rule key = record {
  allowed = false;
  rule_name = rule.name;
  key = key;
  limit = rule.limit;
  current = pos 0;
  remaining = pos 0;
  retry_after = rule.window_seconds;
  reason = Reason.cache_unavailable;
  fail_open = false;
}

-- The permission, of a cache that is down, with all of the limit remaining.
abbrev pub open_decision : RateLimitRule → String → RateLimitDecision
open_decision rule key = record {
  allowed = true;
  rule_name = rule.name;
  key = key;
  limit = rule.limit;
  current = pos 0;
  remaining = rule.limit;
  retry_after = pos 0;
  reason = Reason.cache_unavailable;
  fail_open = true;
}

module _ {S : Type 0} (p : CacheProvider S) (t u : ℕ) (rule : RateLimitRule) (i : RateLimitIdentity)
    (amount : ℤ) (l : CacheRateLimiter S) {key : String} (positive : pos 0 <ℤ amount)
    (named : key_for rule i ≡ ok key) where
  -- When the cache counts a positive amount under an identity's key, the decision is made from the
  -- count, and a refusal is recorded.
  pub check_counted :
      (n : ℤ) (c : S)
      → p.incr t u key amount (some rule.window_seconds) false l.cache ≡ (ok n, c)
      → check p t u rule i amount l
        ≡ (ok (count_decision rule key n), after c l.hits (count_decision rule key n))
  unfolding check
  check_counted n c counted = ground arith

  -- When the cache fails on a positive amount under an identity's key, `check` does not raise: a
  -- rule that fails closed refuses for a whole window and records it, and one that fails open
  -- allows, and promises the whole limit. `require` raises in the first case.
  pub check_failed :
      (e : AppError) (c : S)
      → p.incr t u key amount (some rule.window_seconds) false l.cache ≡ (err e, c)
      → (check p t u rule i amount l ≡ (
          if rule.fail_closed
          then (
            ok (refused_decision rule key),
            record { cache = c; hits = l.hits ++ refused_decision rule key ∷ [] },
          )
          else (ok (open_decision rule key), record { cache = c; hits = l.hits })))
        × (require p t u rule i amount l ≡ (
            if rule.fail_closed
            then (
              err (app_error rate_limited "Rate limit exceeded" 429),
              record { cache = c; hits = l.hits ++ refused_decision rule key ∷ [] },
            )
            else (ok (open_decision rule key), record { cache = c; hits = l.hits })))
  unfolding check require failure_decision
  check_failed e c failed = (ground (arith, failed), ground (arith, failed))
