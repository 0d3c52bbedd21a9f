-- ===== src/RateLimit/Limiter.antt =====
-- src/core/rate_limit/provider.py: `CacheRateLimiter`, the fixed window limiter, over any cache. The
-- limiter has an audit recorder and a metrics registry; `hits` lists the decisions that they were
-- told of. The details of an `AppError` and `SlidingWindowRateLimiter` (floats) are left out.
use fastapi_foundation.Base.{
  ℕ, String, Bool, false, not, Option, none, some, List, [], ◌∷◌, ◌++◌, if◌then◌else◌, ℤ, pos, ◌-ℤ◌,
  leb_ℤ, max_ℤ, app_error, validation_error, rate_limited, ok, err, Exec, pure, raise, lift,
  raise_if, modify, ◌>>=◌, ◌>>◌,
}
use fastapi_foundation.Cache.Provider.{CacheProvider}
use fastapi_foundation.RateLimit.{RateLimitRule, RateLimitIdentity, key_for}

pub data Reason : Type 0 where
  within limit_exceeded cache_unavailable : Reason

pub record RateLimitDecision : Type 0 where
  pub allowed : Bool
  pub rule_name : String
  pub key : String
  pub limit : ℤ
  pub current : ℤ
  pub remaining : ℤ
  pub retry_after : ℤ
  pub reason : Reason
  pub fail_open : Bool

-- `RateLimitDecision.headers`: the value of Retry-After
pub headers : RateLimitDecision → Option ℤ
headers d = if d.allowed then none else some d.retry_after

pub record CacheRateLimiter (S : Type 0) : Type 0 where
  pub cache : S
  pub hits : List RateLimitDecision

module _ {S : Type 0} where
  -- `_record_hit`
  record_hit : RateLimitDecision → Exec (CacheRateLimiter S) (Unit {0})
  record_hit d = modify (λ l. record l { hits = l.hits ++ d ∷ [] })

  report : RateLimitDecision → Exec (CacheRateLimiter S) RateLimitDecision
  unfolding record_hit
  report d = if d.allowed then pure d else (do record_hit d; pure d)

module _ {S : Type 0} (p : CacheProvider S) where
  -- The call of the cache under `try`: an exception of any kind gives `none`.
  try_incr : ℕ → ℕ → String → ℤ → ℤ → Exec (CacheRateLimiter S) (Option ℤ)
  try_incr t u key amount ttl l =
      let (r, c) = p.incr t u key amount (some ttl) false l.cache in
      (ok (elim r [ ok n ↦ some n | err e ↦ none ]), record l { cache = c })

-- `_cache_failure_decision`
unfoldable pub failure_decision : RateLimitRule → String → RateLimitDecision
failure_decision rule key = record {
  allowed = not rule.fail_closed;
  rule_name = rule.name;
  key = key;
  limit = rule.limit;
  current = pos 0;
  remaining = if rule.fail_closed then pos 0 else rule.limit;
  retry_after = if rule.fail_closed then rule.window_seconds else pos 0;
  reason = Reason.cache_unavailable;
  fail_open = not rule.fail_closed;
}

unfoldable pub count_decision : RateLimitRule → String → ℤ → RateLimitDecision
count_decision rule key current =
    let allowed : Bool = leb_ℤ current rule.limit in
    record {
      allowed = allowed;
      rule_name = rule.name;
      key = key;
      limit = rule.limit;
      current = current;
      remaining = max_ℤ (rule.limit -ℤ current) (pos 0);
      retry_after = if allowed then pos 0 else rule.window_seconds;
      reason = if allowed then Reason.within else Reason.limit_exceeded;
      fail_open = false;
    }

decision_for : RateLimitRule → String → Option ℤ → RateLimitDecision
unfolding failure_decision count_decision
decision_for rule key none = failure_decision rule key
decision_for rule key (some current) = count_decision rule key current

module _ {S : Type 0} (p : CacheProvider S) where
  unfoldable pub check :
      ℕ → ℕ → RateLimitRule → RateLimitIdentity → ℤ → Exec (CacheRateLimiter S) RateLimitDecision
  unfolding try_incr report decision_for
  check t u rule identity amount = do
    raise_if (leb_ℤ amount (pos 0))
        (app_error validation_error "Rate limit amount must be greater than zero" 400)
    key ← lift (key_for rule identity)
    outcome ← try_incr p t u key amount rule.window_seconds
    report (decision_for rule key outcome)

  unfoldable pub require :
      ℕ → ℕ → RateLimitRule → RateLimitIdentity → ℤ → Exec (CacheRateLimiter S) RateLimitDecision
  unfolding check
  require t u rule identity amount = do
    decision ← check t u rule identity amount
    if decision.allowed
        then pure decision
        else raise (app_error rate_limited "Rate limit exceeded" 429)
