-- ===== src/RateLimit/Tests.antt =====
-- src/core/rate_limit: the statements about rate limits, at a concrete rule.
use fastapi_foundation.Base.{
  ℕ, ◌+◌, min, String, ◌↔◌, ◌≡◌, refl, true, Option, none, some, [], ◌∷◌, ◌++◌, arith,
  if◌then◌else◌, pos, ok, err, inl, length, app_error, rate_limited, conflict, is_blank, has_char,
  lookup, raise,
}
use fastapi_foundation.Cache.{Entries}
use fastapi_foundation.Cache.Keys.{cache_key, any_invalid, invalid_segment, join}
use fastapi_foundation.Cache.View.{live}
use fastapi_foundation.Cache.Provider.{CacheProvider, memory_cache_provider}
use fastapi_foundation.RateLimit.{
  Dimension, RateLimitIdentity, RateLimitRule, RateLimitRegistry, key_for, find, parts, value_for,
}
use fastapi_foundation.RateLimit.Keys.{key_for_iff, Agree}
use fastapi_foundation.RateLimit.Limiter.{CacheRateLimiter, check, require}
use fastapi_foundation.RateLimit.Decisions.{refused_decision, open_decision, check_failed}
use fastapi_foundation.RateLimit.Middleware.{Answer, dispatch, dispatch_colon}
use fastapi_foundation.RateLimit.Window.{admitted, admitted_window}

-- Two requests in a minute from one address.
abbrev rule : RateLimitRule
rule = record {
  name = "api";
  limit = pos 2;
  window_seconds = pos 60;
  dimensions = Dimension.ip_address ∷ [];
  fail_closed = true;
}

abbrev caller : String → Option String → RateLimitIdentity
caller ip user = record {
  tenant_id = none;
  user_id = user;
  ip_address = some ip;
  route = some "/items";
}

abbrev limiter : CacheRateLimiter Entries
limiter = record { cache = []; hits = [] }

abbrev registry : RateLimitRegistry
registry = record { default_rule = some rule; route_rules = [] }

-- A cache that is down.
abbrev down : CacheProvider (Unit {0})
down = record {
  get = λ _ _. raise (app_error conflict "Cache is down" 503);
  set = λ _ _ _ _ _. raise (app_error conflict "Cache is down" 503);
  delete = λ _ _. raise (app_error conflict "Cache is down" 503);
  exists = λ _ _. raise (app_error conflict "Cache is down" 503);
  incr = λ _ _ _ _ _ _. raise (app_error conflict "Cache is down" 503);
  expire = λ _ _ _ _. raise (app_error conflict "Cache is down" 503);
}

key_for_iff_example :
    (key_for rule (caller "10.0.0.1" (some "b")) ≡ ok "rate:api:ip_address=10.0.0.1")
    ↔ Agree rule.dimensions (caller "10.0.0.1" (some "a")) (caller "10.0.0.1" (some "b"))
unfolding key_for parts value_for is_blank cache_key any_invalid invalid_segment has_char join
key_for_iff_example =
    key_for_iff rule (caller "10.0.0.1" (some "a")) (caller "10.0.0.1" (some "b"))
      {key = "rate:api:ip_address=10.0.0.1"} refl

check_failed_example :
    let l : CacheRateLimiter (Unit {0}) = (record { cache = tt; hits = [] }) in
    let d = refused_decision rule "rate:api:ip_address=10.0.0.1" in
    let o = open_decision rule "rate:api:ip_address=10.0.0.1" in
    (check down 20 25 rule (caller "10.0.0.1" none) (pos 1) l ≡ (
      if true
      then (ok d, record { cache = tt; hits = [] ++ d ∷ [] })
      else (ok o, record { cache = tt; hits = [] })))
    × (require down 20 25 rule (caller "10.0.0.1" none) (pos 1) l ≡ (
        if true
        then (
          err (app_error rate_limited "Rate limit exceeded" 429),
          record { cache = tt; hits = [] ++ d ∷ [] },
        )
        else (ok o, record { cache = tt; hits = [] })))
unfolding key_for parts value_for is_blank cache_key any_invalid invalid_segment has_char join
check_failed_example =
    check_failed down 20 25 rule (caller "10.0.0.1" none) (pos 1) (record { cache = tt; hits = [] })
      {key = "rate:api:ip_address=10.0.0.1"} (omega arith) refl
      (app_error conflict "Cache is down" 503) tt refl

dispatch_colon_example :
    dispatch memory_cache_provider 20 25 registry "/items" (caller "::1" none) limiter
    ≡ (ok Answer.call_next, limiter)
unfolding find lookup has_char
dispatch_colon_example =
    dispatch_colon memory_cache_provider 20 25 registry "/items" (caller "::1" none) limiter rule
      Dimension.ip_address "::1" refl (inl refl) refl refl

admitted_window_example :
    admitted rule (caller "10.0.0.1" none) ((20, 25) ∷ (30, 31) ∷ (40, 41) ∷ []) limiter
    ≡ min (length {A = ℕ × ℕ} ((30, 31) ∷ (40, 41) ∷ []) + 1) 2
unfolding key_for parts value_for is_blank cache_key any_invalid invalid_segment has_char join live
    lookup
admitted_window_example =
    admitted_window rule (caller "10.0.0.1" none) {key = "rate:api:ip_address=10.0.0.1"} 2 60 refl
      refl refl (omega arith) 20 25 ((30, 31) ∷ (40, 41) ∷ []) limiter refl
      ((omega arith, omega arith), ((omega arith, omega arith), tt))
