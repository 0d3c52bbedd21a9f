-- ===== src/RateLimit/Window.antt =====
-- src/core/rate_limit/provider.py over src/core/cache/memory.py: how many requests a window lets through.
use fastapi_foundation.Base.{
  ℕ, ◌+◌, ◌-◌, ◌*◌, ◌≤◌, ◌<◌, min, String, ◌≡◌, refl, ap, false, some, List, [], ◌∷◌, arith, leb,
  if◌then◌else◌, pos, ◌+ℤ◌, length, All, Result, ok, err, eq_refl, int_laws, ◌∙◌,
}
use fastapi_foundation.Cache.{CacheValue, CacheEntry, Entries, expired, incr}
use fastapi_foundation.Cache.Provider.{memory_cache_provider}
use fastapi_foundation.Cache.View.{live, value_of}
use fastapi_foundation.Cache.Counter.{fresh, seen, incr_first, incr_next}
use fastapi_foundation.RateLimit.{RateLimitRule, RateLimitIdentity, key_for}
use fastapi_foundation.RateLimit.Decisions.{check_counted}
use fastapi_foundation.RateLimit.Keys.{key_for_named}
use fastapi_foundation.RateLimit.Limiter.{
  RateLimitDecision, CacheRateLimiter, count_decision, check,
}

abbrev MemoryLimiter : Type 0
MemoryLimiter = CacheRateLimiter Entries

abbrev one_if_allowed : Result RateLimitDecision → ℕ
one_if_allowed (ok d) = if d.allowed then 1 else 0
one_if_allowed (err _) = 0

seen_before : (t n d : ℕ) → t < d → seen t (fresh (pos n) d) ≡ some (fresh (pos n) d)
unfolding expired
seen_before t n d h = ground arith

module _ (rule : RateLimitRule) (i : RateLimitIdentity) where
  -- How many of an identity's requests are allowed, one after another; each has the two readings
  -- of the clock that its check takes.
  abbrev pub admitted : List (ℕ × ℕ) → MemoryLimiter → ℕ
  admitted [] l = 0
  admitted ((t, u) ∷ ts) l =
      let (r, l') = check memory_cache_provider t u rule i (pos 1) l in
      one_if_allowed r + admitted ts l'

  module _ {key : String} (limit window : ℕ) (named : key_for rule i ≡ ok key)
      (at_limit : rule.limit ≡ pos limit) (at_window : rule.window_seconds ≡ pos window)
      (positive : 0 < window) where
    check_from :
        (t u m : ℕ) (l : MemoryLimiter)
        → (incr t u key (pos 1) (some rule.window_seconds) false l.cache).0 ≡ ok (pos m)
        → (one_if_allowed (check memory_cache_provider t u rule i (pos 1) l).0
            ≡ (if leb m limit then 1 else 0))
          × ((check memory_cache_provider t u rule i (pos 1) l).1.cache
              ≡ (incr t u key (pos 1) (some rule.window_seconds) false l.cache).1)
    unfolding count_decision
    check_from t u m l counted =
        let c = (incr t u key (pos 1) (some rule.window_seconds) false l.cache).1 in
        let e =
          check_counted memory_cache_provider t u rule i (pos 1) l (omega arith) named (pos m) c
            (ap (λ r. (r, c)) counted) in
        (ground (arith, e), ap (λ r. r.1.cache) e)

    -- A check against a live counter.
    check_counting :
        (t u n : ℕ) (entry : CacheEntry) (l : MemoryLimiter)
        → entry.value ≡ CacheValue.int (pos n)
        → live t key l.cache ≡ some entry
        → (one_if_allowed (check memory_cache_provider t u rule i (pos 1) l).0
            ≡ (if leb (n + 1) limit then 1 else 0))
          × ((v : ℕ)
              → live v key (check memory_cache_provider t u rule i (pos 1) l).1.cache
                ≡ seen v (record entry { value = CacheValue.int (pos (n + 1)) }))
    check_counting t u n entry l is_int is_live =
        let next =
          incr_next t u key (pos 1) rule.window_seconds l.cache (key_for_named rule i named)
            (rw at_window (omega arith)) (pos n) entry is_int is_live in
        let one : pos n +ℤ pos 1 ≡ pos (n + 1) = omega int_laws in
        let (verdict, cache) = check_from t u (n + 1) l (next.0 ∙ ap ok one) in
        (verdict, λ v. rw cache (ground (arith, next.1 v key, eq_refl key, one)))

    admitted_counting :
        (ts : List (ℕ × ℕ)) (n b d : ℕ) (l : MemoryLimiter)
        → ((v : ℕ) → b ≤ v → live v key l.cache ≡ seen v (fresh (pos n) d))
        → All (λ r. (b ≤ r.0) × (r.0 < d)) ts
        → admitted ts l ≡ min (length ts) (limit - n)
    admitted_counting [] n b d l counter inside = omega arith
    admitted_counting ((t, u) ∷ ts) n b d l counter inside =
        let (verdict, next) =
          check_counting t u n (fresh (pos n) d) l refl
            (counter t inside.0.0 ∙ seen_before t n d inside.0.1) in
        ground (
          arith,
          verdict,
          admitted_counting ts (n + 1) b d (check memory_cache_provider t u rule i (pos 1) l).1
              (λ v _. next v) inside.1,
        )

    -- Over the cache in memory, of the requests that an identity with a key makes under a rule
    -- with a positive window, from one that finds no counter until the window that it starts has
    -- ended, exactly as many are allowed as the rule's limit says, or all if they are fewer.
    pub admitted_window :
        (t u : ℕ) (ts : List (ℕ × ℕ)) (l : MemoryLimiter)
        → value_of (live t key l.cache) ≡ CacheValue.null
        → All (λ r. (t ≤ r.0) × (r.0 < u + window * 1000000)) ts
        → admitted ((t, u) ∷ ts) l ≡ min (length ts + 1) limit
    admitted_window t u ts l none_there inside =
        let first = λ (v : ℕ) (h : t ≤ v).
          incr_first t u key (pos 1) rule.window_seconds l.cache (key_for_named rule i named)
            (rw at_window (omega arith)) v key h none_there in
        let (verdict, cache) = check_from t u 1 l (first t (omega arith)).0 in
        ground (
          arith,
          verdict,
          admitted_counting ts 1 t (u + window * 1000000)
              (check memory_cache_provider t u rule i (pos 1) l).1
              (λ v h. rw cache (ground (arith, (first v h).1, eq_refl key, at_window))) inside,
        )
