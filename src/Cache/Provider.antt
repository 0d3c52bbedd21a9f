-- ===== src/Cache/Provider.antt =====
-- src/core/cache/provider.py: the protocol that the cache's clients see, over the provider's state,
-- and the provider in memory as one that keeps to it. The clock's readings are arguments.
use fastapi_foundation.Base.{ℕ, String, Bool, Option, ℤ, Exec}
use fastapi_foundation.Cache.{CacheValue, Entries, get, set, delete, exists, incr, expire}

pub record CacheProvider (S : Type 0) : Type 0 where
  pub get : ℕ → String → Exec S CacheValue
  pub set : ℕ → String → CacheValue → Option ℤ → Bool → Exec S (Unit {0})
  pub delete : ℕ → String → Exec S Bool
  pub exists : ℕ → String → Exec S Bool
  pub incr : ℕ → ℕ → String → ℤ → Option ℤ → Bool → Exec S ℤ
  pub expire : ℕ → ℕ → String → ℤ → Exec S Bool

abbrev pub memory_cache_provider : CacheProvider Entries
memory_cache_provider = record {
  get = get;
  set = set;
  delete = delete;
  exists = exists;
  incr = incr;
  expire = expire;
}
