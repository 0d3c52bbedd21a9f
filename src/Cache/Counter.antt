-- ===== src/Cache/Counter.antt =====
-- src/core/cache/memory.py: `incr`, the atomic counter with a window that rate limits are built on.
use fastapi_foundation.Base.{
  ℕ, ◌+◌, ◌≤◌, String, ◌≡◌, false, Option, none, some, arith, if◌then◌else◌, ℤ, pos, ◌+ℤ◌, ◌<ℤ◌,
  is_blank, insert, ok, ◌==◌,
}
use fastapi_foundation.Cache.{CacheValue, CacheEntry, Entries, seconds, expired, get, incr}
use fastapi_foundation.Cache.View.{
  live, live-insert, value_of, Read, Read-cases, get-live_value, get-live_state,
}

-- The entry of a fresh counter.
abbrev pub fresh : ℤ → ℕ → CacheEntry
fresh amount d = record { value = CacheValue.int amount; expires_at = some d }

-- What is seen of an entry at an instant.
abbrev pub seen : ℕ → CacheEntry → Option CacheEntry
seen v entry = if expired v entry then none else some entry

module _ (t u : ℕ) (key : String) (amount ttl : ℤ) (s : Entries) (named : is_blank key ≡ false)
    (positive : pos 0 <ℤ ttl) where
  -- With no live value at the key, `incr` starts a counter at the amount, whose window begins
  -- with the second reading of the clock; the other keys stay as they were.
  pub incr_first :
      (v : ℕ) (j : String)
      → t ≤ v
      → value_of (live t key s) ≡ CacheValue.null
      → ((incr t u key amount (some ttl) false s).0 ≡ ok amount)
        × (live v j (incr t u key amount (some ttl) false s).1
            ≡ (if key == j then seen v (fresh amount (u + seconds ttl)) else live v j s))
  unfolding incr
  incr_first v j h none_there = (
    ground (arith, get-live_value t key s (Read-cases t key s named)),
    ground (
      arith,
      get-live_value t key s (Read-cases t key s named),
      get-live_state t v key j s (Read-cases t key s named) h,
      live-insert v key j (fresh amount (u + seconds ttl)) (get t key s).1,
    ),
  )

  incr_hit :
      (n : ℤ) (entry : CacheEntry)
      → entry.value ≡ CacheValue.int n
      → live t key s ≡ some entry
      → Read t key s
      → incr t u key amount (some ttl) false s
        ≡ (ok (n +ℤ amount), insert key (record entry { value = CacheValue.int (n +ℤ amount) }) s)
  unfolding incr
  incr_hit n entry is_int l (Read.nothing _ _ l') = ground arith
  incr_hit n entry is_int l (Read.dropped _ _ _ _ l') = ground arith
  incr_hit n entry is_int l (Read.hit entry' f x e l') = ground arith

  -- A live counter goes up by the amount and keeps its deadline: an increment never lengthens
  -- the window.
  pub incr_next :
      (n : ℤ) (entry : CacheEntry)
      → entry.value ≡ CacheValue.int n
      → live t key s ≡ some entry
      → ((incr t u key amount (some ttl) false s).0 ≡ ok (n +ℤ amount))
        × ((v : ℕ) (j : String)
            → live v j (incr t u key amount (some ttl) false s).1 ≡ (
                if key == j
                then seen v (record entry { value = CacheValue.int (n +ℤ amount) })
                else live v j s))
  incr_next n entry is_int l = (
    ground (arith, incr_hit n entry is_int l (Read-cases t key s named)),
    λ v j. ground (
      arith,
      incr_hit n entry is_int l (Read-cases t key s named),
      live-insert v key j (record entry { value = CacheValue.int (n +ℤ amount) }) s,
    ),
  )
