-- ===== src/Cache/Tests.antt =====
-- src/core/cache: the statements about the cache, at concrete entries.
use fastapi_foundation.Base.{
  is_blank, has_char, ◌+◌, String, ◌≡◌, refl, false, none, some, List, [], ◌∷◌, arith, leb,
  if◌then◌else◌, pos, ◌==◌,
}
use fastapi_foundation.Cache.{CacheValue, CacheEntry, Entries, seconds, set}
use fastapi_foundation.Cache.Keys.{invalid_segment, join, any_invalid, cache_key}
use fastapi_foundation.Cache.Keys.Injective.{cache_key_injective}
use fastapi_foundation.Cache.View.{live, set-live}

-- A counter until the instant 5000000, and a text that has run out.
abbrev hits : CacheEntry
hits = record { value = CacheValue.int (pos 2); expires_at = some 5000000 }

abbrev entries : Entries
entries =
    ("hits", hits) ∷ ("old", record { value = CacheValue.text "x"; expires_at = some 10 }) ∷ []

cache_key_injective_example :
    (◌≡◌ {A = String} "tenant" "tenant")
    × (◌≡◌ {A = List String} ("tenant_id=a" ∷ "settings" ∷ []) ("tenant_id=a" ∷ "settings" ∷ []))
unfolding cache_key any_invalid invalid_segment is_blank has_char join
cache_key_injective_example =
    cache_key_injective "tenant" "tenant" ("tenant_id=a" ∷ "settings" ∷ [])
      ("tenant_id=a" ∷ "settings" ∷ []) {key = "tenant:tenant_id=a:settings"} refl refl

set-live_example :
    live 7000000 "old" (set 20 "old" (CacheValue.text "y") (some (pos 9)) false entries).1 ≡ (
      if "old" == "old"
      then (if leb (20 + seconds (pos 9)) 7000000
          then none
          else some
              (record { value = CacheValue.text "y"; expires_at = some (20 + seconds (pos 9)) }))
      else live 7000000 "old" entries)
unfolding is_blank
set-live_example =
    set-live 20 "old" entries refl (CacheValue.text "y") (pos 9) 7000000 "old" (omega arith)
