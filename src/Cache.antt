-- ===== src/Cache.antt =====
-- src/core/cache/memory.py: `MemoryCacheProvider`, with lazy expiry. An instant is a number of
-- microseconds, the resolution of `datetime`; the arguments t, u are the readings of the clock,
-- in the order in which a method takes them. A coroutine of the provider is never suspended, so
-- that a method runs in one piece. The json methods are left out.
pub mod Keys
pub mod Provider
pub mod View
pub mod Counter
mod Tests
use fastapi_foundation.Base.{
  ℕ, ◌+◌, ◌*◌, String, Bool, true, false, Option, none, some, leb, if◌then◌else◌, ℤ, pos, pos_part,
  ◌+ℤ◌, leb_ℤ, is_blank, Dict, lookup, insert, erase, is_some, app_error, validation_error,
  conflict, Exec, pure, raise, gets, raise_if, modify, ◌>>=◌, ◌>>◌,
}

-- A cached value: Python's `None`, an `int`, a `str`, or any other object, by a name for it.
pub data CacheValue : Type 0 where
  null : CacheValue
  int : ℤ → CacheValue
  text object : String → CacheValue

-- `_CacheEntry`
pub record CacheEntry : Type 0 where
  pub value : CacheValue
  pub expires_at : Option ℕ

abbrev pub Entries : Type 0
Entries = Dict CacheEntry

-- `timedelta(seconds=n)`, of a positive number of seconds
abbrev pub seconds : ℤ → ℕ
seconds n = pos_part n * 1000000

unfoldable pub expired : ℕ → CacheEntry → Bool
expired t entry = elim entry.expires_at [ none ↦ false | some e ↦ leb e t ]

validate_key : String → Exec Entries (Unit {0})
validate_key key =
    raise_if (is_blank key) (app_error validation_error "Cache key must be non-empty" 400)

validate_ttl : ℤ → Exec Entries (Unit {0})
validate_ttl ttl =
    raise_if (leb_ℤ ttl (pos 0))
      (app_error validation_error "Cache TTL must be greater than zero" 400)

-- `_expires_at`
unfoldable pub deadline : ℕ → Option ℤ → Bool → Exec Entries (Option ℕ)
unfolding validate_ttl
deadline t none true = pure none
deadline t (some ttl) true =
    raise (app_error validation_error "Permanent cache entries cannot also declare TTL" 400)
deadline t none false =
    raise (app_error validation_error "Cache entries require ttl_seconds unless permanent=True" 400)
deadline t (some ttl) false = do validate_ttl ttl; pure (some (t + seconds ttl))

get_found : ℕ → String → Option CacheEntry → Exec Entries CacheValue
get_found t key none = pure null
get_found t key (some entry) =
    if expired t entry then (do modify (erase key); pure null) else pure entry.value

unfoldable pub get : ℕ → String → Exec Entries CacheValue
unfolding validate_key get_found
get t key = do validate_key key; entry ← gets (lookup key); get_found t key entry

unfoldable pub set : ℕ → String → CacheValue → Option ℤ → Bool → Exec Entries (Unit {0})
unfolding validate_key deadline
set t key value ttl permanent = do
  validate_key key
  expires_at ← deadline t ttl permanent
  modify (insert key (record { value = value; expires_at = expires_at }))

unfoldable pub delete : ℕ → String → Exec Entries Bool
unfolding validate_key get
delete t key = do
  validate_key key
  get t key
  entry ← gets (lookup key)
  modify (erase key)
  pure (is_some entry)

abbrev pub is_null : CacheValue → Bool
is_null null = true
is_null _ = false

unfoldable pub exists : ℕ → String → Exec Entries Bool
unfolding get
exists t key = do value ← get t key; pure (if is_null value then false else true)

write : String → CacheEntry → ℤ → Exec Entries ℤ
write key entry value = do modify (insert key entry); pure value

-- The entry that a live value stands in keeps its deadline.
incr_entry : String → ℤ → Option CacheEntry → Exec Entries ℤ
unfolding write
incr_entry key value none = pure value
incr_entry key value (some entry) = write key (record entry { value = int value }) value

incr_current : ℕ → String → ℤ → Option ℤ → Bool → CacheValue → Exec Entries ℤ
unfolding deadline write incr_entry
incr_current u key amount ttl permanent null = do
  expires_at ← deadline u ttl permanent
  write key (record { value = int amount; expires_at = expires_at }) amount
incr_current u key amount ttl permanent (int n) = do
  entry ← gets (lookup key)
  incr_entry key (n +ℤ amount) entry
incr_current u key amount ttl permanent (text _) =
    raise (app_error conflict "Cache value is not an integer" 409)
incr_current u key amount ttl permanent (object _) =
    raise (app_error conflict "Cache value is not an integer" 409)

unfoldable pub incr : ℕ → ℕ → String → ℤ → Option ℤ → Bool → Exec Entries ℤ
unfolding validate_key get incr_current
incr t u key amount ttl permanent = do
  validate_key key
  current ← get t key
  incr_current u key amount ttl permanent current

expire_found : ℕ → ℕ → String → ℤ → Option CacheEntry → Exec Entries Bool
expire_found t u key ttl none = do modify (erase key); pure false
expire_found t u key ttl (some entry) =
    if expired t entry
    then (do modify (erase key); pure false)
    else (do modify (insert key (record entry { expires_at = some (u + seconds ttl) })); pure true)

unfoldable pub expire : ℕ → ℕ → String → ℤ → Exec Entries Bool
unfolding validate_key validate_ttl expire_found
expire t u key ttl = do
  validate_key key
  validate_ttl ttl
  entry ← gets (lookup key)
  expire_found t u key ttl entry
