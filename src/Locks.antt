-- ===== src/Locks.antt =====
-- src/core/locks/memory.py: `MemoryLockProvider`, locks with an owner, a deadline and a fencing token.
-- An instant is a number of microseconds; t and u are the clock's readings, in the order in which
-- a method takes them, and `uuid` is the text that `uuid4` would give. A coroutine of the provider
-- is never suspended, so that a method runs in one piece.
pub mod Holder
pub mod Fencing
pub mod Database
mod Tests
use fastapi_foundation.Base.{
  ℕ, ◌+◌, ◌*◌, String, Bool, true, false, Option, none, some, leb, if◌then◌else◌, ℤ, pos, pos_part,
  leb_ℤ, is_blank, not, Dict, lookup, insert, erase, is_some, or_default, app_error,
  validation_error, lock_not_acquired, Exec, pure, raise, gets, raise_if, modify, ◌>>=◌, ◌>>◌, ◌==◌,
}
use fastapi_foundation.Cache.{seconds}

-- src/core/locks/provider.py
pub record LockHandle : Type 0 where
  pub acquired : Bool
  pub lock_key : String
  pub owner_token : String
  pub expires_at : ℕ
  pub fencing_token : ℕ

-- `_LockEntry`
pub record LockEntry : Type 0 where
  pub owner_token : String
  pub expires_at : ℕ
  pub fencing_token : ℕ

pub record MemoryLockProvider : Type 0 where
  pub locks : Dict LockEntry
  pub fencing_tokens : Dict ℕ

validate_key : String → Exec MemoryLockProvider (Unit {0})
validate_key key =
    raise_if (is_blank key) (app_error validation_error "Lock key must be non-empty" 400)

validate_owner : String → Exec MemoryLockProvider (Unit {0})
validate_owner owner =
    raise_if (is_blank owner) (app_error validation_error "Owner token must be non-empty" 400)

validate_owner? : Option String → Exec MemoryLockProvider (Unit {0})
unfolding validate_owner
validate_owner? none = pure tt
validate_owner? (some owner) = validate_owner owner

-- `_validate`
validate : String → ℤ → Option String → Exec MemoryLockProvider (Unit {0})
unfolding validate_key validate_owner?
validate key ttl owner = do
  validate_key key
  validate_owner? owner
  raise_if (leb_ℤ ttl (pos 0)) (app_error validation_error "Lock TTL must be greater than zero" 400)

purge_found : ℕ → String → Option LockEntry → Exec MemoryLockProvider (Unit {0})
purge_found t key none = pure tt
purge_found t key (some e) =
    if leb e.expires_at t then modify (λ s. record s { locks = erase key s.locks }) else pure tt

unfoldable pub purge_if_expired : ℕ → String → Exec MemoryLockProvider (Unit {0})
unfolding purge_found
purge_if_expired t key = do existing ← gets (λ s. lookup key s.locks); purge_found t key existing

acquire_found : ℕ → String → ℤ → String → Option LockEntry → Exec MemoryLockProvider LockHandle
acquire_found u key ttl owner (some e) = pure (record {
  acquired = false;
  lock_key = key;
  owner_token = owner;
  expires_at = e.expires_at;
  fencing_token = e.fencing_token;
})
acquire_found u key ttl owner none = do
  last ← gets (λ s. or_default 0 (lookup key s.fencing_tokens))
  modify (λ s. record s { fencing_tokens = insert key (last + 1) s.fencing_tokens })
  modify (λ s. record s {
    locks =
        insert key
          (record { owner_token = owner; expires_at = u + seconds ttl; fencing_token = last + 1 })
          s.locks;
  })
  pure (record {
    acquired = true;
    lock_key = key;
    owner_token = owner;
    expires_at = u + seconds ttl;
    fencing_token = last + 1;
  })

unfoldable pub acquire :
    ℕ → ℕ → String → String → ℤ → Option String → Exec MemoryLockProvider LockHandle
unfolding validate purge_if_expired acquire_found
acquire t u uuid key ttl owner_token = do
  validate key ttl owner_token
  let owner = or_default uuid owner_token
  purge_if_expired t key
  existing ← gets (λ s. lookup key s.locks)
  acquire_found u key ttl owner existing

unfoldable pub require_acquire :
    ℕ → ℕ → String → String → ℤ → Option String → Exec MemoryLockProvider LockHandle
unfolding acquire
require_acquire t u uuid key ttl owner_token = do
  handle ← acquire t u uuid key ttl owner_token
  if handle.acquired
      then pure handle
      else raise (app_error lock_not_acquired "Lock is already held" 409)

-- `existing is not None and existing.owner_token == owner_token`
abbrev pub owned : String → Option LockEntry → Bool
owned owner none = false
owned owner (some e) = e.owner_token == owner

unfoldable pub release : ℕ → String → String → Exec MemoryLockProvider Bool
unfolding validate_key validate_owner purge_if_expired
release t key owner = do
  validate_key key
  validate_owner owner
  purge_if_expired t key
  existing ← gets (λ s. lookup key s.locks)
  if owned owner existing
      then (do modify (λ s. record s { locks = erase key s.locks }); pure true)
      else pure false

extend_found :
    ℕ → String → String → ℤ → Option LockEntry → Exec MemoryLockProvider (Option LockHandle)
extend_found u key owner ttl none = pure none
extend_found u key owner ttl (some e) =
    if e.owner_token == owner
    then (do
      modify
          (λ s. record s { locks = insert key (record e { expires_at = u + seconds ttl }) s.locks })
      pure (
          some (record {
            acquired = true;
            lock_key = key;
            owner_token = owner;
            expires_at = u + seconds ttl;
            fencing_token = e.fencing_token;
          })))
    else pure none

unfoldable pub extend : ℕ → ℕ → String → String → ℤ → Exec MemoryLockProvider (Option LockHandle)
unfolding validate purge_if_expired extend_found
extend t u key owner ttl = do
  validate key ttl (some owner)
  purge_if_expired t key
  existing ← gets (λ s. lookup key s.locks)
  extend_found u key owner ttl existing

unfoldable pub locked : ℕ → String → Exec MemoryLockProvider Bool
unfolding validate_key purge_if_expired
locked t key = do
  validate_key key
  purge_if_expired t key
  existing ← gets (λ s. lookup key s.locks)
  pure (is_some existing)
