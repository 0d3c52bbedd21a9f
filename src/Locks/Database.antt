-- ===== src/Locks/Database.antt =====
-- src/core/locks/database.py: `DatabaseLockProvider`. The table is the dict of the rows by their
-- primary key. Each attempt is a transaction of its own; what other transactions commit before it,
-- and between its look at the row and its write, is an argument, by the attempts left. `now` is the
-- clock's reading, of each attempt where there are several.
pub mod Refines
pub mod Races
mod Tests
pub mod Sequences
use fastapi_foundation.Base.{
  ℕ, zero, suc, ◌+◌, String, Bool, true, false, Option, none, some, leb, ltb, ◌&&◌, if◌then◌else◌,
  ℤ, pos, leb_ℤ, is_blank, not, Dict, lookup, insert, or_default, app_error, validation_error,
  lock_not_acquired, Exec, pure, raise, gets, raise_if, modify, ◌>>=◌, ◌>>◌, ◌==◌, ok,
}
use fastapi_foundation.Cache.{seconds}
use fastapi_foundation.Locks.{LockHandle}

-- src/core/locks/models.py, without the key, under which the row stands.
pub record DatabaseLock : Type 0 where
  pub owner_token : String
  pub expires_at : ℕ
  pub fencing_token : ℕ

abbrev pub Rows : Type 0
Rows = Dict DatabaseLock

-- What other transactions commit, by the attempts left.
pub record Others : Type 0 where
  pub before : ℕ → Rows → Rows
  pub between : ℕ → Rows → Rows

validate_key : String → Exec Rows (Unit {0})
validate_key key =
    raise_if (is_blank key) (app_error validation_error "Lock key must be non-empty" 400)

validate_owner : String → Exec Rows (Unit {0})
validate_owner owner =
    raise_if (is_blank owner) (app_error validation_error "Owner token must be non-empty" 400)

validate_owner? : Option String → Exec Rows (Unit {0})
unfolding validate_owner
validate_owner? none = pure tt
validate_owner? (some owner) = validate_owner owner

-- `_validate`
validate : String → ℤ → Option String → Exec Rows (Unit {0})
unfolding validate_key validate_owner?
validate key ttl owner = do
  validate_key key
  validate_owner? owner
  raise_if (leb_ℤ ttl (pos 0)) (app_error validation_error "Lock TTL must be greater than zero" 400)

abbrev pub refusal : String → String → DatabaseLock → LockHandle
refusal key owner row = record {
  acquired = false;
  lock_key = key;
  owner_token = owner;
  expires_at = row.expires_at;
  fencing_token = row.fencing_token;
}

abbrev pub grant : String → DatabaseLock → LockHandle
grant key row = record {
  acquired = true;
  lock_key = key;
  owner_token = row.owner_token;
  expires_at = row.expires_at;
  fencing_token = row.fencing_token;
}

-- The insert, of the first row of its key; `none` is for the `IntegrityError` when there is one.
insert_first : DatabaseLock → String → Option DatabaseLock → Exec Rows (Option LockHandle)
insert_first new key (some row) = pure none
insert_first new key none = do modify (insert key new); pure (some (grant key new))

-- The update `where expires_at <= now`, and what follows when it takes no row.
-- The object that the session holds is as it was seen, also when the row is read again.
take_over :
    ℕ → String → ℕ → String → DatabaseLock → Option DatabaseLock → Exec Rows (Option LockHandle)
take_over now key deadline owner seen none =
    raise (app_error lock_not_acquired "Lock changed while acquiring" 409)
take_over now key deadline owner seen (some row) =
    let taken : DatabaseLock = record {
      owner_token = owner;
      expires_at = deadline;
      fencing_token = row.fencing_token + 1;
    } in
    if leb row.expires_at now
    then (do modify (insert key taken); pure (some (grant key taken)))
    else pure (some (refusal key owner seen))

-- `_acquire_in_session` from the row that was looked up.
acquire_seen :
    (Rows → Rows) → ℕ → String → ℤ → String → Option DatabaseLock → Exec Rows (Option LockHandle)
unfolding insert_first take_over
acquire_seen between now key ttl owner none = do
  modify between
  row ← gets (lookup key)
  insert_first (record { owner_token = owner; expires_at = now + seconds ttl; fencing_token = 1 })
      key row
acquire_seen between now key ttl owner (some seen) =
    if leb seen.expires_at now
    then (do
      modify between
      row ← gets (lookup key)
      take_over now key (now + seconds ttl) owner seen row)
    else pure (some (refusal key owner seen))

unfoldable pub acquire_in_session :
    (Rows → Rows) → ℕ → String → ℤ → String → Exec Rows (Option LockHandle)
unfolding acquire_seen
acquire_in_session between now key ttl owner = do
  seen ← gets (lookup key)
  acquire_seen between now key ttl owner seen

-- `_read_locked_handle` after the attempts.
after_retry : String → String → Option DatabaseLock → Exec Rows LockHandle
after_retry key owner none =
    raise (app_error lock_not_acquired "Lock could not be acquired after retry" 409)
after_retry key owner (some row) = pure (refusal key owner row)

-- The loop over `range(2)`.
unfoldable pub acquire_attempts : ℕ → Others → (ℕ → ℕ) → String → ℤ → String → Exec Rows LockHandle
unfolding acquire_in_session after_retry
acquire_attempts zero others now key ttl owner = do
  modify (others.before zero)
  row ← gets (lookup key)
  after_retry key owner row
acquire_attempts (suc n) others now key ttl owner = do
  modify (others.before (suc n))
  handle ← acquire_in_session (others.between (suc n)) (now (suc n)) key ttl owner
  elim handle [ some h ↦ pure h | none ↦ acquire_attempts n others now key ttl owner ]

unfoldable pub acquire :
    Others → (ℕ → ℕ) → String → String → ℤ → Option String → Exec Rows LockHandle
unfolding validate acquire_attempts
acquire others now uuid key ttl owner_token = do
  validate key ttl owner_token
  acquire_attempts 2 others now key ttl (or_default uuid owner_token)

unfoldable pub require_acquire :
    Others → (ℕ → ℕ) → String → String → ℤ → Option String → Exec Rows LockHandle
unfolding acquire
require_acquire others now uuid key ttl owner_token = do
  handle ← acquire others now uuid key ttl owner_token
  if handle.acquired
      then pure handle
      else raise (app_error lock_not_acquired "Lock is already held" 409)

-- The owner's row, before its deadline.
abbrev pub held_by : ℕ → String → Option DatabaseLock → Bool
held_by now owner none = false
held_by now owner (some row) = (row.owner_token == owner) && not (leb row.expires_at now)

-- The update of the owner's row, before its deadline, to another deadline.
move_deadline : ℕ → ℕ → String → String → Option DatabaseLock → Exec Rows (Option LockHandle)
move_deadline now deadline key owner none = pure none
move_deadline now deadline key owner (some row) =
    let moved = record row { expires_at = deadline } in
    if held_by now owner (some row)
    then (do
      modify (insert key moved)
      pure (some (grant key (record moved { owner_token = owner }))))
    else pure none

unfoldable pub release : (Rows → Rows) → ℕ → String → String → Exec Rows Bool
unfolding validate_key validate_owner move_deadline
release between now key owner = do
  validate_key key
  validate_owner owner
  seen ← gets (lookup key)
  if held_by now owner seen
      then (do
        modify between
        row ← gets (lookup key)
        moved ← move_deadline now now key owner row
        pure (elim moved [ none ↦ false | some _ ↦ true ]))
      else pure false

unfoldable pub extend : (Rows → Rows) → ℕ → String → String → ℤ → Exec Rows (Option LockHandle)
unfolding validate move_deadline
extend between now key owner ttl = do
  validate key ttl (some owner)
  seen ← gets (lookup key)
  if held_by now owner seen
      then (do
        modify between
        row ← gets (lookup key)
        move_deadline now (now + seconds ttl) key owner row)
      else pure none

abbrev pub is_live : ℕ → Option DatabaseLock → Bool
is_live now none = false
is_live now (some row) = not (leb row.expires_at now)

unfoldable pub locked : ℕ → String → Exec Rows Bool
unfolding validate_key
locked now key = do validate_key key; row ← gets (lookup key); pure (is_live now row)
