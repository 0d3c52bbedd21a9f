-- ===== src/Idempotency.antt =====
-- src/core/idempotency/store.py: `IdempotencyStore`, as one transaction sees it, so that an insert
-- fails exactly when the scope has a row. An instant is a number of microseconds; times to live
-- and lock times are not negative. `now` is the argument, or the clock's reading. The details of
-- an `AppError` are left out.
pub mod Records
pub mod Claims
pub mod Expiry
pub mod Guard
mod Tests
use fastapi_foundation.Base.{
  ℕ, ◌+◌, ◌-◌, ◌*◌, ◌/◌, String, Bool, true, false, ◌&&◌, ◌||◌, not, Option, none, some, List, [],
  ◌∷◌, ◌++◌, leb, if◌then◌else◌, is_blank, ◌==◌, app_error, validation_error, conflict,
  idempotency_key_conflict, idempotency_in_progress, Exec, pure, raise, gets, raise_if, modify,
  ◌>>=◌, ◌>>◌,
}
use Prim.Native.String.{◌++◌ as ◌<>◌}
use fastapi_foundation.Idempotency.Records.{Scope, Status, IdempotencyRecord, Table, find, write}

pub data Outcome : Type 0 where
  started replayed : Outcome

pub record IdempotencyClaim : Type 0 where
  pub outcome : Outcome
  pub claimed : IdempotencyRecord

pub any_blank : Scope → Bool
any_blank s =
    is_blank s.tenant_id || is_blank s.user_id || is_blank s.route || is_blank s.idempotency_key

-- The names of the fields that are blank, quoted.
empty_fields : List (String × String) → List String
empty_fields [] = []
empty_fields ((name, value) ∷ values) =
    (if is_blank value then ("'" <> name <> "'") ∷ [] else []) ++ empty_fields values

scope_fields : Scope → List (String × String)
scope_fields s =
    ("tenant_id", s.tenant_id)
    ∷ ("user_id", s.user_id)
    ∷ ("route", s.route)
    ∷ ("idempotency_key", s.idempotency_key)
    ∷ []

-- The names as a list is printed, without its brackets.
listed : List String → String
listed [] = ""
listed (name ∷ []) = name
listed (name ∷ next ∷ names) = name <> ", " <> listed (next ∷ names)

empty_message : List (String × String) → String
unfolding empty_fields listed
empty_message values =
    "Idempotency fields must be non-empty: [" <> listed (empty_fields values) <> "]"

validate_scope : Scope → String → Exec Table (Unit {0})
unfolding any_blank scope_fields empty_message
validate_scope s hash =
    raise_if (any_blank s || is_blank hash) (
      app_error validation_error (empty_message (scope_fields s ++ ("request_hash", hash) ∷ []))
        400)

unfoldable pub processing_record : Scope → String → ℕ → ℕ → ℕ → IdempotencyRecord
processing_record s hash ttl lock now = record {
  scope = s;
  request_hash = hash;
  status = Status.processing;
  response_code = none;
  response_body = none;
  task_id = none;
  outbox_event_id = none;
  locked_until = some (now + lock * 1000000);
  expires_at = now + ttl * 1000000;
}

-- `_insert_processing_record`; the unique constraint refuses a second row of a scope.
insert_processing_record :
    IdempotencyRecord → Option IdempotencyRecord → Exec Table (Option IdempotencyClaim)
insert_processing_record r none = do
  modify (write r)
  pure (some (record { outcome = Outcome.started; claimed = r }))
insert_processing_record r (some _) = pure none

-- `_restart_processing`: the row keeps nothing of the earlier response.
unfoldable pub restarted : IdempotencyRecord → String → ℕ → ℕ → ℕ → IdempotencyRecord
restarted r hash ttl lock now = record r {
  request_hash = hash;
  status = Status.processing;
  response_code = none;
  response_body = none;
  task_id = none;
  outbox_event_id = none;
  locked_until = some (now + lock * 1000000);
  expires_at = now + ttl * 1000000;
}

restart : IdempotencyRecord → String → ℕ → ℕ → ℕ → Exec Table IdempotencyClaim
unfolding restarted
restart r hash ttl lock now = do
  let r' = restarted r hash ttl lock now
  modify (write r')
  pure (record { outcome = Outcome.started; claimed = r' })

-- `locked_until is not None and locked_until <= now`
abbrev pub lock_passed : Option ℕ → ℕ → Bool
lock_passed none now = false
lock_passed (some l) now = leb l now

handle_status : Status → IdempotencyRecord → String → ℕ → ℕ → ℕ → Bool → Exec Table IdempotencyClaim
unfolding restart
handle_status Status.succeeded r hash ttl lock now retry =
    pure (record { outcome = Outcome.replayed; claimed = r })
handle_status Status.processing r hash ttl lock now retry =
    if lock_passed r.locked_until now
    then restart r hash ttl lock now
    else raise (app_error idempotency_in_progress "Idempotency request is already processing" 409)
handle_status Status.failed r hash ttl lock now retry =
    if not retry
    then raise (
        app_error conflict "Failed idempotency request cannot be retried without explicit opt-in"
          409)
    else restart r hash ttl lock now
handle_status Status.expired r hash ttl lock now retry = restart r hash ttl lock now

-- `_handle_existing`
pub handle_existing : IdempotencyRecord → String → ℕ → ℕ → ℕ → Bool → Exec Table IdempotencyClaim
unfolding handle_status restart
handle_existing r hash ttl lock now retry =
    if leb r.expires_at now
    then restart r hash ttl lock now
    else if not (r.request_hash == hash)
    then raise (
        app_error idempotency_key_conflict
          "Idempotency key was already used with a different request payload" 409)
    else handle_status r.status r hash ttl lock now retry

claim_existing : Option IdempotencyRecord → String → ℕ → ℕ → ℕ → Bool → Exec Table IdempotencyClaim
unfolding handle_existing
claim_existing none hash ttl lock now retry =
    raise (app_error conflict "Idempotency claim raced but no record was found" 409)
claim_existing (some r) hash ttl lock now retry = handle_existing r hash ttl lock now retry

claim_inserted :
    Option IdempotencyClaim → Scope → String → ℕ → ℕ → ℕ → Bool → Exec Table IdempotencyClaim
unfolding claim_existing
claim_inserted (some c) s hash ttl lock now retry = pure c
claim_inserted none s hash ttl lock now retry = do
  existing ← gets (find s)
  claim_existing existing hash ttl lock now retry

unfoldable pub claim : Scope → String → ℕ → ℕ → ℕ → Bool → Exec Table IdempotencyClaim
unfolding validate_scope processing_record insert_processing_record claim_inserted
claim s hash ttl lock now retry = do
  validate_scope s hash
  row ← gets (find s)
  inserted ← insert_processing_record (processing_record s hash ttl lock now) row
  claim_inserted inserted s hash ttl lock now retry

abbrev pub succeeded_record :
    IdempotencyRecord → String → String → Option String → Option String → IdempotencyRecord
succeeded_record r code body task event = record r {
  status = Status.succeeded;
  response_code = some code;
  response_body = some body;
  task_id = task;
  outbox_event_id = event;
  locked_until = none;
}

-- It is the caller's record that is changed, and its row.
unfoldable pub mark_succeeded :
    IdempotencyRecord
    → String
    → String
    → Option String
    → Option String
    → Exec Table IdempotencyRecord
mark_succeeded r code body task event = do
  modify (write (succeeded_record r code body task event))
  pure (succeeded_record r code body task event)

abbrev pub failed_record : IdempotencyRecord → String → String → IdempotencyRecord
failed_record r code body = record r {
  status = Status.failed;
  response_code = some code;
  response_body = some body;
  locked_until = none;
}

unfoldable pub mark_failed : IdempotencyRecord → String → String → Exec Table IdempotencyRecord
mark_failed r code body = do
  modify (write (failed_record r code body))
  pure (failed_record r code body)

abbrev is_expired : Status → Bool
is_expired Status.expired = true
is_expired _ = false

-- The rows that `expire_before` selects.
abbrev pub is_due : ℕ → IdempotencyRecord → Bool
is_due now r = not (is_expired r.status) && leb r.expires_at now

expire_rows : ℕ → Table → Table
expire_rows now [] = []
expire_rows now (r ∷ t) =
    (if is_due now r then record r { status = Status.expired; locked_until = none } else r)
    ∷ expire_rows now t

count_due : ℕ → Table → ℕ
count_due now [] = 0
count_due now (r ∷ t) = (if is_due now r then 1 else 0) + count_due now t

unfoldable pub expire_before : ℕ → Exec Table ℕ
unfolding expire_rows count_due
expire_before now = do n ← gets (count_due now); modify (expire_rows now); pure n

-- `IdempotencyDiagnosisStatus`
pub data Diagnosis : Type 0 where
  missing expired_reusable request_hash_conflict replayable in_progress : Diagnosis
  failed_requires_retry_opt_in retryable_failed : Diagnosis

abbrev differs : IdempotencyRecord → Option String → Bool
differs r none = false
differs r (some hash) = not (r.request_hash == hash)

abbrev is_blank? : Option String → Bool
is_blank? none = false
is_blank? (some s) = is_blank s

diagnose_status : Status → Bool → Diagnosis
diagnose_status Status.succeeded retry = replayable
diagnose_status Status.processing retry = in_progress
diagnose_status Status.failed retry =
    if retry then retryable_failed else failed_requires_retry_opt_in
diagnose_status Status.expired retry =
    if retry then retryable_failed else failed_requires_retry_opt_in

diagnose_found : Option IdempotencyRecord → Option String → ℕ → Bool → Diagnosis
unfolding diagnose_status
diagnose_found none hash now retry = missing
diagnose_found (some r) hash now retry =
    if leb r.expires_at now || is_expired r.status
    then expired_reusable
    else if differs r hash
    then request_hash_conflict
    else diagnose_status r.status retry

hash_field : Option String → List (String × String)
hash_field none = []
hash_field (some hash) = ("request_hash", hash) ∷ []

-- The status of the diagnosis.
unfoldable pub diagnose : Scope → Option String → ℕ → Bool → Exec Table Diagnosis
unfolding any_blank diagnose_found scope_fields empty_message hash_field
diagnose s hash now retry = do
  raise_if (any_blank s || is_blank? hash)
      (app_error validation_error (empty_message (scope_fields s ++ hash_field hash)) 400)
  row ← gets (find s)
  pure (diagnose_found row hash now retry)

-- `_retry_after_seconds`
unfoldable pub retry_after_seconds : Option ℕ → ℕ → ℕ
retry_after_seconds none now = 0
retry_after_seconds (some l) now = (l - now) / 1000000
