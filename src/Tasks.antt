-- ===== src/Tasks.antt =====
-- src/core/tasks/repository.py: `TaskRunRepository`, as one transaction sees the table, whose rows
-- are unique in their id and in their tenant and idempotency key. The rows stand in the order of
-- their creation and id, an instant is a number of microseconds, and a payload is a text.
pub mod Runs
pub mod Recovery
pub mod Once
pub mod Calls
pub mod Claims
pub mod Providers
pub mod Queue
pub mod Submits
pub mod Workers
mod Tests
use fastapi_foundation.Base.{
  ℕ, ◌+◌, ◌*◌, ℤ, pos_part, String, Bool, true, false, not, ◌||◌, ◌&&◌, Option, none, some, List,
  [], ◌∷◌, ◌++◌, leb, if◌then◌else◌, app_error, conflict, task_idempotency_key_conflict, Result, ok,
  err, Exec, pure, raise, lift, gets, raise_if, modify, ◌>>=◌, ◌>>◌, ◌==◌, update_where,
}

-- `TaskRunStatus`
pub data TaskRunStatus : Type 0 where
  pending running succeeded failed dead_letter cancelled : TaskRunStatus

pub record TaskRun : Type 0 where
  pub id : String
  pub tenant_id : String
  pub task_type : String
  pub idempotency_key : String
  pub status : TaskRunStatus
  pub progress : ℕ
  pub input_payload : String
  pub result_payload : Option String
  pub error_message : Option String
  pub queue : String
  pub attempt_count : ℕ
  pub max_attempts : ℕ
  pub request_id : Option String
  pub trace_id : Option String
  pub next_retry_at : Option ℕ
  pub started_at : Option ℕ
  pub finished_at : Option ℕ

-- src/core/tasks/registry.py
pub record TaskEnvelope : Type 0 where
  pub task_id : String
  pub task_type : String
  pub tenant_id : String
  pub payload : String
  pub idempotency_key : String
  pub request_id : String
  pub trace_id : Option String

abbrev pub Table : Type 0
Table = List TaskRun

-- `TaskStartOutcome`
pub data TaskStartOutcome : Type 0 where
  started replayed in_progress : TaskStartOutcome

pub record TaskStartResult : Type 0 where
  pub outcome : TaskStartOutcome
  pub task_run : TaskRun

abbrev pub has_key : String → String → TaskRun → Bool
has_key tenant key r = (r.tenant_id == tenant) && (r.idempotency_key == key)

-- `_get_by_idempotency_key`
unfoldable pub find_key : String → String → Table → Option TaskRun
find_key tenant key [] = none
find_key tenant key (r ∷ t) =
    let rest = find_key tenant key t in if has_key tenant key r then some r else rest

-- The row breaks a constraint beside a row of the table.
unfoldable pub collides : TaskRun → Table → Bool
collides r [] = false
collides r (x ∷ t) = (x.id == r.id) || has_key r.tenant_id r.idempotency_key x || collides r t

abbrev pub same_request : TaskRun → TaskEnvelope → Bool
same_request r envelope =
    (r.task_type == envelope.task_type) && (r.input_payload == envelope.payload)

-- `_assert_same_idempotent_request`
assert_same_idempotent_request : TaskRun → TaskEnvelope → Result (Unit {0})
assert_same_idempotent_request r envelope =
    if same_request r envelope
    then ok tt
    else err (
        app_error task_idempotency_key_conflict
          "Task idempotency key was already used with a different task request" 409)

abbrev pub is_open : TaskRunStatus → Bool
is_open pending = true
is_open running = true
is_open _ = false

-- What becomes of an insert that the constraints refuse.
existing_run : String → TaskEnvelope → Option TaskRun → Exec Table TaskStartResult
unfolding assert_same_idempotent_request
existing_run raced envelope none = raise (app_error conflict raced 409)
existing_run raced envelope (some r) = do
  lift (assert_same_idempotent_request r envelope)
  pure (record { outcome = if is_open r.status then in_progress else replayed; task_run = r })

pub insert_once : String → TaskEnvelope → TaskRun → Exec Table TaskStartResult
unfolding existing_run
insert_once raced envelope r t =
    if collides r t
    then existing_run raced envelope (find_key envelope.tenant_id envelope.idempotency_key t) t
    else (ok (record { outcome = started; task_run = r }), t ++ r ∷ [])

abbrev pub running_run : TaskEnvelope → String → ℕ → ℕ → TaskRun
running_run envelope queue max_attempts now = record {
  id = envelope.task_id;
  tenant_id = envelope.tenant_id;
  task_type = envelope.task_type;
  idempotency_key = envelope.idempotency_key;
  status = running;
  progress = 0;
  input_payload = envelope.payload;
  result_payload = none;
  error_message = none;
  queue = queue;
  attempt_count = 1;
  max_attempts = max_attempts;
  request_id = some envelope.request_id;
  trace_id = envelope.trace_id;
  next_retry_at = none;
  started_at = some now;
  finished_at = none;
}

abbrev pub pending_run : TaskEnvelope → String → ℕ → TaskRun
pending_run envelope queue max_attempts = record (running_run envelope queue max_attempts 0) {
  status = pending;
  attempt_count = 0;
  started_at = none;
}

unfoldable pub start_once : TaskEnvelope → String → ℕ → ℕ → Exec Table TaskStartResult
unfolding insert_once
start_once envelope queue max_attempts now =
    insert_once "Task idempotency claim raced but no task run was found" envelope
      (running_run envelope queue max_attempts now)

pub start : TaskEnvelope → String → ℕ → ℕ → Exec Table TaskRun
start envelope queue max_attempts now = do
  result ← start_once envelope queue max_attempts now
  pure result.task_run

unfoldable pub enqueue_once : TaskEnvelope → String → ℕ → Exec Table TaskStartResult
unfolding insert_once
enqueue_once envelope queue max_attempts =
    insert_once "Task idempotency enqueue raced but no task run was found" envelope
      (pending_run envelope queue max_attempts)
