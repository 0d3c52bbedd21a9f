-- ===== src/Tasks/Providers.antt =====
-- src/core/tasks/provider.py: the providers that run tasks over the repository. A handler works on a
-- world of its own; `describe` is the text of what it raises. The background context that a handler
-- runs in is left out. The clock's readings are those of the run's start and of its mark.
mod Tests
use fastapi_foundation.Base.{
  ℕ, ℤ, String, Bool, true, false, Option, none, some, List, [], ◌∷◌, if◌then◌else◌, Dict, lookup,
  or_default, AppError, app_error, internal_error, Result, ok, err, Exec, pure, raise, lift, gets,
  modify, ◌>>=◌, ◌>>◌,
}
use fastapi_foundation.Tenancy.{
  TenantStatus, TenantOperation, default_policy, assert_tenant_operation_allowed,
}
use fastapi_foundation.Tasks.{
  TaskRunStatus, TaskRun, TaskEnvelope, Table, TaskStartOutcome, TaskStartResult, start_once,
  enqueue_once,
}
use fastapi_foundation.Tasks.Runs.{
  start_pending, start_retry, claim_next_pending, mark_succeeded, mark_failed, mark_retry_pending,
}

-- `TaskResult`; of its metadata the name of the provider is left out.
pub record TaskResult : Type 0 where
  pub task_id : String
  pub task_type : String
  pub status : TaskRunStatus
  pub result_payload : Option String
  pub error_message : Option String
  pub queue : String
  pub idempotency : Option TaskStartOutcome

-- src/core/tasks/registry.py: `RegisteredTaskHandler`, with its queue.
pub record RegisteredTaskHandler (W : Type 0) : Type 0 where
  pub queue : String
  pub handler : TaskEnvelope → Exec W (Option String)

-- The repository's table, and what the handlers work on.
pub record Place (W : Type 0) : Type 0 where
  pub table : Table
  pub world : W

-- `SyncTaskProvider.__init__`; it may have no repository.
pub record SyncTaskProvider (W : Type 0) : Type 0 where
  pub task_registry : Dict (RegisteredTaskHandler W)
  pub has_repository : Bool
  pub max_attempts : ℕ

-- `DatabaseQueueTaskProvider.__init__`
pub record DatabaseQueueTaskProvider (W : Type 0) : Type 0 where
  pub task_registry : Dict (RegisteredTaskHandler W)
  pub max_attempts : ℕ
  pub retry_backoff_seconds : ℤ

-- `_task_result_from_run`
abbrev pub task_result_from_run : TaskRun → String → TaskStartOutcome → TaskResult
task_result_from_run r queue outcome = record {
  task_id = r.id;
  task_type = r.task_type;
  status = r.status;
  result_payload = r.result_payload;
  error_message = r.error_message;
  queue = queue;
  idempotency = some outcome;
}

abbrev pub task_result :
    TaskEnvelope → TaskRunStatus → Option String → Option String → String → TaskResult
task_result envelope status payload message queue = record {
  task_id = envelope.task_id;
  task_type = envelope.task_type;
  status = status;
  result_payload = payload;
  error_message = message;
  queue = queue;
  idempotency = none;
}

-- `to_envelope` of the repository.
abbrev pub to_envelope : TaskRun → TaskEnvelope
to_envelope r = record {
  task_id = r.id;
  task_type = r.task_type;
  tenant_id = r.tenant_id;
  payload = r.input_payload;
  idempotency_key = r.idempotency_key;
  request_id = or_default "" r.request_id;
  trace_id = r.trace_id;
}

-- A run's start by its status, in the sync provider; `none` where it is only reported.
sync_begin : TaskRun → ℕ → Exec Table (Option TaskRun)
sync_begin r now = elim r.status [
  | TaskRunStatus.pending ↦ (do r' ← start_pending r now; pure (some r'))
  | TaskRunStatus.failed ↦ (do r' ← start_retry r now; pure (some r'))
  | TaskRunStatus.dead_letter ↦ (do r' ← start_retry r now; pure (some r'))
  | TaskRunStatus.running ↦ pure (some r)
  | _ ↦ pure none
]

module _ {W : Type 0} (describe : AppError → String) where
  abbrev pub on_table : {A : Type 0} → Exec Table A → Exec (Place W) A
  on_table m p = let (r, t) = m p.table in (r, record p { table = t })

  -- `TaskRegistry.get`
  abbrev pub registered :
      Dict (RegisteredTaskHandler W) → String → Exec (Place W) (RegisteredTaskHandler W)
  registered registry task_type p = elim (lookup task_type registry) [
    | none ↦ (err (app_error internal_error "No task handler registered" 500), p)
    | some h ↦ (ok h, p)
  ]

  abbrev pub assert_task_allowed : TenantStatus → Exec (Place W) (Unit {0})
  assert_task_allowed status =
      lift (assert_tenant_operation_allowed status TenantOperation.task default_policy)

  -- What follows on the handler's result, in the sync provider.
  sync_settle :
      TaskEnvelope
      → String
      → Option TaskRun
      → ℕ
      → Result (Option String)
      → Exec (Place W) TaskResult
  sync_settle envelope queue none now (ok payload) =
      pure (task_result envelope TaskRunStatus.succeeded payload none queue)
  sync_settle envelope queue (some r) now (ok payload) = do
    marked ← on_table (mark_succeeded r payload now)
    pure (task_result envelope TaskRunStatus.succeeded payload none queue)
  sync_settle envelope queue none now (err e) =
      pure (task_result envelope TaskRunStatus.failed none (some (describe e)) queue)
  sync_settle envelope queue (some r) now (err e) = do
    marked ← on_table (mark_failed r (describe e) now)
    pure (task_result envelope marked.status none (some (describe e)) queue)

  -- `SyncTaskProvider._execute`
  sync_execute :
      TaskEnvelope → RegisteredTaskHandler W → Option TaskRun → ℕ → Exec (Place W) TaskResult
  unfolding sync_settle
  sync_execute envelope h r now p =
      let (result, w) = h.handler envelope p.world in
      sync_settle envelope h.queue r now result (record p { world = w })

  -- The run that was started is executed; another is only reported.
  sync_started :
      TaskEnvelope → RegisteredTaskHandler W → ℕ → TaskStartResult → Exec (Place W) TaskResult
  unfolding sync_execute
  sync_started envelope h now s = elim s.outcome [
    | TaskStartOutcome.started ↦ sync_execute envelope h (some s.task_run) now
    | _ ↦ pure (task_result_from_run s.task_run h.queue s.outcome)
  ]

  unfoldable pub submit :
      SyncTaskProvider W → TaskEnvelope → TenantStatus → ℕ → ℕ → Exec (Place W) TaskResult
  unfolding sync_execute sync_started
  submit provider envelope status starting marking = do
    assert_task_allowed status
    h ← registered provider.task_registry envelope.task_type
    if provider.has_repository
        then (do
          s ← on_table (start_once envelope h.queue provider.max_attempts starting)
          sync_started envelope h marking s)
        else sync_execute envelope h none marking

  unfoldable pub retry :
      SyncTaskProvider W → TaskRun → TenantStatus → ℕ → ℕ → Exec (Place W) TaskResult
  unfolding sync_execute
  retry provider r status starting marking =
      if provider.has_repository
      then (do
        assert_task_allowed status
        h ← registered provider.task_registry r.task_type
        r' ← on_table (start_retry r starting)
        sync_execute (to_envelope r') h (some r') marking)
      else raise
          (app_error internal_error "task_repository is required to retry a persisted task run" 500)

  unfoldable pub run_task_run :
      SyncTaskProvider W → TaskRun → TenantStatus → ℕ → ℕ → Exec (Place W) TaskResult
  unfolding sync_begin sync_execute
  run_task_run provider r status starting marking =
      if provider.has_repository
      then (do
        assert_task_allowed status
        h ← registered provider.task_registry r.task_type
        begun ← on_table (sync_begin r starting)
        elim begun [
          | none ↦ pure (task_result_from_run r h.queue TaskStartOutcome.replayed)
          | some r' ↦ sync_execute (to_envelope r') h (some r') marking
        ])
      else raise
          (app_error internal_error "task_repository is required to run a persisted task run" 500)
