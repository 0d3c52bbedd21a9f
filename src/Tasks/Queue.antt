-- ===== src/Tasks/Queue.antt =====
-- src/core/tasks/provider.py: `DatabaseQueueTaskProvider`, whose workers take runs from the table.
use fastapi_foundation.Base.{
  ℕ, ℤ, String, Option, none, some, AppError, app_error, internal_error, Result, ok, err, Exec,
  pure, raise, ◌>>=◌, ◌>>◌,
}
use fastapi_foundation.Tenancy.{TenantStatus}
use fastapi_foundation.Tasks.{
  TaskRunStatus, TaskRun, TaskEnvelope, Table, TaskStartOutcome, enqueue_once,
}
use fastapi_foundation.Tasks.Runs.{
  start_pending, claim_next_pending, mark_succeeded, mark_retry_pending,
}
use fastapi_foundation.Tasks.Providers.{
  TaskResult, RegisteredTaskHandler, Place, DatabaseQueueTaskProvider, task_result_from_run,
  task_result, to_envelope, on_table, registered, assert_task_allowed,
}

-- A run's start by its status; `none` where it is only reported.
queue_begin : TaskRun → ℕ → Exec Table (Option TaskRun)
queue_begin r now = elim r.status [
  | TaskRunStatus.pending ↦ (do r' ← start_pending r now; pure (some r'))
  | TaskRunStatus.running ↦ pure (some r)
  | TaskRunStatus.failed ↦
      raise (app_error internal_error "Database queue cannot run task status 'failed'" 500)
  | _ ↦ pure none
]

module _ {W : Type 0} (describe : AppError → String) where
  -- What follows on the handler's result.
  queue_settle :
      ℤ → TaskEnvelope → String → TaskRun → ℕ → Result (Option String) → Exec (Place W) TaskResult
  queue_settle backoff envelope queue r now (ok payload) = do
    marked ← on_table describe (mark_succeeded r payload now)
    pure (task_result envelope TaskRunStatus.succeeded payload none queue)
  queue_settle backoff envelope queue r now (err e) = do
    marked ← on_table describe (mark_retry_pending r (describe e) backoff now)
    pure (task_result envelope marked.status none (some (describe e)) queue)

  -- `_execute`
  pub queue_execute :
      ℤ → TaskEnvelope → RegisteredTaskHandler W → TaskRun → ℕ → Exec (Place W) TaskResult
  unfolding queue_settle
  queue_execute backoff envelope h r now p =
      let (result, w) = h.handler envelope p.world in
      queue_settle backoff envelope h.queue r now result (record p { world = w })

  queue_begun :
      ℤ → RegisteredTaskHandler W → TaskRun → ℕ → Option TaskRun → Exec (Place W) TaskResult
  unfolding queue_execute
  queue_begun backoff h r now none = pure (task_result_from_run r h.queue TaskStartOutcome.replayed)
  queue_begun backoff h r now (some r') = queue_execute backoff (to_envelope r') h r' now

  unfoldable pub submit :
      DatabaseQueueTaskProvider W → TaskEnvelope → TenantStatus → Exec (Place W) TaskResult
  submit provider envelope status = do
    assert_task_allowed describe status
    h ← registered describe provider.task_registry envelope.task_type
    s ← on_table describe (enqueue_once envelope h.queue provider.max_attempts)
    pure (task_result_from_run s.task_run h.queue s.outcome)

  -- The clock is read for the start and for the mark, unless the caller gives `now`.
  unfoldable pub run_task_run :
      DatabaseQueueTaskProvider W → TaskRun → TenantStatus → ℕ → ℕ → Exec (Place W) TaskResult
  unfolding queue_begin queue_begun
  run_task_run provider r status starting marking = do
    assert_task_allowed describe status
    h ← registered describe provider.task_registry r.task_type
    begun ← on_table describe (queue_begin r starting)
    queue_begun provider.retry_backoff_seconds h r marking begun

  next_found :
      DatabaseQueueTaskProvider W
      → TenantStatus
      → ℕ
      → ℕ
      → Option TaskRun
      → Exec (Place W) (Option TaskResult)
  unfolding run_task_run
  next_found provider status starting marking none = pure none
  next_found provider status starting marking (some r) = do
    result ← run_task_run provider r status starting marking
    pure (some result)

  -- The clock is read for the filter, for the start by the claim, and in `run_task_run`, unless the
  -- caller gives `now`.
  unfoldable pub run_next :
      DatabaseQueueTaskProvider W
      → String
      → TenantStatus
      → ℕ
      → ℕ
      → ℕ
      → ℕ
      → Exec (Place W) (Option TaskResult)
  unfolding next_found
  run_next provider queue status now claiming starting marking = do
    found ← on_table describe (claim_next_pending (some queue) now claiming)
    next_found provider status starting marking found
