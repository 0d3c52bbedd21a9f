-- ===== src/Tasks/Runs.antt =====
-- src/core/tasks/repository.py: the operations on a run, which is the object of its row: what is
-- changed of the object is written to the row.
use fastapi_foundation.Base.{
  ok, ℕ, ◌+◌, ◌*◌, ℤ, pos_part, String, Bool, true, false, not, ◌&&◌, Option, none, some, [], ◌∷◌,
  leb, if◌then◌else◌, app_error, conflict, Exec, pure, gets, raise_if, ◌>>=◌, ◌>>◌, ◌==◌,
  update_where,
}
use fastapi_foundation.Tasks.{TaskRunStatus, TaskRun, Table}

abbrev pub is_row : TaskRun → TaskRun → Bool
is_row r x = x.id == r.id

-- A change of the run, flushed.
abbrev pub change : TaskRun → (TaskRun → TaskRun) → Exec Table TaskRun
change r f t = (ok (f r), update_where (is_row r) f t)

abbrev pub is_pending : TaskRunStatus → Bool
is_pending TaskRunStatus.pending = true
is_pending _ = false

abbrev pub is_failure : TaskRunStatus → Bool
is_failure TaskRunStatus.failed = true
is_failure TaskRunStatus.dead_letter = true
is_failure _ = false

abbrev pub restarted : ℕ → TaskRun → TaskRun
restarted now r = record r {
  status = TaskRunStatus.running;
  progress = 0;
  attempt_count = r.attempt_count + 1;
  result_payload = none;
  error_message = none;
  next_retry_at = none;
  started_at = some now;
  finished_at = none;
}

unfoldable pub start_pending : TaskRun → ℕ → Exec Table TaskRun
start_pending r now = do
  raise_if (not (is_pending r.status))
      (app_error conflict "Only pending task runs can be claimed by a worker" 409)
  change r (restarted now)

unfoldable pub start_retry : TaskRun → ℕ → Exec Table TaskRun
start_retry r now = do
  raise_if (not (is_failure r.status))
      (app_error conflict "Only failed or dead-letter task runs can be retried" 409)
  change r (restarted now)

abbrev is_due : Option ℕ → ℕ → Bool
is_due none now = true
is_due (some at) now = leb at now

abbrev in_queue : Option String → String → Bool
in_queue none q = true
in_queue (some x) q = q == x

abbrev pub claimable : Option String → ℕ → TaskRun → Bool
claimable queue now r =
    is_pending r.status && (is_due r.next_retry_at now && in_queue queue r.queue)

unfoldable pub first_where : (TaskRun → Bool) → Table → Option TaskRun
first_where c [] = none
first_where c (r ∷ t) = let rest = first_where c t in if c r then some r else rest

claim_found : Option TaskRun → ℕ → Exec Table (Option TaskRun)
unfolding start_pending
claim_found none now = pure none
claim_found (some r) now = do r' ← start_pending r now; pure (some r')

-- The clock is read for the filter and again for the start, unless the caller gives `now`.
unfoldable pub claim_next_pending : Option String → ℕ → ℕ → Exec Table (Option TaskRun)
unfolding claim_found
claim_next_pending queue now starting = do
  found ← gets (first_where (claimable queue now))
  claim_found found starting

abbrev pub succeeded_run : Option String → ℕ → TaskRun → TaskRun
succeeded_run result_payload now r = record r {
  status = TaskRunStatus.succeeded;
  progress = 100;
  result_payload = result_payload;
  error_message = none;
  next_retry_at = none;
  finished_at = some now;
}

unfoldable pub mark_succeeded : TaskRun → Option String → ℕ → Exec Table TaskRun
mark_succeeded r result_payload now = change r (succeeded_run result_payload now)

-- No attempt is left.
abbrev pub exhausted : TaskRun → Bool
exhausted r = leb r.max_attempts r.attempt_count

abbrev pub failed_run : String → ℕ → TaskRun → TaskRun
failed_run error_message now r = record r {
  status = if exhausted r then TaskRunStatus.dead_letter else TaskRunStatus.failed;
  error_message = some error_message;
  next_retry_at = none;
  finished_at = some now;
}

unfoldable pub mark_failed : TaskRun → String → ℕ → Exec Table TaskRun
mark_failed r error_message now = change r (failed_run error_message now)

abbrev pub retry_run : String → ℤ → ℕ → TaskRun → TaskRun
retry_run error_message backoff now r = record r {
  progress = 0;
  result_payload = none;
  error_message = some error_message;
  finished_at = some now;
  status = if exhausted r then TaskRunStatus.dead_letter else TaskRunStatus.pending;
  next_retry_at = if exhausted r then none else some (now + pos_part backoff * 1000000);
}

unfoldable pub mark_retry_pending : TaskRun → String → ℤ → ℕ → Exec Table TaskRun
mark_retry_pending r error_message backoff now = change r (retry_run error_message backoff now)

abbrev pub is_cancellable : TaskRunStatus → Bool
is_cancellable TaskRunStatus.pending = true
is_cancellable TaskRunStatus.running = true
is_cancellable TaskRunStatus.failed = true
is_cancellable _ = false

abbrev pub cancelled_run : String → ℕ → TaskRun → TaskRun
cancelled_run reason now r = record r {
  status = TaskRunStatus.cancelled;
  progress = 0;
  error_message = some reason;
  next_retry_at = none;
  finished_at = some now;
}
