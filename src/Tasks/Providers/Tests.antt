-- ===== src/Tasks/Providers/Tests.antt =====
-- src/core/tasks/provider.py: the statements about the providers, at a concrete task.
use fastapi_foundation.Base.{
  ℕ, ◌+◌, pos, String, ◌≡◌, refl, true, eq_iff, Option, none, some, [], ◌∷◌, ◌++◌, arith, AppError,
  app_error, internal_error, Result, ok, err, lookup, eqb, if◌then◌else◌,
}
use fastapi_foundation.Tenancy.{TenantStatus}
use fastapi_foundation.Tasks.{TaskRun, TaskEnvelope, TaskStartOutcome, pending_run, collides}
use fastapi_foundation.Tasks.Providers.{
  RegisteredTaskHandler, Place, SyncTaskProvider, DatabaseQueueTaskProvider, task_result_from_run,
  submit,
}
use fastapi_foundation.Tasks.Queue.{run_next}
use fastapi_foundation.Tasks.Submits.{settled_run, submit_twice}
use fastapi_foundation.Tasks.Workers.{handled, report_of, run_next_handles}

abbrev envelope : TaskEnvelope
envelope = record {
  task_id = "t1";
  task_type = "report";
  tenant_id = "acme";
  payload = "{}";
  idempotency_key = "k1";
  request_id = "r1";
  trace_id = none;
}

abbrev describe : AppError → String
describe e = e.message

-- The handler counts its calls, and raises on the first.
abbrev report : RegisteredTaskHandler ℕ
report = record {
  queue = "slow";
  handler = λ e n.
      if eqb n 0 then (err (app_error internal_error "down" 500), 1) else (ok (some "done"), n + 1);
}

abbrev sync : SyncTaskProvider ℕ
sync = record { task_registry = ("report", report) ∷ []; has_repository = true; max_attempts = 3 }

abbrev empty : Place ℕ
empty = record { table = []; world = 1 }

submit_twice_example :
    submit describe sync
      (record envelope { task_id = "t2" })
      TenantStatus.active
      300
      400
      (submit describe sync envelope TenantStatus.active 100 200 empty).1
    ≡ (
      ok (
          task_result_from_run
            (settled_run describe sync envelope 100 200 report empty)
            "slow"
            TaskStartOutcome.replayed),
      (submit describe sync envelope TenantStatus.active 100 200 empty).1,
    )
unfolding collides lookup
submit_twice_example =
    submit_twice describe sync envelope 100 200 report empty refl refl refl "t2" 300 400

abbrev queued : DatabaseQueueTaskProvider ℕ
queued = record {
  task_registry = ("report", report) ∷ [];
  max_attempts = 3;
  retry_backoff_seconds = pos 30;
}

abbrev waiting : TaskRun
waiting = pending_run envelope "slow" 3

-- It is to be retried at the instant 5000.
abbrev postponed : TaskRun
postponed = record (pending_run (record envelope { task_id = "t0" }) "slow" 3) {
  next_retry_at = some 5000;
}

abbrev other : TaskRun
other = pending_run (record envelope { task_id = "t2" }) "slow" 3

abbrev three_waiting : Place ℕ
three_waiting = record { table = postponed ∷ waiting ∷ other ∷ []; world = 0 }

abbrev down : Result (Option String)
down = err (app_error internal_error "down" 500)

run_next_handles_example :
    run_next describe queued "slow" TenantStatus.active 100 110 120 200 three_waiting ≡ (
      ok (some (report_of describe queued "slow" 100 110 120 200 report down waiting)),
      record {
        table =
            (postponed ∷ [])
            ++ handled describe queued "slow" 100 110 120 200 report down waiting ∷ other ∷ [];
        world = 1;
      },
    )
unfolding lookup
run_next_handles_example =
    run_next_handles describe queued "slow" 100 110 120 200 report (postponed ∷ []) (other ∷ [])
      waiting three_waiting refl ((λ w. absurd (omega (arith, w.2))), tt) (refl, refl, tt)
      ((λ e. absurd (ground (arith, e, eq_iff "t0" "t1"))), tt)
      ((λ e. absurd (ground (arith, e, eq_iff "t2" "t1"))), tt) refl
