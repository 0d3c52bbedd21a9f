-- ===== src/Tasks/Tests.antt =====
-- src/core/tasks/repository.py: the statements about tasks, at a concrete table.
use fastapi_foundation.Base.{String, refl, none, some, [], ◌∷◌, arith, All, Stands}
use fastapi_foundation.Tasks.{TaskRunStatus, TaskRun, TaskEnvelope, Table, pending_run, running_run}
use fastapi_foundation.Tasks.Calls.{Call, after, AgreesWithStatus, after-AgreesWithStatus}
use fastapi_foundation.Tasks.Claims.{final_kept}

abbrev envelope : String → String → TaskEnvelope
envelope id key = record {
  task_id = id;
  task_type = "export";
  tenant_id = "acme";
  payload = "{}";
  idempotency_key = key;
  request_id = "r1";
  trace_id = none;
}

abbrev waiting : TaskRun
waiting = pending_run (envelope "t1" "k1") "default" 3

abbrev done : TaskRun
done = record (running_run (envelope "t2" "k2") "default" 3 40) {
  status = TaskRunStatus.succeeded;
  progress = 100;
  finished_at = some 50;
}

abbrev table : Table
table = waiting ∷ done ∷ []

after-AgreesWithStatus_example : All AgreesWithStatus (after (Call.claiming none 70 75) table)
after-AgreesWithStatus_example =
    after-AgreesWithStatus (Call.claiming none 70 75) table (refl, (refl, tt))

final_kept_example : Stands done (after (Call.cancelling "acme" "closed" 70) table)
final_kept_example =
    final_kept (Call.cancelling "acme" "closed" 70) done table refl refl
      ((λ e. absurd (ground arith)), ((λ e. refl), tt)) (Stands.there Stands.here)
