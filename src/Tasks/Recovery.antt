-- ===== src/Tasks/Recovery.antt =====
-- src/core/tasks/repository.py: the operations on many runs at once, the recovery of runs whose
-- worker was interrupted and the cancellation of a tenant's runs.
use fastapi_foundation.Base.{
  ℕ, String, Bool, true, false, ◌||◌, ◌&&◌, Option, none, some, List, [], ◌∷◌, ltb, leb, or_default,
  if◌then◌else◌, map, take, Exec, ok, ◌==◌, update_where, select_where,
}
use fastapi_foundation.Tasks.{TaskRunStatus, TaskRun, Table}
use fastapi_foundation.Tasks.Runs.{exhausted, is_cancellable, cancelled_run}

abbrev is_running : TaskRunStatus → Bool
is_running TaskRunStatus.running = true
is_running _ = false

-- `started_at < older_than`, which a NULL is not
abbrev is_before : Option ℕ → ℕ → Bool
is_before none t = false
is_before (some s) t = ltb s t

abbrev pub is_stale : ℕ → TaskRun → Bool
is_stale older_than r = is_running r.status && is_before r.started_at older_than

insert_by_start : TaskRun → List TaskRun → List TaskRun
insert_by_start r [] = r ∷ []
insert_by_start r (x ∷ rs) =
    let rest = insert_by_start r rs in
    if leb (or_default 0 r.started_at) (or_default 0 x.started_at) then r ∷ x ∷ rs else x ∷ rest

-- `ORDER BY started_at`
order_by_start : List TaskRun → List TaskRun
unfolding insert_by_start
order_by_start [] = []
order_by_start (r ∷ rs) = insert_by_start r (order_by_start rs)

unfoldable pub is_among : List TaskRun → TaskRun → Bool
is_among [] x = false
is_among (r ∷ rs) x = (r.id == x.id) || is_among rs x

stale_runs : ℕ → ℕ → Table → List TaskRun
unfolding order_by_start
stale_runs older_than limit t = take limit (order_by_start (select_where (is_stale older_than) t))

abbrev pub recovered_run : String → ℕ → TaskRun → TaskRun
recovered_run error_message now r = record r {
  status = if exhausted r then TaskRunStatus.dead_letter else TaskRunStatus.failed;
  error_message = some error_message;
  finished_at = some now;
}

-- The rows of those runs, which are stale themselves, are written.
unfoldable pub recover_stale_running : ℕ → ℕ → String → ℕ → Exec Table (List TaskRun)
unfolding stale_runs
recover_stale_running older_than limit error_message now t =
    let runs = stale_runs older_than limit t in
    (
      ok (map (recovered_run error_message now) runs),
      update_where (λ x. is_stale older_than x && is_among runs x) (recovered_run error_message now)
          t,
    )

abbrev pub is_tenants : String → TaskRun → Bool
is_tenants tenant_id r = (r.tenant_id == tenant_id) && is_cancellable r.status

unfoldable pub cancel_for_tenant : String → String → ℕ → Exec Table (List TaskRun)
cancel_for_tenant tenant_id reason now t = (
  ok (map (cancelled_run reason now) (select_where (is_tenants tenant_id) t)),
  update_where (is_tenants tenant_id) (cancelled_run reason now) t,
)
