-- ===== src/Tasks/Workers.antt =====
-- src/core/tasks/provider.py: what a worker of the database queue does with the next run.
use fastapi_foundation.Base.{
  ℕ, ◌+◌, ◌*◌, ◌≤◌, String, ◌≡◌, ◌≢◌, refl, ap, ◌∙◌, Bool, true, Option, none, some, [], ◌∷◌, ◌++◌,
  All, arith, leb, pos_part, eq_iff, if◌then◌else◌, or_default, AppError, lookup, Result, ok, err,
  update_where, Bool-cases, Option-cases, Result-cases, inl, inr,
}
use fastapi_foundation.Tenancy.{
  TenantStatus, is_tenant_operation_allowed, assert_tenant_operation_allowed,
}
use fastapi_foundation.Tasks.{TaskRun, TaskRunStatus, TaskEnvelope, Table}
use fastapi_foundation.Tasks.Runs.{
  is_row, is_pending, restarted, claimable, first_where, start_pending, claim_next_pending,
  succeeded_run, retry_run, mark_succeeded, mark_retry_pending,
}
use fastapi_foundation.Tasks.Providers.{
  TaskResult, RegisteredTaskHandler, Place, DatabaseQueueTaskProvider,
}
use fastapi_foundation.Tasks.Queue.{run_task_run, run_next}

-- The two changes of a run are one.
update_twice :
    (r : TaskRun) (f g : TaskRun → TaskRun) (t : Table)
    → ((x : TaskRun) → (f x).id ≡ x.id)
    → update_where (is_row (f r)) g (update_where (is_row r) f t)
      ≡ update_where (is_row r) (λ x. g (f x)) t
unfolding update_where
update_twice r f g [] same = refl
update_twice r f g (x ∷ t) same = ground (arith, same r, same x, update_twice r f g t same)

-- A row without the run's id is passed over.
update_others :
    (r : TaskRun) (f : TaskRun → TaskRun) (t : Table)
    → All (λ x. x.id ≢ r.id) t
    → update_where (is_row r) f t ≡ t
unfolding update_where
update_others r f [] others = refl
update_others r f (x ∷ t) (other, others) =
    ground (arith, other, eq_iff x.id r.id, update_others r f t others)

update_split :
    (r : TaskRun) (f : TaskRun → TaskRun) (before behind : Table)
    → All (λ x. x.id ≢ r.id) before
    → All (λ x. x.id ≢ r.id) behind
    → update_where (is_row r) f (before ++ r ∷ behind) ≡ before ++ f r ∷ behind
unfolding update_where
update_split r f [] behind earlier others =
    ground (arith, eq_iff r.id r.id, update_others r f behind others)
update_split r f (x ∷ before) behind (other, earlier) others =
    ground (arith, other, eq_iff x.id r.id, update_split r f before behind earlier others)

-- No instant is set, or it has come.
abbrev pub IsDue : ℕ → Option ℕ → Type 0
IsDue now none = Unit
IsDue now (some at) = at ≤ now

-- The run is pending, in the queue and due.
abbrev pub Waits : String → ℕ → TaskRun → Type 0
Waits queue now r =
    (r.status ≡ TaskRunStatus.pending) × (r.queue ≡ queue) × IsDue now r.next_retry_at

is_pending_only : (s : TaskRunStatus) → is_pending s ≡ true → s ≡ TaskRunStatus.pending
is_pending_only TaskRunStatus.pending h = refl
is_pending_only TaskRunStatus.running h = absurd (ground (arith, h))
is_pending_only TaskRunStatus.succeeded h = absurd (ground (arith, h))
is_pending_only TaskRunStatus.failed h = absurd (ground (arith, h))
is_pending_only TaskRunStatus.dead_letter h = absurd (ground (arith, h))
is_pending_only TaskRunStatus.cancelled h = absurd (ground (arith, h))

claimable-Waits :
    (queue : String) (now : ℕ) (r : TaskRun)
    → claimable (some queue) now r ≡ true
    → Waits queue now r
claimable-Waits queue now r h =
    let pending = is_pending_only r.status (ground (arith, h)) in
    let here : r.queue ≡ queue = ground (arith, h, eq_iff r.queue queue) in
    elim (Option-cases r.next_retry_at) [
      | inl unset ↦ (pending, here, rw unset tt)
      | inr (at, set) ↦ (pending, here, rw set (ground (arith, h, set)))
    ]

Waits-claimable :
    (queue : String) (now : ℕ) (r : TaskRun)
    → Waits queue now r
    → claimable (some queue) now r ≡ true
Waits-claimable queue now r (p, q, d) = elim (Option-cases r.next_retry_at) [
  | inl unset ↦ ground (arith, p, unset, eq_iff r.queue queue, q)
  | inr (at, set) ↦
      let come : at ≤ now = rw set at d in ground (arith, p, set, eq_iff r.queue queue, q, come)
]

first_split :
    (queue : String) (now : ℕ) (r : TaskRun) (before behind : Table)
    → All (λ x. ¬ Waits queue now x) before
    → Waits queue now r
    → first_where (claimable (some queue) now) (before ++ r ∷ behind) ≡ some r
unfolding first_where
first_split queue now r [] behind earlier waits = rw (Waits-claimable queue now r waits) refl
first_split queue now r (x ∷ before) behind (off, earlier) waits =
    elim (Bool-cases (claimable (some queue) now x)) [
      | inl on ↦ absurd (off (claimable-Waits queue now x on))
      | inr out ↦ rw out (first_split queue now r before behind earlier waits)
    ]

-- The task of a run, as its handler is told of it.
abbrev pub task_of : TaskRun → TaskEnvelope
task_of r = record {
  task_id = r.id;
  task_type = r.task_type;
  tenant_id = r.tenant_id;
  payload = r.input_payload;
  idempotency_key = r.idempotency_key;
  request_id = or_default "" r.request_id;
  trace_id = r.trace_id;
}

module _ {W : Type 0} (describe : AppError → String) (provider : DatabaseQueueTaskProvider W)
    (queue : String) (due starting again marking : ℕ) (h : RegisteredTaskHandler W) where
  -- A run that is handled: with an attempt more, it has succeeded under what the handler returned;
  -- or it waits for the backoff from its mark on, or is a dead letter when that was its last attempt,
  -- under the text of what the handler raised.
  abbrev pub handled : Result (Option String) → TaskRun → TaskRun
  handled (ok payload) r = record r {
    status = TaskRunStatus.succeeded;
    progress = 100;
    attempt_count = r.attempt_count + 1;
    result_payload = payload;
    error_message = none;
    next_retry_at = none;
    started_at = some starting;
    finished_at = some marking;
  }
  handled (err e) r =
      let last : Bool = leb r.max_attempts (r.attempt_count + 1) in
      record r {
        status = if last then TaskRunStatus.dead_letter else TaskRunStatus.pending;
        progress = 0;
        attempt_count = r.attempt_count + 1;
        result_payload = none;
        error_message = some (describe e);
        next_retry_at =
            if last
            then none
            else some (marking + pos_part provider.retry_backoff_seconds * 1000000);
        started_at = some starting;
        finished_at = some marking;
      }

  -- What the worker reports of it.
  abbrev pub report_of : Result (Option String) → TaskRun → TaskResult
  report_of (ok payload) r = record {
    task_id = r.id;
    task_type = r.task_type;
    status = TaskRunStatus.succeeded;
    result_payload = payload;
    error_message = none;
    queue = h.queue;
    idempotency = none;
  }
  report_of (err e) r = record {
    task_id = r.id;
    task_type = r.task_type;
    status = (handled (err e) r).status;
    result_payload = none;
    error_message = some (describe e);
    queue = h.queue;
    idempotency = none;
  }

  run_next_updates :
      (p : Place W) (r : TaskRun)
      → r.status ≡ TaskRunStatus.pending
      → first_where (claimable (some queue) due) p.table ≡ some r
      → lookup r.task_type provider.task_registry ≡ some h
      → let result = h.handler (task_of r) p.world in
        run_next describe provider queue TenantStatus.active due starting again marking p ≡ (
          ok (some (report_of result.0 r)),
          record { table = update_where (is_row r) (handled result.0) p.table; world = result.1 },
        )
  unfolding run_next run_task_run claim_next_pending start_pending mark_succeeded mark_retry_pending
      assert_tenant_operation_allowed is_tenant_operation_allowed
  run_next_updates p r pending first known = elim (Result-cases (h.handler (task_of r) p.world).0) [
    | inl (payload, answered) ↦ ground (
      arith,
      first,
      known,
      pending,
      answered,
      update_twice r (restarted starting) (succeeded_run payload marking) p.table (λ x. refl),
    )
    | inr (e, raised) ↦ ground (
      arith,
      first,
      known,
      pending,
      raised,
      update_twice r (restarted starting)
          (retry_run (describe e) provider.retry_backoff_seconds marking) p.table (λ x. refl),
    )
  ]

  -- A worker calls the handler once, on the first run of the table that is pending, in its queue and
  -- due, where the type of that run is registered and its id is its own. The run then stands in its
  -- place, with one attempt more: as succeeded; or, when the handler raised, as pending for a retry
  -- after the backoff, or as a dead letter when no attempt is left. No other row has changed, and
  -- the worker reports the outcome. The tenant is active.
  pub run_next_handles :
      (before behind : Table) (r : TaskRun) (p : Place W)
      → p.table ≡ before ++ r ∷ behind
      → All (λ x. ¬ Waits queue due x) before
      → Waits queue due r
      → All (λ x. x.id ≢ r.id) before
      → All (λ x. x.id ≢ r.id) behind
      → lookup r.task_type provider.task_registry ≡ some h
      → let result = h.handler (task_of r) p.world in
        run_next describe provider queue TenantStatus.active due starting again marking p ≡ (
          ok (some (report_of result.0 r)),
          record { table = before ++ handled result.0 r ∷ behind; world = result.1 },
        )
  run_next_handles before behind r p split off waits earlier later known =
      let result = h.handler (task_of r) p.world in
      let first : first_where (claimable (some queue) due) p.table ≡ some r =
        rw split (first_split queue due r before behind off waits) in
      let placed : update_where (is_row r) (handled result.0) p.table
          ≡ before ++ handled result.0 r ∷ behind =
        rw split (update_split r (handled result.0) before behind earlier later) in
      run_next_updates p r waits.0 first known
      ∙ ap (λ t. (ok (some (report_of result.0 r)), record { table = t; world = result.1 })) placed
