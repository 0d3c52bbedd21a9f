-- ===== src/Tasks/Calls.antt =====
-- src/core/tasks/repository.py: the calls of the repository as steps on the table, and what holds of
-- every run after any of them.
use fastapi_foundation.Base.{
  ℕ, ℤ, String, ◌≡◌, refl, Bool, true, false, not, ◌&&◌, Option, none, some, List, [], ◌∷◌, ◌++◌,
  arith, ltb, leb, eqb, is_some, if◌then◌else◌, All, All-add, All-update_where, update_where,
  Bool-cases, Option-cases, inl, inr,
}
use fastapi_foundation.Tasks.{
  TaskRunStatus, TaskRun, TaskEnvelope, Table, insert_once, running_run, pending_run, start_once,
  enqueue_once, collides,
}
use fastapi_foundation.Tasks.Runs.{
  is_row, restarted, start_pending, start_retry, claimable, first_where, claim_next_pending,
  succeeded_run, mark_succeeded, failed_run, mark_failed, retry_run, mark_retry_pending,
  cancelled_run, is_pending, is_failure,
}
use fastapi_foundation.Tasks.Recovery.{
  recovered_run, recover_stale_running, is_tenants, cancel_for_tenant,
}

pub data Call : Type 0 where
  starting : TaskEnvelope → String → ℕ → ℕ → Call
  enqueueing : TaskEnvelope → String → ℕ → Call
  claiming : Option String → ℕ → ℕ → Call
  beginning retrying : TaskRun → ℕ → Call
  succeeding : TaskRun → Option String → ℕ → Call
  failing : TaskRun → String → ℕ → Call
  postponing : TaskRun → String → ℤ → ℕ → Call
  recovering : ℕ → ℕ → String → ℕ → Call
  cancelling : String → String → ℕ → Call

unfoldable pub after : Call → Table → Table
after (Call.starting envelope queue attempts now) t = (start_once envelope queue attempts now t).1
after (Call.enqueueing envelope queue attempts) t = (enqueue_once envelope queue attempts t).1
after (Call.claiming queue now start_at) t = (claim_next_pending queue now start_at t).1
after (Call.beginning r now) t = (start_pending r now t).1
after (Call.retrying r now) t = (start_retry r now t).1
after (Call.succeeding r result now) t = (mark_succeeded r result now t).1
after (Call.failing r message now) t = (mark_failed r message now t).1
after (Call.postponing r message backoff now) t = (mark_retry_pending r message backoff now t).1
after (Call.recovering older limit message now) t =
    (recover_stale_running older limit message now t).1
after (Call.cancelling tenant reason now) t = (cancel_for_tenant tenant reason now t).1

abbrev pub after_all : List Call → Table → Table
after_all [] t = t
after_all (c ∷ cs) t = after_all cs (after c t)

abbrev ended : TaskRun → Bool
ended r = not (is_some r.next_retry_at) && is_some r.finished_at

-- The fields of a run agree with its status: only a pending run waits for an instant; a running
-- one has started and not finished; one that ended has an instant for it, at full progress where
-- it succeeded and with a message elsewhere; and a failure is a dead letter exactly when no
-- attempt is left.
abbrev pub agrees_with_status : TaskRun → Bool
agrees_with_status r = elim r.status [
  | TaskRunStatus.pending ↦ eqb r.progress 0
  | TaskRunStatus.running ↦
      not (is_some r.next_retry_at) && (is_some r.started_at && not (is_some r.finished_at))
  | TaskRunStatus.succeeded ↦ ended r && eqb r.progress 100
  | TaskRunStatus.failed ↦
      ended r && (is_some r.error_message && ltb r.attempt_count r.max_attempts)
  | TaskRunStatus.dead_letter ↦
      ended r && (is_some r.error_message && leb r.max_attempts r.attempt_count)
  | TaskRunStatus.cancelled ↦ ended r && (is_some r.error_message && eqb r.progress 0)
]

abbrev pub AgreesWithStatus : TaskRun → Type 0
AgreesWithStatus r = agrees_with_status r ≡ true

guarded-AgreesWithStatus :
    (c : Bool) (d : TaskRun → Bool) (f : TaskRun → TaskRun) (t : Table)
    → ((r : TaskRun) → AgreesWithStatus r → d r ≡ true → AgreesWithStatus (f r))
    → All AgreesWithStatus t
    → All AgreesWithStatus (if c then update_where d f t else t)
guarded-AgreesWithStatus true d f t h a = All-update_where AgreesWithStatus d f t h a
guarded-AgreesWithStatus false d f t h a = a

pub inserted_state :
    (raced : String) (envelope : TaskEnvelope) (r : TaskRun) (t : Table)
    → (insert_once raced envelope r t).1 ≡ (if collides r t then t else t ++ r ∷ [])
unfolding insert_once
inserted_state raced envelope r t = ground arith

inserted-AgreesWithStatus :
    (raced : String) (envelope : TaskEnvelope) (r : TaskRun) (t : Table)
    → AgreesWithStatus r
    → All AgreesWithStatus t
    → All AgreesWithStatus (insert_once raced envelope r t).1
inserted-AgreesWithStatus raced envelope r t h a =
    rw (inserted_state raced envelope r t) (elim (Bool-cases (collides r t)) [
      | inl taken ↦ rw taken a
      | inr new ↦ rw new (All-add AgreesWithStatus t r a h)
    ])

pub start_pending_state :
    (r : TaskRun) (now : ℕ) (t : Table)
    → (start_pending r now t).1
      ≡ (if is_pending r.status then update_where (is_row r) (restarted now) t else t)
unfolding start_pending
start_pending_state r now t = ground arith

pub start_retry_state :
    (r : TaskRun) (now : ℕ) (t : Table)
    → (start_retry r now t).1
      ≡ (if is_failure r.status then update_where (is_row r) (restarted now) t else t)
unfolding start_retry
start_retry_state r now t = ground arith

pub claim_state :
    (queue : Option String) (now start_at : ℕ) (t : Table)
    → (claim_next_pending queue now start_at t).1 ≡ elim (first_where (claimable queue now) t) [
      | none ↦ t
      | some r ↦ (start_pending r start_at t).1
    ]
unfolding claim_next_pending
claim_state queue now start_at t = elim (Option-cases (first_where (claimable queue now) t)) [
  | inl absent ↦ rw absent refl
  | inr (r, found) ↦ rw found (ground arith)
]

start_pending-AgreesWithStatus :
    (r : TaskRun) (now : ℕ) (t : Table)
    → All AgreesWithStatus t
    → All AgreesWithStatus (start_pending r now t).1
start_pending-AgreesWithStatus r now t a =
    rw (start_pending_state r now t) (
      guarded-AgreesWithStatus (is_pending r.status) (is_row r) (restarted now) t (λ x _ _. refl) a)

-- Whatever is called, and also where it raises, the fields of every run go on to agree with its
-- status.
pub after-AgreesWithStatus :
    (c : Call) (t : Table) → All AgreesWithStatus t → All AgreesWithStatus (after c t)
unfolding after start_once enqueue_once mark_succeeded mark_failed mark_retry_pending
    recover_stale_running cancel_for_tenant
after-AgreesWithStatus (Call.starting envelope queue attempts now) t a =
    inserted-AgreesWithStatus _ envelope (running_run envelope queue attempts now) t refl a
after-AgreesWithStatus (Call.enqueueing envelope queue attempts) t a =
    inserted-AgreesWithStatus _ envelope (pending_run envelope queue attempts) t refl a
after-AgreesWithStatus (Call.claiming queue now start_at) t a =
    rw (claim_state queue now start_at t)
      (elim (Option-cases (first_where (claimable queue now) t)) [
        | inl absent ↦ rw absent a
        | inr (r, found) ↦ rw found (start_pending-AgreesWithStatus r start_at t a)
      ])
after-AgreesWithStatus (Call.beginning r now) t a = start_pending-AgreesWithStatus r now t a
after-AgreesWithStatus (Call.retrying r now) t a =
    rw (start_retry_state r now t) (
      guarded-AgreesWithStatus (is_failure r.status) (is_row r) (restarted now) t (λ x _ _. refl) a)
after-AgreesWithStatus (Call.succeeding r result now) t a =
    All-update_where AgreesWithStatus (is_row r) (succeeded_run result now) t (λ x _ _. refl) a
after-AgreesWithStatus (Call.failing r message now) t a =
    All-update_where AgreesWithStatus (is_row r) (failed_run message now) t (λ x _ _. ground arith)
      a
after-AgreesWithStatus (Call.postponing r message backoff now) t a =
    All-update_where AgreesWithStatus (is_row r) (retry_run message backoff now) t
      (λ x _ _. ground arith) a
after-AgreesWithStatus (Call.recovering older limit message now) t a =
    All-update_where AgreesWithStatus _ (recovered_run message now) t (λ x h selected. ground arith)
      a
after-AgreesWithStatus (Call.cancelling tenant reason now) t a =
    All-update_where AgreesWithStatus (is_tenants tenant) (cancelled_run reason now) t
      (λ x _ _. refl) a
