-- ===== src/Tasks/Once.antt =====
-- src/core/tasks/repository.py: a request is entered once under its tenant and idempotency key.
use fastapi_foundation.Base.{
  ℕ, String, ◌≡◌, ap, ◌∙◌, refl, true, false, none, some, [], ◌∷◌, ◌++◌, arith, if◌then◌else◌,
  app_error, task_idempotency_key_conflict, Result, ok, err, eq_refl,
}
use fastapi_foundation.Tasks.{
  TaskRun, TaskEnvelope, Table, TaskStartOutcome, TaskStartResult, find_key, collides, has_key,
  same_request, is_open, running_run, pending_run, start_once, enqueue_once,
}

-- The answer to a request whose key a run has taken.
abbrev pub taken_answer : TaskRun → TaskEnvelope → Result TaskStartResult
taken_answer r envelope =
    if same_request r envelope
    then ok (record {
      outcome =
          if is_open r.status then TaskStartOutcome.in_progress else TaskStartOutcome.replayed;
      task_run = r;
    })
    else err (
        app_error task_idempotency_key_conflict
          "Task idempotency key was already used with a different task request" 409)

collides_found :
    (r x : TaskRun) (t : Table)
    → find_key r.tenant_id r.idempotency_key t ≡ some x
    → collides r t ≡ true
unfolding find_key collides
collides_found r x [] h = absurd (ground arith)
collides_found r x (y ∷ t) h = ground (arith, collides_found r x t)

-- A request whose key a run has taken enters nothing, by start or by enqueue: it is answered by
-- that run, if it asks for the same, and raises otherwise.
pub once_taken :
    (envelope : TaskEnvelope) (queue : String) (max_attempts now : ℕ) (t : Table) (x : TaskRun)
    → find_key envelope.tenant_id envelope.idempotency_key t ≡ some x
    → (start_once envelope queue max_attempts now t ≡ (taken_answer x envelope, t))
      × (enqueue_once envelope queue max_attempts t ≡ (taken_answer x envelope, t))
unfolding start_once enqueue_once
once_taken envelope queue max_attempts now t x h = (
  ground (arith, h, collides_found (running_run envelope queue max_attempts now) x t h),
  ground (arith, h, collides_found (pending_run envelope queue max_attempts) x t h),
)

pub find_key-append :
    (tenant key : String) (r : TaskRun) (t : Table)
    → find_key tenant key t ≡ none
    → has_key tenant key r ≡ true
    → find_key tenant key (t ++ r ∷ []) ≡ some r
unfolding find_key
find_key-append tenant key r [] h k = ground arith
find_key-append tenant key r (x ∷ t) h k = ground (arith, find_key-append tenant key r t)

pub not_collides :
    (r : TaskRun) (t : Table)
    → collides r t ≡ false
    → find_key r.tenant_id r.idempotency_key t ≡ none
unfolding collides find_key
not_collides r [] h = refl
not_collides r (x ∷ t) h = ground (arith, not_collides r t)

enqueue_new :
    (envelope : TaskEnvelope) (queue : String) (max_attempts : ℕ) (t : Table)
    → collides (pending_run envelope queue max_attempts) t ≡ false
    → (enqueue_once envelope queue max_attempts t).1
      ≡ t ++ pending_run envelope queue max_attempts ∷ []
unfolding enqueue_once
enqueue_new envelope queue max_attempts t new = ground (arith, new)

same_answer :
    (envelope : TaskEnvelope) (id queue : String) (max_attempts : ℕ)
    → taken_answer (pending_run envelope queue max_attempts) (record envelope { task_id = id })
      ≡ ok (record {
        outcome = TaskStartOutcome.in_progress;
        task_run = pending_run envelope queue max_attempts;
      })
same_answer envelope id queue max_attempts =
    rw (eq_refl envelope.task_type, eq_refl envelope.payload) refl

-- A request that was enqueued is not entered again: the same request under another id, for
-- another queue and with other attempts, is answered by the run that is there, which is in
-- progress, and the table stays as it is.
pub enqueue_twice :
    (envelope : TaskEnvelope) (id queue queue' : String) (max_attempts max_attempts' : ℕ)
    (t : Table)
    → collides (pending_run envelope queue max_attempts) t ≡ false
    → let t' = (enqueue_once envelope queue max_attempts t).1 in
      enqueue_once (record envelope { task_id = id }) queue' max_attempts' t' ≡ (
        ok (record {
          outcome = TaskStartOutcome.in_progress;
          task_run = pending_run envelope queue max_attempts;
        }),
        t',
      )
enqueue_twice envelope id queue queue' max_attempts max_attempts' t new =
    let r = pending_run envelope queue max_attempts in
    let found =
      find_key-append envelope.tenant_id envelope.idempotency_key r t (not_collides r t new)
        (rw (eq_refl envelope.tenant_id, eq_refl envelope.idempotency_key) refl) in
    rw (enqueue_new envelope queue max_attempts t new) (
      (once_taken (record envelope { task_id = id }) queue' max_attempts' 0 (t ++ r ∷ []) r found).1
      ∙ ap (λ a. (a, t ++ r ∷ [])) (same_answer envelope id queue max_attempts))
