-- ===== src/Tasks/Submits.antt =====
-- src/core/tasks/provider.py: a request that is submitted runs its handler once.
use fastapi_foundation.Base.{
  ℕ, String, ◌≡◌, refl, sym, subst, true, false, some, [], ◌∷◌, ◌++◌, arith, AppError, lookup, ok,
  err, eq_refl, update_where, Result-cases, inl, inr,
}
use fastapi_foundation.Tenancy.{
  TenantStatus, is_tenant_operation_allowed, assert_tenant_operation_allowed,
}
use fastapi_foundation.Tasks.{
  TaskRun, TaskEnvelope, Table, TaskStartOutcome, find_key, collides, has_key, same_request,
  is_open, running_run, start_once,
}
use fastapi_foundation.Tasks.Runs.{is_row, succeeded_run, failed_run, mark_succeeded, mark_failed}
use fastapi_foundation.Tasks.Once.{once_taken, find_key-append, not_collides}
use fastapi_foundation.Tasks.Providers.{
  RegisteredTaskHandler, Place, SyncTaskProvider, task_result_from_run, submit,
}

-- A change of the run that was added last changes no other row.
update_last :
    (r : TaskRun) (f : TaskRun → TaskRun) (t : Table)
    → collides r t ≡ false
    → update_where (is_row r) f (t ++ r ∷ []) ≡ t ++ f r ∷ []
unfolding update_where collides
update_last r f [] h = rw (eq_refl r.id) refl
update_last r f (x ∷ t) h = ground (arith, h, update_last r f t (ground (arith, h)))

-- A request whose key a run has taken that is at its end is answered by that run.
submit_taken :
    {W : Type 0} (describe : AppError → String) (provider : SyncTaskProvider W)
    (envelope : TaskEnvelope) (starting marking : ℕ) (h : RegisteredTaskHandler W) (r : TaskRun)
    (t : Table) (w : W)
    → provider.has_repository ≡ true
    → lookup envelope.task_type provider.task_registry ≡ some h
    → find_key envelope.tenant_id envelope.idempotency_key t ≡ some r
    → same_request r envelope ≡ true
    → is_open r.status ≡ false
    → submit describe provider envelope TenantStatus.active starting marking
        (record { table = t; world = w })
      ≡ (
        ok (task_result_from_run r h.queue TaskStartOutcome.replayed),
        record { table = t; world = w },
      )
unfolding submit assert_tenant_operation_allowed is_tenant_operation_allowed
submit_taken describe provider envelope starting marking h r t w kept known found same closed =
    ground (
      arith,
      kept,
      known,
      same,
      closed,
      (once_taken envelope h.queue provider.max_attempts starting t r found).0,
    )

module _ {W : Type 0} (describe : AppError → String) (provider : SyncTaskProvider W)
    (envelope : TaskEnvelope) (starting marking : ℕ) (h : RegisteredTaskHandler W)
    (p : Place W) where
  -- The run as its handler leaves it.
  unfoldable pub settled_run : TaskRun
  settled_run = elim (h.handler envelope p.world).0 [
    | ok payload ↦
        succeeded_run payload marking (running_run envelope h.queue provider.max_attempts starting)
    | err e ↦
        failed_run (describe e) marking
          (running_run envelope h.queue provider.max_attempts starting)
  ]

  settled_key : has_key envelope.tenant_id envelope.idempotency_key settled_run ≡ true
  unfolding settled_run
  settled_key = elim (Result-cases (h.handler envelope p.world).0) [
    | inl (payload, answered) ↦
        ground (arith, answered, eq_refl envelope.tenant_id, eq_refl envelope.idempotency_key)
    | inr (e, raised) ↦
        ground (arith, raised, eq_refl envelope.tenant_id, eq_refl envelope.idempotency_key)
  ]

  settled_request : same_request settled_run envelope ≡ true
  unfolding settled_run
  settled_request = elim (Result-cases (h.handler envelope p.world).0) [
    | inl (payload, answered) ↦
        ground (arith, answered, eq_refl envelope.task_type, eq_refl envelope.payload)
    | inr (e, raised) ↦ ground (arith, raised, eq_refl envelope.task_type, eq_refl envelope.payload)
  ]

  settled_closed : is_open settled_run.status ≡ false
  unfolding settled_run
  settled_closed = elim (Result-cases (h.handler envelope p.world).0) [
    | inl (payload, answered) ↦ ground (arith, answered)
    | inr (e, raised) ↦ ground (arith, raised)
  ]

  module _ (kept : provider.has_repository ≡ true)
      (known : lookup envelope.task_type provider.task_registry ≡ some h)
      (new : collides (running_run envelope h.queue provider.max_attempts starting) p.table
        ≡ false) where
    -- The first submission calls the handler, and enters the run as the handler leaves it.
    submit_new :
        (submit describe provider envelope TenantStatus.active starting marking p).1
        ≡ record { table = p.table ++ settled_run ∷ []; world = (h.handler envelope p.world).1 }
    unfolding submit settled_run start_once mark_succeeded mark_failed
        assert_tenant_operation_allowed is_tenant_operation_allowed
    submit_new =
        let r = running_run envelope h.queue provider.max_attempts starting in
        elim (Result-cases (h.handler envelope p.world).0) [
          | inl (payload, answered) ↦ ground (
            arith,
            kept,
            known,
            new,
            answered,
            update_last r (succeeded_run payload marking) p.table new,
          )
          | inr (e, raised) ↦ ground (
            arith,
            kept,
            known,
            new,
            raised,
            update_last r (failed_run (describe e) marking) p.table new,
          )
        ]

    settled_found :
        find_key envelope.tenant_id envelope.idempotency_key (p.table ++ settled_run ∷ [])
        ≡ some settled_run
    unfolding settled_run
    settled_found =
        find_key-append envelope.tenant_id envelope.idempotency_key settled_run p.table
          (not_collides (running_run envelope h.queue provider.max_attempts starting) p.table new)
          settled_key

    -- A request that was submitted, and was new, to a provider with a repository and a handler for its
    -- type, of a tenant that is active: submitted again, under another id and at other times, it calls no
    -- handler and changes nothing, whether the handler returned or raised; it is answered by the run,
    -- as the handler left it.
    pub submit_twice :
        (id : String) (starting' marking' : ℕ)
        → let p' = (submit describe provider envelope TenantStatus.active starting marking p).1 in
          submit describe provider
            (record envelope { task_id = id })
            TenantStatus.active
            starting'
            marking'
            p'
          ≡ (ok (task_result_from_run settled_run h.queue TaskStartOutcome.replayed), p')
    submit_twice id starting' marking' =
        subst
          (λ q.
            submit describe provider (record envelope { task_id = id }) TenantStatus.active
              starting' marking' q
            ≡ (ok (task_result_from_run settled_run h.queue TaskStartOutcome.replayed), q))
          (sym submit_new)
          (submit_taken describe provider (record envelope { task_id = id }) starting' marking' h
            settled_run (p.table ++ settled_run ∷ []) (h.handler envelope p.world).1 kept known
            settled_found settled_request settled_closed)
