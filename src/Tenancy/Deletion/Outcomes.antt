-- ===== src/Tenancy/Deletion/Outcomes.antt =====
-- src/core/tenancy/services.py: what the deletion of a tenant promises.
use fastapi_foundation.Base.{
  ◌≡◌, ◌⊎◌, refl, sym, ap, ◌∙◌, subst, true, false, List, [], ◌∷◌, arith, ok, Bool-cases,
  Result-cases, inl, inr,
}
use fastapi_foundation.Tenancy.{TenantStatus, is_in}
use fastapi_foundation.Tenancy.Services.{Request, assert_tenant_mutation_authorized}
use fastapi_foundation.Tenancy.Deletion.{
  DeletionStep, StepRecord, Deletion, TenantDeletionOrchestrator, TenantDeletionResult, run_steps,
  delete_steps, run,
}
use fastapi_foundation.Tenancy.Deletion.Steps.{is_done, step_tenant, step_executed, step_done}
use fastapi_foundation.Tenancy.Deletion.Status.{
  is_leaving, is_gone, allowed_leaving, allowed_gone, mark_leaves, finish_reaches,
}
use fastapi_foundation.Tenancy.Deletion.Runs.{IsPrefix, AreDistinct, steps-IsPrefix}
use fastapi_foundation.Tenancy.Deletion.Ends.{
  status_of, Fits, Succeeded, steps_done, steps_again, steps-Fits, steps_last,
}

-- The steps that succeeded come first; with the first of them the tenant is on its way out, and with
-- the last it is archived or deleted.
unfoldable pub IsConsistent : {W : Type 0} → Deletion W → Type 0
IsConsistent d =
    IsPrefix delete_steps d.records
    × Fits DeletionStep.mark_deleting is_leaving d
    × Fits DeletionStep.finish is_gone d

-- The target is one of the two, and the request may delete.
abbrev pub IsAdmitted : TenantStatus → Request → Type 0
IsAdmitted target r =
    (is_gone target ≡ true) × (assert_tenant_mutation_authorized r "delete" ≡ ok tt)

delete_steps-AreDistinct : AreDistinct delete_steps
unfolding AreDistinct
delete_steps-AreDistinct = (
  (refl, (refl, (refl, (refl, tt)))),
  (refl, (refl, (refl, (refl, tt)))),
  (
    (refl, (refl, (refl, tt))),
    (refl, (refl, (refl, tt))),
    ((refl, (refl, tt)), (refl, (refl, tt)), ((refl, tt), (refl, tt), (tt, tt, tt))),
  ),
)

abbrev first_steps : List DeletionStep
first_steps =
    DeletionStep.mark_deleting ∷ DeletionStep.cancel_tasks ∷ DeletionStep.cleanup_business_data
    ∷ DeletionStep.cleanup_files ∷ []

valid_target :
    (t : TenantStatus) → is_in t (TenantStatus.archived ∷ TenantStatus.deleted ∷ []) ≡ is_gone t
unfolding is_in
valid_target TenantStatus.provisioning = refl
valid_target TenantStatus.active = refl
valid_target TenantStatus.suspended = refl
valid_target TenantStatus.deleting = refl
valid_target TenantStatus.archived = refl
valid_target TenantStatus.deleted = refl

module _ {W : Type 0} (o : TenantDeletionOrchestrator W) (target : TenantStatus) (r : Request) where
  -- A request that is not admitted changes nothing, and the steps decide on another.
  run_steps_of :
      (d : Deletion W)
      → ((run o target r d).1 ≡ d)
        ⊎ ((is_gone target ≡ true)
            × ((run o target r d).1 ≡ (run_steps o target r delete_steps d).1))
  unfolding run
  run_steps_of d = elim (Bool-cases (is_gone target)) [
    | inr other ↦ inl (ground (arith, valid_target target, other))
    | inl gone ↦ elim (Result-cases (assert_tenant_mutation_authorized r "delete")) [
      | inr (e, refused) ↦ inl (ground (arith, valid_target target, gone, refused))
      | inl (u, allowed) ↦ inr (gone, ground (arith, valid_target target, gone, allowed))
    ]
  ]

  run_answer :
      (d : Deletion W) (result : TenantDeletionResult)
      → (run o target r d).0 ≡ ok result
      → ((run_steps o target r delete_steps d).0 ≡ ok result.steps)
        × ((run o target r d).1 ≡ (run_steps o target r delete_steps d).1)
        × (result.status ≡ status_of (run o target r d).1)
        × (result.tenant_id ≡ (run o target r d).1.place.tenant.id)
        × (is_gone target ≡ true)
  unfolding run
  run_answer d result h = elim (Bool-cases (is_gone target)) [
    | inr other ↦ absurd (ground (arith, valid_target target, other, h))
    | inl gone ↦ elim (Result-cases (assert_tenant_mutation_authorized r "delete")) [
      | inr (e, refused) ↦ absurd (ground (arith, valid_target target, gone, refused, h))
      | inl (u, allowed) ↦ elim (Result-cases (run_steps o target r delete_steps d).0) [
        | inr (e, raised) ↦ absurd (ground (arith, valid_target target, gone, allowed, raised, h))
        | inl (xs, answered) ↦ (
          ground (arith, valid_target target, gone, allowed, answered, h),
          ground (arith, valid_target target, gone, allowed, answered),
          ground (arith, valid_target target, gone, allowed, answered, h),
          ground (arith, valid_target target, gone, allowed, answered, h),
          gone,
        )
      ]
    ]
  ]

  run_admitted :
      (d : Deletion W) (xs : List StepRecord)
      → IsAdmitted target r
      → run_steps o target r delete_steps d ≡ (ok xs, d)
      → run o target r d
        ≡ (ok (record { tenant_id = d.place.tenant.id; status = status_of d; steps = xs }), d)
  unfolding run
  run_admitted d xs (gone, allowed) h = ground (arith, valid_target target, gone, allowed, h)

  finished :
      (d : Deletion W) (xs : List StepRecord)
      → is_done (d.records DeletionStep.finish) ≡ false
      → (run_steps o target r delete_steps d).0 ≡ ok xs
      → status_of (run_steps o target r delete_steps d).1 ≡ target
  finished d xs new h =
      let (e, row, left, x, last) =
        steps_last o target r first_steps DeletionStep.finish d xs
          (refl, (refl, (refl, (refl, tt)))) h in
      let before : is_done (e.records DeletionStep.finish) ≡ false = ap is_done row ∙ new in
      let (after, good) = step_done o target r DeletionStep.finish e x last in
      let (payload, executed) =
        step_executed o target r DeletionStep.finish e before (ap is_done after ∙ good) in
      ap status_of left
      ∙ (ap (λ t. t.status) (step_tenant o target r DeletionStep.finish e before)
          ∙ finish_reaches o target r e.place payload executed)

  -- Whatever its outcome, a run keeps the records and the status consistent: the steps that succeeded come
  -- first, after the first of them the tenant is on its way out, and after the last it is archived or
  -- deleted.
  pub run-IsConsistent : (d : Deletion W) → IsConsistent d → IsConsistent (run o target r d).1
  unfolding IsConsistent
  run-IsConsistent d (prefix, leaves, ends) = elim (run_steps_of d) [
    | inl same ↦ subst IsConsistent (sym same) (prefix, leaves, ends)
    | inr (gone, ran) ↦ subst IsConsistent (sym ran) (
      steps-IsPrefix o target r delete_steps d delete_steps-AreDistinct prefix,
      steps-Fits o target r is_leaving allowed_leaving DeletionStep.mark_deleting
          (mark_leaves o target r) delete_steps d leaves,
      steps-Fits o target r is_gone allowed_gone DeletionStep.finish
          (λ p payload e. ap is_gone (finish_reaches o target r p payload e) ∙ gone) delete_steps d
          ends,
    )
  ]

  -- A run that returns reports a record of every step, in order, which all say that the step succeeded, and
  -- the tenant's status; unless the last step had succeeded before, that is the target.
  pub run-Succeeded :
      (d : Deletion W) (result : TenantDeletionResult)
      → (run o target r d).0 ≡ ok result
      → Succeeded delete_steps result.steps (run o target r d).1
        × (result.status ≡ status_of (run o target r d).1)
        × (is_done (d.records DeletionStep.finish) ≡ false → result.status ≡ target)
  run-Succeeded d result h =
      let (answered, left, status, _, _) = run_answer d result h in
      (
        rw left
            (steps_done o target r delete_steps d result.steps delete_steps-AreDistinct answered),
        status,
        λ new. status ∙ (ap status_of left ∙ finished d result.steps new answered),
      )

-- Once a run has returned, every further run that is admitted, whatever its request and its target, only
-- reports the same records and status: no step is executed, and nothing changes.
pub run_finished :
    {W : Type 0} (o : TenantDeletionOrchestrator W) (target again : TenantStatus) (r q : Request)
    (d e : Deletion W) (result : TenantDeletionResult)
    → run o target r d ≡ (ok result, e)
    → IsAdmitted again q
    → run o again q e ≡ (ok result, e)
run_finished o target again r q d e result h admitted =
    let (answered, left, status, id, _) = run_answer o target r d result (ap (λ x. x.0) h) in
    let here : (run o target r d).1 ≡ e = ap (λ x. x.1) h in
    let done =
      subst (Succeeded delete_steps result.steps) (sym left ∙ here)
        (steps_done o target r delete_steps d result.steps delete_steps-AreDistinct answered) in
    let same_id : e.place.tenant.id ≡ result.tenant_id =
      sym (id ∙ ap (λ x. x.place.tenant.id) here) in
    let same_status : status_of e ≡ result.status = sym (status ∙ ap status_of here) in
    run_admitted o again q e result.steps admitted
      (steps_again o again q delete_steps e result.steps done)
    ∙ ap (λ x. (ok x, e)) (ground (arith, same_id, same_status))
