-- ===== src/Tenancy/Deletion/Steps.antt =====
-- src/core/tenancy/services.py: what one step of a deletion does to the records.
use fastapi_foundation.Base.{
  AppError, ◌≡◌, refl, Bool, true, false, Option, none, some, arith, ok, err, Option-cases,
  Result-cases, inl, inr,
}
use fastapi_foundation.Tenancy.{TenantStatus}
use fastapi_foundation.Tenancy.Services.{Request}
use fastapi_foundation.Tenancy.Deletion.{
  DeletionStep, StepRecord, Deletion, TenantDeletionOrchestrator, is_succeeded, same_step,
  execute_step, run_step, StepPayload,
}

-- The step has a record, and it says that the step succeeded.
abbrev pub is_done : Option StepRecord → Bool
is_done none = false
is_done (some x) = is_succeeded x.status

same_step_refl : (s : DeletionStep) → same_step s s ≡ true
same_step_refl DeletionStep.mark_deleting = refl
same_step_refl DeletionStep.cancel_tasks = refl
same_step_refl DeletionStep.cleanup_business_data = refl
same_step_refl DeletionStep.cleanup_files = refl
same_step_refl DeletionStep.finish = refl

pub same_step_eq : (s t : DeletionStep) → same_step s t ≡ true → s ≡ t
same_step_eq DeletionStep.mark_deleting t h = ground (arith, h)
same_step_eq DeletionStep.cancel_tasks t h = ground (arith, h)
same_step_eq DeletionStep.cleanup_business_data t h = ground (arith, h)
same_step_eq DeletionStep.cleanup_files t h = ground (arith, h)
same_step_eq DeletionStep.finish t h = ground (arith, h)

-- The record of a step that is done.
pub done_record :
    (o : Option StepRecord)
    → is_done o ≡ true
    → (x : StepRecord) × (o ≡ some x) × (is_succeeded x.status ≡ true)
done_record none h = absurd (ground (arith, h))
done_record (some x) h = (x, refl, h)

module _ {W : Type 0} (o : TenantDeletionOrchestrator W) (target : TenantStatus) (r : Request) where
  -- A step that succeeded is not done again.
  pub step_skipped :
      (s : DeletionStep) (d : Deletion W) (x : StepRecord)
      → d.records s ≡ some x
      → is_succeeded x.status ≡ true
      → run_step o target r s d ≡ (ok x, d)
  unfolding run_step
  step_skipped s d x row good = ground (arith, row, good)

  -- A step writes no other step's record.
  pub step_others :
      (s t : DeletionStep) (d : Deletion W)
      → same_step s t ≡ false
      → (run_step o target r s d).1.records t ≡ d.records t
  unfolding run_step
  step_others s t d other = elim (Option-cases (d.records s)) [
    | inl absent ↦ ground (arith, absent, other)
    | inr (x, row) ↦ ground (arith, row, other)
  ]

  -- A step that returns has succeeded, and returns its record.
  pub step_done :
      (s : DeletionStep) (d : Deletion W) (x : StepRecord)
      → (run_step o target r s d).0 ≡ ok x
      → ((run_step o target r s d).1.records s ≡ some x) × (is_succeeded x.status ≡ true)
  unfolding run_step
  step_done s d x e = elim (Option-cases (d.records s)) [
    | inl absent ↦ (ground (arith, absent, e, same_step_refl s), ground (arith, absent, e))
    | inr (y, row) ↦ (ground (arith, row, e, same_step_refl s), ground (arith, row, e))
  ]

  -- A step that raises had not succeeded before.
  pub step_raised :
      (s : DeletionStep) (d : Deletion W) (e : AppError)
      → (run_step o target r s d).0 ≡ err e
      → is_done (d.records s) ≡ false
  unfolding run_step
  step_raised s d e h = elim (Option-cases (d.records s)) [
    | inl absent ↦ ground (arith, absent)
    | inr (x, row) ↦ ground (arith, row, h)
  ]

  -- A step that is done leaves the tenant to what the step does.
  pub step_tenant :
      (s : DeletionStep) (d : Deletion W)
      → is_done (d.records s) ≡ false
      → (run_step o target r s d).1.place.tenant ≡ (execute_step o target r s d.place).1.tenant
  unfolding run_step
  step_tenant s d new = elim (Option-cases (d.records s)) [
    | inl absent ↦ ground (arith, absent)
    | inr (x, row) ↦ ground (arith, row, new)
  ]

  -- A step whose record comes to say that it succeeded did succeed.
  pub step_executed :
      (s : DeletionStep) (d : Deletion W)
      → is_done (d.records s) ≡ false
      → is_done ((run_step o target r s d).1.records s) ≡ true
      → (payload : StepPayload) × ((execute_step o target r s d.place).0 ≡ ok payload)
  unfolding run_step
  step_executed s d new h = elim (Result-cases (execute_step o target r s d.place).0) [
    | inl (payload, e) ↦ (payload, e)
    | inr (a, e) ↦ elim (Option-cases (d.records s)) [
      | inl absent ↦ absurd (ground (arith, absent, e, h, same_step_refl s))
      | inr (y, row) ↦ absurd (ground (arith, row, e, new, h, same_step_refl s))
    ]
  ]
