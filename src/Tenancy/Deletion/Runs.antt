-- ===== src/Tenancy/Deletion/Runs.antt =====
-- src/core/tenancy/services.py: runs of a tenant's deletion, from step to step.
use fastapi_foundation.Base.{
  AppError, ◌≡◌, refl, sym, ap, ◌∙◌, false, List, [], ◌∷◌, arith, All, ok, err, Result-cases, inl,
  inr,
}
use fastapi_foundation.Tenancy.{TenantStatus}
use fastapi_foundation.Tenancy.Services.{Request}
use fastapi_foundation.Tenancy.Deletion.{
  DeletionStep, StepRecord, Records, Deletion, TenantDeletionOrchestrator, same_step, run_step,
  run_steps,
}
use fastapi_foundation.Tenancy.Deletion.Steps.{is_done, step_others, step_done, step_raised}

-- Of the steps, those that succeeded come first.
unfoldable pub IsPrefix : List DeletionStep → Records → Type 0
IsPrefix [] records = Unit
IsPrefix (s ∷ ss) records =
    (is_done (records s) ≡ false → All (λ t. is_done (records t) ≡ false) ss) × IsPrefix ss records

-- No step comes twice.
unfoldable pub AreDistinct : List DeletionStep → Type 0
AreDistinct [] = Unit
AreDistinct (s ∷ ss) =
    All (λ t. same_step s t ≡ false) ss × All (λ t. same_step t s ≡ false) ss × AreDistinct ss

none_done :
    (ss : List DeletionStep) (before after : Records)
    → All (λ t. after t ≡ before t) ss
    → All (λ t. is_done (before t) ≡ false) ss
    → All (λ t. is_done (after t) ≡ false) ss
none_done [] before after a h = tt
none_done (t ∷ ss) before after (e, a) (n, h) = (ap is_done e ∙ n, none_done ss before after a h)

records-IsPrefix :
    (ss : List DeletionStep) (before after : Records)
    → All (λ t. after t ≡ before t) ss
    → IsPrefix ss before
    → IsPrefix ss after
unfolding IsPrefix
records-IsPrefix [] before after a h = tt
records-IsPrefix (s ∷ ss) before after (e, a) (f, h) = (
  λ n. none_done ss before after a (f (sym (ap is_done e) ∙ n)),
  records-IsPrefix ss before after a h,
)

module _ {W : Type 0} (o : TenantDeletionOrchestrator W) (target : TenantStatus) (r : Request) where
  pub go_on :
      (s : DeletionStep) (ss : List DeletionStep) (d : Deletion W) (x : StepRecord)
      → (run_step o target r s d).0 ≡ ok x
      → (run_steps o target r (s ∷ ss) d).1
        ≡ (run_steps o target r ss (run_step o target r s d).1).1
  unfolding run_steps
  go_on s ss d x h = ground (arith, h)

  pub give_up :
      (s : DeletionStep) (ss : List DeletionStep) (d : Deletion W) (e : AppError)
      → (run_step o target r s d).0 ≡ err e
      → (run_steps o target r (s ∷ ss) d).1 ≡ (run_step o target r s d).1
  unfolding run_steps
  give_up s ss d e h = ground (arith, h)

  step_each_other :
      (s : DeletionStep) (ss : List DeletionStep) (d : Deletion W)
      → All (λ t. same_step s t ≡ false) ss
      → All (λ t. (run_step o target r s d).1.records t ≡ d.records t) ss
  step_each_other s [] d a = tt
  step_each_other s (t ∷ ss) d (p, a) = (step_others o target r s t d p, step_each_other s ss d a)

  pub steps_others :
      (ss : List DeletionStep) (t : DeletionStep) (d : Deletion W)
      → All (λ s. same_step s t ≡ false) ss
      → (run_steps o target r ss d).1.records t ≡ d.records t
  unfolding run_steps
  steps_others [] t d a = refl
  steps_others (s ∷ ss) t d (p, a) = elim (Result-cases (run_step o target r s d).0) [
    | inl (x, e) ↦
        ground (
          arith,
          e,
          steps_others ss t (run_step o target r s d).1 a,
          step_others o target r s t d p,
        )
    | inr (x, e) ↦ ground (arith, e, step_others o target r s t d p)
  ]

  -- Whatever its outcome, a run leaves the steps that succeeded in front.
  pub steps-IsPrefix :
      (ss : List DeletionStep) (d : Deletion W)
      → AreDistinct ss
      → IsPrefix ss d.records
      → IsPrefix ss (run_steps o target r ss d).1.records
  unfolding IsPrefix AreDistinct
  steps-IsPrefix [] d u h = tt
  steps-IsPrefix (s ∷ ss) d (u, v, w) (f, h) =
      let d1 = (run_step o target r s d).1 in
      let same = step_each_other s ss d u in
      let next = records-IsPrefix ss d.records d1.records same h in
      elim (Result-cases (run_step o target r s d).0) [
        | inl (x, e) ↦
            let (row, good) = step_done o target r s d x e in
            let kept = steps_others ss s d1 v in
            rw (go_on s ss d x e)
              (λ n. absurd (ground (arith, n, kept, row, good)), steps-IsPrefix ss d1 w next)
        | inr (x, e) ↦
            rw (give_up s ss d x e) (
              λ n. none_done ss d.records d1.records same (f (step_raised o target r s d x e)),
              next,
            )
      ]
