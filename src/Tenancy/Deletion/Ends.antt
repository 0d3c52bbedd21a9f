-- ===== src/Tenancy/Deletion/Ends.antt =====
-- src/core/tenancy/services.py: how the deletion of a tenant comes to its end.
use fastapi_foundation.Base.{
  ◌≡◌, refl, sym, ap, ◌∙◌, subst, Bool, true, false, some, List, [], ◌∷◌, ◌++◌, arith, All, ok,
  Bool-cases, Result-cases, inl, inr,
}
use fastapi_foundation.Tenancy.{TenantStatus, is_in, allowed_transitions}
use fastapi_foundation.Tenancy.Services.{Request, Place}
use fastapi_foundation.Tenancy.Deletion.{
  DeletionStep, StepRecord, StepPayload, Deletion, TenantDeletionOrchestrator, is_succeeded,
  same_step, execute_step, run_step, run_steps,
}
use fastapi_foundation.Tenancy.Deletion.Steps.{
  is_done, same_step_eq, done_record, step_skipped, step_others, step_done, step_tenant,
  step_executed,
}
use fastapi_foundation.Tenancy.Deletion.Status.{execute_keeps}
use fastapi_foundation.Tenancy.Deletion.Runs.{AreDistinct, steps_others, go_on, give_up}

abbrev pub status_of : {W : Type 0} → Deletion W → TenantStatus
status_of d = d.place.tenant.status

-- If the step succeeded, the status is as it should be after it.
abbrev pub Fits : {W : Type 0} → DeletionStep → (TenantStatus → Bool) → Deletion W → Type 0
Fits m good d = is_done (d.records m) ≡ true → good (status_of d) ≡ true

-- The steps have the records, which say that they succeeded.
unfoldable pub Succeeded : {W : Type 0} → List DeletionStep → List StepRecord → Deletion W → Type 0
Succeeded [] [] d = Unit
Succeeded [] (x ∷ xs) d = ⊥
Succeeded (s ∷ ss) [] d = ⊥
Succeeded (s ∷ ss) (x ∷ xs) d =
    ((d.records s ≡ some x) × (is_succeeded x.status ≡ true)) × Succeeded ss xs d

module _ {W : Type 0} (o : TenantDeletionOrchestrator W) (target : TenantStatus) (r : Request) where
  module _ (good : TenantStatus → Bool)
      (kept : (current next : TenantStatus)
        → is_in next (allowed_transitions current) ≡ true
        → good current ≡ true
        → good next ≡ true) where
    step_keeps :
        (s : DeletionStep) (d : Deletion W)
        → good (status_of d) ≡ true
        → good (status_of (run_step o target r s d).1) ≡ true
    step_keeps s d h = elim (Bool-cases (is_done (d.records s))) [
      | inl done ↦
          let (x, row, succeeded) = done_record (d.records s) done in
          rw (step_skipped o target r s d x row succeeded) h
      | inr new ↦
          ap (λ t. good t.status) (step_tenant o target r s d new)
          ∙ execute_keeps good kept o target r s d.place h
    ]

    module _ (m : DeletionStep)
        (reached : (p : Place W) (payload : StepPayload)
          → (execute_step o target r m p).0 ≡ ok payload
          → good (execute_step o target r m p).1.tenant.status ≡ true) where
      here-Fits : (d : Deletion W) → Fits m good d → Fits m good (run_step o target r m d).1
      here-Fits d f h = elim (Bool-cases (is_done (d.records m))) [
        | inl done ↦ step_keeps m d (f done)
        | inr new ↦
            let (payload, e) = step_executed o target r m d new h in
            ap (λ t. good t.status) (step_tenant o target r m d new) ∙ reached d.place payload e
      ]

      step-Fits :
          (s : DeletionStep) (d : Deletion W)
          → Fits m good d
          → Fits m good (run_step o target r s d).1
      step-Fits s d f = elim (Bool-cases (same_step s m)) [
        | inl same ↦
            subst (λ t. Fits m good (run_step o target r t d).1) (sym (same_step_eq s m same))
              (here-Fits d f)
        | inr other ↦
            λ h. step_keeps s d (f (ap is_done (sym (step_others o target r s m d other)) ∙ h))
      ]

      pub steps-Fits :
          (ss : List DeletionStep) (d : Deletion W)
          → Fits m good d
          → Fits m good (run_steps o target r ss d).1
      unfolding run_steps
      steps-Fits [] d f = f
      steps-Fits (s ∷ ss) d f = elim (Result-cases (run_step o target r s d).0) [
        | inl (x, e) ↦
            rw (go_on o target r s ss d x e)
              (steps-Fits ss (run_step o target r s d).1 (step-Fits s d f))
        | inr (x, e) ↦ rw (give_up o target r s ss d x e) (step-Fits s d f)
      ]

  -- A run of the steps that returns leaves each with the record that it returns, as succeeded.
  pub steps_done :
      (ss : List DeletionStep) (d : Deletion W) (xs : List StepRecord)
      → AreDistinct ss
      → (run_steps o target r ss d).0 ≡ ok xs
      → Succeeded ss xs (run_steps o target r ss d).1
  unfolding run_steps AreDistinct Succeeded
  steps_done [] d xs u h = ground (arith, h)
  steps_done (s ∷ ss) d xs (u, v, w) h = elim (Result-cases (run_step o target r s d).0) [
    | inr (e, raised) ↦ absurd (ground (arith, raised, h))
    | inl (x, answered) ↦
        elim (Result-cases (run_steps o target r ss (run_step o target r s d).1).0) [
          | inr (e, raised) ↦ absurd (ground (arith, answered, raised, h))
          | inl (ys, rest) ↦
              let (row, good) = step_done o target r s d x answered in
              let kept = steps_others o target r ss s (run_step o target r s d).1 v in
              let same : x ∷ ys ≡ xs = ground (arith, answered, rest, h) in
              rw (← same, go_on o target r s ss d x answered)
                ((kept ∙ row, good), steps_done ss (run_step o target r s d).1 ys w rest)
        ]
  ]

  -- Where all steps have succeeded, a run of them only returns their records.
  pub steps_again :
      (ss : List DeletionStep) (d : Deletion W) (xs : List StepRecord)
      → Succeeded ss xs d
      → run_steps o target r ss d ≡ (ok xs, d)
  unfolding run_steps Succeeded
  steps_again [] d [] h = refl
  steps_again [] d (x ∷ xs) h = elim h [ ]
  steps_again (s ∷ ss) d [] h = elim h [ ]
  steps_again (s ∷ ss) d (x ∷ xs) ((row, good), h) =
      ground (arith, step_skipped o target r s d x row good, steps_again ss d xs h)

  -- The last of the steps, from the table that the others leave.
  pub steps_last :
      (ss : List DeletionStep) (m : DeletionStep) (d : Deletion W) (xs : List StepRecord)
      → All (λ s. same_step s m ≡ false) ss
      → (run_steps o target r (ss ++ m ∷ []) d).0 ≡ ok xs
      → (e : Deletion W) × (e.records m ≡ d.records m)
        × ((run_steps o target r (ss ++ m ∷ []) d).1 ≡ (run_step o target r m e).1)
        × (x : StepRecord) × ((run_step o target r m e).0 ≡ ok x)
  unfolding run_steps
  steps_last [] m d xs a h = elim (Result-cases (run_step o target r m d).0) [
    | inr (e, raised) ↦ absurd (ground (arith, raised, h))
    | inl (x, answered) ↦ (d, refl, go_on o target r m [] d x answered, x, answered)
  ]
  steps_last (s ∷ ss) m d xs (p, a) h = elim (Result-cases (run_step o target r s d).0) [
    | inr (e, raised) ↦ absurd (ground (arith, raised, h))
    | inl (x, answered) ↦
        let d1 = (run_step o target r s d).1 in
        elim (Result-cases (run_steps o target r (ss ++ m ∷ []) d1).0) [
          | inr (e, raised) ↦ absurd (ground (arith, answered, raised, h))
          | inl (ys, rest) ↦
              let (e, row, left, y, last) = steps_last ss m d1 ys a rest in
              (
                e,
                row ∙ step_others o target r s m d p,
                go_on o target r s (ss ++ m ∷ []) d x answered ∙ left,
                y,
                last,
              )
        ]
  ]
