-- ===== src/Tenancy/Deletion.antt =====
-- src/core/tenancy/services.py: `TenantDeletionOrchestrator`, which deletes a tenant step by step and
-- keeps a record of each step, so that a run that failed can be taken up again. The records are
-- those of one tenant: the row of each step, if it is there.
pub mod Steps
pub mod Status
pub mod Runs
pub mod Ends
pub mod Outcomes
mod Tests
use fastapi_foundation.Base.{
  ℕ, ◌+◌, String, Bool, true, false, Option, none, some, List, [], ◌∷◌, ◌++◌, if◌then◌else◌, ℤ,
  Dict, AppError, app_error, internal_error, tenant_delete_step_failed, Result, ok, err, Exec, pure,
  raise, gets, lift, raise_if, not, modify, ◌>>=◌, ◌>>◌,
}
use fastapi_foundation.Tenancy.{TenantStatus, same_status, is_in}
use fastapi_foundation.Tenancy.Services.{
  Tenant, Request, AuditEntry, Collaborators, Place, assert_tenant_mutation_authorized, on_world,
  recorded, begin_delete_tenant, finish_delete_tenant,
}

-- `TenantDeletionStep`
pub data DeletionStep : Type 0 where
  mark_deleting cancel_tasks cleanup_business_data cleanup_files finish : DeletionStep

abbrev pub step_name : DeletionStep → String
step_name mark_deleting = "mark_deleting"
step_name cancel_tasks = "cancel_tasks"
step_name cleanup_business_data = "cleanup_business_data"
step_name cleanup_files = "cleanup_files"
step_name finish = "finish"

abbrev pub same_step : DeletionStep → DeletionStep → Bool
same_step mark_deleting mark_deleting = true
same_step cancel_tasks cancel_tasks = true
same_step cleanup_business_data cleanup_business_data = true
same_step cleanup_files cleanup_files = true
same_step finish finish = true
same_step _ _ = false

-- `_DELETE_STEPS`
abbrev pub delete_steps : List DeletionStep
delete_steps = mark_deleting ∷ cancel_tasks ∷ cleanup_business_data ∷ cleanup_files ∷ finish ∷ []

pub data StepStatus : Type 0 where
  pending succeeded failed : StepStatus

abbrev pub is_succeeded : StepStatus → Bool
is_succeeded succeeded = true
is_succeeded _ = false

-- What a step returns: `{}`, the statuses, that the tenant had it already, or what was cleaned up.
pub data StepPayload : Type 0 where
  nothing : StepPayload
  already : TenantStatus → StepPayload
  from_to : TenantStatus → TenantStatus → StepPayload
  cancelled : ℕ → StepPayload
  counted : ℤ → StepPayload
  mapped : Dict String → StepPayload

-- What a clean-up hook returns: `None`, a number or a mapping.
pub data CleanupResult : Type 0 where
  no_result : CleanupResult
  amount : ℤ → CleanupResult
  summary : Dict String → CleanupResult

abbrev pub cleanup_result_payload : CleanupResult → StepPayload
cleanup_result_payload no_result = StepPayload.nothing
cleanup_result_payload (amount n) = StepPayload.counted n
cleanup_result_payload (summary d) = StepPayload.mapped d

-- `TenantLifecycleStepRecord`, without its times.
pub record StepRecord : Type 0 where
  pub step : DeletionStep
  pub status : StepStatus
  pub attempt_count : ℕ
  pub forward_fix_required : Bool
  pub result_payload : Option StepPayload
  pub last_error : Option AppError

abbrev pub Records : Type 0
Records = DeletionStep → Option StepRecord

abbrev pub write_record : DeletionStep → StepRecord → Records → Records
write_record s r records t = if same_step s t then some r else records t

-- The tenant and the world, with the records of the tenant's deletion.
pub record Deletion (W : Type 0) : Type 0 where
  pub place : Place W
  pub records : Records

-- `TenantDeletionOrchestrator.__init__`; of the tasks that are cancelled only the number is used.
pub record TenantDeletionOrchestrator (W : Type 0) : Type 0 where
  pub collaborators : Collaborators W
  pub cancel_for_tenant : Option (String → String → Exec W ℕ)
  pub business_cleanup_hook : Option (String → String → Exec W CleanupResult)
  pub file_cleanup_hook : Option (String → String → Exec W CleanupResult)

pub record TenantDeletionResult : Type 0 where
  pub tenant_id : String
  pub status : TenantStatus
  pub steps : List StepRecord

abbrev pub new_record : DeletionStep → StepRecord
new_record s = record {
  step = s;
  status = StepStatus.pending;
  attempt_count = 0;
  forward_fix_required = false;
  result_payload = none;
  last_error = none;
}

abbrev pub succeeded_record : StepRecord → StepPayload → StepRecord
succeeded_record r payload = record r {
  status = StepStatus.succeeded;
  attempt_count = r.attempt_count + 1;
  forward_fix_required = false;
  result_payload = some payload;
  last_error = none;
}

abbrev pub failed_record : StepRecord → AppError → StepRecord
failed_record r e = record r {
  status = StepStatus.failed;
  attempt_count = r.attempt_count + 1;
  forward_fix_required = true;
  result_payload = none;
  last_error = some e;
}

module _ {W : Type 0} (o : TenantDeletionOrchestrator W) where
  abbrev at_place : {A : Type 0} → Exec (Place W) A → Exec (Deletion W) A
  at_place m d = let (r, p) = m d.place in (r, record d { place = p })

  -- `_mark_deleting`
  mark : Request → Exec (Place W) StepPayload
  mark r = do
    status ← gets (λ p. p.tenant.status)
    if same_status status TenantStatus.deleting
        then pure (StepPayload.already TenantStatus.deleting)
        else (do
          begin_delete_tenant o.collaborators r
          pure (StepPayload.from_to status TenantStatus.deleting))

  -- `_cancel_tasks`
  cancel : String → String → Exec (Place W) StepPayload
  cancel id reason = elim o.cancel_for_tenant [
    | none ↦ pure (StepPayload.cancelled 0)
    | some hook ↦ (do n ← on_world (hook id reason); pure (StepPayload.cancelled n))
  ]

  invoke_cleanup_hook :
      Option (String → String → Exec W CleanupResult) → String → String → Exec (Place W) StepPayload
  invoke_cleanup_hook none id reason = pure StepPayload.nothing
  invoke_cleanup_hook (some hook) id reason = do
    result ← on_world (hook id reason)
    pure (cleanup_result_payload result)

  -- `_finish`; its service has no hook that revokes sessions.
  finish_with : TenantStatus → Request → Exec (Place W) StepPayload
  finish_with target r = do
    status ← gets (λ p. p.tenant.status)
    if same_status status target then pure (StepPayload.already target) else (do
      finish_delete_tenant (record o.collaborators { session_revocation_hook = none }) target r
      pure (StepPayload.from_to status target))

  unfoldable pub execute_step : TenantStatus → Request → DeletionStep → Exec (Place W) StepPayload
  unfolding mark cancel invoke_cleanup_hook finish_with
  execute_step target r mark_deleting p = mark r p
  execute_step target r cancel_tasks p = cancel p.tenant.id r.reason p
  execute_step target r cleanup_business_data p =
      invoke_cleanup_hook o.business_cleanup_hook p.tenant.id r.reason p
  execute_step target r cleanup_files p =
      invoke_cleanup_hook o.file_cleanup_hook p.tenant.id r.reason p
  execute_step target r finish p = finish_with target r p

  audit_step : Bool → DeletionStep → Request → Exec (Deletion W) (Unit {0})
  audit_step result s r =
      at_place (recorded o.collaborators (AuditEntry.deletion_step result (step_name s) r))

  -- `_step_record`
  step_record : DeletionStep → Exec (Deletion W) StepRecord
  step_record s d = elim (d.records s) [
    | some r ↦ (ok r, d)
    | none ↦ (ok (new_record s), record d { records = write_record s (new_record s) d.records })
  ]

  save : DeletionStep → StepRecord → Exec (Deletion W) (Unit {0})
  save s r = modify (λ d. record d { records = write_record s r d.records })

  -- What follows on a step's result: the record is marked, and a failure raised.
  settle : Request → DeletionStep → StepRecord → Result StepPayload → Exec (Deletion W) StepRecord
  unfolding audit_step save
  settle r s record_ (ok payload) = do
    save s (succeeded_record record_ payload)
    audit_step true s r
    pure (succeeded_record record_ payload)
  settle r s record_ (err e) = do
    save s (failed_record record_ e)
    audit_step false s r
    raise (app_error tenant_delete_step_failed "Tenant deletion step failed" 409)

  try_step : TenantStatus → Request → DeletionStep → StepRecord → Exec (Deletion W) StepRecord
  unfolding settle
  try_step target r s record_ d =
      let (result, p) = execute_step target r s d.place in
      settle r s record_ result (record d { place = p })

  unfoldable pub run_step : TenantStatus → Request → DeletionStep → Exec (Deletion W) StepRecord
  unfolding step_record try_step
  run_step target r s = do
    record_ ← step_record s
    if is_succeeded record_.status then pure record_ else try_step target r s record_

  unfoldable pub run_steps :
      TenantStatus → Request → List DeletionStep → Exec (Deletion W) (List StepRecord)
  run_steps target r [] = pure []
  run_steps target r (s ∷ ss) = do
    record_ ← run_step target r s
    rest ← run_steps target r ss
    pure (record_ ∷ rest)

  unfoldable pub run : TenantStatus → Request → Exec (Deletion W) TenantDeletionResult
  run target r = do
    raise_if (not (is_in target (TenantStatus.archived ∷ TenantStatus.deleted ∷ [])))
        (app_error internal_error "tenant deletion target must be archived or deleted" 500)
    lift (assert_tenant_mutation_authorized r "delete")
    steps ← run_steps target r delete_steps
    tenant ← gets (λ d. d.place.tenant)
    pure (record { tenant_id = tenant.id; status = tenant.status; steps = steps })
