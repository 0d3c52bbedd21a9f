-- ===== src/Tenancy/Deletion/Tests.antt =====
-- src/core/tenancy/services.py: the deletion of a concrete tenant, whose sessions cannot be revoked at first.
use fastapi_foundation.Base.{
  ℕ, String, ◌≡◌, refl, Bool, true, false, none, some, List, [], ◌∷◌, ok, err, Exec, app_error,
  internal_error, tenant_delete_step_failed, contains, arith,
}
use fastapi_foundation.Permissions.{AuthorizationDecision, assert_authorization_decision}
use fastapi_foundation.Tenancy.{TenantStatus, validate_tenant_transition, is_in}
use fastapi_foundation.Tenancy.Services.{
  Tenant, Request, LifecycleEvent, assert_tenant_mutation_authorized, transition,
  begin_delete_tenant, finish_delete_tenant,
}
use fastapi_foundation.Tenancy.Deletion.{
  DeletionStep, StepStatus, StepPayload, CleanupResult, StepRecord, Deletion,
  TenantDeletionOrchestrator, TenantDeletionResult, delete_steps, execute_step, run_step, run_steps,
  run,
}
use fastapi_foundation.Tenancy.Deletion.Steps.{is_done}
use fastapi_foundation.Tenancy.Deletion.Runs.{IsPrefix}
use fastapi_foundation.Tenancy.Deletion.Ends.{Succeeded}
use fastapi_foundation.Tenancy.Deletion.Outcomes.{
  IsConsistent, run-IsConsistent, run-Succeeded, run_finished,
}

-- Whether the sessions' service is down, and what was done.
abbrev World : Type 0
World = Bool × List String

abbrev did : {A : Type 0} → String → A → Exec World A
did what a (down, log) = (ok a, (down, what ∷ log))

abbrev event_name : LifecycleEvent → String
event_name LifecycleEvent.tenant_deleting = "deleting"
event_name LifecycleEvent.tenant_archived = "archived"
event_name _ = "other"

-- The service is down for one call.
abbrev revoke : String → String → Exec World (Unit {0})
revoke id reason (true, log) = (err (app_error internal_error "down" 500), (false, log))
revoke id reason (false, log) = (ok tt, (false, "revoked" ∷ log))

abbrev orchestrator : TenantDeletionOrchestrator World
orchestrator = record {
  collaborators = record {
    publish = λ event tenant r. did (event_name event) tt;
    session_revocation_hook = some revoke;
    audit = none;
  };
  cancel_for_tenant = none;
  business_cleanup_hook = some (λ id reason. did "business" CleanupResult.no_result);
  file_cleanup_hook = some (λ id reason. did "files" CleanupResult.no_result);
}

abbrev tenant : TenantStatus → Tenant
tenant status = record {
  id = "t1";
  name = "T";
  code = "t";
  status = status;
  deployment_mode = "local";
}

abbrev decision : AuthorizationDecision
decision = record {
  allowed = true;
  tenant_id = "__platform__";
  user_id = "root";
  resource = "tenant";
  action = "delete";
  reason = "";
  policy_version = none;
}

abbrev request : Request
request = record {
  actor_id = "root";
  request_id = "r1";
  reason = "left";
  authorization_decision = some decision;
}

abbrev start : Bool → Deletion World
start down = record {
  place = record { tenant = tenant TenantStatus.active; world = (down, []) };
  records = λ _. none;
}

abbrev done : DeletionStep → ℕ → StepPayload → StepRecord
done s n payload = record {
  step = s;
  status = StepStatus.succeeded;
  attempt_count = n;
  forward_fix_required = false;
  result_payload = some payload;
  last_error = none;
}

abbrev result : ℕ → StepPayload → TenantDeletionResult
result n first = record {
  tenant_id = "t1";
  status = TenantStatus.archived;
  steps =
      done DeletionStep.mark_deleting n first
      ∷ done DeletionStep.cancel_tasks 1 (StepPayload.cancelled 0)
      ∷ done DeletionStep.cleanup_business_data 1 StepPayload.nothing
      ∷ done DeletionStep.cleanup_files 1 StepPayload.nothing
      ∷ done DeletionStep.finish 1 (StepPayload.from_to TenantStatus.deleting TenantStatus.archived)
      ∷ [];
}

start-IsConsistent : IsConsistent (start true)
unfolding IsConsistent IsPrefix
start-IsConsistent = (
  (
    (λ _. (refl, (refl, (refl, (refl, tt))))),
    (
      (λ _. (refl, (refl, (refl, tt)))),
      ((λ _. (refl, (refl, tt))), ((λ _. (refl, tt)), ((λ _. tt), tt))),
    ),
  ),
  (λ h. absurd (ground (arith, h))),
  (λ h. absurd (ground (arith, h))),
)

abbrev after : Deletion World
after = (run orchestrator TenantStatus.archived request (start true)).1

-- The revocation fails, and the run with it.
failed_first :
    (run orchestrator TenantStatus.archived request (start true)).0
    ≡ err (app_error tenant_delete_step_failed "Tenant deletion step failed" 409)
unfolding run is_in assert_tenant_mutation_authorized assert_authorization_decision contains
    run_steps run_step execute_step begin_delete_tenant transition validate_tenant_transition
    finish_delete_tenant
failed_first = refl

-- The next run finds the tenant as deleting: it neither revokes the sessions nor publishes the event.
revoked_never :
    ((run orchestrator TenantStatus.archived request after).0
      ≡ ok (result 2 (StepPayload.already TenantStatus.deleting)))
    × ((run orchestrator TenantStatus.archived request after).1.place.world
        ≡ (false, "archived" ∷ "files" ∷ "business" ∷ []))
unfolding run is_in assert_tenant_mutation_authorized assert_authorization_decision contains
    run_steps run_step execute_step begin_delete_tenant transition validate_tenant_transition
    finish_delete_tenant
revoked_never = (refl, refl)

run-IsConsistent_example :
    IsConsistent (run orchestrator TenantStatus.archived request (start true)).1
run-IsConsistent_example =
    run-IsConsistent orchestrator TenantStatus.archived request (start true) start-IsConsistent

run-Succeeded_example :
    Succeeded delete_steps
      (result 2 (StepPayload.already TenantStatus.deleting)).steps
      (run orchestrator TenantStatus.archived request after).1
    × (TenantStatus.archived
        ≡ (run orchestrator TenantStatus.archived request after).1.place.tenant.status)
    × (is_done (after.records DeletionStep.finish) ≡ false
        → TenantStatus.archived ≡ TenantStatus.archived)
run-Succeeded_example =
    run-Succeeded orchestrator TenantStatus.archived request after
      (result 2 (StepPayload.already TenantStatus.deleting)) revoked_never.0

abbrev ended : Deletion World
ended = (run orchestrator TenantStatus.archived request (start false)).1

archived_at_once :
    run orchestrator TenantStatus.archived request (start false)
    ≡ (ok (result 1 (StepPayload.from_to TenantStatus.active TenantStatus.deleting)), ended)
unfolding run is_in assert_tenant_mutation_authorized assert_authorization_decision contains
    run_steps run_step execute_step begin_delete_tenant transition validate_tenant_transition
    finish_delete_tenant
archived_at_once = refl

may_delete : assert_tenant_mutation_authorized request "delete" ≡ ok tt
unfolding assert_tenant_mutation_authorized assert_authorization_decision contains
may_delete = refl

-- The tenant that was archived is asked to be deleted, and stays archived.
run_finished_example :
    run orchestrator TenantStatus.deleted request ended
    ≡ (ok (result 1 (StepPayload.from_to TenantStatus.active TenantStatus.deleting)), ended)
run_finished_example =
    run_finished orchestrator TenantStatus.archived TenantStatus.deleted request request
      (start false) ended (result 1 (StepPayload.from_to TenantStatus.active TenantStatus.deleting))
      archived_at_once (refl, may_delete)
