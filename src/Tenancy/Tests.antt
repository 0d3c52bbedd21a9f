-- ===== src/Tenancy/Tests.antt =====
-- src/core/tenancy/lifecycle.py: the statements about tenants, at concrete statuses.
use fastapi_foundation.Base.{◌≡◌, refl, true, ◌↔◌, err, app_error, tenant_state_forbidden}
use fastapi_foundation.Tenancy.{
  TenantStatus, TenantOperation, default_policy, assert_tenant_operation_allowed,
  validate_tenant_transition,
}
use fastapi_foundation.Tenancy.Transitions.{Reaches, reachable, Reaches-reachable_iff}
use fastapi_foundation.Tenancy.Operations.{deleting_forbids}

Reaches-reachable_iff_example :
    Reaches TenantStatus.suspended TenantStatus.archived
    ↔ (reachable TenantStatus.suspended TenantStatus.archived ≡ true)
Reaches-reachable_iff_example = Reaches-reachable_iff TenantStatus.suspended TenantStatus.archived

deleting_forbids_example :
    assert_tenant_operation_allowed TenantStatus.archived TenantOperation.write default_policy
    ≡ err (app_error tenant_state_forbidden "Tenant state does not allow this operation" 403)
unfolding validate_tenant_transition
deleting_forbids_example =
    deleting_forbids TenantStatus.archived TenantOperation.write default_policy
      (Reaches.step refl Reaches.stay) refl
