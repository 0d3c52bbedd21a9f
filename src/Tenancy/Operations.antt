-- ===== src/Tenancy/Operations.antt =====
-- src/core/tenancy/lifecycle.py: what a tenant may still do, whatever the policy.
use fastapi_foundation.Base.{◌≡◌, Bool, true, false, arith, err, app_error, tenant_state_forbidden}
use fastapi_foundation.Tenancy.{
  TenantStatus, TenantOperation, TenantLifecyclePolicy, is_tenant_operation_allowed,
  assert_tenant_operation_allowed,
}
use fastapi_foundation.Tenancy.Transitions.{Reaches, reachable, Reaches-reachable_iff}

-- The operations of a tenant's users that change its data or enter it.
abbrev pub is_active_use : TenantOperation → Bool
is_active_use TenantOperation.login = true
is_active_use TenantOperation.write = true
is_active_use TenantOperation.task = true
is_active_use _ = false

forbidden :
    (t : TenantStatus) (o : TenantOperation) (p : TenantLifecyclePolicy)
    → reachable TenantStatus.deleting t ≡ true
    → is_active_use o ≡ true
    → assert_tenant_operation_allowed t o p
      ≡ err (app_error tenant_state_forbidden "Tenant state does not allow this operation" 403)
unfolding assert_tenant_operation_allowed is_tenant_operation_allowed
forbidden t o p r used = ground arith

-- Once a tenant is being deleted, no sequence of allowed transitions leads to a status at which
-- a login, a write or a task is allowed, under any policy.
pub deleting_forbids :
    (t : TenantStatus) (o : TenantOperation) (p : TenantLifecyclePolicy)
    → Reaches TenantStatus.deleting t
    → is_active_use o ≡ true
    → assert_tenant_operation_allowed t o p
      ≡ err (app_error tenant_state_forbidden "Tenant state does not allow this operation" 403)
deleting_forbids t o p r used =
    forbidden t o p ((Reaches-reachable_iff TenantStatus.deleting t).0 r) used
