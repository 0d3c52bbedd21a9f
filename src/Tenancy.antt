-- ===== src/Tenancy.antt =====
-- src/core/tenancy/lifecycle.py: the statuses of a tenant, what each allows and which may follow
-- which. The policy is an argument; a call without one has the default policy.
pub mod Transitions
pub mod Operations
pub mod Services
pub mod Deletion
mod Tests
use Prim.Native.String.{◌++◌ as ◌<>◌}
use fastapi_foundation.Base.{
  String, Bool, true, false, ◌||◌, List, [], ◌∷◌, if◌then◌else◌, ErrorCode, app_error,
  tenant_state_forbidden, Result, ok, err,
}

-- `TenantStatus`
pub data TenantStatus : Type 0 where
  provisioning active suspended deleting archived deleted : TenantStatus

-- `TenantOperation`
pub data TenantOperation : Type 0 where
  login read write task file_download background_cleanup admin : TenantOperation

pub record TenantLifecyclePolicy : Type 0 where
  pub allow_suspended_file_download : Bool
  pub allow_archived_read : Bool
  pub allow_archived_file_download : Bool

abbrev pub default_policy : TenantLifecyclePolicy
default_policy = record {
  allow_suspended_file_download = false;
  allow_archived_read = false;
  allow_archived_file_download = false;
}

-- `ALLOWED_TRANSITIONS`
unfoldable pub allowed_transitions : TenantStatus → List TenantStatus
allowed_transitions provisioning = active ∷ deleted ∷ []
allowed_transitions active = suspended ∷ deleting ∷ []
allowed_transitions suspended = active ∷ deleting ∷ []
allowed_transitions deleting = archived ∷ deleted ∷ []
allowed_transitions archived = deleted ∷ []
allowed_transitions deleted = []

abbrev pub status_name : TenantStatus → String
status_name provisioning = "provisioning"
status_name active = "active"
status_name suspended = "suspended"
status_name deleting = "deleting"
status_name archived = "archived"
status_name deleted = "deleted"

-- Equality of statuses, which the source has as texts.
abbrev pub same_status : TenantStatus → TenantStatus → Bool
same_status provisioning provisioning = true
same_status active active = true
same_status suspended suspended = true
same_status deleting deleting = true
same_status archived archived = true
same_status deleted deleted = true
same_status _ _ = false

unfoldable pub is_in : TenantStatus → List TenantStatus → Bool
is_in s [] = false
is_in s (t ∷ ts) = same_status s t || is_in s ts

unfoldable pub is_tenant_operation_allowed :
    TenantStatus → TenantOperation → TenantLifecyclePolicy → Bool
is_tenant_operation_allowed _ admin p = true
is_tenant_operation_allowed active _ p = true
is_tenant_operation_allowed suspended login p = true
is_tenant_operation_allowed suspended read p = true
is_tenant_operation_allowed suspended file_download p = p.allow_suspended_file_download
is_tenant_operation_allowed suspended _ p = false
is_tenant_operation_allowed deleting background_cleanup p = true
is_tenant_operation_allowed deleting _ p = false
is_tenant_operation_allowed archived read p = p.allow_archived_read
is_tenant_operation_allowed archived file_download p = p.allow_archived_file_download
is_tenant_operation_allowed archived _ p = false
is_tenant_operation_allowed _ _ p = false

unfoldable pub assert_tenant_operation_allowed :
    TenantStatus → TenantOperation → TenantLifecyclePolicy → Result (Unit {0})
assert_tenant_operation_allowed status operation policy =
    if is_tenant_operation_allowed status operation policy
    then ok tt
    else err (app_error tenant_state_forbidden "Tenant state does not allow this operation" 403)

unfoldable pub validate_tenant_transition : TenantStatus → TenantStatus → Result (Unit {0})
unfolding is_in allowed_transitions
validate_tenant_transition current target =
    if is_in target (allowed_transitions current)
    then ok tt
    else err (
        app_error tenant_state_forbidden
          ("Invalid tenant lifecycle transition: "
            <> (status_name current <> (" -> " <> status_name target)))
          409)
