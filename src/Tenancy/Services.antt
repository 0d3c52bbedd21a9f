-- ===== src/Tenancy/Services.antt =====
-- src/core/tenancy/services.py: `TenantLifecycleService`. The publisher, the hook and the audit
-- recorder work on a world of their own, which is a parameter with them.
use fastapi_foundation.Base.{
  String, Bool, true, false, Option, none, some, [], ◌∷◌, if◌then◌else◌, app_error, internal_error,
  Result, Exec, pure, raise, gets, lift, modify, ◌>>=◌, ◌>>◌,
}
use fastapi_foundation.Permissions.{
  AuthorizationDecision, platform_tenant_id, assert_authorization_decision,
}
use fastapi_foundation.Tenancy.{TenantStatus, validate_tenant_transition}

-- src/core/tenancy/models.py
pub record Tenant : Type 0 where
  pub id : String
  pub name : String
  pub code : String
  pub status : TenantStatus
  pub deployment_mode : String

-- src/core/tenancy/events.py
pub data LifecycleEvent : Type 0 where
  tenant_suspended tenant_reactivated : LifecycleEvent
  tenant_deleting tenant_archived tenant_deleted : LifecycleEvent

-- Who asks for a mutation, and why.
pub record Request : Type 0 where
  pub actor_id : String
  pub request_id : String
  pub reason : String
  pub authorization_decision : Option AuthorizationDecision

pub data AuditEntry : Type 0 where
  transitioned : LifecycleEvent → Tenant → TenantStatus → TenantStatus → Bool → Request → AuditEntry
  -- a step of a deletion: whether it succeeded, and its name
  deletion_step : Bool → String → Request → AuditEntry

-- `TenantLifecycleService.__init__`; the event goes out with the tenant as it is.
pub record Collaborators (W : Type 0) : Type 0 where
  pub publish : LifecycleEvent → Tenant → Request → Exec W (Unit {0})
  pub session_revocation_hook : Option (String → String → Exec W (Unit {0}))
  pub audit : Option (AuditEntry → Exec W (Unit {0}))

-- The tenant's row, and what the collaborators work on.
pub record Place (W : Type 0) : Type 0 where
  pub tenant : Tenant
  pub world : W

unfoldable pub assert_tenant_mutation_authorized : Request → String → Result (Unit {0})
assert_tenant_mutation_authorized r mutation =
    assert_authorization_decision r.authorization_decision platform_tenant_id r.actor_id "tenant"
      ("manage" ∷ mutation ∷ []) "Tenant lifecycle mutation" false

module _ {W : Type 0} where
  abbrev pub on_world : {A : Type 0} → Exec W A → Exec (Place W) A
  on_world m p = let (r, w) = m p.world in (r, record p { world = w })

  abbrev pub set_status : TenantStatus → Place W → Place W
  set_status status p = record p { tenant = record p.tenant { status = status } }

module _ {W : Type 0} (c : Collaborators W) where
  abbrev pub recorded : AuditEntry → Exec (Place W) (Unit {0})
  recorded entry = elim c.audit [
    | none ↦ pure tt
    | some record_entry ↦ on_world (record_entry entry)
  ]

  abbrev revoke_sessions : String → String → Exec (Place W) (Unit {0})
  revoke_sessions id reason = elim c.session_revocation_hook [
    | none ↦ pure tt
    | some hook ↦ on_world (hook id reason)
  ]

  -- `_transition`
  unfoldable pub transition :
      TenantStatus → LifecycleEvent → Bool → String → Request → Exec (Place W) (Unit {0})
  transition target event revoke mutation r = do
    lift (assert_tenant_mutation_authorized r mutation)
    from_status ← gets (λ p. p.tenant.status)
    lift (validate_tenant_transition from_status target)
    modify (set_status target)
    tenant ← gets (λ p. p.tenant)
    if revoke then revoke_sessions tenant.id r.reason else pure tt
    on_world (c.publish event tenant r)
    recorded (AuditEntry.transitioned event tenant from_status target revoke r)

  unfoldable pub suspend_tenant : Request → Exec (Place W) (Unit {0})
  suspend_tenant = transition TenantStatus.suspended LifecycleEvent.tenant_suspended true "suspend"

  unfoldable pub reactivate_tenant : Request → Exec (Place W) (Unit {0})
  reactivate_tenant =
      transition TenantStatus.active LifecycleEvent.tenant_reactivated false "reactivate"

  unfoldable pub begin_delete_tenant : Request → Exec (Place W) (Unit {0})
  begin_delete_tenant =
      transition TenantStatus.deleting LifecycleEvent.tenant_deleting true "delete"

  unfoldable pub finish_delete_tenant : TenantStatus → Request → Exec (Place W) (Unit {0})
  finish_delete_tenant TenantStatus.archived r =
      transition TenantStatus.archived LifecycleEvent.tenant_archived false "delete" r
  finish_delete_tenant TenantStatus.deleted r =
      transition TenantStatus.deleted LifecycleEvent.tenant_deleted false "delete" r
  finish_delete_tenant _ r =
      raise (app_error internal_error "finish_delete_tenant target must be archived or deleted" 500)
