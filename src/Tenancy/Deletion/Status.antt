-- ===== src/Tenancy/Deletion/Status.antt =====
-- src/core/tenancy/services.py: what one step of a deletion does to the tenant's status.
use fastapi_foundation.Base.{
  String, ◌≡◌, ◌⊎◌, Bool, true, false, none, arith, ok, Bool-cases, Result-cases, inl, inr,
}
use fastapi_foundation.Tenancy.{
  TenantStatus, is_in, same_status, allowed_transitions, validate_tenant_transition,
}
use fastapi_foundation.Tenancy.Services.{
  LifecycleEvent, Request, Collaborators, Place, transition, assert_tenant_mutation_authorized,
  begin_delete_tenant, finish_delete_tenant,
}
use fastapi_foundation.Tenancy.Deletion.{
  DeletionStep, StepPayload, TenantDeletionOrchestrator, execute_step,
}

-- The tenant is on its way out.
abbrev pub is_leaving : TenantStatus → Bool
is_leaving TenantStatus.deleting = true
is_leaving TenantStatus.archived = true
is_leaving TenantStatus.deleted = true
is_leaving _ = false

abbrev pub is_gone : TenantStatus → Bool
is_gone TenantStatus.archived = true
is_gone TenantStatus.deleted = true
is_gone _ = false

module _ {W : Type 0} (c : Collaborators W) (target : TenantStatus) (event : LifecycleEvent)
    (revoke : Bool) (mutation : String) (r : Request) where
  -- A transition leaves the status, or it is an allowed one.
  pub transition_status :
      (p : Place W)
      → ((transition c target event revoke mutation r p).1.tenant.status ≡ p.tenant.status)
        ⊎ (((transition c target event revoke mutation r p).1.tenant.status ≡ target)
            × (is_in target (allowed_transitions p.tenant.status) ≡ true))
  unfolding transition validate_tenant_transition
  transition_status p = elim (Bool-cases (is_in target (allowed_transitions p.tenant.status))) [
    | inr no_way ↦ inl (ground (arith, no_way))
    | inl way ↦ elim (Result-cases (assert_tenant_mutation_authorized r mutation)) [
      | inr (e, refused) ↦ inl (ground (arith, refused))
      | inl (u, allowed) ↦ inr (ground (arith, way, allowed), way)
    ]
  ]

  pub transition_done :
      (p : Place W)
      → (transition c target event revoke mutation r p).0 ≡ ok tt
      → (transition c target event revoke mutation r p).1.tenant.status ≡ target
  unfolding transition validate_tenant_transition
  transition_done p h = ground (arith, h)

-- Whoever is on the way out stays so, and whoever is gone.
pub allowed_leaving :
    (current target : TenantStatus)
    → is_in target (allowed_transitions current) ≡ true
    → is_leaving current ≡ true
    → is_leaving target ≡ true
unfolding is_in allowed_transitions
allowed_leaving TenantStatus.deleting target h k = ground (arith, h)
allowed_leaving TenantStatus.archived target h k = ground (arith, h)
allowed_leaving TenantStatus.deleted target h k = absurd (ground (arith, h))
allowed_leaving TenantStatus.provisioning target h k = absurd (ground (arith, k))
allowed_leaving TenantStatus.active target h k = absurd (ground (arith, k))
allowed_leaving TenantStatus.suspended target h k = absurd (ground (arith, k))

pub allowed_gone :
    (current target : TenantStatus)
    → is_in target (allowed_transitions current) ≡ true
    → is_gone current ≡ true
    → is_gone target ≡ true
unfolding is_in allowed_transitions
allowed_gone TenantStatus.deleting target h k = absurd (ground (arith, k))
allowed_gone TenantStatus.archived target h k = ground (arith, h)
allowed_gone TenantStatus.deleted target h k = absurd (ground (arith, h))
allowed_gone TenantStatus.provisioning target h k = absurd (ground (arith, k))
allowed_gone TenantStatus.active target h k = absurd (ground (arith, k))
allowed_gone TenantStatus.suspended target h k = absurd (ground (arith, k))

-- What every transition that is allowed keeps, a step of a deletion keeps.
module _ (good : TenantStatus → Bool)
    (kept : (current target : TenantStatus)
      → is_in target (allowed_transitions current) ≡ true
      → good current ≡ true
      → good target ≡ true)
    {W : Type 0} where
  transition_keeps :
      (c : Collaborators W) (target : TenantStatus) (event : LifecycleEvent) (revoke : Bool)
      (mutation : String) (r : Request) (p : Place W)
      → good p.tenant.status ≡ true
      → good (transition c target event revoke mutation r p).1.tenant.status ≡ true
  transition_keeps c target event revoke mutation r p h =
      elim (transition_status c target event revoke mutation r p) [
        | inl same ↦ rw same h
        | inr (at, way) ↦ rw at (kept p.tenant.status target way h)
      ]

  finish_keeps :
      (c : Collaborators W) (target : TenantStatus) (r : Request) (p : Place W)
      → good p.tenant.status ≡ true
      → good (finish_delete_tenant c target r p).1.tenant.status ≡ true
  unfolding finish_delete_tenant
  finish_keeps c TenantStatus.archived r p h = transition_keeps c TenantStatus.archived _ _ _ r p h
  finish_keeps c TenantStatus.deleted r p h = transition_keeps c TenantStatus.deleted _ _ _ r p h
  finish_keeps c TenantStatus.deleting r p h = h
  finish_keeps c TenantStatus.provisioning r p h = h
  finish_keeps c TenantStatus.active r p h = h
  finish_keeps c TenantStatus.suspended r p h = h

  pub execute_keeps :
      (o : TenantDeletionOrchestrator W) (target : TenantStatus) (r : Request) (s : DeletionStep)
      (p : Place W)
      → good p.tenant.status ≡ true
      → good (execute_step o target r s p).1.tenant.status ≡ true
  unfolding execute_step begin_delete_tenant
  execute_keeps o target r DeletionStep.mark_deleting p h = ground (
    arith,
    h,
    transition_keeps o.collaborators TenantStatus.deleting LifecycleEvent.tenant_deleting true
        "delete" r p h,
  )
  execute_keeps o target r DeletionStep.cancel_tasks p h = ground (arith, h)
  execute_keeps o target r DeletionStep.cleanup_business_data p h = ground (arith, h)
  execute_keeps o target r DeletionStep.cleanup_files p h = ground (arith, h)
  execute_keeps o target r DeletionStep.finish p h = ground (
    arith,
    h,
    finish_keeps (record o.collaborators { session_revocation_hook = none }) target r p h,
  )

same_status_eq : (a b : TenantStatus) → same_status a b ≡ true → a ≡ b
same_status_eq TenantStatus.provisioning b h = ground (arith, h)
same_status_eq TenantStatus.active b h = ground (arith, h)
same_status_eq TenantStatus.suspended b h = ground (arith, h)
same_status_eq TenantStatus.deleting b h = ground (arith, h)
same_status_eq TenantStatus.archived b h = ground (arith, h)
same_status_eq TenantStatus.deleted b h = ground (arith, h)

finish_done :
    {W : Type 0} (c : Collaborators W) (target : TenantStatus) (r : Request) (p : Place W)
    → (finish_delete_tenant c target r p).0 ≡ ok tt
    → (finish_delete_tenant c target r p).1.tenant.status ≡ target
unfolding finish_delete_tenant
finish_done c TenantStatus.archived r p h = transition_done c TenantStatus.archived _ _ _ r p h
finish_done c TenantStatus.deleted r p h = transition_done c TenantStatus.deleted _ _ _ r p h
finish_done c TenantStatus.deleting r p h = absurd (ground (arith, h))
finish_done c TenantStatus.provisioning r p h = absurd (ground (arith, h))
finish_done c TenantStatus.active r p h = absurd (ground (arith, h))
finish_done c TenantStatus.suspended r p h = absurd (ground (arith, h))

module _ {W : Type 0} (o : TenantDeletionOrchestrator W) (target : TenantStatus) (r : Request)
    (p : Place W) (payload : StepPayload) where
  -- Once a tenant is marked, it is on its way out.
  pub mark_leaves :
      (execute_step o target r DeletionStep.mark_deleting p).0 ≡ ok payload
      → is_leaving (execute_step o target r DeletionStep.mark_deleting p).1.tenant.status ≡ true
  unfolding execute_step begin_delete_tenant
  mark_leaves h = elim (Bool-cases (same_status p.tenant.status TenantStatus.deleting)) [
    | inl same ↦ ground (arith, same, same_status_eq p.tenant.status TenantStatus.deleting same)
    | inr other ↦ ground (
      arith,
      other,
      h,
      transition_done o.collaborators TenantStatus.deleting LifecycleEvent.tenant_deleting true
          "delete" r p,
    )
  ]

  -- A deletion that comes to its end leaves the tenant with the target.
  pub finish_reaches :
      (execute_step o target r DeletionStep.finish p).0 ≡ ok payload
      → (execute_step o target r DeletionStep.finish p).1.tenant.status ≡ target
  unfolding execute_step
  finish_reaches h = elim (Bool-cases (same_status p.tenant.status target)) [
    | inl same ↦ ground (arith, same, same_status_eq p.tenant.status target same)
    | inr other ↦ ground (
      arith,
      other,
      h,
      finish_done (record o.collaborators { session_revocation_hook = none }) target r p,
    )
  ]
