-- ===== src/Tenancy/Transitions.antt =====
-- src/core/tenancy/lifecycle.py: where a tenant can get by the transitions that are allowed.
use fastapi_foundation.Base.{◌≡◌, refl, Bool, true, false, ◌↔◌, arith, ok}
use fastapi_foundation.Tenancy.{TenantStatus, validate_tenant_transition}

-- The status at the right is reached from the one at the left by allowed transitions.
pub data Reaches : TenantStatus → TenantStatus → Type 0 where
  stay : {s : TenantStatus} → Reaches s s
  step : {s t u : TenantStatus} → validate_tenant_transition s t ≡ ok tt → Reaches t u → Reaches s u

-- A table of the same: a tenant in service may change between active and suspended, and one on
-- its way out goes only forwards.
abbrev pub reachable : TenantStatus → TenantStatus → Bool
reachable TenantStatus.provisioning _ = true
reachable TenantStatus.active TenantStatus.provisioning = false
reachable TenantStatus.active _ = true
reachable TenantStatus.suspended TenantStatus.provisioning = false
reachable TenantStatus.suspended _ = true
reachable TenantStatus.deleting TenantStatus.deleting = true
reachable TenantStatus.deleting TenantStatus.archived = true
reachable TenantStatus.deleting TenantStatus.deleted = true
reachable TenantStatus.deleting _ = false
reachable TenantStatus.archived TenantStatus.archived = true
reachable TenantStatus.archived TenantStatus.deleted = true
reachable TenantStatus.archived _ = false
reachable TenantStatus.deleted TenantStatus.deleted = true
reachable TenantStatus.deleted _ = false

reachable_refl : (s : TenantStatus) → reachable s s ≡ true
reachable_refl s = ground arith

reachable_step :
    (s t u : TenantStatus)
    → validate_tenant_transition s t ≡ ok tt
    → reachable t u ≡ true
    → reachable s u ≡ true
unfolding validate_tenant_transition
reachable_step s t u h r = ground arith

Reaches-reachable : {s t : TenantStatus} → Reaches s t → reachable s t ≡ true
Reaches-reachable {s} Reaches.stay = reachable_refl s
Reaches-reachable {s} {t} (Reaches.step {t = u} h r) = reachable_step s u t h (Reaches-reachable r)

-- A tenant on its way out, to any status that is still ahead.
reach_out :
    (s t : TenantStatus)
    → reachable TenantStatus.deleting s ≡ true
    → reachable s t ≡ true
    → Reaches s t
unfolding validate_tenant_transition
reach_out TenantStatus.deleting TenantStatus.deleting h r = Reaches.stay
reach_out TenantStatus.deleting TenantStatus.archived h r = Reaches.step refl Reaches.stay
reach_out TenantStatus.deleting TenantStatus.deleted h r = Reaches.step refl Reaches.stay
reach_out TenantStatus.archived TenantStatus.archived h r = Reaches.stay
reach_out TenantStatus.archived TenantStatus.deleted h r = Reaches.step refl Reaches.stay
reach_out TenantStatus.deleted TenantStatus.deleted h r = Reaches.stay
reach_out _ _ h r = absurd (ground arith)

-- An active tenant, to any status but the first.
reach_active :
    (t : TenantStatus) → reachable TenantStatus.active t ≡ true → Reaches TenantStatus.active t
unfolding validate_tenant_transition
reach_active TenantStatus.provisioning r = absurd (ground arith)
reach_active TenantStatus.active r = Reaches.stay
reach_active TenantStatus.suspended r = Reaches.step refl Reaches.stay
reach_active t r =
    Reaches.step {t = TenantStatus.deleting} refl
      (reach_out TenantStatus.deleting t refl (ground arith))

reachable-Reaches : (s t : TenantStatus) → reachable s t ≡ true → Reaches s t
unfolding validate_tenant_transition
reachable-Reaches TenantStatus.provisioning TenantStatus.provisioning r = Reaches.stay
reachable-Reaches TenantStatus.provisioning t r =
    Reaches.step {t = TenantStatus.active} refl (reach_active t (ground arith))
reachable-Reaches TenantStatus.active t r = reach_active t r
reachable-Reaches TenantStatus.suspended t r =
    Reaches.step {t = TenantStatus.active} refl (reach_active t (ground arith))
reachable-Reaches s t r = reach_out s t (ground arith) r

-- The transitions that are allowed lead from one status to another exactly where the table says:
-- a tenant leaves its first status for good, and none on its way out is in service again.
pub Reaches-reachable_iff : (s t : TenantStatus) → Reaches s t ↔ (reachable s t ≡ true)
Reaches-reachable_iff s t = (Reaches-reachable, reachable-Reaches s t)
