-- ===== src/Idempotency/Records.antt =====
-- src/core/idempotency/models.py: the table `idempotency_records`, whose rows are unique in their
-- scope: tenant, user, route and key. Row ids and time stamps are left out.
use fastapi_foundation.Base.{
  ℕ, String, ◌≡◌, refl, ◌↔◌, Bool, true, ◌&&◌, Option, none, some, List, [], ◌∷◌, arith,
  if◌then◌else◌, ◌==◌, eq_iff,
}

pub record Scope : Type 0 where
  pub tenant_id : String
  pub user_id : String
  pub route : String
  pub idempotency_key : String

unfoldable pub scope_eq : Scope → Scope → Bool
scope_eq a b =
    a.tenant_id == b.tenant_id
    && a.user_id == b.user_id
    && a.route == b.route
    && a.idempotency_key == b.idempotency_key

-- `IdempotencyStatus`
pub data Status : Type 0 where
  processing succeeded failed expired : Status

pub record IdempotencyRecord : Type 0 where
  pub scope : Scope
  pub request_hash : String
  pub status : Status
  pub response_code : Option String
  pub response_body : Option String
  pub task_id : Option String
  pub outbox_event_id : Option String
  pub locked_until : Option ℕ
  pub expires_at : ℕ

abbrev pub Table : Type 0
Table = List IdempotencyRecord

-- `select … where` the scope, `.first()`
unfoldable pub find : Scope → Table → Option IdempotencyRecord
find s [] = none
find s (r ∷ t) = if scope_eq r.scope s then some r else find s t

-- A row is written: over the row of its scope, or as a new one.
unfoldable pub write : IdempotencyRecord → Table → Table
write r [] = r ∷ []
write r (x ∷ t) = if scope_eq x.scope r.scope then r ∷ t else x ∷ write r t

pub scope_eq_iff : (a b : Scope) → (scope_eq a b ≡ true) ↔ (a ≡ b)
unfolding scope_eq
scope_eq_iff a b = ground (
  arith,
  eq_iff a.tenant_id b.tenant_id,
  eq_iff a.user_id b.user_id,
  eq_iff a.route b.route,
  eq_iff a.idempotency_key b.idempotency_key,
)

pub scope_eq_refl : (a : Scope) → scope_eq a a ≡ true
scope_eq_refl a = (scope_eq_iff a a).1 refl

pub find-write :
    (s : Scope) (r : IdempotencyRecord) (t : Table)
    → find s (write r t) ≡ (if scope_eq r.scope s then some r else find s t)
unfolding find write
find-write s r [] = refl
find-write s r (x ∷ t) = ground (
  arith,
  find-write s r t,
  scope_eq_iff x.scope r.scope,
  scope_eq_iff x.scope s,
  scope_eq_iff r.scope s,
)

-- What is found has the scope that was asked for.
pub find_scope : (s : Scope) (t : Table) {r : IdempotencyRecord} → find s t ≡ some r → r.scope ≡ s
unfolding find
find_scope s [] h = cc
find_scope s (x ∷ t) {r} h = ground (arith, find_scope s t {r = r}, scope_eq_iff x.scope s)
