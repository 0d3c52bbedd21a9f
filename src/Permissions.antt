-- ===== src/Permissions.antt =====
-- src/core/permissions/decisions.py: the decision that an authorized change comes with.
use Prim.Native.String.{◌++◌ as ◌<>◌}
use fastapi_foundation.Base.{
  String, Bool, ◌||◌, ◌&&◌, not, Option, none, some, List, [], ◌∷◌, if◌then◌else◌, ◌==◌, app_error,
  permission_denied, internal_error, Result, ok, err, contains, ℕ,
}

-- `PLATFORM_TENANT_ID`
abbrev pub platform_tenant_id : String
platform_tenant_id = "__platform__"

pub record AuthorizationDecision : Type 0 where
  pub allowed : Bool
  pub tenant_id : String
  pub user_id : String
  pub resource : String
  pub action : String
  pub reason : String
  pub policy_version : Option ℕ

-- `_raise_authorization_decision_denied`
abbrev denied : String → Result (Unit {0})
denied message = err (app_error permission_denied message 403)

-- The checks of a decision that is there, one after another.
abbrev check_decision :
    AuthorizationDecision
    → String
    → String
    → String
    → List String
    → String
    → Bool
    → Result (Unit {0})
check_decision d tenant actor resource actions operation allow_platform =
    if not d.allowed
    then denied (operation <> " requires an allowed authorization decision")
    else if not (d.user_id == actor)
    then denied (operation <> " actor must match authorization decision user")
    else if not ((tenant == d.tenant_id) || (allow_platform && (platform_tenant_id == d.tenant_id)))
    then denied (operation <> " decision tenant does not match target tenant")
    else if not (d.resource == resource)
    then denied (operation <> (" requires " <> (resource <> " permission")))
    else if not (contains actions d.action)
    then denied (operation <> " decision action is not sufficient")
    else ok tt

unfoldable pub assert_authorization_decision :
    Option AuthorizationDecision
    → String
    → String
    → String
    → List String
    → String
    → Bool
    → Result (Unit {0})
assert_authorization_decision decision tenant actor resource [] operation allow_platform =
    err (app_error internal_error "authorization decision actions cannot be empty" 500)
assert_authorization_decision none tenant actor resource (a ∷ actions) operation allow_platform =
    denied (operation <> " requires an authorization decision")
assert_authorization_decision (some d) tenant actor resource (a ∷ actions) operation
      allow_platform =
    check_decision d tenant actor resource (a ∷ actions) operation allow_platform

unfoldable pub assert_platform_decision : AuthorizationDecision → Result (Unit {0})
assert_platform_decision d =
    if not d.allowed
    then denied "Cross-tenant access requires an allowed platform decision"
    else if not (d.tenant_id == platform_tenant_id)
    then denied "Cross-tenant access requires a platform-scoped decision"
    else ok tt
