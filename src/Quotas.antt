-- ===== src/Quotas.antt =====
-- src/core/quotas/rules.py: the subject of a quota, its rule and the key that usage is kept under.
-- The registry of a tenant's rules is left out.
pub mod Usage
pub mod Service
pub mod Gate
pub mod Limits
pub mod Database
mod Tests
use Prim.Native.String.{◌++◌ as ◌<>◌}
use fastapi_foundation.Base.{
  String, Bool, true, false, ◌||◌, Option, none, some, List, [], ◌∷◌, if◌then◌else◌, ℤ, pos, ltb_ℤ,
  is_blank, is_missing, or_default, has_char, app_error, validation_error, Result, ok, err,
}
use fastapi_foundation.Cache.Keys.{cache_key}

-- `QuotaScope`
pub data QuotaScope : Type 0 where
  tenant user resource : QuotaScope

pub record QuotaSubject : Type 0 where
  pub tenant_id : String
  pub user_id : Option String
  pub resource_type : Option String
  pub resource_id : Option String

-- `_require` and then the text `name=value`
required_part : String → Option String → Result String
required_part name value =
    if is_missing value
    then err (app_error validation_error ("Quota subject missing " <> name) 400)
    else ok (name <> ("=" <> or_default "" value))

-- The first part that is missing raises.
all_parts : List (Result String) → Result (List String)
all_parts [] = ok []
all_parts (r ∷ rs) =
    let rest = all_parts rs in
    elim r [ ok p ↦ elim rest [ ok ps ↦ ok (p ∷ ps) | err e ↦ err e ] | err e ↦ err e ]

unfoldable pub parts_for : QuotaSubject → QuotaScope → Result (List String)
unfolding required_part all_parts
parts_for s QuotaScope.tenant = all_parts (required_part "tenant_id" (some s.tenant_id) ∷ [])
parts_for s QuotaScope.user =
    all_parts
      (required_part "tenant_id" (some s.tenant_id) ∷ required_part "user_id" s.user_id ∷ [])
parts_for s QuotaScope.resource = all_parts (
    required_part "tenant_id" (some s.tenant_id)
    ∷ required_part "resource_type" s.resource_type
    ∷ required_part "resource_id" s.resource_id
    ∷ [])

pub record QuotaRule : Type 0 where
  pub metric : String
  pub limit : ℤ
  pub scope : QuotaScope

-- `QuotaRule.__post_init__`; a scope of another name cannot be written here.
unfoldable pub post_init : QuotaRule → Result QuotaRule
post_init r =
    if is_blank r.metric || has_char b':' r.metric
    then err
        (app_error validation_error "Quota metric must be non-empty and must not contain ':'" 400)
    else if ltb_ℤ r.limit (pos 0)
    then err (app_error validation_error "Quota limit must be greater than or equal to zero" 400)
    else ok r

key_of_parts : String → Result (List String) → Result String
key_of_parts metric (ok ps) = cache_key "quota" (metric ∷ ps)
key_of_parts metric (err e) = err e

unfoldable pub key_for : QuotaRule → QuotaSubject → Result String
unfolding key_of_parts
key_for r s = key_of_parts r.metric (parts_for s r.scope)
