-- ===== src/Cache/Keys.antt =====
-- src/core/cache/keys.py: `cache_key` and the keys built by it.
pub mod Injective
use Prim.Native.String.{◌++◌ as ◌<>◌}
use fastapi_foundation.Base.{
  String, Bool, true, false, ◌||◌, List, [], ◌∷◌, if◌then◌else◌, is_blank, has_char, app_error,
  validation_error, Result, ok, err,
}

abbrev pub colon : String
colon = ":"

-- `":".join((first, *rest))`
unfoldable pub join : String → List String → String
join first [] = first
join first (next ∷ rest) = first <> (colon <> join next rest)

unfoldable pub invalid_segment : String → Bool
invalid_segment segment = is_blank segment || has_char b':' segment

unfoldable pub any_invalid : String → List String → Bool
any_invalid first [] = invalid_segment first
any_invalid first (next ∷ rest) = invalid_segment first || any_invalid next rest

unfoldable pub cache_key : String → List String → Result String
cache_key namespace parts =
    if any_invalid namespace parts
    then err (
        app_error validation_error "Cache key segments must be non-empty and must not contain ':'"
          400)
    else ok (join namespace parts)

pub tenant_settings_cache_key : String → Result String
tenant_settings_cache_key tenant_id =
    cache_key "tenant" (("tenant_id=" <> tenant_id) ∷ "settings" ∷ [])

pub tenant_lifecycle_cache_key : String → Result String
tenant_lifecycle_cache_key tenant_id =
    cache_key "tenant" (("tenant_id=" <> tenant_id) ∷ "lifecycle" ∷ [])

pub tenant_membership_cache_key : String → String → Result String
tenant_membership_cache_key tenant_id user_id =
    cache_key "tenant" (("tenant_id=" <> tenant_id) ∷ "membership" ∷ ("user_id=" <> user_id) ∷ [])

pub permission_cache_key : String → Result String
permission_cache_key tenant_id = cache_key "permission" (("tenant_id=" <> tenant_id) ∷ [])

pub permission_subject_cache_key : String → String → String → Result String
permission_subject_cache_key tenant_id subject_type subject_id = cache_key "permission" (
    ("tenant_id=" <> tenant_id)
    ∷ ("subject_type=" <> subject_type)
    ∷ ("subject_id=" <> subject_id)
    ∷ [])

pub permission_role_grant_cache_key : String → String → Result String
permission_role_grant_cache_key tenant_id grant_id =
    cache_key "permission" (("tenant_id=" <> tenant_id) ∷ ("grant_id=" <> grant_id) ∷ [])
