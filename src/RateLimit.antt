-- ===== src/RateLimit.antt =====
-- src/core/rate_limit/rules.py: rules, identities, the key that an identity's requests are counted
-- under, and the registry of the routes' rules.
pub mod Keys
pub mod Limiter
pub mod Decisions
pub mod Middleware
pub mod Window
mod Tests
use Prim.Native.String.{◌++◌ as ◌<>◌}
use fastapi_foundation.Base.{
  String, Bool, true, false, Option, none, some, List, [], ◌∷◌, if◌then◌else◌, ℤ, pos, leb_ℤ,
  is_blank, is_missing, has_char, Dict, lookup, insert, is_some, app_error, validation_error,
  Result, ok, err, Exec, pure, raise, gets, raise_if, modify, ◌>>=◌, ◌>>◌,
}
use fastapi_foundation.Cache.Keys.{cache_key}

-- `RateLimitDimension`
pub data Dimension : Type 0 where
  global tenant_id user_id ip_address route : Dimension

pub record RateLimitIdentity : Type 0 where
  pub tenant_id : Option String
  pub user_id : Option String
  pub ip_address : Option String
  pub route : Option String

abbrev pub dimension_name : Dimension → String
dimension_name Dimension.global = "global"
dimension_name Dimension.tenant_id = "tenant_id"
dimension_name Dimension.user_id = "user_id"
dimension_name Dimension.ip_address = "ip_address"
dimension_name Dimension.route = "route"

-- `getattr(self, dimension)`; for `global` the constant of `value_for`.
abbrev pub attribute : RateLimitIdentity → Dimension → Option String
attribute i Dimension.global = some "all"
attribute i Dimension.tenant_id = i.tenant_id
attribute i Dimension.user_id = i.user_id
attribute i Dimension.ip_address = i.ip_address
attribute i Dimension.route = i.route

require_value : Dimension → Option String → Result String
require_value d none =
    err (app_error validation_error ("Rate limit identity missing " <> dimension_name d) 400)
require_value d (some v) =
    if is_blank v
    then err (app_error validation_error ("Rate limit identity missing " <> dimension_name d) 400)
    else ok v

unfoldable pub value_for : RateLimitIdentity → Dimension → Result String
unfolding require_value
value_for i Dimension.global = ok "all"
value_for i Dimension.tenant_id = require_value Dimension.tenant_id i.tenant_id
value_for i Dimension.user_id = require_value Dimension.user_id i.user_id
value_for i Dimension.ip_address = require_value Dimension.ip_address i.ip_address
value_for i Dimension.route = require_value Dimension.route i.route

pub record RateLimitRule : Type 0 where
  pub name : String
  pub limit : ℤ
  pub window_seconds : ℤ
  pub dimensions : List Dimension
  pub fail_closed : Bool

abbrev is_empty : List Dimension → Bool
is_empty [] = true
is_empty (_ ∷ _) = false

-- `RateLimitRule.__post_init__`
unfoldable pub post_init : RateLimitRule → Result RateLimitRule
post_init r =
    if is_blank r.name
    then err (app_error validation_error "Rate limit rule name is required" 400)
    else if has_char b':' r.name
    then err (app_error validation_error "Rate limit rule name must not contain ':'" 400)
    else if leb_ℤ r.limit (pos 0)
    then err (app_error validation_error "Rate limit rule limit must be greater than zero" 400)
    else if leb_ℤ r.window_seconds (pos 0)
    then err (app_error validation_error "Rate limit rule window must be greater than zero" 400)
    else if is_empty r.dimensions
    then err (app_error validation_error "Rate limit rule must declare at least one dimension" 400)
    else ok r

consed : String → Result (List String) → Result (List String)
consed p (ok ps) = ok (p ∷ ps)
consed p (err e) = err e

part_of : Dimension → Result String → Result String
part_of d (ok v) = ok (dimension_name d <> ("=" <> v))
part_of d (err e) = err e

parts_then : Result String → Result (List String) → Result (List String)
unfolding consed
parts_then (ok p) rest = consed p rest
parts_then (err e) rest = err e

-- The list of `key_for`: the first dimension without a value raises.
unfoldable pub parts : List Dimension → RateLimitIdentity → Result (List String)
unfolding part_of parts_then
parts [] i = ok []
parts (d ∷ ds) i = parts_then (part_of d (value_for i d)) (parts ds i)

key_of_parts : String → Result (List String) → Result String
key_of_parts name (ok ps) = cache_key "rate" (name ∷ ps)
key_of_parts name (err e) = err e

unfoldable pub key_for : RateLimitRule → RateLimitIdentity → Result String
unfolding key_of_parts
key_for r i = key_of_parts r.name (parts r.dimensions i)

pub record RateLimitRegistry : Type 0 where
  pub default_rule : Option RateLimitRule
  pub route_rules : Dict RateLimitRule

unfoldable pub register_route : String → RateLimitRule → Exec RateLimitRegistry (Unit {0})
register_route path rule = do
  raise_if (is_blank path) (app_error validation_error "Rate limit route is required" 400)
  known ← gets (λ g. lookup path g.route_rules)
  raise_if (is_some known) (app_error validation_error ("Duplicate rate limit route: " <> path) 400)
  modify (λ g. record g { route_rules = insert path rule g.route_rules })

or_else : Option RateLimitRule → Option RateLimitRule → Option RateLimitRule
or_else none d = d
or_else (some r) d = some r

unfoldable pub find : RateLimitRegistry → String → Option RateLimitRule
unfolding or_else
find g path = or_else (lookup path g.route_rules) g.default_rule

registered : String → Option RateLimitRule → Result RateLimitRule
registered path none =
    err (app_error validation_error ("No rate limit rule registered for route: " <> path) 400)
registered path (some r) = ok r

unfoldable pub resolve : RateLimitRegistry → String → Result RateLimitRule
unfolding registered or_else
resolve g path = registered path (or_else (lookup path g.route_rules) g.default_rule)
