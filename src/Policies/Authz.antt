-- ===== src/Policies/Authz.antt =====
-- policies/shared/authz-baseline.rego: package identity.authz. The permissions of data.permissions
-- are loaded from outside.
pub mod Grants
use centralized_identity.Common.{codes, any, Bool, false, ◌&&◌, ◌||◌, Option, none, some, List, Str}
use centralized_identity.Common.Json.{Value, text}
use centralized_identity.Policies.{Rego, ref, is_text, is_other, items, message}

-- data.permissions[role]
permission : Option Value → Value → Option Value
unfolding ref
permission permissions (text role) = ref permissions role
permission permissions _ = none

-- a == b, where either may be undefined
same : Rego → Option Value → Option Value → Bool
same b (some v) (some w) = b.equal v w
same b _ _ = false

grants : Rego → Option Value → Option Value → Value → Bool
unfolding same is_text ref
grants b service action grant =
    same b (ref (some grant) (codes "service")) service
    && (same b (ref (some grant) (codes "action")) action
        || is_text (ref (some grant) (codes "action")) (codes "*"))

-- A call of the function needs both arguments.
pub role_permits : Rego → Option Value → Option Value → Option Value → Value → Bool
unfolding grants permission items
role_permits b permissions (some service) (some action) role =
    any (grants b (some service) (some action))
      (items (ref (permission permissions role) (codes "grants")))
role_permits b permissions _ _ role = false

pub is_service_itself : Rego → Option Value → Option Value → Bool
unfolding is_text
is_service_itself b subject none = false
is_service_itself b subject (some name) = is_text subject (b.sprintf (codes "service:%s") name)

unfoldable pub allow : Rego → Option Value → Option Value → Bool
unfolding role_permits is_service_itself
allow b permissions input =
    any (role_permits b permissions (ref input (codes "service_name")) (ref input (codes "action")))
      (items (ref input (codes "roles")))
    || is_service_itself b (ref input (codes "subject")) (ref input (codes "service_name"))

unfoldable pub deny : Option Value → List Str
unfolding is_text is_other ref message
deny input =
    message
      (is_text (ref input (codes "trust_level")) (codes "low")
        && is_other (ref input (codes "action")) (codes "read"))
      (codes "low trust tokens restricted to read-only operations")
