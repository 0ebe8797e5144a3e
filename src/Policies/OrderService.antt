-- ===== src/Policies/OrderService.antt =====
-- policies/examples/order-service/authz.rego: package identity.authz.order_service.
pub mod Callers
use centralized_identity.Common.{codes, any, Bool, ◌&&◌, ◌||◌, not, Option, some, List, Str}
use centralized_identity.Common.Json.{Value}
use centralized_identity.Policies.{Rego, ref, is_text, is_other, items, message}
use centralized_identity.Policies.Pci
use centralized_identity.Policies.Authz

has_role : Str → Option Value → Bool
unfolding is_text items ref
has_role name input = any (λ role. is_text (some role) name) (items (ref input (codes "roles")))

unfoldable pub allow : Rego → Option Value → Option Value → Bool
unfolding has_role is_other
allow b permissions input =
    Authz.allow b permissions input
    || (is_text (ref input (codes "action")) (codes "read") && has_role (codes "order.read") input
        || is_text (ref input (codes "action")) (codes "write")
          && (is_other (ref input (codes "trust_level")) (codes "low")
              && has_role (codes "order.write") input))

unfoldable pub deny : Option Value → List Str
unfolding is_text ref message
deny input =
    message
      (is_text (ref input (codes "resource")) (codes "order.payment") && not (Pci.allow input))
      (codes "payment operations require PCI-compliant authentication")
