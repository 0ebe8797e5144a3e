-- ===== src/Policies/PaymentService.antt =====
-- policies/examples/payment-service/authz.rego: package identity.authz.payment_service.
use centralized_identity.Common.{codes, any, has_prefix, Bool, false, ◌&&◌, Option, List, Str, ◌++◌}
use centralized_identity.Common.Json.{Value, text}
use centralized_identity.Policies.{ref, is_text, is_other, items, message}
use centralized_identity.Policies.Pci

-- startswith(role, "payment."), which a role that is no text does not
is_payment_role : Value → Bool
unfolding has_prefix
is_payment_role (text role) = has_prefix role (codes "payment.")
is_payment_role _ = false

unfoldable pub has_payment_role : Option Value → Bool
unfolding is_payment_role items ref
has_payment_role input = any is_payment_role (items (ref input (codes "roles")))

unfoldable pub allow : Option Value → Bool
unfolding has_payment_role
allow input = Pci.allow input && has_payment_role input

unfoldable pub deny : Option Value → List Str
unfolding is_text is_other ref message
deny input =
    message (is_other (ref input (codes "trust_level")) (codes "high"))
      (codes "payment service requires high trust authentication")
    ++ message (is_text (ref input (codes "auth_method")) (codes "legacy"))
        (codes "legacy auth methods not permitted for payment service")
