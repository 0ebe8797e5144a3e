-- ===== src/Policies/Engine.antt =====
-- policies/, as the policy engine serves them: the documents of the packages, and the answer to
-- POST /v1/data/<path>. Functions have no document, and a rule that is undefined is left out.
use centralized_identity.Common.{
  codes, Bool, true, Option, none, some, List, Str, [], ◌∷◌, if◌then◌else◌,
}
use centralized_identity.Common.Json.{Value, boolean, object, Members, end, member}
use centralized_identity.Policies.{Rego, ref}
use centralized_identity.Policies.Pci
use centralized_identity.Policies.Soc2
use centralized_identity.Policies.Authz
use centralized_identity.Policies.OrderService
use centralized_identity.Policies.PaymentService

-- deny[msg] without `contains` is an object, with the value true at each message.
denials : List Str → Members
denials [] = end
denials (msg ∷ msgs) = member msg (boolean true) (denials msgs)

-- A rule without a default is there if it holds.
when_true : Str → Bool → Members → Members
when_true name test ms = if test then member name (boolean true) ms else ms

unfoldable pub pci_document : Rego → Option Value → Members
unfolding denials when_true
pci_document b input = member (codes "allow") (boolean (Pci.allow input)) (
    member (codes "audit_required") (boolean true) (
      member (codes "deny") (object (denials (Pci.deny b input)))
        (when_true (codes "valid_auth_method") (Pci.valid_auth_method input) end)))

unfoldable pub soc2_document : Rego → Option Value → Members
unfolding denials
soc2_document b input = member (codes "audit_required") (boolean true) (
    member (codes "authenticated") (boolean (Soc2.authenticated input)) (
      member (codes "deny") (object (denials (Soc2.deny input)))
        (member (codes "has_required_role") (boolean (Soc2.has_required_role b input)) end)))

unfoldable pub order_service_document : Rego → Option Value → Option Value → Members
unfolding denials
order_service_document b permissions input =
    member (codes "allow") (boolean (OrderService.allow b permissions input))
      (member (codes "deny") (object (denials (OrderService.deny input))) end)

unfoldable pub payment_service_document : Option Value → Members
unfolding denials when_true
payment_service_document input = member (codes "allow") (boolean (PaymentService.allow input)) (
    member (codes "deny") (object (denials (PaymentService.deny input)))
      (when_true (codes "has_payment_role") (PaymentService.has_payment_role input) end))

unfoldable pub authz_document : Rego → Option Value → Option Value → Members
unfolding denials order_service_document payment_service_document
authz_document b permissions input =
    member (codes "allow") (boolean (Authz.allow b permissions input)) (
      member (codes "deny") (object (denials (Authz.deny input))) (
        member (codes "order_service") (object (order_service_document b permissions input))
          (member (codes "payment_service") (object (payment_service_document input)) end)))

loaded : Option Value → Members
loaded none = end
loaded (some v) = member (codes "permissions") v end

-- data: the packages, beside the permissions that were loaded.
unfoldable pub root_document : Rego → Option Value → Option Value → Value
unfolding authz_document pci_document soc2_document loaded
root_document b permissions input = object (
    member (codes "identity")
      (object (
        member (codes "authz") (object (authz_document b permissions input)) (
          member (codes "pci") (object (pci_document b input))
            (member (codes "soc2") (object (soc2_document b input)) end))))
      (loaded permissions))

walk : Option Value → List Str → Option Value
unfolding ref
walk v [] = v
walk v (k ∷ ks) = walk (ref v k) ks

answer_of : Option Value → Value
answer_of none = object end
answer_of (some v) = object (member (codes "result") v end)

-- The body of the answer at a path to the body of a request.
unfoldable pub answer : Rego → Option Value → List Str → Value → Value
unfolding walk answer_of root_document
answer b permissions path body =
    answer_of (walk (some (root_document b permissions (ref (some body) (codes "input")))) path)
