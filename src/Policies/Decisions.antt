-- ===== src/Policies/Decisions.antt =====
-- sdk/go: what CheckPolicy gives with the rules of policies/ in the engine.
use centralized_identity.Common.{Str, Bool, false, Option, some, [], ok, ◌≡◌, refl, arith}
use centralized_identity.Common.Json.{Value}
use centralized_identity.Sdk.{Identity}
use centralized_identity.Sdk.Client.{Config, Client, Services, check_policy}
use centralized_identity.Policies.{Rego, ref}
use centralized_identity.Policies.Pci
use centralized_identity.Policies.OrderService
use centralized_identity.Policies.PaymentService
use centralized_identity.Policies.Checked.{
  input_document, Engaged, order_path, payment_path, answer-order, answer-payment, allow_of-order,
  allow_of-payment, allow_of-root, check_policy-answered,
}

-- The client sends no pci_scope.
pub pci_allow-input :
    (nil_slice : Bool) (config : Config) (i : Identity) (resource action : Str)
    → Pci.allow (some (input_document nil_slice config i resource action)) ≡ false
unfolding Pci.allow ref
pci_allow-input nil_slice config i resource action = ground arith

payment_allow-input :
    (nil_slice : Bool) (config : Config) (i : Identity) (resource action : Str)
    → PaymentService.allow (some (input_document nil_slice config i resource action)) ≡ false
unfolding PaymentService.allow
payment_allow-input nil_slice config i resource action =
    rw (pci_allow-input nil_slice config i resource action) refl

-- With the rules of the payment service at its endpoint, a client is never allowed anything:
-- whoever calls, for whatever resource and action, the answer is "no" without an error.
pub check_policy-payment :
    (s : Services) (client : Client) (b : Rego) (permissions : Option Value) (i : Identity)
    (resource action : Str)
    → Engaged s client.config.policy_endpoint b permissions payment_path
    → check_policy s client i resource action ≡ ok false
check_policy-payment s client b permissions i resource action e =
    let input = input_document e.nil_slice client.config i resource action in
    check_policy-answered s client b permissions payment_path e i resource action false (
      rw (← payment_allow-input e.nil_slice client.config i resource action)
        (allow_of-payment s _ input (rw (← answer-payment b permissions input) (e.client_reads _))))

-- A client whose endpoint has no path behind /v1/data, as the default one, is never allowed
-- anything either, whatever permissions are loaded: it reads the document of all packages, which
-- has no key "allow".
pub check_policy-root :
    (s : Services) (client : Client) (b : Rego) (permissions : Option Value) (i : Identity)
    (resource action : Str)
    → Engaged s client.config.policy_endpoint b permissions []
    → check_policy s client i resource action ≡ ok false
check_policy-root s client b permissions i resource action e =
    let input = input_document e.nil_slice client.config i resource action in
    check_policy-answered s client b permissions [] e i resource action false
      (allow_of-root s _ b permissions input (e.client_reads _))

pub check_policy-order :
    (s : Services) (client : Client) (b : Rego) (permissions : Option Value) (i : Identity)
    (resource action : Str) (e : Engaged s client.config.policy_endpoint b permissions order_path)
    → check_policy s client i resource action
      ≡ ok (
          OrderService.allow b permissions
            (some (input_document e.nil_slice client.config i resource action)))
check_policy-order s client b permissions i resource action e =
    let input = input_document e.nil_slice client.config i resource action in
    check_policy-answered s client b permissions order_path e i resource action _ (
      allow_of-order s _ b permissions input
        (rw (← answer-order b permissions input) (e.client_reads _)))
