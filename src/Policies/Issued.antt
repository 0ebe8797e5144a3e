-- ===== src/Policies/Issued.antt =====
-- The tokens of cmd/server/main.go before the rules of policies/shared/pci-baseline.rego.
use mathlib.Core.List.{Perm}
use centralized_identity.Common.{Str, codes, false, Option, some, ok, ◌≡◌, refl, arith}
use centralized_identity.Common.Json.{Value, text}
use centralized_identity.Http.{HttpRequest, fresh}
use centralized_identity.Canonical.{CanonicalClaims}
use centralized_identity.Adapter.Lookup.{adapters_of}
use centralized_identity.Exchange.{TokenExchangeResponse, token}
use centralized_identity.Handler.{serve_http}
use centralized_identity.Handler.Responses.{Sends}
use centralized_identity.Server.Wiring.{Platform, Moment, server_env, token_config, server_registry}
use centralized_identity.Server.Wiring.Methods.{is_strong, server-NeverStrong}
use centralized_identity.Policies.{ref, is_text}
use centralized_identity.Policies.Pci
use centralized_identity.Policies.PaymentService

pci_allow-weak :
    (input : Option Value) (method : Str)
    → ref input (codes "auth_method") ≡ some (text method)
    → is_strong method ≡ false
    → Pci.allow input ≡ false
unfolding Pci.allow Pci.valid_auth_method is_text is_strong
pci_allow-weak input method tells weak = rw tells (ground (arith, weak))

-- No caller with a token of the service gets past the rules for PCI, and so none into the payment
-- service: whatever else the input of the rules says, and whatever trust level the issuer is
-- given, its method is that of the token, which is neither "oidc" nor "mtls". Go visits just the
-- registry's adapters, in any order.
pub server-pci_allow :
    (p : Platform) (m : Moment) (perm : Perm m.order (adapters_of (server_registry p)))
    (r : HttpRequest) (response : TokenExchangeResponse)
    → Sends (serve_http (server_env p m) r fresh) 200 (token response)
    → (c : CanonicalClaims) × (p.signer.sign
          (token_config p).signing_alg
          c
          (token_config p).signing_key
        ≡ ok response.access_token)
      × ((input : Option Value)
          → ref input (codes "auth_method") ≡ some (text c.claims.auth_method)
          → (Pci.allow input ≡ false) × (PaymentService.allow input ≡ false))
unfolding PaymentService.allow
server-pci_allow p m perm r response sent =
    let (c, signed, weak) = server-NeverStrong p m perm r response sent in
    (
      c,
      signed,
      λ input tells.
          let refused = pci_allow-weak input c.claims.auth_method tells weak in
          (refused, rw refused refl),
    )
