-- ===== src/Policies/Pci.antt =====
-- policies/shared/pci-baseline.rego: package identity.pci.
use centralized_identity.Common.{codes, Bool, ◌&&◌, ◌||◌, Option, none, some, List, Str, [], ◌++◌}
use centralized_identity.Common.Json.{Value}
use centralized_identity.Policies.{Rego, ref, is_text, is_other, is_true, message}

unfoldable pub valid_auth_method : Option Value → Bool
unfolding is_text ref
valid_auth_method input =
    is_text (ref input (codes "auth_method")) (codes "oidc")
    || is_text (ref input (codes "auth_method")) (codes "mtls")

unfoldable pub allow : Option Value → Bool
unfolding valid_auth_method is_true
allow input =
    is_text (ref input (codes "trust_level")) (codes "high")
    && (is_true (ref input (codes "pci_scope")) && valid_auth_method input)

low_trust_message : Rego → Option Value → Str
low_trust_message b none = []
low_trust_message b (some v) = b.sprintf (codes "PCI access requires high trust, got: %s") v

-- The messages of the rules; one of an undefined level is not reached.
unfoldable pub deny : Rego → Option Value → List Str
unfolding is_true is_text is_other ref message low_trust_message
deny b input =
    message
      (is_true (ref input (codes "pci_scope"))
        && is_text (ref input (codes "auth_method")) (codes "legacy"))
      (codes "legacy auth methods cannot access PCI-scoped resources")
    ++ message
        (is_true (ref input (codes "pci_scope"))
          && is_other (ref input (codes "trust_level")) (codes "high"))
        (low_trust_message b (ref input (codes "trust_level")))
