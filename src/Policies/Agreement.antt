-- ===== src/Policies/Agreement.antt =====
-- policies/: how the rules that allow and those that deny agree.
use centralized_identity.Common.{
  codes, Str, ◌==◌, ne-==-false, Bool, true, false, ◌&&◌, Option, some, List, [], ◌++◌, ◌≡◌, ◌≢◌,
  ◌⊎◌, refl, arith, inl, inr, Bool-cases,
}
use centralized_identity.Common.Json.{Value, text}
use centralized_identity.Policies.{Rego, ref, is_text, is_text_iff, is_other, is_true, message}
use centralized_identity.Policies.Pci
use centralized_identity.Policies.Soc2
use centralized_identity.Policies.Authz
use centralized_identity.Policies.PaymentService

-- What a caller has that the rules of package pci allow.
record IsPciCaller (input : Option Value) : Type 0 where
  level : ref input (codes "trust_level") ≡ some (text (codes "high"))
  scoped : is_true (ref input (codes "pci_scope")) ≡ true
  method :
      (ref input (codes "auth_method") ≡ some (text (codes "oidc")))
      ⊎ (ref input (codes "auth_method") ≡ some (text (codes "mtls")))

valid_auth_method_sound :
    (input : Option Value)
    → Pci.valid_auth_method input ≡ true
    → (ref input (codes "auth_method") ≡ some (text (codes "oidc")))
      ⊎ (ref input (codes "auth_method") ≡ some (text (codes "mtls")))
unfolding Pci.valid_auth_method
valid_auth_method_sound input h =
    let method = ref input (codes "auth_method") in
    elim (Bool-cases (is_text method (codes "oidc"))) [
      | inl oidc ↦ inl ((is_text_iff method _).0 oidc)
      | inr other ↦ inr ((is_text_iff method _).0 (rw other at h))
    ]

pci_allow-IsPciCaller : (input : Option Value) → Pci.allow input ≡ true → IsPciCaller input
unfolding Pci.allow
pci_allow-IsPciCaller input h = record {
  level = (is_text_iff _ _).0 (ground arith);
  scoped = ground arith;
  method = valid_auth_method_sound input (ground arith);
}

payment_allow-pci :
    (input : Option Value) → PaymentService.allow input ≡ true → Pci.allow input ≡ true
unfolding PaymentService.allow
payment_allow-pci input h = ground arith

not_low : (test : Bool) → (test && is_text (some (text (codes "high"))) (codes "low")) ≡ false
unfolding is_text ◌==◌
not_low true = refl
not_low false = refl

-- What the four packages deny for a caller.
abbrev pub denied : Rego → Option Value → List Str
denied b input =
    PaymentService.deny input ++ (Pci.deny b input ++ (Authz.deny input ++ Soc2.deny input))

-- An access that the payment service allows, by a caller with a subject that is not empty,
-- violates no rule: the service's own rules, and those of the baselines for PCI, for roles and for
-- SOC2, deny nothing.
pub payment_allow-undenied :
    (b : Rego) (input : Option Value) (subject : Str)
    → PaymentService.allow input ≡ true
    → ref input (codes "subject") ≡ some (text subject)
    → subject ≢ []
    → denied b input ≡ []
unfolding PaymentService.deny Pci.deny Authz.deny Soc2.deny Soc2.authenticated is_other is_text
    message ◌==◌
payment_allow-undenied b input subject h known given =
    let c = pci_allow-IsPciCaller input (payment_allow-pci input h) in
    let names = ne-==-false subject [] given in
    elim c.method [
      | inl m ↦ rw (c.level, c.scoped, m, known, names, not_low _, not_low _) refl
      | inr m ↦ rw (c.level, c.scoped, m, known, names, not_low _, not_low _) refl
    ]
