-- ===== src/Server/Wiring/Detection/Determined.antt =====
-- For which tokens the order in which `Detect` asks the service's adapters does not matter.
use mathlib.Core.List.{Perm}
use mathlib.Core.List.Perm
use centralized_identity.Common.{
  Str, All, ◌==◌, ◌≡◌, ◌≢◌, true, false, ◌↔◌, ◌⊎◌, ◌≤◌, length, codes, contains, Option, none,
  Option-cases, Bool-cases, some, List, [], ◌∷◌, inl, inr, arith, sym, ap, ◌∙◌, refl,
}
use mathlib.Core.Path.{subst}
use centralized_identity.Common.Base64.{decode_std}
use centralized_identity.Adapter.{Adapter, detect_adapter, token_type_opaque}
use centralized_identity.Adapter.Lookup.{adapters_of, detect_adapter-none}
use centralized_identity.Adapter.JwtAdapter
use centralized_identity.Adapter.OpaqueAdapter
use centralized_identity.Adapter.OpaqueAdapter.Characters.{IsTokenChar, detect_iff}
use centralized_identity.Adapter.SamlAdapter
use centralized_identity.Server.Wiring.{
  Platform, server_registry, server_jwt, server_opaque, server_saml,
}
use centralized_identity.Server.Wiring.Scope.{registered, Mem-registered}
use centralized_identity.Server.Wiring.Detection.{
  server_detect-jwt, server_detect-opaque, server_detect-saml,
}

found_same : {a b : Adapter} → some a ≡ some b → a ≡ b
found_same h = cc h

-- The decoded text has one of the marks of an assertion.
abbrev pub IsMarked : Str → Type 0
IsMarked s =
    (contains s (codes "<saml") ≡ true)
    ⊎ (contains s (codes "<Assertion") ≡ true)
    ⊎ (contains s (codes "saml2:") ≡ true)

marked : (s : Str) → SamlAdapter.detect_decoded (some s) ≡ true → IsMarked s
unfolding SamlAdapter.detect_decoded
marked s h = ground arith

marks : (s : Str) → IsMarked s → SamlAdapter.detect_decoded (some s) ≡ true
unfolding SamlAdapter.detect_decoded
marks s h = ground arith

saml-detect_iff :
    (token : Str)
    → (SamlAdapter.detect token ≡ true) ↔ ((s : Str) × (decode_std token ≡ some s) × IsMarked s)
unfolding SamlAdapter.detect SamlAdapter.detect_decoded
saml-detect_iff token = (
  λ h. elim (Option-cases (decode_std token)) [
    | inl failed ↦ cc (rw failed at h)
    | inr (s, decoded) ↦ (s, decoded, marked s (rw decoded at h))
  ],
  λ (s, decoded, m). rw decoded (marks s m),
)

-- A token that looks like one of a session and like an assertion: 16 to 256 letters, figures,
-- dashes and underscores which are the base64 of a text with one of the marks.
pub record LooksBoth (token : Str) : Type 0 where
  pub low : 16 ≤ length token
  pub high : length token ≤ 256
  pub chars : All IsTokenChar token
  pub text : Str
  pub decoded : decode_std token ≡ some text
  pub mark : IsMarked text

pub LooksBoth-iff :
    (token : Str)
    → LooksBoth token ↔ ((OpaqueAdapter.detect token ≡ true) × (SamlAdapter.detect token ≡ true))
LooksBoth-iff token = (
  λ h. (
    (detect_iff token).1 (h.low, h.high, h.chars),
    (saml-detect_iff token).1 (h.text, h.decoded, h.mark),
  ),
  λ (o, s).
      let (low, high, chars) = (detect_iff token).0 o in
      let (text, decoded, mark) = (saml-detect_iff token).0 s in
      record { low = low; high = high; chars = chars; text = text; decoded = decoded; mark = mark },
)

apart : true ≡ false → ⊥
apart h = cc

-- Two orders of the adapters, asked about a token that both accept.
opaque_first :
    (p : Platform) (token : Str)
    → OpaqueAdapter.detect token ≡ true
    → detect_adapter (server_opaque p ∷ server_jwt p ∷ server_saml p ∷ []) token
      ≡ some (server_opaque p)
unfolding detect_adapter OpaqueAdapter.opaque_adapter
opaque_first p token o = rw o refl

saml_first :
    (p : Platform) (token : Str)
    → SamlAdapter.detect token ≡ true
    → detect_adapter (server_saml p ∷ server_jwt p ∷ server_opaque p ∷ []) token
      ≡ some (server_saml p)
unfolding detect_adapter SamlAdapter.saml_adapter
saml_first p token s = rw s refl

opaque-ne-saml : (p : Platform) → server_opaque p ≢ server_saml p
unfolding OpaqueAdapter.opaque_adapter SamlAdapter.saml_adapter ◌==◌
opaque-ne-saml p e = apart (ap (λ (a : Adapter). a.token_type == token_type_opaque) e)

-- The adapters in two other orders.
opaque_first-Perm :
    (p : Platform)
    → Perm (server_opaque p ∷ server_jwt p ∷ server_saml p ∷ []) (adapters_of (server_registry p))
opaque_first-Perm p = subst (Perm _) (sym (registered p)) (Perm.swap _ _ _)

saml_first-Perm :
    (p : Platform)
    → Perm (server_saml p ∷ server_jwt p ∷ server_opaque p ∷ []) (adapters_of (server_registry p))
saml_first-Perm p =
    subst (Perm _) (sym (registered p))
      (Perm.trans (Perm.swap _ _ _) (Perm.cons _ (Perm.swap _ _ _)))

-- An adapter that every order leads to, or none.
abbrev Determined : Platform → Str → Type 0
Determined p token =
    (a : Option Adapter) × ((order : List Adapter)
      → Perm order (adapters_of (server_registry p))
      → detect_adapter order token ≡ a)

determined : (p : Platform) (token : Str) → ¬ (LooksBoth token) → Determined p token
unfolding JwtAdapter.jwt_adapter OpaqueAdapter.opaque_adapter SamlAdapter.saml_adapter
determined p token one = elim (Bool-cases ((server_jwt p).detect token)) [
  | inl jwt ↦ (some (server_jwt p), λ order perm. server_detect-jwt p token order perm jwt)
  | inr no_jwt ↦ elim (Bool-cases (OpaqueAdapter.detect token)) [
    | inl opaque ↦ elim (Bool-cases (SamlAdapter.detect token)) [
      | inl saml ↦ absurd (one ((LooksBoth-iff token).1 (opaque, saml)))
      | inr no_saml ↦ (
        some (server_opaque p),
        λ order perm. server_detect-opaque p token order perm opaque no_saml,
      )
    ]
    | inr no_opaque ↦ elim (Bool-cases (SamlAdapter.detect token)) [
      | inl saml ↦
          (some (server_saml p), λ order perm. server_detect-saml p token order perm saml no_opaque)
      | inr no_saml ↦ (
        none,
        λ order perm.
            detect_adapter-none (server_registry p) token order perm (
              Mem-registered (λ a. a.detect token ≡ false) (λ a. hlevel) p no_jwt no_opaque
                no_saml),
      )
    ]
  ]
]

-- `Detect` picks the same adapter for a token, or none, in whatever order the service's adapters are
-- asked, exactly if the token does not look like one of a session and like an assertion at once:
-- 16 to 256 letters, figures, dashes and underscores, which are the base64 of a text that holds
-- "<saml", "<Assertion" or "saml2:".
pub server_detect-determined_iff :
    (p : Platform) (token : Str)
    → ((first second : List Adapter)
        → Perm first (adapters_of (server_registry p))
        → Perm second (adapters_of (server_registry p))
        → detect_adapter first token ≡ detect_adapter second token)
      ↔ ¬ (LooksBoth token)
server_detect-determined_iff p token = (
  λ same both.
      let (o, s) = (LooksBoth-iff token).0 both in
      opaque-ne-saml p (
        found_same (
          sym (opaque_first p token o)
          ∙ same _ _ (opaque_first-Perm p) (saml_first-Perm p)
          ∙ saml_first p token s)),
  λ one first second of_first of_second.
      let (a, found) = determined p token one in
      found first of_first ∙ sym (found second of_second),
)
