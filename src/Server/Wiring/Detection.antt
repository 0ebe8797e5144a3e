-- ===== src/Server/Wiring/Detection.antt =====
-- Which of the service's adapters `Detect` picks for a token without a type.
pub mod Determined
use mathlib.Core.List.{Mem, mem-cons, not-mem-nil, mem-cons_self, mem-cons_of_mem, Perm}
use mathlib.Core.Logic.Or
use mathlib.Core.List.Perm
use native.Mathlib.Nat.{ℕ_set}
use centralized_identity.Common.{
  Str, Lacks, All, split-Lacks, ◌==◌, ◌≡◌, ◌≢◌, true, false, ◌↔◌, ◌⊎◌, ℕ, ◌≤◌, length, codes,
  contains, Option, none, Option-cases, Bool-cases, some, List, [], ◌∷◌, inl, inr, arith, sym, ap,
  ◌∙◌, refl,
}
use mathlib.Core.Path.{subst}
use centralized_identity.Common.Base64.{decode_std}
use centralized_identity.Common.Base64.Alphabet.{decode_std-Lacks}
use centralized_identity.Adapter.{Adapter, detect_adapter, token_type_opaque}
use centralized_identity.Adapter.Lookup.{
  adapters_of, IsOnlyDetector, detect_adapter-only, detect_adapter-none,
}
use centralized_identity.Adapter.JwtAdapter
use centralized_identity.Adapter.OpaqueAdapter
use centralized_identity.Adapter.OpaqueAdapter.Characters.{IsTokenChar, detect_iff}
use centralized_identity.Adapter.SamlAdapter
use centralized_identity.Server.Wiring.{
  Platform, server_registry, server_jwt, server_opaque, server_saml,
}
use centralized_identity.Server.Wiring.Scope.{registered, Mem-registered}

IsTokenChar-Lacks : (s : Str) → All IsTokenChar s → Lacks b'.' s
IsTokenChar-Lacks [] h = tt
IsTokenChar-Lacks (c ∷ s) (good, h) = (ground arith, IsTokenChar-Lacks s h)

jwt-detect-Lacks :
    (s : JwtAdapter.Services) (token : Str) → Lacks b'.' token → JwtAdapter.detect s token ≡ false
unfolding JwtAdapter.detect
jwt-detect-Lacks s token h = rw (split-Lacks token b'.' h)

opaque-detect-Lacks : (token : Str) → OpaqueAdapter.detect token ≡ true → Lacks b'.' token
opaque-detect-Lacks token h = IsTokenChar-Lacks token ((detect_iff token).0 h).2

saml-detect-Lacks : (token : Str) → SamlAdapter.detect token ≡ true → Lacks b'.' token
unfolding SamlAdapter.detect
saml-detect-Lacks token h = elim (Option-cases (decode_std token)) [
  | inl failed ↦ cc (rw failed at h)
  | inr (out, decoded) ↦ decode_std-Lacks token decoded
]

-- A token that the JWT adapter takes for its own is refused by the other two.
jwt-detect-alone :
    (p : Platform) (token : Str)
    → (server_jwt p).detect token ≡ true
    → ((server_opaque p).detect token ≡ false) × ((server_saml p).detect token ≡ false)
unfolding JwtAdapter.jwt_adapter OpaqueAdapter.opaque_adapter SamlAdapter.saml_adapter
jwt-detect-alone p token d = (
  elim (Bool-cases (OpaqueAdapter.detect token)) [
    | inr refuses ↦ refuses
    | inl takes ↦ cc (jwt-detect-Lacks p.jwt token (opaque-detect-Lacks token takes), d)
  ],
  elim (Bool-cases (SamlAdapter.detect token)) [
    | inr refuses ↦ refuses
    | inl takes ↦ cc (jwt-detect-Lacks p.jwt token (saml-detect-Lacks token takes), d)
  ],
)

taken :
    (token : Str) (b : Adapter) {x : Adapter}
    → b ≡ x
    → b.detect token ≡ true
    → x.detect token ≡ true
taken token b e takes = subst (λ (x : Adapter). x.detect token ≡ true) e takes

Adapter-set : IsSet Adapter
Adapter-set = hlevel ℕ_set

-- An adapter is the only one that takes a token if each of the three that does is this one.
only_of :
    (p : Platform) (token : Str) (a : Adapter)
    → ((server_jwt p).detect token ≡ true → server_jwt p ≡ a)
    → ((server_opaque p).detect token ≡ true → server_opaque p ≡ a)
    → ((server_saml p).detect token ≡ true → server_saml p ≡ a)
    → IsOnlyDetector token a (server_jwt p ∷ server_opaque p ∷ server_saml p ∷ [])
only_of p token a j o s b m takes =
    Or.elim (Adapter-set b a) (mem-cons.0 m) (λ e. e ∙ j (taken token b e takes))
      λ m'.
        Or.elim (Adapter-set b a) (mem-cons.0 m') (λ e. e ∙ o (taken token b e takes))
          λ m''.
            Or.elim (Adapter-set b a) (mem-cons.0 m'') (λ e. e ∙ s (taken token b e takes))
              λ m3. absurd (not-mem-nil m3)

only_jwt :
    (p : Platform) (token : Str)
    → (server_jwt p).detect token ≡ true
    → IsOnlyDetector token (server_jwt p) (server_jwt p ∷ server_opaque p ∷ server_saml p ∷ [])
only_jwt p token d =
    let (no_opaque, no_saml) = jwt-detect-alone p token d in
    only_of p token (server_jwt p) (λ takes. refl) (λ takes. cc (no_opaque, takes))
      (λ takes. cc (no_saml, takes))

only_saml :
    (p : Platform) (token : Str)
    → (server_saml p).detect token ≡ true
    → OpaqueAdapter.detect token ≡ false
    → IsOnlyDetector token (server_saml p) (server_jwt p ∷ server_opaque p ∷ server_saml p ∷ [])
unfolding OpaqueAdapter.opaque_adapter
only_saml p token d no_opaque =
    only_of p token (server_saml p) (λ takes. cc ((jwt-detect-alone p token takes).1, d))
      (λ takes. cc (no_opaque, takes)) (λ takes. refl)

only_opaque :
    (p : Platform) (token : Str)
    → (server_opaque p).detect token ≡ true
    → SamlAdapter.detect token ≡ false
    → IsOnlyDetector token (server_opaque p) (server_jwt p ∷ server_opaque p ∷ server_saml p ∷ [])
unfolding SamlAdapter.saml_adapter
only_opaque p token d no_saml =
    only_of p token (server_opaque p) (λ takes. cc ((jwt-detect-alone p token takes).0, d))
      (λ takes. refl) (λ takes. cc (no_saml, takes))

-- A token without a type that the JWT adapter takes for its own is given to the JWT adapter, in
-- whatever order the adapters are asked.
pub server_detect-jwt :
    (p : Platform) (token : Str) (order : List Adapter)
    → Perm order (adapters_of (server_registry p))
    → (server_jwt p).detect token ≡ true
    → detect_adapter order token ≡ some (server_jwt p)
server_detect-jwt p token order perm d =
    detect_adapter-only (server_registry p) token (server_jwt p) order perm
      (subst (λ l. Mem (server_jwt p) l) (sym (registered p)) mem-cons_self) d
      (subst (λ l. IsOnlyDetector token (server_jwt p) l) (sym (registered p)) (only_jwt p token d))

pub server_detect-saml :
    (p : Platform) (token : Str) (order : List Adapter)
    → Perm order (adapters_of (server_registry p))
    → (server_saml p).detect token ≡ true
    → OpaqueAdapter.detect token ≡ false
    → detect_adapter order token ≡ some (server_saml p)
server_detect-saml p token order perm d no_opaque =
    detect_adapter-only (server_registry p) token (server_saml p) order perm
      (subst (λ l. Mem (server_saml p) l) (sym (registered p))
        (mem-cons_of_mem _ (mem-cons_of_mem _ mem-cons_self)))
      d
      (subst (λ l. IsOnlyDetector token (server_saml p) l) (sym (registered p))
        (only_saml p token d no_opaque))

pub server_detect-opaque :
    (p : Platform) (token : Str) (order : List Adapter)
    → Perm order (adapters_of (server_registry p))
    → (server_opaque p).detect token ≡ true
    → SamlAdapter.detect token ≡ false
    → detect_adapter order token ≡ some (server_opaque p)
server_detect-opaque p token order perm d no_saml =
    detect_adapter-only (server_registry p) token (server_opaque p) order perm
      (subst (λ l. Mem (server_opaque p) l) (sym (registered p)) (mem-cons_of_mem _ mem-cons_self))
      d
      (subst (λ l. IsOnlyDetector token (server_opaque p) l) (sym (registered p))
        (only_opaque p token d no_saml))
