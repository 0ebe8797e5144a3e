-- ===== src/Adapter/Lookup.antt =====
-- The registry finds an adapter by its token type, or by asking each adapter about a token.
use mathlib.Core.Logic.Or
use mathlib.Core.List.{Mem, Mem-prop, mem-cons_self, mem-cons, not-mem-nil, Perm}
use mathlib.Core.List.Perm
use mathlib.Core.Path.{subst}
use centralized_identity.Common.{
  Str, Map, get, get-put, ◌==◌, Bool-cases, true, false, Option, none, some, List, [], ◌∷◌, map, ok,
  ◌≡◌, refl, arith, if◌then◌else◌, inl, inr,
}
use centralized_identity.Adapter.{
  Adapter, Registry, register, get_adapter, found_adapter, detect_adapter,
}

-- The adapters of a registry; the loop of `Detect` visits them in some order of them.
abbrev pub adapters_of : Registry → List Adapter
adapters_of r = map (λ e. e.1) r.adapters

-- After a registration the adapter's type leads to it, and every other type to what it led to before.
pub get_adapter-register :
    (r : Registry) (a : Adapter) (token_type : Str)
    → get_adapter (register r a) token_type
      ≡ (if a.token_type == token_type then ok a else get_adapter r token_type)
unfolding get_adapter register
get_adapter-register r a token_type = elim (Bool-cases (a.token_type == token_type)) [
  | inl same ↦ rw (get-put, same) refl
  | inr other ↦ rw (get-put, other) refl
]

-- A refusal and an acceptance of the same adapter contradict one another.
refused : (token : Str) (b : Adapter) → b.detect token ≡ false → b.detect token ≡ true → ⊥
refused token b f t = cc

module _ (token : Str) where
  -- No adapter that accepts the token is another than `a`.
  abbrev pub IsOnlyDetector : Adapter → List Adapter → Type 0
  IsOnlyDetector a candidates = (b : Adapter) → Mem b candidates → b.detect token ≡ true → b ≡ a

  detects_only :
      (a : Adapter) (order : List Adapter)
      → Mem a order
      → a.detect token ≡ true
      → IsOnlyDetector a order
      → detect_adapter order token ≡ some a
  unfolding detect_adapter
  detects_only a [] m d only = absurd (not-mem-nil m)
  detects_only a (b ∷ order) m d only = elim (Bool-cases (b.detect token)) [
    | inl yes_b ↦ rw (yes_b, only b mem-cons_self yes_b)
    | inr no_b ↦ rw no_b (
        detects_only a order
          (Or.elim Mem-prop (mem-cons.0 m) (λ e. absurd (refused token b no_b (rw e at d)))
            (λ m'. m'))
          d (λ c m' dc. only c (mem-cons.1 (Or.inr m')) dc))
  ]

  detects_none :
      (order : List Adapter)
      → ((b : Adapter) → Mem b order → b.detect token ≡ false)
      → detect_adapter order token ≡ none
  unfolding detect_adapter
  detects_none [] refuse = refl
  detects_none (b ∷ order) refuse =
      rw (refuse b mem-cons_self) (detects_none order (λ c m. refuse c (mem-cons.1 (Or.inr m))))

-- In whatever order the adapters are asked, `Detect` finds the one adapter that accepts the token, if
-- just one of the registered adapters does.
pub detect_adapter-only :
    (r : Registry) (token : Str) (a : Adapter) (order : List Adapter)
    → Perm order (adapters_of r)
    → Mem a (adapters_of r)
    → a.detect token ≡ true
    → IsOnlyDetector token a (adapters_of r)
    → detect_adapter order token ≡ some a
detect_adapter-only r token a order perm m d only =
    detects_only token a order ((Perm.mem_iff perm).1 m) d
      (λ b m' db. only b ((Perm.mem_iff perm).0 m') db)

-- In whatever order they are asked, `Detect` finds no adapter if all of them refuse the token.
pub detect_adapter-none :
    (r : Registry) (token : Str) (order : List Adapter)
    → Perm order (adapters_of r)
    → ((b : Adapter) → Mem b (adapters_of r) → b.detect token ≡ false)
    → detect_adapter order token ≡ none
detect_adapter-none r token order perm refuse =
    detects_none token order (λ b m. refuse b ((Perm.mem_iff perm).0 m))

-- An adapter that `Detect` finds accepts the token.
pub detect_adapter-accepts :
    (order : List Adapter) (token : Str) {a : Adapter}
    → detect_adapter order token ≡ some a
    → a.detect token ≡ true
unfolding detect_adapter
detect_adapter-accepts [] token h = cc
detect_adapter-accepts (b ∷ order) token {a} h = elim (Bool-cases (b.detect token)) [
  | inl yes_b ↦ ground arith
  | inr no_b ↦ detect_adapter-accepts order token (rw (no_b, detect_adapter) at h)
]

some-inj : (b a : Adapter) → some b ≡ some a → b ≡ a
some-inj b a h = cc

found_some :
    (token_type : Str) (o : Option Adapter) {a : Adapter}
    → found_adapter token_type o ≡ ok a
    → o ≡ some a
unfolding found_adapter
found_some token_type none h = cc
found_some token_type (some b) h = cc

get-Mem : (m : Map Adapter) (k : Str) {a : Adapter} → get m k ≡ some a → Mem a (map (λ e. e.1) m)
unfolding get
get-Mem [] k h = cc
get-Mem ((j, b) ∷ m) k {a} h = elim (Bool-cases (j == k)) [
  | inl same ↦
      subst (λ x. Mem x (b ∷ map (λ e. e.1) m)) (some-inj b a (rw (same, get) at h)) mem-cons_self
  | inr other ↦ mem-cons.1 (Or.inr (get-Mem m k (rw (other, get) at h)))
]

-- An adapter that is found is one of the registry.
pub get_adapter-Mem :
    (r : Registry) (token_type : Str) {a : Adapter}
    → get_adapter r token_type ≡ ok a
    → Mem a (adapters_of r)
unfolding get_adapter
get_adapter-Mem r token_type {a} h =
    get-Mem r.adapters token_type (found_some token_type (get r.adapters token_type) h)

pub detect_adapter-Mem :
    (order : List Adapter) (token : Str) {a : Adapter}
    → detect_adapter order token ≡ some a
    → Mem a order
unfolding detect_adapter
detect_adapter-Mem [] token h = cc
detect_adapter-Mem (b ∷ order) token {a} h = elim (Bool-cases (b.detect token)) [
  | inl accepted ↦
      subst (λ x. Mem x (b ∷ order)) (some-inj b a (rw (accepted, detect_adapter) at h))
        mem-cons_self
  | inr refuses ↦
      mem-cons.1 (Or.inr (detect_adapter-Mem order token (rw (refuses, detect_adapter) at h)))
]
