-- ===== src/Common/Lists.antt =====
-- Lists measured by native numbers, and a predicate on every item.
use Prim.Native.Nat.{ℕ, suc, ◌+◌}
use mathlib.Core.Path.{◌≡◌, refl}
use mathlib.Core.Logic.{◌↔◌, inl, inr}
use mathlib.Core.Bool.{Bool, true, false, ◌||◌}
use mathlib.Core.List.{List, [], ◌∷◌, ◌++◌, Memᴰ}
use mathlib.Core.List.Memᴰ
use centralized_identity.Common.Tests.{Bool-cases}
use native.Mathlib.Omega.{arith}

module _ {ℓ} {A : Type ℓ} where
  abbrev pub length : List A → ℕ
  length [] = 0
  length (x ∷ xs) = suc (length xs)

  pub length-append : (xs ys : List A) → length (xs ++ ys) ≡ length xs + length ys
  length-append [] ys = omega arith
  length-append (x ∷ xs) ys = omega (arith, length-append xs ys)

  -- The library's `any` does not unfold.
  abbrev pub any : (A → Bool) → List A → Bool
  any p [] = false
  any p (x ∷ xs) = p x || any p xs

  pub any_iff :
      (p : A → Bool) (xs : List A) → (any p xs ≡ true) ↔ ((x : A) × Memᴰ x xs × (p x ≡ true))
  any_iff p [] = (λ h. cc h, λ (x, m, _). absurd (Memᴰ.not-nil m))
  any_iff p (x ∷ xs) = (
    λ h. elim (Bool-cases (p x)) [
      | inl holds ↦ (x, Memᴰ.head refl, holds)
      | inr fails ↦ let (y, m, holds) = (any_iff p xs).0 (rw fails at h) in (y, Memᴰ.tail m, holds)
    ],
    λ (y, m, holds). elim (Memᴰ.cases_cons m) [
      | inl e ↦ rw (← e, holds) refl
      | inr n ↦ elim (Bool-cases (p x)) [
        | inl first ↦ rw first refl
        | inr fails ↦ rw fails ((any_iff p xs).1 (y, n, holds))
      ]
    ],
  )

module _ {ℓ κ} {A : Type ℓ} (P : A → Type κ) where
  -- Every item has the property.
  abbrev pub All : List A → Type κ
  All [] = Unit
  All (x ∷ xs) = P x × All xs

  pub All-append : (xs ys : List A) → All xs → All ys → All (xs ++ ys)
  All-append [] ys _ hy = hy
  All-append (x ∷ xs) ys (px, hx) hy = (px, All-append xs ys hx hy)
