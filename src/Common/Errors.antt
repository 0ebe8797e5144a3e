-- ===== src/Common/Errors.antt =====
-- Go's pair of a value and an error, and the errors of the service.
use mathlib.Core.Path.{◌≡◌, refl}
use mathlib.Core.Bool.{Bool, true, false}
use mathlib.Core.Option.{Option, none, some}
use mathlib.Core.List.{◌++◌}
use mathlib.Core.Logic.{◌⊎◌, inl, inr}
use centralized_identity.Common.Text.{Str, codes}

-- An error that the language's library or a third party makes; its text is theirs.
pub data Cause : Type 0 where
  base64_input json_input xml_input : Cause
  foreign : Str → Cause

-- errors.New and fmt.Errorf: `wrapped s e` is fmt.Errorf("s: %w", e).
pub data Error : Type 0 where
  plain : Str → Error
  wrapped : Str → Error → Error
  cause : Cause → Error

-- err.Error(), given the texts of the causes.
pub error_text : (Cause → Str) → Error → Str
error_text t (plain s) = s
error_text t (wrapped s e) = s ++ (codes ": " ++ error_text t e)
error_text t (cause c) = t c

-- (value, nil) or (nil, error).
pub data Result {ℓ} (V : Type ℓ) : Type ℓ where
  err : Error → Result V
  ok : V → Result V

-- if !test { return nil, e }
abbrev pub require : Bool → Error → Result (Unit {0})
require false e = err e
require true _ = ok tt

-- A library call that failed is reported as the given error.
abbrev pub or_error {ℓ} : {V : Type ℓ} → Error → Option V → Result V
or_error e (some v) = ok v
or_error e none = err e

-- return nil, fmt.Errorf("s: %w", err)
abbrev pub wrap {ℓ} : {V : Type ℓ} → Str → Result V → Result V
wrap s (ok v) = ok v
wrap s (err e) = err (wrapped s e)

-- if err != nil { return nil, err }
infixl 5 ◌>>=◌ ◌>>◌
abbrev pub ◌>>=◌ {ℓ κ} : {V : Type ℓ} {W : Type κ} → Result V → (V → Result W) → Result W
err e >>= rest = err e
ok v >>= rest = rest v

abbrev pub ◌>>◌ {κ} : {W : Type κ} → Result (Unit {0}) → Result W → Result W
first >> rest = first >>= λ _. rest

module _ {ℓ κ} {V : Type ℓ} {W : Type κ} where
  -- A chain that succeeds has made its first step: a call, a wrapped call, or an optional value.
  pub >>=-eq-ok :
      (first : Result V) (rest : V → Result W) {w : W}
      → (first >>= rest) ≡ ok w
      → (v : V) × (first ≡ ok v) × (rest v ≡ ok w)
  >>=-eq-ok (err x) rest h = cc
  >>=-eq-ok (ok v) rest h = (v, refl, h)

  pub wrap_then :
      (s : Str) (first : Result V) (rest : V → Result W) {w : W}
      → (wrap s first >>= rest) ≡ ok w
      → (v : V) × (first ≡ ok v) × (rest v ≡ ok w)
  wrap_then s (err x) rest h = cc
  wrap_then s (ok v) rest h = (v, refl, h)

  pub or_error_then :
      (x : Error) (o : Option V) (rest : V → Result W) {w : W}
      → (or_error x o >>= rest) ≡ ok w
      → (v : V) × (o ≡ some v) × (rest v ≡ ok w)
  or_error_then x none rest h = cc
  or_error_then x (some v) rest h = (v, refl, h)

pub or_error-ok {ℓ} :
    {A : Type ℓ} (e : Error) (o : Option A) {a : A} → or_error e o ≡ ok a → o ≡ some a
or_error-ok e (some a) h = cc h
or_error-ok e none h = cc h

pub require_then {ℓ} :
    {B : Type ℓ} (t : Bool) (e : Error) (m : Result B) {b : B}
    → (require t e >> m) ≡ ok b
    → (t ≡ true) × (m ≡ ok b)
require_then true e m h = (refl, h)
require_then false e m h = cc

pub Result-cases {ℓ} :
    {A : Type ℓ} (m : Result A) → ((a : A) × (m ≡ ok a)) ⊎ ((e : Error) × (m ≡ err e))
Result-cases (ok a) = inl (a, refl)
Result-cases (err e) = inr (e, refl)
