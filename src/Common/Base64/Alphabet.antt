-- ===== src/Common/Base64/Alphabet.antt =====
-- What a text of base64 cannot hold.
use mathlib.Core.Bool.{true}
use mathlib.Core.Logic.{◌≢◌, inl, inr}
use mathlib.Core.Option.{Option, none, some}
use mathlib.Core.List.{[], ◌∷◌}
use mathlib.Core.Path.{◌≡◌, refl}
use Prim.Native.Nat.{ℕ}
use native.Mathlib.Omega.{arith}
use centralized_identity.Common.Tests.{eqb, Bool-cases}
use centralized_identity.Common.Text.{Str, Lacks}
use centralized_identity.Common.Base64.{
  ◌>>=◌, digit, std_digit, two_digits, three_digits, four_digits, is_line_end, skip_line_ends,
  std_last, std_quanta, decode_std,
}

-- A dot is no digit.
digit-ne-dot : (c v : ℕ) → std_digit c ≡ some v → c ≢ b'.'
unfolding digit
digit-ne-dot c v h = λ e. cc (rw e at h)

>>=-some :
    {A B : Type 0} (o : Option A) (f : A → Option B) {b : B}
    → (o >>= f) ≡ some b
    → (a : A) × (o ≡ some a) × (f a ≡ some b)
>>=-some none f h = cc
>>=-some (some a) f h = (a, refl, h)

abbrev IsDigit : ℕ → Type 0
IsDigit c = (v : ℕ) × (std_digit c ≡ some v)

two_digits-IsDigit :
    (a b : ℕ) {out : Str} → two_digits std_digit a b ≡ some out → IsDigit a × IsDigit b
unfolding two_digits
two_digits-IsDigit a b h =
    let (x, e₁, h₁) = >>=-some (std_digit a) _ h in
    let (y, e₂, h₂) = >>=-some (std_digit b) _ h₁ in ((x, e₁), (y, e₂))

three_digits-IsDigit :
    (a b c : ℕ) {out : Str}
    → three_digits std_digit a b c ≡ some out
    → IsDigit a × IsDigit b × IsDigit c
unfolding three_digits
three_digits-IsDigit a b c h =
    let (x, e₁, h₁) = >>=-some (std_digit a) _ h in
    let (y, e₂, h₂) = >>=-some (std_digit b) _ h₁ in
    let (z, e₃, h₃) = >>=-some (std_digit c) _ h₂ in ((x, e₁), (y, e₂), (z, e₃))

four_digits-IsDigit :
    (a b c d : ℕ) {out : Str}
    → four_digits std_digit a b c d ≡ some out
    → IsDigit a × IsDigit b × IsDigit c × IsDigit d
unfolding four_digits
four_digits-IsDigit a b c d h =
    let (x, e₁, h₁) = >>=-some (std_digit a) _ h in
    let (y, e₂, h₂) = >>=-some (std_digit b) _ h₁ in
    let (z, e₃, h₃) = >>=-some (std_digit c) _ h₂ in
    let (w, e₄, h₄) = >>=-some (std_digit d) _ h₃ in ((x, e₁), (y, e₂), (z, e₃), (w, e₄))

ne-dot : (c : ℕ) → IsDigit c → c ≢ b'.'
ne-dot c (v, h) = digit-ne-dot c v h

padding-ne-dot : (c : ℕ) → eqb c b'=' ≡ true → c ≢ b'.'
padding-ne-dot c h = ground arith

std_last-Lacks :
    (a b c d : ℕ) (s : Str) {out : Str}
    → eqb d b'=' ≡ true
    → std_last a b c s ≡ some out
    → Lacks b'.' (a ∷ b ∷ c ∷ d ∷ s)
unfolding std_last
std_last-Lacks a b c d [] pad h = elim (Bool-cases (eqb c b'=')) [
  | inl padded ↦
      let (x, y) = two_digits-IsDigit a b (rw (padded, std_last) at h) in
      (ne-dot a x, (ne-dot b y, (padding-ne-dot c padded, (padding-ne-dot d pad, tt))))
  | inr full ↦
      let (x, y, z) = three_digits-IsDigit a b c (rw (full, std_last) at h) in
      (ne-dot a x, (ne-dot b y, (ne-dot c z, (padding-ne-dot d pad, tt))))
]
std_last-Lacks a b c d (e ∷ s) pad h = cc

std_quanta-Lacks : (s : Str) {out : Str} → std_quanta s ≡ some out → Lacks b'.' s
unfolding std_quanta
std_quanta-Lacks [] h = tt
std_quanta-Lacks (a ∷ []) h = cc
std_quanta-Lacks (a ∷ b ∷ []) h = cc
std_quanta-Lacks (a ∷ b ∷ c ∷ []) h = cc
std_quanta-Lacks (a ∷ b ∷ c ∷ d ∷ s) h = elim (Bool-cases (eqb d b'=')) [
  | inl pad ↦ std_last-Lacks a b c d s pad (rw (pad, std_quanta) at h)
  | inr digit_d ↦
      let (here, e₁, h₁) =
        >>=-some (four_digits std_digit a b c d) _ (rw (digit_d, std_quanta) at h) in
      let (there, e₂, h₂) = >>=-some (std_quanta s) _ h₁ in
      let (x, y, z, w) = four_digits-IsDigit a b c d e₁ in
      (ne-dot a x, (ne-dot b y, (ne-dot c z, (ne-dot d w, std_quanta-Lacks s e₂))))
]

skip_line_ends-Lacks : (s : Str) → Lacks b'.' (skip_line_ends s) → Lacks b'.' s
unfolding skip_line_ends
skip_line_ends-Lacks [] h = tt
skip_line_ends-Lacks (c ∷ s) h = elim (Bool-cases (is_line_end c)) [
  | inl line_end ↦ (ground arith, skip_line_ends-Lacks s (rw (line_end, skip_line_ends) at h))
  | inr other ↦
      let k : Lacks b'.' (c ∷ skip_line_ends s) = rw (other, skip_line_ends) at h in
      (k.0, skip_line_ends-Lacks s k.1)
]

-- A text that can be decoded by StdEncoding holds no dot.
pub decode_std-Lacks : (s : Str) {out : Str} → decode_std s ≡ some out → Lacks b'.' s
unfolding decode_std
decode_std-Lacks s h = skip_line_ends-Lacks s (std_quanta-Lacks (skip_line_ends s) h)
