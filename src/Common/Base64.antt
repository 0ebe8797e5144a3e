-- ===== src/Common/Base64.antt =====
-- encoding/base64: the decoders RawURLEncoding and StdEncoding. They skip line ends everywhere and
-- ignore the bits that are left over in the last digit.
pub mod Alphabet
pub mod Encoding
use Prim.Native.Nat.{ℕ, ◌+◌, ◌-◌, ◌*◌, ◌/◌, ◌%◌}
use mathlib.Core.Bool.{Bool, ◌&&◌, ◌||◌}
use mathlib.Core.Option.{Option, none, some}
use mathlib.Core.List.{[], ◌∷◌, ◌++◌}
use centralized_identity.Common.Tests.{leb, eqb, if◌then◌else◌}
use centralized_identity.Common.Text.{Str}

infixl 5 ◌>>=◌
abbrev ◌>>=◌ : {A B : Type 0} → Option A → (A → Option B) → Option B
none >>= f = none
some a >>= f = f a

-- The value of a digit, given the two digits behind the letters and the figures.
digit : ℕ → ℕ → ℕ → Option ℕ
digit c62 c63 c =
    if leb b'A' c && leb c b'Z'
    then some (c - b'A')
    else if leb b'a' c && leb c b'z'
    then some (26 + (c - b'a'))
    else if leb b'0' c && leb c b'9'
    then some (52 + (c - b'0'))
    else if eqb c c62
    then some 62
    else if eqb c c63
    then some 63
    else none

abbrev url_digit : ℕ → Option ℕ
url_digit = digit b'-' b'_'

abbrev std_digit : ℕ → Option ℕ
std_digit = digit b'+' b'/'

module _ (value : ℕ → Option ℕ) where
  two_digits : ℕ → ℕ → Option Str
  two_digits a b = do x ← value a; y ← value b; some ((x * 4 + y / 16) ∷ [])

  three_digits : ℕ → ℕ → ℕ → Option Str
  three_digits a b c = do
    x ← value a
    y ← value b
    z ← value c
    some ((x * 4 + y / 16) ∷ (y % 16 * 16 + z / 4) ∷ [])

  four_digits : ℕ → ℕ → ℕ → ℕ → Option Str
  four_digits a b c d = do
    x ← value a
    y ← value b
    z ← value c
    w ← value d
    some ((x * 4 + y / 16) ∷ (y % 16 * 16 + z / 4) ∷ (z % 4 * 64 + w) ∷ [])

abbrev is_line_end : ℕ → Bool
is_line_end c = eqb c 10 || eqb c 13

skip_line_ends : Str → Str
skip_line_ends [] = []
skip_line_ends (c ∷ s) = if is_line_end c then skip_line_ends s else c ∷ skip_line_ends s

-- Without padding a last quantum of one digit is an error.
raw_quanta : Str → Option Str
unfolding two_digits three_digits four_digits digit
raw_quanta [] = some []
raw_quanta (a ∷ []) = none
raw_quanta (a ∷ b ∷ []) = two_digits url_digit a b
raw_quanta (a ∷ b ∷ c ∷ []) = three_digits url_digit a b c
raw_quanta (a ∷ b ∷ c ∷ d ∷ s) = do
  here ← four_digits url_digit a b c d
  there ← raw_quanta s
  some (here ++ there)

-- A quantum that ends in padding is the last one.
std_last : ℕ → ℕ → ℕ → Str → Option Str
unfolding two_digits three_digits digit
std_last a b c [] = if eqb c b'=' then two_digits std_digit a b else three_digits std_digit a b c
std_last a b c (e ∷ s) = none

std_quanta : Str → Option Str
unfolding std_last four_digits digit
std_quanta [] = some []
std_quanta (a ∷ b ∷ c ∷ d ∷ s) =
    let last = std_last a b c s in
    let more : Option Str = do
      here ← four_digits std_digit a b c d
      there ← std_quanta s
      some (here ++ there)
    in if eqb d b'=' then last else more
std_quanta _ = none

-- base64.RawURLEncoding.DecodeString
unfoldable pub decode_raw_url : Str → Option Str
unfolding raw_quanta skip_line_ends
decode_raw_url s = raw_quanta (skip_line_ends s)

-- base64.StdEncoding.DecodeString
unfoldable pub decode_std : Str → Option Str
unfolding std_quanta skip_line_ends
decode_std s = std_quanta (skip_line_ends s)
