-- ===== src/Common/Base64/Encoding.antt =====
-- encoding/base64: the encoders RawURLEncoding and StdEncoding, and their round trips.
use Prim.Native.Nat.{ℕ, ◌+◌, ◌-◌, ◌*◌, ◌/◌, ◌%◌, ◌<◌, ◌≤◌}
use mathlib.Core.Path.{◌≡◌, refl, ap, ◌∙◌}
use mathlib.Core.Bool.{Bool, true, false, ◌&&◌}
use mathlib.Core.Option.{Option, some}
use mathlib.Core.List.{[], ◌∷◌}
use native.Mathlib.Omega.{arith}
use centralized_identity.Common.Tests.{ltb, eqb, if◌then◌else◌}
use centralized_identity.Common.Lists.{All, length}
use centralized_identity.Common.Text.{Str}
use centralized_identity.Common.Base64.{
  digit, url_digit, std_digit, two_digits, three_digits, four_digits, is_line_end, skip_line_ends,
  raw_quanta, std_last, std_quanta, decode_raw_url, decode_std,
}

abbrev pub IsByte : ℕ → Type 0
IsByte b = b < 256

unfoldable pub all_bytes : Str → Bool
all_bytes [] = true
all_bytes (b ∷ s) = ltb b 256 && all_bytes s

pub IsByte-sound : (s : Str) → all_bytes s ≡ true → All IsByte s
unfolding all_bytes
IsByte-sound [] h = tt
IsByte-sound (b ∷ s) h = (ground arith, IsByte-sound s (ground arith))

-- The digit of a value below 64, given the last two digits.
unfoldable pub symbol : ℕ → ℕ → ℕ → ℕ
symbol c62 c63 n =
    if ltb n 26
    then n + b'A'
    else if ltb n 52
    then (n - 26) + b'a'
    else if ltb n 62
    then (n - 52) + b'0'
    else if eqb n 62
    then c62
    else c63

abbrev pub url_symbol : ℕ → ℕ
url_symbol = symbol b'-' b'_'

abbrev pub std_symbol : ℕ → ℕ
std_symbol = symbol b'+' b'/'

-- base64.RawURLEncoding.EncodeToString
unfoldable pub encode_raw_url : Str → Str
encode_raw_url [] = []
encode_raw_url (a ∷ []) = url_symbol (a / 4) ∷ url_symbol (a % 4 * 16) ∷ []
encode_raw_url (a ∷ b ∷ []) =
    url_symbol (a / 4) ∷ url_symbol (a % 4 * 16 + b / 16) ∷ url_symbol (b % 16 * 4) ∷ []
encode_raw_url (a ∷ b ∷ c ∷ s) =
    url_symbol (a / 4)
    ∷ url_symbol (a % 4 * 16 + b / 16)
    ∷ url_symbol (b % 16 * 4 + c / 64)
    ∷ url_symbol (c % 64)
    ∷ encode_raw_url s

-- base64.StdEncoding.EncodeToString
unfoldable pub encode_std : Str → Str
encode_std [] = []
encode_std (a ∷ []) = std_symbol (a / 4) ∷ std_symbol (a % 4 * 16) ∷ b'=' ∷ b'=' ∷ []
encode_std (a ∷ b ∷ []) =
    std_symbol (a / 4) ∷ std_symbol (a % 4 * 16 + b / 16) ∷ std_symbol (b % 16 * 4) ∷ b'=' ∷ []
encode_std (a ∷ b ∷ c ∷ s) =
    std_symbol (a / 4)
    ∷ std_symbol (a % 4 * 16 + b / 16)
    ∷ std_symbol (b % 16 * 4 + c / 64)
    ∷ std_symbol (c % 64)
    ∷ encode_std s

url_digit-symbol : (n : ℕ) → n < 64 → url_digit (url_symbol n) ≡ some n
unfolding symbol digit
url_digit-symbol n h = ground (arith, h)

std_digit-symbol : (n : ℕ) → n < 64 → std_digit (std_symbol n) ≡ some n
unfolding symbol digit
std_digit-symbol n h = ground (arith, h)

is_line_end-url_symbol : (n : ℕ) → is_line_end (url_symbol n) ≡ false
unfolding symbol
is_line_end-url_symbol n = ground arith

is_line_end-std_symbol : (n : ℕ) → is_line_end (std_symbol n) ≡ false
unfolding symbol
is_line_end-std_symbol n = ground arith

std_symbol-ne-pad : (n : ℕ) → eqb (std_symbol n) b'=' ≡ false
unfolding symbol
std_symbol-ne-pad n = ground arith

skip_line_ends-encode_raw_url : (s : Str) → skip_line_ends (encode_raw_url s) ≡ encode_raw_url s
unfolding encode_raw_url skip_line_ends
skip_line_ends-encode_raw_url [] = refl
skip_line_ends-encode_raw_url (a ∷ []) = simp (is_line_end-url_symbol)
skip_line_ends-encode_raw_url (a ∷ b ∷ []) = simp (is_line_end-url_symbol)
skip_line_ends-encode_raw_url (a ∷ b ∷ c ∷ s) =
    simp (is_line_end-url_symbol, skip_line_ends-encode_raw_url s)

-- A quantum of three bytes, or the last of one or two, is read back, whatever the alphabet.
module _ (value : ℕ → Option ℕ) (sym_ : ℕ → ℕ)
    (inverse : (n : ℕ) → n < 64 → value (sym_ n) ≡ some n) where
  two_digits-symbols :
      (a : ℕ) → IsByte a → two_digits value (sym_ (a / 4)) (sym_ (a % 4 * 16)) ≡ some (a ∷ [])
  unfolding two_digits
  two_digits-symbols a h =
      rw (inverse (a / 4) (omega (arith, h)), inverse (a % 4 * 16) (omega arith))
        (ground (arith, h))

  three_digits-symbols :
      (a b : ℕ)
      → IsByte a
      → IsByte b
      → three_digits value (sym_ (a / 4)) (sym_ (a % 4 * 16 + b / 16)) (sym_ (b % 16 * 4))
        ≡ some (a ∷ b ∷ [])
  unfolding three_digits
  three_digits-symbols a b h k =
      rw
        (
          inverse (a / 4) (omega (arith, h)),
          inverse (a % 4 * 16 + b / 16) (omega (arith, k)),
          inverse (b % 16 * 4) (omega arith),
        )
        (ground (arith, h, k))

  four_digits-symbols :
      (a b c : ℕ)
      → IsByte a
      → IsByte b
      → IsByte c
      → four_digits value
          (sym_ (a / 4))
          (sym_ (a % 4 * 16 + b / 16))
          (sym_ (b % 16 * 4 + c / 64))
          (sym_ (c % 64))
        ≡ some (a ∷ b ∷ c ∷ [])
  unfolding four_digits
  four_digits-symbols a b c h k l =
      rw
        (
          inverse (a / 4) (omega (arith, h)),
          inverse (a % 4 * 16 + b / 16) (omega (arith, k)),
          inverse (b % 16 * 4 + c / 64) (omega (arith, l)),
          inverse (c % 64) (omega arith),
        )
        (ground (arith, h, k, l))

raw_quanta-encode_raw_url : (s : Str) → All IsByte s → raw_quanta (encode_raw_url s) ≡ some s
unfolding encode_raw_url raw_quanta
raw_quanta-encode_raw_url [] h = refl
raw_quanta-encode_raw_url (a ∷ []) (ha, _) =
    two_digits-symbols url_digit url_symbol url_digit-symbol a ha
raw_quanta-encode_raw_url (a ∷ b ∷ []) (ha, (hb, _)) =
    three_digits-symbols url_digit url_symbol url_digit-symbol a b ha hb
raw_quanta-encode_raw_url (a ∷ b ∷ c ∷ s) (ha, (hb, (hc, h))) =
    rw
      (
        four_digits-symbols url_digit url_symbol url_digit-symbol a b c ha hb hc,
        raw_quanta-encode_raw_url s h,
      )
      refl

std_quanta-encode_std : (s : Str) → All IsByte s → std_quanta (encode_std s) ≡ some s
unfolding encode_std std_quanta std_last
std_quanta-encode_std [] h = refl
std_quanta-encode_std (a ∷ []) (ha, _) =
    two_digits-symbols std_digit std_symbol std_digit-symbol a ha
std_quanta-encode_std (a ∷ b ∷ []) (ha, (hb, _)) =
    rw (std_symbol-ne-pad (b % 16 * 4))
      (three_digits-symbols std_digit std_symbol std_digit-symbol a b ha hb)
std_quanta-encode_std (a ∷ b ∷ c ∷ s) (ha, (hb, (hc, h))) =
    rw
      (
        std_symbol-ne-pad (c % 64),
        four_digits-symbols std_digit std_symbol std_digit-symbol a b c ha hb hc,
        std_quanta-encode_std s h,
      )
      refl

-- What is encoded is decoded to the same bytes.
pub decode_raw_url-encode : (s : Str) → All IsByte s → decode_raw_url (encode_raw_url s) ≡ some s
unfolding decode_raw_url
decode_raw_url-encode s h =
    ap raw_quanta (skip_line_ends-encode_raw_url s) ∙ raw_quanta-encode_raw_url s h

skip_line_ends-encode_std : (s : Str) → skip_line_ends (encode_std s) ≡ encode_std s
unfolding encode_std skip_line_ends
skip_line_ends-encode_std [] = refl
skip_line_ends-encode_std (a ∷ []) = simp (is_line_end-std_symbol)
skip_line_ends-encode_std (a ∷ b ∷ []) = simp (is_line_end-std_symbol)
skip_line_ends-encode_std (a ∷ b ∷ c ∷ s) =
    simp (is_line_end-std_symbol, skip_line_ends-encode_std s)

pub decode_std-encode : (s : Str) → All IsByte s → decode_std (encode_std s) ≡ some s
unfolding decode_std
decode_std-encode s h = ap std_quanta (skip_line_ends-encode_std s) ∙ std_quanta-encode_std s h

pub length-encode_std : (s : Str) → length s ≤ length (encode_std s)
unfolding encode_std
length-encode_std [] = omega arith
length-encode_std (a ∷ []) = omega arith
length-encode_std (a ∷ b ∷ []) = omega arith
length-encode_std (a ∷ b ∷ c ∷ s) = omega (arith, length-encode_std s)
