-- ===== src/Common/Trim.antt =====
-- strings.TrimSpace, on the bytes of a string.
use centralized_identity.Common.Tests.{leb, eqb, if◌then◌else◌}
use centralized_identity.Common.Text.{Str}
use Prim.Native.Nat.{ℕ, zero, suc}
use mathlib.Core.Path.{◌≡◌, refl}
use mathlib.Core.Bool.{Bool, ◌&&◌, ◌||◌}
use mathlib.Core.List.{[], ◌∷◌, reverse, reverse-reverse}

-- unicode.IsSpace, on the encodings of one byte, of two and of three: U+0085 and U+00A0; U+1680,
-- U+2000 to U+200A, U+2028, U+2029, U+202F, U+205F and U+3000.
abbrev pub is_space : ℕ → Bool
is_space c = eqb c b' ' || (leb 9 c && leb c 13)

abbrev pub is_space_2 : ℕ → ℕ → Bool
is_space_2 c d = eqb c 194 && (eqb d 133 || eqb d 160)

abbrev pub is_space_3 : ℕ → ℕ → ℕ → Bool
is_space_3 c d e =
    (eqb c 225 && (eqb d 154 && eqb e 128))
    || ((eqb c 226
          && (eqb d 128 && (leb 128 e && leb e 138 || (eqb e 168 || (eqb e 169 || eqb e 175)))))
        || ((eqb c 226 && (eqb d 129 && eqb e 159)) || (eqb c 227 && (eqb d 128 && eqb e 128))))

-- How many bytes the first character of a string has if that is white space, or else none, given the
-- tests of two bytes and of three.
abbrev pub space_size : (ℕ → ℕ → Bool) → (ℕ → ℕ → ℕ → Bool) → Str → ℕ
space_size two three [] = 0
space_size two three (c ∷ []) = if is_space c then 1 else 0
space_size two three (c ∷ d ∷ []) = if is_space c then 1 else if two c d then 2 else 0
space_size two three (c ∷ d ∷ e ∷ s) =
    if is_space c then 1 else if two c d then 2 else if three c d e then 3 else 0

-- From the end, the bytes of a character come last to first.
abbrev pub front_space : Str → ℕ
front_space = space_size is_space_2 is_space_3

abbrev pub back_space : Str → ℕ
back_space = space_size (λ d c. is_space_2 c d) (λ e d c. is_space_3 c d e)

-- The string without the white space at its front, where the number of bytes is yet to be dropped.
trim_front : (Str → ℕ) → ℕ → Str → Str
trim_front size n [] = []
trim_front size (suc n) (c ∷ s) = trim_front size n s
trim_front size zero (c ∷ s) = elim (size (c ∷ s)) [ zero ↦ c ∷ s | suc n ↦ trim_front size n s ]

unfoldable pub trim_left : Str → Str
unfolding trim_front
trim_left = trim_front front_space 0

unfoldable pub trim_right : Str → Str
unfolding trim_front
trim_right s = reverse (trim_front back_space 0 (reverse s))

-- strings.TrimSpace
unfoldable pub trim_space : Str → Str
unfolding trim_left trim_right
trim_space s = trim_right (trim_left s)

trim_front-plain : (size : Str → ℕ) (s : Str) → size s ≡ 0 → trim_front size 0 s ≡ s
unfolding trim_front
trim_front-plain size [] h = refl
trim_front-plain size (c ∷ s) h = rw (trim_front, h) refl

-- A string that neither starts nor ends with white space.
pub trim_space-plain : (s : Str) → front_space s ≡ 0 → back_space (reverse s) ≡ 0 → trim_space s ≡ s
unfolding trim_space trim_left trim_right
trim_space-plain s front back =
    rw (trim_front-plain _ s front, trim_front-plain _ (reverse s) back) (reverse-reverse s)
