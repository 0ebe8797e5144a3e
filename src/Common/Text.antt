-- ===== src/Common/Text.antt =====
-- Go strings as their bytes, and the functions of package strings that the program calls.
use Prim.Native.Nat.{ℕ, zero, suc}
use Prim.Native.Char.{code}
use Prim.Native.String.{String}
use mathlib.Core.Path.{◌≡◌, refl}
use mathlib.Core.Logic.{◌↔◌, ◌≢◌, ◌⊎◌, inl, inr}
use mathlib.Core.Bool.{Bool, true, false, ◌&&◌, ◌||◌}
use mathlib.Core.Option
use mathlib.Core.Option.{Option, none, some}
use mathlib.Core.List.{List, [], ◌∷◌, ◌++◌}
use native.Mathlib.Omega.{arith}
use centralized_identity.Common.Tests.{eqb, if◌then◌else◌, Option-cases, Bool-cases}
use centralized_identity.Common.Lists.{All, any, length}

-- A string, and a []byte, is its sequence of bytes.
abbrev pub Str : Type 0
Str = List ℕ

-- The bytes of an ASCII literal.
abbrev pub codes : String → Str
codes String.[] = []
codes (String.◌∷◌ c s) = code c ∷ codes s

infix 50 ◌==◌
unfoldable pub ◌==◌ : Str → Str → Bool
[] == [] = true
[] == (d ∷ t) = false
(c ∷ s) == [] = false
(c ∷ s) == (d ∷ t) = eqb c d && (s == t)

==_sound : (s t : Str) → (s == t) ≡ true → s ≡ t
unfolding ◌==◌
==_sound [] [] h = refl
==_sound [] (d ∷ t) h = ground arith
==_sound (c ∷ s) [] h = ground arith
==_sound (c ∷ s) (d ∷ t) h = ground (arith, ==_sound s t)

pub ==_refl : (s : Str) → (s == s) ≡ true
unfolding ◌==◌
==_refl [] = refl
==_refl (c ∷ s) = ground (arith, ==_refl s)

pub ==_iff : (s t : Str) → ((s == t) ≡ true) ↔ (s ≡ t)
==_iff s t = (==_sound s t, λ e. rw e (==_refl t))

pub ne-==-false : (s t : Str) → s ≢ t → (s == t) ≡ false
ne-==-false s t h = ground (arith, ==_iff s t)

pub ==-dec : (s t : Str) → (s ≡ t) ⊎ (s ≢ t)
==-dec s t = elim (Bool-cases (s == t)) [
  | inl same ↦ inl (==_sound s t same)
  | inr other ↦ inr (λ e. cc ((==_iff s t).1 e, other))
]

-- strings.HasPrefix
unfoldable pub has_prefix : Str → Str → Bool
has_prefix s [] = true
has_prefix [] (p ∷ ps) = false
has_prefix (c ∷ s) (p ∷ ps) = eqb c p && has_prefix s ps

-- What stands behind the first `n` bytes.
abbrev pub drop : ℕ → Str → Str
drop zero s = s
drop (suc n) [] = []
drop (suc n) (c ∷ s) = drop n s

-- strings.TrimPrefix
unfoldable pub trim_prefix : Str → Str → Str
trim_prefix s p = if has_prefix s p then drop (length p) s else s

-- strings.Contains
unfoldable pub contains : Str → Str → Bool
unfolding has_prefix
contains [] sub = has_prefix [] sub
contains (c ∷ s) sub = has_prefix (c ∷ s) sub || contains s sub

-- strings.Split by a separator of one byte: at least one part.
push_head : ℕ → List Str → List Str
push_head c [] = (c ∷ []) ∷ []
push_head c (p ∷ ps) = (c ∷ p) ∷ ps

unfoldable pub split : Str → ℕ → List Str
unfolding push_head
split [] sep = [] ∷ []
split (c ∷ s) sep = if eqb c sep then [] ∷ split s sep else push_head c (split s sep)

-- What stands before and behind the first separator.
cons_left : ℕ → Str × Str → Str × Str
cons_left c (a, b) = (c ∷ a, b)

unfoldable pub cut : Str → ℕ → Option (Str × Str)
unfolding cons_left
cut [] sep = none
cut (c ∷ s) sep = if eqb c sep then some ([], s) else Option.map (cons_left c) (cut s sep)

-- strings.SplitN(s, sep, 2)
unfoldable pub split_2 : Str → ℕ → List Str
unfolding cut
split_2 s sep = elim (cut s sep) [ none ↦ s ∷ [] | some (a, b) ↦ a ∷ b ∷ [] ]

-- strings.Join
unfoldable pub join : List Str → Str → Str
join [] sep = []
join (p ∷ []) sep = p
join (p ∷ q ∷ ps) sep = p ++ (sep ++ join (q ∷ ps) sep)

-- No byte of the string is the given one.
abbrev pub Lacks : ℕ → Str → Type 0
Lacks b = All (λ c. c ≢ b)

-- The test for it.
pub Lacks-sound : (b : ℕ) (s : Str) → any (λ c. eqb c b) s ≡ false → Lacks b s
Lacks-sound b [] h = tt
Lacks-sound b (c ∷ s) h = (ground arith, Lacks-sound b s (ground arith))

pub split-Lacks : (s : Str) (sep : ℕ) → Lacks sep s → split s sep ≡ s ∷ []
unfolding split
split-Lacks [] sep h = refl
split-Lacks (c ∷ s) sep (p, h) = ground (arith, split-Lacks s sep h)

pub split-append : (s t : Str) (sep : ℕ) → Lacks sep s → split (s ++ sep ∷ t) sep ≡ s ∷ split t sep
unfolding split
split-append [] t sep h = ground arith
split-append (c ∷ s) t sep (p, h) = ground (arith, split-append s t sep h)

pub cut-append : (s t : Str) (sep : ℕ) → Lacks sep s → cut (s ++ sep ∷ t) sep ≡ some (s, t)
unfolding cut
cut-append [] t sep h = ground arith
cut-append (c ∷ s) t sep (p, h) = ground (arith, cut-append s t sep h)

pub cut-Lacks : (s : Str) (sep : ℕ) → Lacks sep s → cut s sep ≡ none
unfolding cut
cut-Lacks [] sep h = refl
cut-Lacks (c ∷ s) sep (p, h) = ground (arith, cut-Lacks s sep h)

-- What `cut` finds: the text is the two halves round a separator, which the first half lacks.
pub cut_sound :
    (s : Str) (sep : ℕ) (a b : Str) → cut s sep ≡ some (a, b) → (s ≡ a ++ sep ∷ b) × Lacks sep a
unfolding cut
cut_sound [] sep a b h = cc
cut_sound (c ∷ s) sep a b h = elim (Option-cases (cut s sep)) [
  | inl missed ↦ ground arith
  | inr ((a', b'), found) ↦ ground (arith, cut_sound s sep a' b' found)
]

pub has_prefix_iff : (s p : Str) → (has_prefix s p ≡ true) ↔ (s ≡ p ++ drop (length p) s)
unfolding has_prefix
has_prefix_iff s [] = ground arith
has_prefix_iff [] (p ∷ ps) = ground arith
has_prefix_iff (c ∷ s) (p ∷ ps) = ground (arith, has_prefix_iff s ps)

-- A text without the second half is one part, and with it two.
pub split_2-cut :
    (s : Str) (sep : ℕ) (a b : Str) → cut s sep ≡ some (a, b) → split_2 s sep ≡ a ∷ b ∷ []
unfolding split_2
split_2-cut s sep a b h = ground arith

pub split_2_whole : (s : Str) (sep : ℕ) → cut s sep ≡ none → split_2 s sep ≡ s ∷ []
unfolding split_2
split_2_whole s sep h = ground arith

-- Splitting what was joined gives the parts back.
pub split-join :
    (ps : List Str) (sep : ℕ) → ps ≢ [] → All (Lacks sep) ps → split (join ps (sep ∷ [])) sep ≡ ps
unfolding join
split-join [] sep h _ = absurd (h refl)
split-join (p ∷ []) sep _ (lacks, _) = split-Lacks p sep lacks
split-join (p ∷ q ∷ ps) sep _ (lacks, h) =
    rw (split-append p _ sep lacks, split-join (q ∷ ps) sep (λ e. cc e) h)
