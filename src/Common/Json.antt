-- ===== src/Common/Json.antt =====
-- encoding/json: documents, and how they are stored in Go values. Splitting a text into its
-- document is a parameter of what uses it; which field of a struct receives which value, what
-- `null` and a value of another type do, and which of several keys wins, is modelled here.
pub mod Codec
use Prim.Native.Nat.{ℕ, ◌-◌, ◌+◌, ◌*◌, ◌^◌}
use mathlib.Core.Path.{◌≡◌, refl}
use mathlib.Core.Bool.{Bool, true, false, ◌&&◌, not}
use mathlib.Core.Option.{Option, none, some}
use mathlib.Core.List.{List, [], ◌∷◌}
use centralized_identity.Common.Tests.{leb, eqb, if◌then◌else◌}
use centralized_identity.Common.Text.{Str, ◌==◌}
use centralized_identity.Common.Dict.{Map}

-- A value of Go's `any` that a document holds; a number is its literal.
mutual
  pub data Value : Type 0 where
    null : Value
    boolean : Bool → Value
    number : Str → Value
    text : Str → Value
    array : Values → Value
    object : Members → Value

  pub data Values : Type 0 where
    nil : Values
    cons : Value → Values → Values

  pub data Members : Type 0 where
    end : Members
    member : Str → Value → Members → Members

abbrev pub values : Values → List Value
values nil = []
values (cons v vs) = v ∷ values vs

abbrev pub members : Members → Map Value
members end = []
members (member k v ms) = (k, v) ∷ members ms

-- map[string]any: of equal keys the last one counts.
unfoldable pub field : Map Value → Str → Option Value
unfolding ◌==◌
field [] k = none
field ((j, v) ∷ ms) k =
    let rest = field ms k in
    elim rest [ some w ↦ some w | none ↦ (if j == k then some v else none) ]

-- The folding of a key that is not spelled like a field: case is ignored, and the long s and the
-- Kelvin sign count as the letters that they resemble. No other letter folds to one of ASCII.
fold_byte : ℕ → ℕ
fold_byte c = if leb b'a' c && leb c b'z' then c - 32 else c

unfoldable pub fold_name : Str → Str
unfolding fold_byte
fold_name [] = []
fold_name (c ∷ []) = fold_byte c ∷ []
fold_name (c ∷ d ∷ []) =
    if eqb c 0xC5 && eqb d 0xBF then b'S' ∷ [] else fold_byte c ∷ fold_byte d ∷ []
fold_name (c ∷ d ∷ e ∷ s) =
    let kelvin = b'K' ∷ fold_name s in
    let long_s = b'S' ∷ fold_name (e ∷ s) in
    let other = fold_byte c ∷ fold_name (d ∷ e ∷ s) in
    if eqb c 0xE2 && eqb d 0x84 && eqb e 0xAA
    then kelvin
    else if eqb c 0xC5 && eqb d 0xBF
    then long_s
    else other

-- A field of the struct `S`: its name, and how a value is stored in it. The Boolean says whether the
-- value has the field's type; the library goes on after one that has not, and reports it at the end.
pub record Field (S : Type 0) : Type 0 where
  pub name : Str
  pub store : Value → S → S × Bool

module _ {S : Type 0} where
  by_exact_name : List (Field S) → Str → Option (Field S)
  unfolding ◌==◌
  by_exact_name [] k = none
  by_exact_name (f ∷ fs) k = if f.name == k then some f else by_exact_name fs k

  by_folded_name : List (Field S) → Str → Option (Field S)
  unfolding ◌==◌ fold_name
  by_folded_name [] k = none
  by_folded_name (f ∷ fs) k =
      if fold_name f.name == fold_name k then some f else by_folded_name fs k

  find_field : List (Field S) → Str → Option (Field S)
  unfolding by_exact_name by_folded_name
  find_field fs k = elim (by_exact_name fs k) [ some f ↦ some f | none ↦ by_folded_name fs k ]

  store_member : List (Field S) → Str → Value → S × Bool → S × Bool
  unfolding find_field
  store_member fs k v (s, fine) = elim (find_field fs k) [
    | none ↦ (s, fine)
    | some f ↦ let r = f.store v s in (r.0, fine && r.1)
  ]

  store_members : List (Field S) → Map Value → S × Bool → S × Bool
  unfolding store_member
  store_members fs [] r = r
  store_members fs ((k, v) ∷ ms) r = store_members fs ms (store_member fs k v r)

  -- The struct after a document, and whether every value had its field's type.
  unfoldable pub store_struct : List (Field S) → Value → S → S × Bool
  unfolding store_members
  store_struct fs (object ms) s = store_members fs (members ms) (s, true)
  store_struct fs null s = (s, true)
  store_struct fs _ s = (s, false)

-- What json.Unmarshal returns: the value, if everything that was stored had its type.
abbrev pub when_fine {ℓ} : {A : Type ℓ} → A × Bool → Option A
when_fine (a, true) = some a
when_fine (a, false) = none

-- A string takes a text; null leaves it alone.
unfoldable pub store_text : Value → Str → Str × Bool
store_text (text t) s = (t, true)
store_text null s = (s, true)
store_text _ s = (s, false)

unfoldable pub store_bool : Value → Bool → Bool × Bool
store_bool (boolean b) s = (b, true)
store_bool null s = (s, true)
store_bool _ s = (s, false)

-- A slice of strings is stored item by item over the empty string. (A second value for the same
-- field keeps the old items under its nulls; the model has the empty string there.)
store_texts_from : List Value → List Str × Bool
unfolding store_text
store_texts_from [] = ([], true)
store_texts_from (v ∷ vs) =
    let (t, fine) = store_text v [] in
    let (ts, rest_fine) = store_texts_from vs in (t ∷ ts, fine && rest_fine)

unfoldable pub store_texts : Value → List Str → List Str × Bool
unfolding store_texts_from
store_texts (array vs) s = store_texts_from (values vs)
store_texts null s = ([], true)
store_texts _ s = (s, false)

-- A slice of strings, as it is encoded.
unfoldable pub texts_value : List Str → Values
texts_value [] = nil
texts_value (s ∷ ss) = cons (text s) (texts_value ss)

store_texts_from-texts_value :
    (ss : List Str) → store_texts_from (values (texts_value ss)) ≡ (ss, true)
unfolding store_texts_from texts_value
store_texts_from-texts_value [] = refl
store_texts_from-texts_value (s ∷ ss) = rw (store_texts_from-texts_value ss) refl

-- A slice that was encoded is stored as it was.
pub store_texts-texts_value :
    (ss old : List Str) → store_texts (array (texts_value ss)) old ≡ (ss, true)
unfolding store_texts
store_texts-texts_value ss old = store_texts_from-texts_value ss

-- A nil slice is encoded as null.
unfoldable pub slice_document : Bool → List Str → Value
unfolding texts_value
slice_document true [] = null
slice_document nil_slice ss = array (texts_value ss)

pub store_texts-slice_document :
    (nil_slice : Bool) (ss old : List Str)
    → store_texts (slice_document nil_slice ss) old ≡ (ss, true)
unfolding slice_document store_texts
store_texts-slice_document true [] old = refl
store_texts-slice_document false [] old = refl
store_texts-slice_document true (s ∷ ss) old = store_texts-texts_value (s ∷ ss) old
store_texts-slice_document false (s ∷ ss) old = store_texts-texts_value (s ∷ ss) old

-- strconv.ParseInt(literal, 10, 64) on a number literal: only digits, maybe behind a minus, in range.
digits_value : ℕ → Str → Option ℕ
digits_value n [] = some n
digits_value n (c ∷ s) =
    let more = digits_value (n * 10 + (c - b'0')) s in
    if leb b'0' c && leb c b'9' then more else none

abbrev at_most : ℕ → Option ℕ → Bool
at_most k none = false
at_most k (some n) = leb n k

unfoldable pub is_int64 : Str → Bool
unfolding digits_value
is_int64 [] = false
is_int64 (c ∷ s) =
    if eqb c b'-'
    then not (s == []) && at_most (2 ^ 63) (digits_value 0 s)
    else at_most (2 ^ 63 - 1) (digits_value 0 (c ∷ s))
