-- ===== src/Common/Json/Codec.antt =====
-- An encoder of documents and the decoder that reads them back, as a pair of functions to run the
-- program with: each item of a document stands behind its parts.
use Prim.Native.Nat.{ℕ, ◌+◌, ◌-◌}
use mathlib.Core.Path.{◌≡◌, refl, ◌∙◌}
use mathlib.Core.Bool.{true, false}
use mathlib.Core.Option.{Option, none, some}
use mathlib.Core.List.{List, [], ◌∷◌}
use native.Mathlib.Omega.{arith}
use centralized_identity.Common.Tests.{leb, eqb, if◌then◌else◌}
use centralized_identity.Common.Text.{Str}
use centralized_identity.Common.Json.{
  Value, null, boolean, number, text, array, object, Values, nil, cons, Members, end, member,
}

data Item : Type 0 where
  chars : Str → Item
  one : Value → Item
  many : Values → Item
  fields : Members → Item

encode_text : Str → Str → Str
encode_text [] rest = 0 ∷ rest
encode_text (c ∷ s) rest = encode_text s ((c + 16) ∷ rest)

mutual
  unfolding encode_text

  encode_value : Value → Str → Str
  encode_value null rest = 1 ∷ rest
  encode_value (boolean true) rest = 2 ∷ rest
  encode_value (boolean false) rest = 3 ∷ rest
  encode_value (number s) rest = encode_text s (4 ∷ rest)
  encode_value (text s) rest = encode_text s (5 ∷ rest)
  encode_value (array vs) rest = encode_values vs (8 ∷ rest)
  encode_value (object ms) rest = encode_members ms (11 ∷ rest)

  encode_values : Values → Str → Str
  encode_values nil rest = 6 ∷ rest
  encode_values (cons v vs) rest = encode_values vs (encode_value v (7 ∷ rest))

  encode_members : Members → Str → Str
  encode_members end rest = 9 ∷ rest
  encode_members (member k v ms) rest =
      encode_members ms (encode_value v (encode_text k (10 ∷ rest)))

push_char : ℕ → List Item → List Item
push_char c (chars s ∷ st) = chars (c ∷ s) ∷ st
push_char c st = st

close_number : List Item → List Item
close_number (chars s ∷ st) = one (number s) ∷ st
close_number st = st

close_text : List Item → List Item
close_text (chars s ∷ st) = one (text s) ∷ st
close_text st = st

close_cons : List Item → List Item
close_cons (one v ∷ many vs ∷ st) = many (cons v vs) ∷ st
close_cons st = st

close_array : List Item → List Item
close_array (many vs ∷ st) = one (array vs) ∷ st
close_array st = st

close_member : List Item → List Item
close_member (chars k ∷ one v ∷ fields ms ∷ st) = fields (member k v ms) ∷ st
close_member st = st

close_object : List Item → List Item
close_object (fields ms ∷ st) = one (object ms) ∷ st
close_object st = st

step : ℕ → List Item → List Item
unfolding push_char close_number close_text close_cons close_array close_member close_object
step n st =
    if leb 16 n
    then push_char (n - 16) st
    else if eqb n 0
    then chars [] ∷ st
    else if eqb n 1
    then one null ∷ st
    else if eqb n 2
    then one (boolean true) ∷ st
    else if eqb n 3
    then one (boolean false) ∷ st
    else if eqb n 4
    then close_number st
    else if eqb n 5
    then close_text st
    else if eqb n 6
    then many nil ∷ st
    else if eqb n 7
    then close_cons st
    else if eqb n 8
    then close_array st
    else if eqb n 9
    then fields end ∷ st
    else if eqb n 10
    then close_member st
    else close_object st

run : Str → List Item → List Item
unfolding step
run [] st = st
run (n ∷ s) st = run s (step n st)

value_of : List Item → Option Value
value_of (one v ∷ []) = some v
value_of st = none

pub encode : Value → Str
unfolding encode_value
encode v = encode_value v []

pub decode : Str → Option Value
unfolding run value_of
decode s = value_of (run s [])

step-char : (c : ℕ) (s : Str) (st : List Item) → step (c + 16) (chars s ∷ st) ≡ chars (c ∷ s) ∷ st
unfolding step
step-char c s st = ground arith

run-text : (s rest : Str) (st : List Item) → run (encode_text s rest) st ≡ run rest (chars s ∷ st)
unfolding run encode_text
run-text [] rest st = refl
run-text (c ∷ s) rest st = run-text s ((c + 16) ∷ rest) st ∙ rw (step-char c s st) refl

mutual
  unfolding run encode_value

  run-value :
      (v : Value) (rest : Str) (st : List Item)
      → run (encode_value v rest) st ≡ run rest (one v ∷ st)
  run-value null rest st = refl
  run-value (boolean true) rest st = refl
  run-value (boolean false) rest st = refl
  run-value (number s) rest st = run-text s (4 ∷ rest) st
  run-value (text s) rest st = run-text s (5 ∷ rest) st
  run-value (array vs) rest st = run-values vs (8 ∷ rest) st
  run-value (object ms) rest st = run-members ms (11 ∷ rest) st

  run-values :
      (vs : Values) (rest : Str) (st : List Item)
      → run (encode_values vs rest) st ≡ run rest (many vs ∷ st)
  run-values nil rest st = refl
  run-values (cons v vs) rest st =
      run-values vs (encode_value v (7 ∷ rest)) st ∙ run-value v (7 ∷ rest) (many vs ∷ st)

  run-members :
      (ms : Members) (rest : Str) (st : List Item)
      → run (encode_members ms rest) st ≡ run rest (fields ms ∷ st)
  run-members end rest st = refl
  run-members (member k v ms) rest st =
      run-members ms (encode_value v (encode_text k (10 ∷ rest))) st
      ∙ run-value v (encode_text k (10 ∷ rest)) (fields ms ∷ st)
      ∙ run-text k (10 ∷ rest) (one v ∷ fields ms ∷ st)

pub decode-encode : (v : Value) → decode (encode v) ≡ some v
unfolding encode decode value_of
decode-encode v = rw (run-value v [] []) refl
