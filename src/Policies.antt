-- ===== src/Policies.antt =====
-- policies/: the rules of the policy engine, in Rego, on a JSON document as their input. A
-- document that is not defined is `none`: no rule holds of it, neither by == nor by !=.
pub mod Pci
pub mod Soc2
pub mod Authz
pub mod OrderService
pub mod PaymentService
pub mod Engine
pub mod Agreement
pub mod Decisions
pub mod Issued
pub mod Checked
pub mod Tests
use centralized_identity.Common.{
  Str, ◌==◌, ==_iff, ◌≡◌, ◌↔◌, ap, arith, Bool, true, false, not, Option, none, some, List, [], ◌∷◌,
  if◌then◌else◌,
}
use centralized_identity.Common.Json.{
  Value, boolean, text, array, object, Members, end, member, values, members, field,
}

-- What the rules take of Rego's language: == of two documents, and sprintf of one argument.
pub record Rego : Type 0 where
  pub equal : Value → Value → Bool
  pub sprintf : Str → Value → Str

-- document.key
pub ref : Option Value → Str → Option Value
unfolding field
ref (some (object ms)) k = field (members ms) k
ref _ k = none

-- document == "text", document != "text" and document == true
pub is_text : Option Value → Str → Bool
unfolding ◌==◌
is_text (some (text s)) t = s == t
is_text _ t = false

pub is_text_iff : (v : Option Value) (t : Str) → (is_text v t ≡ true) ↔ (v ≡ some (text t))
unfolding is_text
is_text_iff (some (text s)) t =
    (λ h. ap (λ u. some (text u)) ((==_iff s t).0 h), λ e. ground (arith, ==_iff s t))
is_text_iff v t = (λ h. cc h, λ e. cc e)

is_other : Option Value → Str → Bool
unfolding is_text
is_other none t = false
is_other (some v) t = not (is_text (some v) t)

is_true : Option Value → Bool
is_true (some (boolean b)) = b
is_true _ = false

-- some item in document
member_values : Members → List Value
member_values end = []
member_values (member k v ms) = v ∷ member_values ms

pub items : Option Value → List Value
unfolding member_values
items (some (array vs)) = values vs
items (some (object ms)) = member_values ms
items _ = []

-- deny[msg] if test
message : Bool → Str → List Str
message test msg = if test then msg ∷ [] else []
