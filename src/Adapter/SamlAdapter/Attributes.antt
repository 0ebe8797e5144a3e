-- ===== src/Adapter/SamlAdapter/Attributes.antt =====
-- What the SAML adapter takes from the attributes of an assertion.
use centralized_identity.Common.{
  Str, codes, Map, get, get-put, split, join, split-join, Lacks, All, ◌==◌, ==_iff, ◌++◌, Option,
  none, some, true, false, List, [], ◌∷◌, ◌≡◌, ◌≢◌, ◌&&◌, Bool, ◌∙◌, sym, refl, ap, arith,
  if◌then◌else◌, Bool-cases, inl, inr,
}
use mathlib.Core.Option
use mathlib.Core.List.{flatten}
use centralized_identity.Adapter.SamlAdapter.{
  SamlIdp, Attribute, SamlAssertion, coalesce, add_attribute, add_attributes, add_statements,
  extract_saml_attributes, attribute, saml_roles, result,
}

abbrev has_items : List Str → Bool
has_items [] = false
has_items (v ∷ vs) = true

-- The values of the last attribute of that name which has values.
unfoldable pub last_values : Str → List Attribute → Option (List Str)
last_values name [] = none
last_values name (a ∷ more) = elim (last_values name more) [
  | some vs ↦ some vs
  | none ↦ if a.name == name && has_items a.values then some a.values else none
]

abbrev joined_or : Option Str → Option (List Str) → Option Str
joined_or o none = o
joined_or o (some vs) = some (join vs (codes ","))

get-add_values :
    (m : Map Str) (name : Str) (values : List Str) (k : Str)
    → get (add_attribute m (record { name = name; values = values })) k
      ≡ joined_or (get m k) (if name == k && has_items values then some values else none)
unfolding add_attribute
get-add_values m name [] k = elim (Bool-cases (name == k)) [
  | inl same ↦ rw same
  | inr other ↦ rw other
]
get-add_values m name (v ∷ vs) k = elim (Bool-cases (name == k)) [
  | inl same ↦ rw (get-put, same)
  | inr other ↦ rw (get-put, other)
]

get-add_attribute :
    (m : Map Str) (a : Attribute) (name : Str)
    → get (add_attribute m a) name
      ≡ joined_or
          (get m name)
          (if a.name == name && has_items a.values then some a.values else none)
get-add_attribute m a name = get-add_values m a.name a.values name

get-add_attributes :
    (m : Map Str) (attrs : List Attribute) (name : Str)
    → get (add_attributes m attrs) name ≡ joined_or (get m name) (last_values name attrs)
unfolding add_attributes last_values
get-add_attributes m [] name = refl
get-add_attributes m (a ∷ more) name =
    rw (get-add_attributes (add_attribute m a) more name, get-add_attribute m a name) (ground arith)

add_attributes-append :
    (m : Map Str) (front back : List Attribute)
    → add_attributes m (front ++ back) ≡ add_attributes (add_attributes m front) back
unfolding add_attributes
add_attributes-append m [] back = refl
add_attributes-append m (a ∷ front) back = add_attributes-append (add_attribute m a) front back

add_statements-flatten :
    (m : Map Str) (stmts : List (List Attribute))
    → add_statements m stmts ≡ add_attributes m (flatten stmts)
unfolding add_statements flatten
add_statements-flatten m [] = unfold add_attributes flatten in refl
add_statements-flatten m (stmt ∷ stmts) =
    add_statements-flatten (add_attributes m stmt) stmts
    ∙ sym (add_attributes-append m stmt (flatten stmts))

joined_or-none :
    (o : Option (List Str)) → joined_or none o ≡ Option.map (λ vs. join vs (codes ",")) o
joined_or-none none = refl
joined_or-none (some vs) = refl

-- An attribute of the assertion is the values of the last attribute of that name which has values, in
-- any of its statements, joined by commas; there is none if there is no such attribute.
pub get-extract_saml_attributes :
    (a : SamlAssertion) (name : Str)
    → get (extract_saml_attributes a) name
      ≡ Option.map (λ vs. join vs (codes ",")) (last_values name (flatten a.attribute_statements))
unfolding extract_saml_attributes get
get-extract_saml_attributes a name =
    let attrs = flatten a.attribute_statements in
    ap (λ (m : Map Str). get m name) (add_statements-flatten [] a.attribute_statements)
    ∙ get-add_attributes [] attrs name
    ∙ joined_or-none (last_values name attrs)

attribute-last :
    (a : SamlAssertion) (name : Str) (vs : List Str)
    → last_values name (flatten a.attribute_statements) ≡ some vs
    → attribute (extract_saml_attributes a) name ≡ join vs (codes ",")
unfolding attribute
attribute-last a name vs last = rw (attribute, get-extract_saml_attributes a name, last)

attribute-missing :
    (a : SamlAssertion) (name : Str)
    → last_values name (flatten a.attribute_statements) ≡ none
    → attribute (extract_saml_attributes a) name ≡ []
unfolding attribute
attribute-missing a name missing = rw (attribute, get-extract_saml_attributes a name, missing)

join-ne-nil : (roles : List Str) → join roles (codes ",") ≢ [] → roles ≢ []
unfolding join
join-ne-nil [] h = absurd (h refl)
join-ne-nil (r ∷ rs) h = λ e. cc e

coalesce-first : (v w : Str) → v ≢ [] → coalesce (v ∷ w ∷ []) ≡ v
unfolding coalesce
coalesce-first v w h = ground (arith, ==_iff v [])

-- The roles of the result are the values of the last attribute `roles` that has values, if none of
-- them holds a comma and they are not a single empty text.
pub result-roles :
    (a : SamlAssertion) (idp : SamlIdp) (roles : List Str)
    → last_values (codes "roles") (flatten a.attribute_statements) ≡ some roles
    → All (Lacks b',') roles
    → join roles (codes ",") ≢ []
    → (result a idp).identity_claims.roles ≡ roles
unfolding result
result-roles a idp roles last plain some_text =
    rw
      (
        saml_roles,
        attribute-last a (codes "roles") roles last,
        coalesce-first (join roles (codes ","))
            (attribute (extract_saml_attributes a) (codes "role")) some_text,
      )
      (split-join roles b',' (join-ne-nil roles some_text) plain)

-- An assertion without roles, in neither attribute, is given one role: the empty text.
pub result-no_roles :
    (a : SamlAssertion) (idp : SamlIdp)
    → last_values (codes "roles") (flatten a.attribute_statements) ≡ none
    → last_values (codes "role") (flatten a.attribute_statements) ≡ none
    → (result a idp).identity_claims.roles ≡ [] ∷ []
unfolding result coalesce split ◌==◌
result-no_roles a idp no_roles no_role = rw (
  saml_roles,
  attribute-missing a (codes "roles") no_roles,
  attribute-missing a (codes "role") no_role,
)
