-- ===== src/Adapter/SamlAdapter.antt =====
-- services/token-exchange/internal/adapter/saml_adapter.go. The unmarshalling of XML and the parsing
-- of a time in the layout of RFC 3339 are the library's.
pub mod Assertion
pub mod Attributes
use centralized_identity.Common.{
  Str, codes, Map, get, put, split, join, contains, ltb, eqb, ◌==◌, ◌++◌, ℕ, ◌*◌, Bool, true, false,
  ◌||◌, not, Option, none, some, List, [], ◌∷◌, Result, ok, err, plain, wrapped, cause,
  base64_input, xml_input, Error, ◌>>=◌, ◌>>◌, require, wrap, or_error, if◌then◌else◌,
}
use centralized_identity.Common.Base64.{decode_std}
use centralized_identity.Canonical.{minute, auth_saml}
use centralized_identity.Adapter.{token_type_saml2, ExchangeRequest, ExchangeResult, Adapter}

pub record SamlIdp : Type 0 where
  pub entity_id : Str
  pub cert_pem : Str
  pub trust_level : Str

pub record SamlConfig : Type 0 where
  pub trusted_idps : Map SamlIdp
  pub max_assertion_age : ℕ

unfoldable pub new_saml_config : SamlConfig → SamlConfig
new_saml_config config =
    if eqb config.max_assertion_age 0
    then record config { max_assertion_age = 5 * minute }
    else config

pub record Attribute : Type 0 where
  pub name : Str
  pub values : List Str

-- samlAssertion; an attribute statement is the list of its attributes.
pub record SamlAssertion : Type 0 where
  pub issuer : Str
  pub name_id : Str
  pub not_before : Str
  pub not_on_or_after : Str
  pub attribute_statements : List (List Attribute)

-- The library: XML read as a Response (its assertions) and as an Assertion, and time.Parse.
pub record Services : Type 0 where
  pub xml_response : Str → Option (List SamlAssertion)
  pub xml_assertion : Str → Option SamlAssertion
  pub parse_time : Str → Option ℕ

unfoldable pub detect_decoded : Option Str → Bool
unfolding contains
detect_decoded none = false
detect_decoded (some s) =
    contains s (codes "<saml") || contains s (codes "<Assertion") || contains s (codes "saml2:")

unfoldable pub detect : Str → Bool
unfolding detect_decoded
detect token = detect_decoded (decode_std token)

unfoldable pub coalesce : List Str → Str
coalesce [] = []
coalesce (v ∷ vs) = if v == [] then coalesce vs else v

-- The first assertion of a response, or else the document as an assertion.
bare_assertion : Option SamlAssertion → Result SamlAssertion
bare_assertion (some a) = ok a
bare_assertion none =
    err (wrapped (codes "expected element type <Assertion> or <Response>") (cause xml_input))

assertion_of : Services → Str → Option (List SamlAssertion) → Result SamlAssertion
unfolding bare_assertion
assertion_of s text (some (a ∷ more)) = ok a
assertion_of s text _ = bare_assertion (s.xml_assertion text)

unfoldable pub parse_saml_payload : Services → Str → Result SamlAssertion
unfolding assertion_of
parse_saml_payload s text = assertion_of s text (s.xml_response text)

-- One round over an attribute: one without values is passed over.
unfoldable pub add_attribute : Map Str → Attribute → Map Str
unfolding put join
add_attribute attrs a = elim a.values [
  | [] ↦ attrs
  | v ∷ vs ↦ put attrs a.name (join (v ∷ vs) (codes ","))
]

unfoldable pub add_attributes : Map Str → List Attribute → Map Str
unfolding add_attribute
add_attributes attrs [] = attrs
add_attributes attrs (a ∷ more) = add_attributes (add_attribute attrs a) more

unfoldable pub add_statements : Map Str → List (List Attribute) → Map Str
unfolding add_attributes
add_statements attrs [] = attrs
add_statements attrs (stmt ∷ stmts) = add_statements (add_attributes attrs stmt) stmts

unfoldable pub extract_saml_attributes : SamlAssertion → Map Str
unfolding add_statements
extract_saml_attributes assertion = add_statements [] assertion.attribute_statements

-- A missing attribute is the empty string.
unfoldable pub attribute : Map Str → Str → Str
unfolding get
attribute attrs name = elim (get attrs name) [ none ↦ [] | some v ↦ v ]

-- Whether the assertion's end is given, is a time, and lies in the past.
past : Option ℕ → ℕ → Bool
past none now = false
past (some expiry) now = ltb expiry now

unfoldable pub is_expired : Services → SamlAssertion → ℕ → Bool
unfolding past
is_expired s a now =
    if a.not_on_or_after == [] then false else past (s.parse_time a.not_on_or_after) now

unfoldable pub saml_roles : Map Str → List Str
unfolding split coalesce attribute
saml_roles attrs =
    split (coalesce (attribute attrs (codes "roles") ∷ attribute attrs (codes "role") ∷ [])) b','

unfoldable pub result : SamlAssertion → SamlIdp → ExchangeResult
unfolding saml_roles extract_saml_attributes
result a idp =
    let attrs = extract_saml_attributes a in
    record {
      subject = codes "user:" ++ a.name_id;
      identity_claims = record {
        org_id = coalesce (attribute attrs (codes "org_id") ∷ attribute attrs (codes "org") ∷ []);
        roles = saml_roles attrs;
        auth_method = auth_saml;
        original_issuer = idp.entity_id;
        trust_level = idp.trust_level;
        pci_scope = false;
        service_name = [];
      };
    }

unfoldable pub exchange : Services → SamlConfig → ℕ → ExchangeRequest → Result ExchangeResult
unfolding parse_saml_payload get is_expired
exchange s config now req = do
  decoded ←
      or_error (wrapped (codes "SAML token is not valid base64") (cause base64_input))
        (decode_std req.subject_token)
  assertion ← wrap (codes "SAML assertion parse failed") (parse_saml_payload s decoded)
  idp ←
      or_error (plain (codes "untrusted SAML issuer: " ++ assertion.issuer))
        (get config.trusted_idps assertion.issuer)
  require (not (is_expired s assertion now))
      (plain (codes "SAML assertion expired at " ++ assertion.not_on_or_after))
  ok (result assertion idp)

unfoldable pub saml_adapter : Services → SamlConfig → Adapter
unfolding detect exchange new_saml_config
saml_adapter s config = record {
  token_type = token_type_saml2;
  exchange = exchange s (new_saml_config config);
  detect = detect;
}
