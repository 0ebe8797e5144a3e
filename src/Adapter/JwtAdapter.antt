-- ===== src/Adapter/JwtAdapter.antt =====
-- services/token-exchange/internal/adapter/jwt_adapter.go. The parsing of a token, the reading of
-- its issuer and of a segment of it are golang-jwt's.
pub mod Trusted
use centralized_identity.Common.{
  Str, codes, Map, get, split, ◌==◌, ◌++◌, ℕ, Bool, true, false, Option, none, some, List, [], ◌∷◌,
  Result, ok, err, plain, ◌>>=◌, wrap, or_error, if◌then◌else◌,
}
use centralized_identity.Common.Json.{Value, null, text, array, object, values, members, field}
use centralized_identity.Jwt.{Claims, asserted, other_type, Token, Keyfunc, Parse}
use centralized_identity.Canonical.{auth_legacy}
use centralized_identity.Adapter.{token_type_jwt, ExchangeRequest, ExchangeResult, Adapter}

pub record ClaimMapping : Type 0 where
  pub subject_field : Str
  pub roles_field : Str
  pub org_id_field : Str

pub record TrustedIssuer : Type 0 where
  pub name : Str
  pub jwks_url : Str
  pub trust_level : Str
  pub claim_map : ClaimMapping

-- jwt.MapClaims
abbrev pub MapClaims : Type 0
MapClaims = Map Value

-- What the adapter calls: golang-jwt, and the parsing of a JSON text.
pub record Services : Type 0 where
  pub parse : Parse MapClaims
  pub get_issuer : MapClaims → Str
  pub decode_segment : Str → Option Str
  pub json_document : Str → Option Value

-- JWTAdapter; its configuration is the map of the trusted issuers.
pub record JwtConfig : Type 0 where
  pub trusted_issuers : Map TrustedIssuer
  pub key_func : Keyfunc MapClaims

-- h["alg"] != nil, in a document that is an object (or null, which gives an empty map)
has_alg : Option Value → Bool
unfolding field ◌==◌
has_alg (some (object ms)) = elim (field (members ms) (codes "alg")) [
  | none ↦ false
  | some null ↦ false
  | some v ↦ true
]
has_alg _ = false

detect_header : Services → Option Str → Bool
unfolding has_alg
detect_header s none = false
detect_header s (some header) = has_alg (s.json_document header)

detect_parts : Services → List Str → Bool
unfolding detect_header
detect_parts s (a ∷ b ∷ c ∷ []) = detect_header s (s.decode_segment a)
detect_parts s _ = false

unfoldable pub detect : Services → Str → Bool
unfolding detect_parts split
detect s token = detect_parts s (split token b'.')

-- The field that is read: the preferred one, or the fallback where none is configured.
unfoldable pub claim_field : Str → Str → Str
claim_field preferred fallback = if preferred == [] then fallback else preferred

text_or_empty : Option Value → Str
text_or_empty (some (text s)) = s
text_or_empty _ = []

unfoldable pub extract_claim : MapClaims → Str → Str → Str
unfolding text_or_empty get claim_field
extract_claim claims preferred fallback =
    text_or_empty (get claims (claim_field preferred fallback))

-- The items of an array that are strings, in order.
unfoldable pub texts : List Value → List Str
texts [] = []
texts (text s ∷ vs) = s ∷ texts vs
texts (v ∷ vs) = texts vs

-- A nil slice is the empty list.
strings : Option Value → List Str
unfolding texts split
strings (some (array vs)) = texts (values vs)
strings (some (text s)) = split s b','
strings _ = []

unfoldable pub extract_string_slice : MapClaims → Str → Str → List Str
unfolding strings get claim_field
extract_string_slice claims preferred fallback =
    strings (get claims (claim_field preferred fallback))

-- token.Claims.(jwt.MapClaims)
map_claims : Claims MapClaims → Result MapClaims
map_claims (asserted c) = ok c
map_claims other_type = err (plain (codes "unexpected claims type"))

unfoldable pub result : MapClaims → Str → TrustedIssuer → ExchangeResult
unfolding extract_claim extract_string_slice
result claims issuer trusted = record {
  subject = extract_claim claims trusted.claim_map.subject_field (codes "sub");
  identity_claims = record {
    org_id = extract_claim claims trusted.claim_map.org_id_field (codes "org_id");
    roles = extract_string_slice claims trusted.claim_map.roles_field (codes "roles");
    auth_method = auth_legacy;
    original_issuer = issuer;
    trust_level = trusted.trust_level;
    pci_scope = false;
    service_name = [];
  };
}

unfoldable pub exchange : Services → JwtConfig → ℕ → ExchangeRequest → Result ExchangeResult
unfolding map_claims get
exchange s config now req = do
  token ← wrap (codes "jwt validation failed") (
      s.parse (record { issuer = none; expiration_required = true; issued_at = false }) now
        config.key_func req.subject_token)
  claims ← map_claims token.claims
  trusted ←
      or_error (plain (codes "untrusted issuer: " ++ s.get_issuer claims))
        (get config.trusted_issuers (s.get_issuer claims))
  ok (result claims (s.get_issuer claims) trusted)

unfoldable pub jwt_adapter : Services → JwtConfig → Adapter
unfolding detect exchange
jwt_adapter s config = record {
  token_type = token_type_jwt;
  exchange = exchange s config;
  detect = detect s;
}
