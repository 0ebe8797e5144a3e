-- ===== src/Sdk/Client.antt =====
-- sdk/go/identity.go and sdk/go/helpers.go: the client, the validation of a canonical token, and the
-- calls of the policy engine and of the token exchange. The JSON encoder, the HTTP client and
-- golang-jwt are parameters.
pub mod Decisions
pub mod Served
pub mod Global
pub mod Wire
pub mod Tests
use centralized_identity.Common.{
  Str, codes, eqb, ◌==◌, ◌++◌, ℕ, ◌*◌, Bool, true, false, Option, none, some, List, [], ◌∷◌, Result,
  ok, err, plain, wrapped, cause, json_input, foreign, Error, ◌>>=◌, wrap, or_error, if◌then◌else◌,
}
use centralized_identity.Common.Json.{Value, Field, store_struct, store_text, store_bool, when_fine}
use centralized_identity.Jwt.{ParserOptions, Token, Keyfunc, Parse, Claims, asserted, other_type}
use centralized_identity.Canonical.{second}
use centralized_identity.Http.{HttpResponse}
use centralized_identity.Sdk.{Identity}
use centralized_identity.Sdk.Jwks.{JwksCache, new_jwks_cache, refresh_if_stale, key_of}
use centralized_identity.Sdk.Jwks

pub record Config : Type 0 where
  pub service_name : Str
  pub exchange_endpoint : Str
  pub policy_endpoint : Str
  pub jwks_endpoint : Str
  pub cache_ttl : ℕ
  pub request_timeout : ℕ

unfoldable pub default_config : Str → Config
default_config service_name = record {
  service_name = service_name;
  exchange_endpoint = codes "http://localhost:8080/v1/token/exchange";
  policy_endpoint = codes "http://localhost:8181/v1/data";
  jwks_endpoint = codes "http://localhost:8080/.well-known/jwks.json";
  cache_ttl = 60 * second;
  request_timeout = 2 * second;
}

-- The HTTP client is its time-out.
pub record Client : Type 0 where
  pub config : Config
  pub jwks_cache : JwksCache
  pub timeout : ℕ

unfoldable pub new_client : Config → Result Client
unfolding new_jwks_cache
new_client config =
    if config.service_name == []
    then err (plain (codes "identity: ServiceName is required"))
    else ok (record {
      config = config;
      jwks_cache = new_jwks_cache config.jwks_endpoint config.cache_ttl;
      timeout = config.request_timeout;
    })

-- Init, on the global client: the guard that it runs once is made anew by every call.
initialised : Option Client → Result Client → Result (Unit {0}) × Option Client
initialised global (ok c) = (ok tt, some c)
initialised global (err e) = (err e, global)

unfoldable pub init : Option Client → Config → Result (Unit {0}) × Option Client
unfolding initialised
init global config = initialised global (new_client config)

-- GetClient; its panic is an error.
unfoldable pub get_client : Option Client → Result Client
get_client none = err (plain (codes "identity: Init() must be called before GetClient()"))
get_client (some c) = ok c

-- canonicalClaims: the subject of the registered claims, and the claims of the fabric.
pub record CanonicalClaims : Type 0 where
  pub subject : Str
  pub org_id : Str
  pub roles : List Str
  pub auth_method : Str
  pub trust_level : Str
  pub pci_scope : Bool

claims_of : Claims CanonicalClaims → Result CanonicalClaims
claims_of (asserted c) = ok c
claims_of other_type = err (plain (codes "unexpected claims type"))

abbrev pub parser_options : ParserOptions
parser_options = record {
  issuer = some (codes "identity-fabric.internal");
  expiration_required = true;
  issued_at = true;
}

unfoldable pub validate_canonical_jwt :
    Parse CanonicalClaims → ℕ → Str → Keyfunc CanonicalClaims → Result CanonicalClaims
unfolding claims_of
validate_canonical_jwt parse now token key_func = do
  t ← parse parser_options now key_func token
  claims_of t.claims

abbrev pub identity_of : CanonicalClaims → Identity
identity_of c = record {
  subject = c.subject;
  org_id = c.org_id;
  roles = c.roles;
  auth_method = c.auth_method;
  trust_level = c.trust_level;
  pci_scope = c.pci_scope;
}

-- The token is parsed with the keys that the refresh has left.
validated :
    Parse CanonicalClaims → ℕ → Str → Result (Unit {0}) × JwksCache → Result Identity × JwksCache
validated parse now token (err e, c) = (err (wrapped (codes "identity: JWKS fetch failed") e), c)
validated parse now token (ok u, c) = (
  do
    claims ←
        wrap (codes "identity: token validation failed")
          (validate_canonical_jwt parse now token (key_of c))
    ok (identity_of claims),
  c,
)

-- ValidateToken, on the client's key cache.
unfoldable pub validate_token :
    Parse CanonicalClaims → Jwks.Services → ℕ → JwksCache → Str → Result Identity × JwksCache
unfolding validated
validate_token parse s now c token = validated parse now token (refresh_if_stale s c)

-- The values of the input of a policy.
pub data PolicyValue : Type 0 where
  text : Str → PolicyValue
  texts : List Str → PolicyValue

unfoldable pub policy_input : Config → Identity → Str → Str → List (Str × PolicyValue)
policy_input config identity resource action =
    (codes "subject", text identity.subject)
    ∷ (codes "org_id", text identity.org_id)
    ∷ (codes "roles", texts identity.roles)
    ∷ (codes "auth_method", text identity.auth_method)
    ∷ (codes "trust_level", text identity.trust_level)
    ∷ (codes "resource", text resource)
    ∷ (codes "action", text action)
    ∷ (codes "service_name", text config.service_name)
    ∷ []

-- The library and the services: the encoder, a POST of a body to an endpoint, and the decoder.
pub record Services : Type 0 where
  pub marshal_input : List (Str × PolicyValue) → Result Str
  pub marshal_texts : List (Str × Str) → Result Str
  pub new_request : Str → Str → Result Str
  pub send : Str → Result HttpResponse
  pub decode_json : Str → Option Value

-- struct { Result struct { Allow bool } }
allow_fields : List (Field Bool)
unfolding store_bool
allow_fields = record { name = codes "allow"; store = store_bool } ∷ []

result_fields : List (Field Bool)
unfolding store_struct allow_fields
result_fields = record { name = codes "result"; store = store_struct allow_fields } ∷ []

unfoldable pub allow_of : Services → Str → Option Bool
unfolding store_struct result_fields
allow_of s body = elim (s.decode_json body) [
  | none ↦ none
  | some v ↦ when_fine (store_struct result_fields v false)
]

unfoldable pub evaluate_policy : Services → Str → List (Str × PolicyValue) → Result Bool
evaluate_policy s endpoint input = do
  body ← wrap (codes "policy input marshal failed") (s.marshal_input input)
  req ← s.new_request endpoint body
  resp ← wrap (codes "policy evaluation request failed") (s.send req)
  or_error (wrapped (codes "policy response parse failed") (cause json_input))
      (allow_of s resp.body)

unfoldable pub check_policy : Services → Client → Identity → Str → Str → Result Bool
check_policy s c identity resource action =
    evaluate_policy s c.config.policy_endpoint (policy_input c.config identity resource action)

-- The two texts of an error response, as far as they could be decoded.
error_fields : List (Field (Str × Str))
unfolding store_text
error_fields =
    record { name = codes "error"; store = λ v e. let r = store_text v e.0 in ((r.0, e.1), r.1) }
    ∷ record {
      name = codes "error_description";
      store = λ v e. let r = store_text v e.1 in ((e.0, r.0), r.1);
    }
    ∷ []

unfoldable pub error_response : Option Value → Str × Str
unfolding store_struct error_fields
error_response none = ([], [])
error_response (some v) = (store_struct error_fields v ([], [])).0

token_fields : List (Field Str)
unfolding store_text
token_fields = record { name = codes "access_token"; store = store_text } ∷ []

unfoldable pub access_token_of : Services → Str → Option Str
unfolding store_struct token_fields
access_token_of s body = elim (s.decode_json body) [
  | none ↦ none
  | some v ↦ when_fine (store_struct token_fields v [])
]

refused_exchange : Str × Str → Error
refused_exchange (error, description) =
    plain (codes "token exchange failed: " ++ (error ++ (codes " - " ++ description)))

unfoldable pub exchanged_token : Services → HttpResponse → Result Str
unfolding refused_exchange error_response
exchanged_token s resp =
    if eqb resp.status_code 200
    then or_error (wrapped (codes "exchange response parse failed") (cause json_input))
        (access_token_of s resp.body)
    else err (refused_exchange (error_response (s.decode_json resp.body)))

unfoldable pub exchange_token : Services → Client → Str → Str → Result Str
unfolding exchanged_token
exchange_token s c token token_type = do
  body ← s.marshal_texts (
      (codes "grant_type", codes "urn:ietf:params:oauth:grant-type:token-exchange")
      ∷ (codes "subject_token", token)
      ∷ (codes "subject_token_type", token_type)
      ∷ [])
  req ← s.new_request c.config.exchange_endpoint body
  resp ← wrap (codes "token exchange request failed") (s.send req)
  exchanged_token s resp
