-- ===== src/Adapter.antt =====
-- services/token-exchange/internal/adapter/adapter.go: the token types, the interface of an adapter
-- and the registry. The adapters are the modules below.
pub mod Lookup
mod Tests
pub mod HmacAdapter
pub mod JwtAdapter
pub mod OpaqueAdapter
pub mod SamlAdapter
use centralized_identity.Common.{
  Str, codes, Map, get, put, ◌++◌, ℕ, Bool, Option, none, some, List, [], ◌∷◌, Result, ok, err,
  plain, if◌then◌else◌,
}
use centralized_identity.Canonical.{IdentityClaims}

-- TokenType
abbrev pub token_type_jwt : Str
token_type_jwt = codes "urn:ietf:params:oauth:token-type:jwt"

abbrev pub token_type_access : Str
token_type_access = codes "urn:ietf:params:oauth:token-type:access_token"

abbrev pub token_type_saml2 : Str
token_type_saml2 = codes "urn:ietf:params:oauth:token-type:saml2"

abbrev pub token_type_hmac : Str
token_type_hmac = codes "urn:identity-fabric:token-type:hmac"

abbrev pub token_type_opaque : Str
token_type_opaque = codes "urn:identity-fabric:token-type:opaque"

pub record ExchangeRequest : Type 0 where
  pub subject_token : Str
  pub subject_token_type : Str
  pub audience : List Str
  pub scope : List Str
  pub requested_type : Str

pub record ExchangeResult : Type 0 where
  pub subject : Str
  pub identity_claims : IdentityClaims

-- The interface: its methods, at a time of the clock where they read it.
pub record Adapter : Type 0 where
  pub token_type : Str
  pub exchange : ℕ → ExchangeRequest → Result ExchangeResult
  pub detect : Str → Bool

pub record Registry : Type 0 where
  pub adapters : Map Adapter

unfoldable pub new_registry : Registry
new_registry = record { adapters = [] }

unfoldable pub register : Registry → Adapter → Registry
unfolding put
register r a = record { adapters = put r.adapters a.token_type a }

found_adapter : Str → Option Adapter → Result Adapter
found_adapter token_type none =
    err (plain (codes "no adapter registered for token type: " ++ token_type))
found_adapter token_type (some a) = ok a

unfoldable pub get_adapter : Registry → Str → Result Adapter
unfolding found_adapter
get_adapter r token_type = found_adapter token_type (get r.adapters token_type)

-- The loop of `Detect`. Go visits a map's entries in an order of its own at every call: it is the
-- first argument, an order of the registry's adapters.
unfoldable pub detect_adapter : List Adapter → Str → Option Adapter
detect_adapter [] token = none
detect_adapter (a ∷ order) token = if a.detect token then some a else detect_adapter order token
