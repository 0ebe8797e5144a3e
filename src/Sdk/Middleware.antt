-- ===== src/Sdk/Middleware.antt =====
-- sdk/go/middleware.go: the handler that lets requests with a fit token through to another handler.
pub mod Access
use centralized_identity.Common.{
  Str, codes, Map, get, put, leb, ◌==◌, ◌++◌, ℕ, Bool, true, false, ◌&&◌, not, Option, none, some,
  List, [], ◌∷◌, Result, ok, err, has_prefix, trim_prefix, if◌then◌else◌,
}
use centralized_identity.Jwt.{Parse}
use centralized_identity.Http.{HttpRequest, Writer, get_header, set_header, write_header, write}
use centralized_identity.Sdk.{
  Identity, SdkError, missing_token, insufficient_trust, pci_scope_required, forbidden,
  token_expired, invalid_issuer, other_error,
}
use centralized_identity.Sdk.Jwks.{JwksCache}
use centralized_identity.Sdk.Jwks
use centralized_identity.Sdk.Client.{CanonicalClaims, validate_token}

-- OnError may be nil.
pub record MiddlewareOptions : Type 0 where
  pub skip_paths : List Str
  pub require_trust : Str
  pub require_pci : Bool
  pub on_error : Option (Writer Str → HttpRequest → SdkError → Writer Str)

-- The map from level to rank; a level that it lacks has the rank 0.
trust_order : Map ℕ
trust_order = (codes "low", 0) ∷ (codes "medium", 1) ∷ (codes "high", 2) ∷ []

trust_rank : Str → ℕ
unfolding get trust_order
trust_rank level = elim (get trust_order level) [ none ↦ 0 | some n ↦ n ]

unfoldable pub meets_min_trust : Str → Str → Bool
unfolding trust_rank
meets_min_trust actual required = leb (trust_rank required) (trust_rank actual)

unfoldable pub extract_bearer_token : HttpRequest → Str
unfolding get_header
extract_bearer_token r =
    let auth = get_header r.header (codes "Authorization") in
    if has_prefix auth (codes "Bearer ") then trim_prefix auth (codes "Bearer ") else []

default_status : SdkError → ℕ
default_status insufficient_trust = 403
default_status pci_scope_required = 403
default_status forbidden = 403
default_status _ = 401

default_body : SdkError → Str
default_body missing_token =
    codes "{\"error\":\"unauthorized\",\"message\":\"missing or invalid bearer token\"}"
default_body insufficient_trust =
    codes "{\"error\":\"forbidden\",\"message\":\"insufficient trust level\"}"
default_body pci_scope_required =
    codes "{\"error\":\"forbidden\",\"message\":\"PCI scope required\"}"
default_body forbidden = codes "{\"error\":\"forbidden\",\"message\":\"insufficient permissions\"}"
default_body _ = codes "{\"error\":\"unauthorized\",\"message\":\"token validation failed\"}"

unfoldable pub default_error_handler : Writer Str → HttpRequest → SdkError → Writer Str
unfolding default_status default_body set_header write_header write
default_error_handler w r e = write (default_body e) (
    write_header (default_status e)
      (set_header (codes "Content-Type") (codes "application/json") w))

unfoldable pub error_handler : MiddlewareOptions → Writer Str → HttpRequest → SdkError → Writer Str
unfolding default_error_handler
error_handler opts = elim opts.on_error [ none ↦ default_error_handler | some h ↦ h ]

unfoldable pub skip_set : List Str → Map Bool
unfolding put
skip_set [] = []
skip_set (p ∷ ps) = put (skip_set ps) p true

unfoldable pub skips : MiddlewareOptions → Str → Bool
unfolding get skip_set
skips opts path = elim (get (skip_set opts.skip_paths) path) [ none ↦ false | some b ↦ b ]

-- The wrapped handler: it gets the identity that the context of the request holds.
abbrev pub Handler : Type 0
Handler = Option Identity → HttpRequest → Writer Str → Writer Str

-- The library under the client, and the time.
pub record Platform : Type 0 where
  pub parse : Parse CanonicalClaims
  pub jwks : Jwks.Services
  pub now : ℕ

-- The guards behind the validation.
admitted : MiddlewareOptions → Handler → HttpRequest → Writer Str → Result Identity → Writer Str
unfolding error_handler
admitted opts next r w (err e) = error_handler opts w r (other_error e)
admitted opts next r w (ok identity) =
    if not (opts.require_trust == [])
      && not (meets_min_trust identity.trust_level opts.require_trust)
    then error_handler opts w r insufficient_trust
    else if opts.require_pci && not identity.pci_scope
    then error_handler opts w r pci_scope_required
    else next (some identity) r w

checked :
    MiddlewareOptions
    → Handler
    → HttpRequest
    → Writer Str
    → Result Identity × JwksCache
    → Writer Str × JwksCache
unfolding admitted
checked opts next r w (identity, c) = (admitted opts next r w identity, c)

-- AuthMiddlewareWithOptions: the handler that it makes of `next`, on the client's key cache.
unfoldable pub auth_middleware :
    Platform
    → MiddlewareOptions
    → Handler
    → HttpRequest
    → Writer Str
    → JwksCache
    → Writer Str × JwksCache
unfolding checked error_handler
auth_middleware p opts next r w c =
    if skips opts r.path
    then (next none r w, c)
    else if extract_bearer_token r == []
    then (error_handler opts w r missing_token, c)
    else checked opts next r w (validate_token p.parse p.jwks p.now c (extract_bearer_token r))

-- AuthMiddleware
abbrev pub no_options : MiddlewareOptions
no_options = record { skip_paths = []; require_trust = []; require_pci = false; on_error = none }

unfoldable pub default_middleware :
    Platform → Handler → HttpRequest → Writer Str → JwksCache → Writer Str × JwksCache
unfolding auth_middleware
default_middleware p = auth_middleware p no_options
