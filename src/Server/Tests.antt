-- ===== src/Server/Tests.antt =====
-- The service on a small environment: runs of the theorems about it.
use mathlib.Core.List.{Perm}
use mathlib.Core.List.Perm
use centralized_identity.Common.{
  contains, ◌↔◌, Str, Option, codes, Map, get, ◌==◌, ℕ, ◌*◌, ◌/◌, ◌+◌, ◌≤◌, false, none, some, List,
  [], ◌∷◌, Result, ok, ◌>>=◌, >>=-eq-ok, ◌≡◌, refl, Lacks-sound, join, trim_space, split_2, ap, sym,
  ◌∙◌,
}
use centralized_identity.Common.Base64.{decode_std, decode_raw_url}
use centralized_identity.Common.Json.{Value, text, object, member, end, array, cons, nil}
use centralized_identity.Jwt.{Key, Token, Parse, AsksKeyfunc, asserted}
use centralized_identity.Http.{HttpRequest, fresh}
use centralized_identity.Canonical.{mint, CanonicalClaims, second}
use centralized_identity.Adapter.{
  Adapter, ExchangeRequest, ExchangeResult, detect_adapter, get_adapter,
}
use centralized_identity.Adapter.Lookup.{adapters_of}
use centralized_identity.Adapter.JwtAdapter
use centralized_identity.Adapter.JwtAdapter.{MapClaims}
use centralized_identity.Adapter.SamlAdapter
use centralized_identity.Adapter.OpaqueAdapter
use centralized_identity.Exchange.{TokenExchangeResponse}
use centralized_identity.Handler.{serve_http}
use centralized_identity.Handler.Responses.{
  Verdict, verdict_code, verdict_body, Sends, Requests, serve_http-answers, serve_http-token_iff,
}
use centralized_identity.Handler.Telemetry.{spans, serve_http-spans}
use centralized_identity.Handler.Issued.{issues, tokens_in, serve_http-issues}
use centralized_identity.Exchange.Outcome.{Issues, bearer}
use centralized_identity.Exchange.{TokenExchangeRequest}
use centralized_identity.Server.Issuers.{
  get_env, TrustedIssuerEntry, trusted_issuer, build_trusted_issuer_config, parse_trusted_issuers,
}
use centralized_identity.Server.Issuers.Config.{last_entry}
use centralized_identity.Server.Issuers.Format.{
  parse_trusted_issuers-format, format_entries, format_entry,
}
use centralized_identity.Server.Keys.{parse_ec_public_key, build_key_func, Network, fetch_all_jwks}
use centralized_identity.Server.Keys.Fetch.{fetch_all_jwks-requests}
use centralized_identity.Server.SessionStore
use centralized_identity.Server.Wiring.{
  jwt_config, Platform, Moment, entries, server_registry, server_env, token_config,
}
use centralized_identity.Server.Wiring.Detection.Determined.{
  LooksBoth, LooksBoth-iff, server_detect-determined_iff,
}
use centralized_identity.Server.Wiring.Trust.{server_jwt-trusted}
use centralized_identity.Policies.{ref}
use centralized_identity.Policies.Pci
use centralized_identity.Policies.PaymentService
use centralized_identity.Policies.Issued.{server-pci_allow}
use centralized_identity.Server.Wiring.Scope.{server-expires_in}

abbrev idp : TrustedIssuerEntry
idp = record { name = codes "idp"; jwks_url = codes "http://k"; trust = codes "high" }

abbrev environment : Map Str
environment = (codes "TRUSTED_ISSUERS", codes "idp=http://k,high") ∷ []

abbrev parsed_token : Token MapClaims
parsed_token = record { header = []; claims = asserted ((codes "sub", text (codes "ann")) ∷ []) }

-- A parser that takes every token for the same one, and asks for its key.
abbrev parse : Parse MapClaims
parse o now f s = f parsed_token >>= λ k. ok parsed_token

ok-inj : {t u : Token MapClaims} → Result.ok t ≡ Result.ok u → t ≡ u
ok-inj h = cc h

parse-AsksKeyfunc : AsksKeyfunc MapClaims parse
parse-AsksKeyfunc o now f s t h =
    let (k, asked, same) = >>=-eq-ok (f parsed_token) (λ k. ok parsed_token) h in
    (k, ap f (sym (ok-inj same)) ∙ asked)

abbrev jwk : Value
jwk = object (
    member (codes "kty") (text (codes "EC")) (
      member (codes "crv") (text (codes "P-256"))
        (member (codes "x") (text (codes "AQ")) (member (codes "y") (text (codes "Ag")) end))))

abbrev network : Network
network = record {
  get = λ n url. some [];
  decode_json = λ body. some (object (member (codes "keys") (array (cons jwk nil)) end));
}

abbrev request_document : Value
request_document = object (
    member (codes "grant_type") (text (codes "urn:ietf:params:oauth:grant-type:token-exchange")) (
      member (codes "subject_token") (text (codes "sess-0123456789ab")) (
        member (codes "subject_token_type") (text (codes "urn:identity-fabric:token-type:opaque"))
          end)))

abbrev platform : Platform
platform = record {
  env = environment;
  jwt = record {
    parse = parse;
    get_issuer = λ claims. codes "idp";
    decode_segment = λ s. some s;
    json_document = λ s. some (object (member (codes "alg") (text (codes "ES256")) end));
  };
  saml = record { xml_response = λ s. none; xml_assertion = λ s. none; parse_time = λ s. none };
  session = record {
    new_request = λ url. ok url;
    send = λ req id. ok (record { status_code = 200; body = [] });
    decode_json = λ s. some (object (member (codes "user_id") (text (codes "ann")) end));
    parse_time = λ s. none;
  };
  network = network;
  generated_key = codes "key";
  signer = record { numeric_date = λ t. t / second; sign = λ alg c k. ok (codes "signed") };
  decode_json = λ body. some request_document;
  texts = λ c. [];
}

abbrev moment : Moment
moment = record {
  order = adapters_of (server_registry platform);
  adapter_time = 100 * second;
  mint_time = 100 * second;
  uuid = codes "id";
}

abbrev post : HttpRequest
post = record { method = codes "POST"; path = codes "/v1/token/exchange"; header = []; body = [] }

abbrev signed : TokenExchangeResponse
signed = record {
  access_token = codes "signed";
  issued_token_type = codes "urn:ietf:params:oauth:token-type:jwt";
  token_type = codes "Bearer";
  expires_in = 300;
}

serve_http-answers_example :
    (v : Verdict (server_env platform moment) post) × Sends
      (serve_http (server_env platform moment) post fresh)
      (verdict_code v)
      (verdict_body v)
serve_http-answers_example = serve_http-answers (server_env platform moment) post

serve_http-token_iff_example :
    (req : TokenExchangeRequest) × (t : Str) × Requests (server_env platform moment) post req
    × Issues (server_env platform moment) req t
    × (signed ≡ bearer t)
unfolding serve_http get_adapter get server_registry JwtAdapter.jwt_adapter
    OpaqueAdapter.opaque_adapter SamlAdapter.saml_adapter SessionStore.lookup
    SessionStore.session_of mint
serve_http-token_iff_example =
    (serve_http-token_iff (server_env platform moment) post signed).0 (refl, refl)

serve_http-spans_example :
    spans none (serve_http (server_env platform moment) post fresh).events ≡ some none
serve_http-spans_example = serve_http-spans (server_env platform moment) post fresh

serve_http-issues_example : issues (serve_http (server_env platform moment) post fresh).events ≡ 1
unfolding serve_http get_adapter get server_registry JwtAdapter.jwt_adapter
    OpaqueAdapter.opaque_adapter SamlAdapter.saml_adapter SessionStore.lookup
    SessionStore.session_of mint tokens_in
serve_http-issues_example = serve_http-issues (server_env platform moment) post

server-expires_in_example :
    (c : CanonicalClaims) × (issue : ℕ) × (platform.signer.sign
        (token_config platform).signing_alg
        c
        (token_config platform).signing_key
      ≡ ok (codes "signed"))
    × (c.issued_at ≡ some issue)
    × (c.expires_at ≡ some (issue + 300))
    × (c.claims.pci_scope ≡ false)
unfolding serve_http get_adapter get server_registry JwtAdapter.jwt_adapter
    OpaqueAdapter.opaque_adapter SamlAdapter.saml_adapter SessionStore.lookup
    SessionStore.session_of mint
server-expires_in_example =
    server-expires_in platform moment (Perm.refl _) (λ t. refl) post signed (refl, refl)

server-pci_allow_example :
    (c : CanonicalClaims) × (platform.signer.sign
        (token_config platform).signing_alg
        c
        (token_config platform).signing_key
      ≡ ok (codes "signed"))
    × ((input : Option Value)
        → ref input (codes "auth_method") ≡ some (text c.claims.auth_method)
        → (Pci.allow input ≡ false) × (PaymentService.allow input ≡ false))
unfolding serve_http get_adapter get server_registry JwtAdapter.jwt_adapter
    OpaqueAdapter.opaque_adapter SamlAdapter.saml_adapter SessionStore.lookup
    SessionStore.session_of mint
server-pci_allow_example = server-pci_allow platform moment (Perm.refl _) post signed (refl, refl)

abbrev some_jwt : ExchangeRequest
some_jwt = record {
  subject_token = codes "a.b.c";
  subject_token_type = [];
  audience = [];
  scope = [];
  requested_type = [];
}

abbrev jwt_result : ExchangeResult
jwt_result =
    JwtAdapter.result ((codes "sub", text (codes "ann")) ∷ []) (codes "idp") (trusted_issuer idp)

server_jwt-trusted_example :
    (e : TrustedIssuerEntry) × (k : Key) × (last_entry (codes "idp") (entries platform) ≡ some e)
    × (codes "high" ≡ e.trust)
    × (get (fetch_all_jwks network (entries platform)).keys (codes "idp") ≡ some k)
unfolding JwtAdapter.jwt_adapter JwtAdapter.result jwt_config build_key_func fetch_all_jwks
    parse_trusted_issuers get_env trim_space split_2 parse_ec_public_key decode_raw_url
    build_trusted_issuer_config
server_jwt-trusted_example =
    server_jwt-trusted platform 7 some_jwt jwt_result parse-AsksKeyfunc refl

abbrev both_token : Str
both_token = codes "PHNhbWwtYWFhYWFh"

both_token-LooksBoth : LooksBoth both_token
unfolding OpaqueAdapter.is_alphanumeric_or_dash OpaqueAdapter.all_alphanumeric OpaqueAdapter.detect
    SamlAdapter.detect decode_std contains
both_token-LooksBoth = (LooksBoth-iff both_token).1 (refl, refl)

server_detect-determined_iff_example :
    (((first second : List Adapter)
        → Perm first (adapters_of (server_registry platform))
        → Perm second (adapters_of (server_registry platform))
        → detect_adapter first both_token ≡ detect_adapter second both_token)
      ↔ ¬ (LooksBoth both_token))
    × LooksBoth both_token
server_detect-determined_iff_example =
    (server_detect-determined_iff platform both_token, both_token-LooksBoth)

fetch_all_jwks-requests_example : (fetch_all_jwks network (idp ∷ [])).requests ≤ 10
fetch_all_jwks-requests_example = fetch_all_jwks-requests network (idp ∷ [])

parse_trusted_issuers-format_example : parse_trusted_issuers environment ≡ idp ∷ []
unfolding get ◌==◌ format_entries format_entry join
parse_trusted_issuers-format_example =
    parse_trusted_issuers-format environment (idp ∷ []) refl (λ e. cc e)
      (
        record {
          name_plain = Lacks-sound b'=' (codes "idp") refl;
          url_plain = Lacks-sound b',' (codes "http://k") refl;
          one_entry = Lacks-sound b';' (codes "idp=http://k,high") refl;
          starts = refl;
          ends = refl;
        },
        tt,
      )
