-- ===== src/Sdk/Client/Served.antt =====
-- A client of the service: sdk/go/helpers.go against the routes of main.go.
use centralized_identity.Common.{
  Str, codes, ◌++◌, Map, ◌==◌, ℕ, none, some, [], ◌∷◌, Result, ok, err, plain, wrapped, error_text,
  ◌≡◌, ◌≢◌, refl, ap, inl, inr, sym, Bool-cases,
}
use centralized_identity.Common.Json.{Value, text, object, member, end}
use centralized_identity.Http.{decimal, HttpRequest, HttpResponse, Writer}
use centralized_identity.Jwt.{Parse}
use centralized_identity.Exchange.{
  TokenExchangeRequest, TokenExchangeResponse, Body, body_document, Env, grant_type_token_exchange,
  decode_request, Run, exchange,
}
use centralized_identity.Handler.{answered, logged}
use centralized_identity.Handler.Responses.{Requests, serve_http-valid}
use centralized_identity.Observability.{exchange_handler, exchange_path}
use centralized_identity.Server.Routes.{Pages, serve, service_pages, delivered}
use centralized_identity.Sdk.Jwks
use centralized_identity.Sdk.Jwks.{
  JwksCache, new_jwks_cache, fetched_keys, refresh_if_stale, is_fresh, fetch,
}
use centralized_identity.Sdk.Client.{
  Client, CanonicalClaims, default_config, new_client, validate_token, Services, exchange_token,
  exchanged_token, access_token_of,
}

-- The requests of the client.
abbrev pub get_request : Str → HttpRequest
get_request path = record { method = codes "GET"; path = path; header = []; body = [] }

abbrev pub post_request : Str → HttpRequest
post_request body = record {
  method = codes "POST";
  path = exchange_path;
  header = (codes "Content-Type", codes "application/json") ∷ [];
  body = body;
}

cache_of : Result Client → JwksCache
cache_of (ok c) = c.jwks_cache
cache_of (err e) = new_jwks_cache [] 0

default_cache :
    (name : Str) (c : Client)
    → new_client (default_config name) ≡ ok c
    → c.jwks_cache
      ≡ new_jwks_cache (default_config name).jwks_endpoint (default_config name).cache_ttl
unfolding new_client cache_of ◌==◌ default_config
default_cache name c made = elim (Bool-cases (name == [])) [
  | inl unnamed ↦ cc (rw unnamed at made)
  | inr given ↦ ap (λ (r : Result Client). cache_of r) (sym (rw given at made))
]

-- A client of the default configuration validates no token, whatever the token is and the service
-- holds: it asks the service, whose host is the default's, for its keys at a path that the service
-- does not serve.
pub validate_token-not_found :
    (name token : Str) (c : Client) (pages : Pages) (parse : Parse CanonicalClaims)
    (s : Jwks.Services) (now : ℕ)
    → new_client (default_config name) ≡ ok c
    → ((path : Str)
        → s.http_get (codes "http://localhost:8080" ++ path) ≡ ok (serve pages (get_request path)))
    → validate_token parse s now c.jwks_cache token ≡ (
      err (
          wrapped
            (codes "identity: JWKS fetch failed")
            (plain (codes "JWKS endpoint returned 404"))),
      c.jwks_cache,
    )
unfolding validate_token refresh_if_stale new_jwks_cache is_fresh fetched_keys serve default_config
    decimal
validate_token-not_found name token c pages parse s now made asked =
    rw (default_cache name c made, asked (codes "/.well-known/jwks.json")) refl

-- What the client sends for a token, and what the service reads of that.
abbrev pub exchange_document : Str → Str → Value
exchange_document subject_token kind = object (
    member (codes "grant_type") (text grant_type_token_exchange) (
      member (codes "subject_token") (text subject_token)
        (member (codes "subject_token_type") (text kind) end)))

abbrev pub asked_for : Str → Str → TokenExchangeRequest
asked_for subject_token kind = record {
  grant_type = grant_type_token_exchange;
  subject_token = subject_token;
  subject_token_type = kind;
  audience = [];
  scope = [];
}

-- The libraries and the network, as documented: the fields are encoded as their document, a
-- request is made of the body and reaches the service, whose answer comes back, and both decoders
-- read what was encoded.
pub record Connected (s : Services) (endpoint : Str) (env : Env) (uuid trace_id : Str)
    : Type 0 where
  pub encode : Value → Str
  pub request : Str → Str
  pub metrics : HttpRequest → HttpResponse
  pub marshals :
      (subject_token kind : Str)
      → s.marshal_texts (
          (codes "grant_type", grant_type_token_exchange)
          ∷ (codes "subject_token", subject_token)
          ∷ (codes "subject_token_type", kind)
          ∷ [])
        ≡ ok (encode (exchange_document subject_token kind))
  pub requested : (body : Str) → s.new_request endpoint body ≡ ok (request body)
  pub answered_by :
      (body : Str)
      → s.send (request body)
        ≡ ok (serve (service_pages encode metrics uuid trace_id env) (post_request body))
  pub client_reads : (v : Value) → s.decode_json (encode v) ≡ some v
  pub service_reads : (v : Value) → env.decode_json (encode v) ≡ some v

-- What a client makes of an exchange in the service.
abbrev pub as_told : Env → Result TokenExchangeResponse → Result Str
as_told env (ok response) = ok response.access_token
as_told env (err e) =
    err (plain (codes "token exchange failed: invalid_grant - " ++ error_text env.texts e))

asked_for-Requests :
    (s : Services) (endpoint : Str) (env : Env) (uuid trace_id subject_token kind : Str)
    (c : Connected s endpoint env uuid trace_id)
    → subject_token ≢ []
    → Requests env
        (post_request (c.encode (exchange_document subject_token kind)))
        (asked_for subject_token kind)
unfolding decode_request ◌==◌
asked_for-Requests s endpoint env uuid trace_id subject_token kind c given = record {
  posted = refl;
  decoded = rw (decode_request, c.service_reads (exchange_document subject_token kind)) refl;
  granted = refl;
  given = given;
}

-- A response that is written behind a header, read by the client.
exchanged_token-answered :
    (s : Services) (endpoint : Str) (env : Env) (uuid trace_id kind : Str)
    (c : Connected s endpoint env uuid trace_id) (run : Run) (header : Map Str)
    (outcome : Result TokenExchangeResponse)
    → let w : Writer Body = record { header = header; code = none; bodies = [] } in
      exchanged_token s (delivered c.encode (logged kind (answered env run w outcome)).writer)
      ≡ as_told env outcome
unfolding exchanged_token answered logged delivered body_document access_token_of
exchanged_token-answered s endpoint env uuid trace_id kind c run header (ok response) =
    rw (access_token_of, c.client_reads (body_document (Body.token response))) refl
exchanged_token-answered s endpoint env uuid trace_id kind c run header (err e) =
    rw
      (c.client_reads
        (body_document (Body.failure (codes "invalid_grant") (error_text env.texts e))))
      refl

-- What the client gets for a token that is not empty is what the exchange in the service gives:
-- the access token that was issued, or an error that tells the error of the exchange. The service
-- is reached at the client's endpoint through its routes and its middleware, and the libraries
-- behave as documented.
pub exchange_token-served :
    (s : Services) (client : Client) (env : Env) (uuid trace_id subject_token kind : Str)
    → Connected s client.config.exchange_endpoint env uuid trace_id
    → subject_token ≢ []
    → exchange_token s client subject_token kind
      ≡ as_told env (exchange env (asked_for subject_token kind)).response
unfolding exchange_token serve service_pages exchange_handler ◌==◌
exchange_token-served s client env uuid trace_id subject_token kind c given =
    let endpoint = client.config.exchange_endpoint in
    let body = c.encode (exchange_document subject_token kind) in
    let req = asked_for subject_token kind in
    let q = asked_for-Requests s endpoint env uuid trace_id subject_token kind c given in
    rw
      (
        c.marshals subject_token kind,
        c.requested body,
        c.answered_by body,
        serve_http-valid env (post_request body) req _ q,
      )
      (exchanged_token-answered s endpoint env uuid trace_id kind c (exchange env req) _
        (exchange env req).response)
