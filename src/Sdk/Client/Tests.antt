-- ===== src/Sdk/Client/Tests.antt =====
-- A client and the service: runs of the theorems about them.
use centralized_identity.Common.{
  Str, some, codes, get, ◌==◌, none, List, [], ◌∷◌, ok, err, plain, wrapped, ◌↔◌, ◌≡◌, refl, false,
  true,
}
use centralized_identity.Common.Json.{Value, text, object, Members, member, end}
use centralized_identity.Common.Json.Codec.{encode, decode, decode-encode}
use centralized_identity.Jwt.{Parse}
use centralized_identity.Canonical
use centralized_identity.Adapter.{Adapter, get_adapter, register, new_registry, ExchangeResult}
use centralized_identity.Exchange.{Env, exchange}
use centralized_identity.Server.Routes.{Pages, serve, service_pages}
use centralized_identity.Http.{not_found}
use centralized_identity.Sdk.Jwks
use centralized_identity.Sdk.Jwks.{new_jwks_cache}
use centralized_identity.Sdk.Client.{
  Config, Client, get_client, CanonicalClaims, default_config, new_client, validate_token, Services,
  exchange_token,
}
use centralized_identity.Sdk.Client.Global.{inits, client_of, last_named, get_client-inits}
use centralized_identity.Sdk.Client.Served.{
  get_request, post_request, Connected, validate_token-not_found, exchange_token-served,
}

abbrev pub client : Client
client = record {
  config = default_config (codes "orders");
  jwks_cache =
      new_jwks_cache (default_config (codes "orders")).jwks_endpoint
        (default_config (codes "orders")).cache_ttl;
  timeout = (default_config (codes "orders")).request_timeout;
}

abbrev pages : Pages
pages = record { exchange = λ r. not_found; metrics = λ r. not_found }

without : Str → Str → Str
without [] s = s
without (c ∷ p) [] = []
without (c ∷ p) (d ∷ s) = without p s

abbrev keys_services : Jwks.Services
keys_services = record {
  http_get = λ url. ok (serve pages (get_request (without (codes "http://localhost:8080") url)));
  decode_json = λ body. none;
  checked = 1;
  rechecked = 2;
  fetched = 3;
}

abbrev parse : Parse CanonicalClaims
parse o now f s = err (plain [])

validate_token-not_found_example :
    validate_token parse keys_services 5 client.jwks_cache (codes "a.b.c") ≡ (
      err (
          wrapped
            (codes "identity: JWKS fetch failed")
            (plain (codes "JWKS endpoint returned 404"))),
      client.jwks_cache,
    )
unfolding new_client without ◌==◌ default_config
validate_token-not_found_example =
    validate_token-not_found (codes "orders") (codes "a.b.c") client pages parse keys_services 5
      refl (λ path. refl)

abbrev identity : ExchangeResult
identity = record {
  subject = codes "user:ann";
  identity_claims = record {
    org_id = [];
    roles = [];
    auth_method = [];
    original_issuer = [];
    trust_level = codes "low";
    pci_scope = false;
    service_name = [];
  };
}

abbrev adapter : Adapter
adapter = record { token_type = codes "t"; exchange = λ now req. ok identity; detect = λ s. true }

abbrev env : Env
env = record {
  registry = register new_registry adapter;
  order = adapter ∷ [];
  config = Canonical.default_config;
  signer = record { numeric_date = λ t. t; sign = λ alg c k. ok (codes "signed") };
  decode_json = decode;
  texts = λ c. [];
  adapter_time = 1;
  mint_time = 2;
  uuid = codes "id";
}

pub texts_members : List (Str × Str) → Members
texts_members [] = end
texts_members ((k, v) ∷ kvs) = member k (text v) (texts_members kvs)

-- A client's network, at whose other end a service stands.
abbrev pub services : Env → Services
services e = record {
  marshal_input = λ input. err (plain []);
  marshal_texts = λ kvs. ok (encode (object (texts_members kvs)));
  new_request = λ endpoint body. ok body;
  send = λ body.
      ok (
        serve (service_pages encode (λ r. not_found) (codes "u") (codes "t") e)
          (post_request body));
  decode_json = decode;
}

pub services-Connected :
    (e : Env)
    → ((v : Value) → e.decode_json (encode v) ≡ some v)
    → Connected (services e) client.config.exchange_endpoint e (codes "u") (codes "t")
unfolding texts_members
services-Connected e reads = record {
  encode = encode;
  request = λ body. body;
  metrics = λ r. not_found;
  marshals = λ subject_token kind. refl;
  requested = λ body. refl;
  answered_by = λ body. refl;
  client_reads = decode-encode;
  service_reads = reads;
}

exchange_token-served_example :
    exchange_token (services env) client (codes "tok") (codes "t") ≡ ok (codes "signed")
unfolding exchange register new_registry ◌==◌ get_adapter get Canonical.mint
exchange_token-served_example =
    exchange_token-served (services env) client env (codes "u") (codes "t") (codes "tok")
      (codes "t") (services-Connected env decode-encode) (λ e. cc e)

-- Three calls of Init, the last of which fails.
abbrev configs : List Config
configs =
    default_config (codes "a") ∷ default_config (codes "orders") ∷ default_config (codes "") ∷ []

get_client-inits_example :
    (get_client (inits none configs) ≡ ok (client_of (default_config (codes "orders")))) ↔ (
      (c : Config) × (last_named configs ≡ some c)
      × (client_of (default_config (codes "orders")) ≡ client_of c))
get_client-inits_example = get_client-inits configs (client_of (default_config (codes "orders")))

orders_last : get_client (inits none configs) ≡ ok (client_of (default_config (codes "orders")))
unfolding last_named default_config ◌==◌
orders_last = get_client-inits_example.1 (default_config (codes "orders"), refl, refl)
