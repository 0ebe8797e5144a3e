-- ===== src/Server/Wiring.antt =====
-- main.go: main, as far as it puts the service together from its environment. The libraries, the
-- network and the key that is generated are parameters.
pub mod Scope
pub mod Methods
pub mod Detection
pub mod Trust
use centralized_identity.Common.{Str, codes, Map, ℕ, Option, Cause, [], ◌∷◌, List}
use centralized_identity.Common.Json.{Value}
use centralized_identity.Jwt.{Key, private_key}
use centralized_identity.Canonical.{TokenConfig, Signer, default_config, trust_medium}
use centralized_identity.Adapter.{Adapter, Registry, new_registry, register}
use centralized_identity.Adapter.JwtAdapter
use centralized_identity.Adapter.JwtAdapter.{jwt_adapter}
use centralized_identity.Adapter.OpaqueAdapter.{opaque_adapter}
use centralized_identity.Adapter.SamlAdapter
use centralized_identity.Adapter.SamlAdapter.{SamlConfig, saml_adapter}
use centralized_identity.Exchange.{Env}
use centralized_identity.Server.Issuers.{
  TrustedIssuerEntry, get_env, parse_trusted_issuers, build_trusted_issuer_config,
}
use centralized_identity.Server.Keys.{Network, fetch_all_jwks, build_key_func}
use centralized_identity.Server.SessionStore

-- The environment's variables, the libraries, the network and the generated key.
pub record Platform : Type 0 where
  pub env : Map Str
  pub jwt : JwtAdapter.Services
  pub saml : SamlAdapter.Services
  pub session : SessionStore.Services
  pub network : Network
  pub generated_key : Str
  pub signer : Signer
  pub decode_json : Str → Option Value
  pub texts : Cause → Str

-- What the handling of one request reads of the world: the order in which Go visits the adapters, the
-- clock when the adapter and when the minter reads it, and the generated id.
pub record Moment : Type 0 where
  pub order : List Adapter
  pub adapter_time : ℕ
  pub mint_time : ℕ
  pub uuid : Str

unfoldable pub token_config : Platform → TokenConfig
unfolding default_config
token_config p = record default_config {
  signing_key = private_key p.generated_key;
  signing_alg = codes "ES256";
}

abbrev pub entries : Platform → List TrustedIssuerEntry
entries p = parse_trusted_issuers p.env

unfoldable pub jwt_config : Platform → JwtAdapter.JwtConfig
jwt_config p = record {
  trusted_issuers = build_trusted_issuer_config (entries p);
  key_func = build_key_func p.jwt.get_issuer (fetch_all_jwks p.network (entries p)).keys;
}

abbrev pub server_jwt : Platform → Adapter
server_jwt p = jwt_adapter p.jwt (jwt_config p)

abbrev pub server_opaque : Platform → Adapter
server_opaque p = opaque_adapter (
    SessionStore.lookup p.session
      (get_env p.env (codes "OPAQUE_VALIDATE_URL") (codes "http://opaque-token-app:9002/validate")))

abbrev legacy_idp : Str
legacy_idp = codes "https://legacy-idp.example.com/saml"

unfoldable pub saml_config : SamlConfig
saml_config = record {
  trusted_idps =
      (legacy_idp, record { entity_id = legacy_idp; cert_pem = []; trust_level = trust_medium })
      ∷ [];
  max_assertion_age = 0;
}

abbrev pub server_saml : Platform → Adapter
server_saml p = saml_adapter p.saml saml_config

unfoldable pub server_registry : Platform → Registry
unfolding register new_registry
server_registry p =
    register (register (register new_registry (server_jwt p)) (server_opaque p)) (server_saml p)

-- The handler of the service, at a moment.
abbrev pub server_env : Platform → Moment → Env
server_env p m = record {
  registry = server_registry p;
  order = m.order;
  config = token_config p;
  signer = p.signer;
  decode_json = p.decode_json;
  texts = p.texts;
  adapter_time = m.adapter_time;
  mint_time = m.mint_time;
  uuid = m.uuid;
}
