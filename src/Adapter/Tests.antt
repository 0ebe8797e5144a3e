-- ===== src/Adapter/Tests.antt =====
-- The adapters on tokens: runs of their theorems.
use centralized_identity.Common.{
  Lacks-sound, Str, codes, ◌==◌, none, some, List, [], ◌∷◌, ok, ◌≡◌, refl, get,
}
use centralized_identity.Common.Base64.{decode_raw_url, decode_std}
use centralized_identity.Common.Json.{Value, text, object, member, end}
use centralized_identity.Jwt.{no_key, asserted}
use centralized_identity.Adapter.{ExchangeRequest}
use centralized_identity.Adapter.HmacAdapter
use centralized_identity.Adapter.HmacAdapter.Authentic.{hmac_exchange-ok_iff}
use centralized_identity.Adapter.JwtAdapter
use centralized_identity.Adapter.JwtAdapter.{MapClaims}
use centralized_identity.Adapter.JwtAdapter.Trusted.{jwt_exchange-ok_iff}
use centralized_identity.Adapter.OpaqueAdapter
use centralized_identity.Adapter.SamlAdapter
use centralized_identity.Adapter.SamlAdapter.Assertion.{saml_exchange-ok_iff, no_end}

abbrev request_for : Str → ExchangeRequest
request_for token = record {
  subject_token = token;
  subject_token_type = [];
  audience = [];
  scope = [];
  requested_type = [];
}

abbrev service_id : Str
service_id = codes "pay"

abbrev payload_document : Value
payload_document = object (member (codes "service_id") (text service_id) end)

abbrev secret : HmacAdapter.HmacSecret
secret = record {
  service_name = service_id;
  secret = codes "k";
  trust_level = [];
  deprecated_at = none;
}

-- A stand-in for the HMAC, which is its key.
abbrev hmac_services : HmacAdapter.Services
hmac_services = record {
  get_secret = λ id. ok secret;
  hmac_sha256 = λ key bytes. key;
  json_document = λ bytes. some payload_document;
}

abbrev payload : HmacAdapter.Payload
payload = record HmacAdapter.no_payload { service_id = service_id }

abbrev signed_token : Str
signed_token = codes "eyJzZXJ2aWNlX2lkIjoicGF5In0.aw"

hmac_exchange-ok_iff_example :
    HmacAdapter.exchange hmac_services 7 (request_for signed_token)
    ≡ ok (HmacAdapter.result payload secret)
unfolding decode_raw_url HmacAdapter.payload_of ◌==◌
hmac_exchange-ok_iff_example =
    (hmac_exchange-ok_iff hmac_services 7 (request_for signed_token)
        (HmacAdapter.result payload secret)).1
      (
        payload,
        secret,
        record {
          encoded = codes "eyJzZXJ2aWNlX2lkIjoicGF5In0";
          signed = codes "aw";
          payload_bytes = codes "{\"service_id\":\"pay\"}";
          shape = refl;
          no_dot = Lacks-sound b'.' (codes "eyJzZXJ2aWNlX2lkIjoicGF5In0") refl;
          decoded = refl;
          parsed = refl;
          known = refl;
          matches = refl;
        },
        refl,
      )

abbrev jwt_claims : MapClaims
jwt_claims = (codes "sub", text (codes "ann")) ∷ []

abbrev issuer_name : Str
issuer_name = codes "https://idp.test"

abbrev issuer : JwtAdapter.TrustedIssuer
issuer = record {
  name = issuer_name;
  jwks_url = [];
  trust_level = codes "high";
  claim_map = record {
    subject_field = [];
    roles_field = codes "perms";
    org_id_field = codes "org";
  };
}

-- A parser that takes every token for the same one.
abbrev jwt_services : JwtAdapter.Services
jwt_services = record {
  parse = λ o now f s. ok (record { header = []; claims = asserted jwt_claims });
  get_issuer = λ claims. issuer_name;
  decode_segment = λ s. none;
  json_document = λ s. none;
}

abbrev jwt_config : JwtAdapter.JwtConfig
jwt_config = record { trusted_issuers = (issuer_name, issuer) ∷ []; key_func = λ t. ok no_key }

jwt_exchange-ok_iff_example :
    JwtAdapter.exchange jwt_services jwt_config 7 (request_for [])
    ≡ ok (JwtAdapter.result jwt_claims issuer_name issuer)
unfolding get ◌==◌
jwt_exchange-ok_iff_example =
    (jwt_exchange-ok_iff jwt_services jwt_config 7 (request_for [])
        (JwtAdapter.result jwt_claims issuer_name issuer)).1
      (
        jwt_claims,
        issuer,
        record {
          parsed = record { header = []; claims = asserted jwt_claims };
          accepted = refl;
          asserts = refl;
          listed = refl;
        },
        refl,
      )

abbrev session : OpaqueAdapter.SessionData
session = record {
  user_id = codes "ann";
  org_id = codes "acme";
  roles = [];
  issuer = codes "app";
  expires_at = 0;
}

abbrev session_id : Str
session_id = codes "sess-0123456789ab"

abbrev idp : SamlAdapter.SamlIdp
idp = record { entity_id = issuer_name; cert_pem = []; trust_level = codes "medium" }

abbrev assertion : List SamlAdapter.Attribute → SamlAdapter.SamlAssertion
assertion attributes = record {
  issuer = issuer_name;
  name_id = codes "ann";
  not_before = [];
  not_on_or_after = [];
  attribute_statements = attributes ∷ [];
}

abbrev saml_services : SamlAdapter.Services
saml_services = record {
  xml_response = λ s. none;
  xml_assertion = λ s. some (assertion []);
  parse_time = λ s. none;
}

abbrev saml_config : SamlAdapter.SamlConfig
saml_config = record { trusted_idps = (issuer_name, idp) ∷ []; max_assertion_age = 0 }

abbrev saml_token : Str
saml_token = codes "PEFzc2VydGlvbi8+"

-- The stand-in's assertion has no signature and no time.
saml_exchange-ok_iff_example :
    SamlAdapter.exchange saml_services saml_config 7 (request_for saml_token)
    ≡ ok (SamlAdapter.result (assertion []) idp)
unfolding decode_std get ◌==◌ SamlAdapter.parse_saml_payload
saml_exchange-ok_iff_example =
    (saml_exchange-ok_iff saml_services saml_config 7 (request_for saml_token)
        (SamlAdapter.result (assertion []) idp)).1
      (
        assertion [],
        idp,
        record {
          xml = codes "<Assertion/>";
          decoded = refl;
          parsed = refl;
          listed = refl;
          current = no_end refl;
        },
        refl,
      )
