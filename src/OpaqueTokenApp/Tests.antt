-- ===== src/OpaqueTokenApp/Tests.antt =====
-- A login and the validation of its token: runs of the theorems about them.
use centralized_identity.Common.{
  Str, codes, Map, ok, err, plain, none, some, Option, ℕ, ◌==◌, ◌*◌, [], ◌∷◌, ◌≡◌, refl,
}
use centralized_identity.Common.Json.Codec.{encode, decode, decode-encode}
use centralized_identity.Adapter.{ExchangeRequest}
use centralized_identity.Server.SessionStore
use centralized_identity.Server.Wiring.{Platform}
use centralized_identity.OpaqueTokenApp.Exchanged.{validate_request, Reaches}
use centralized_identity.Http.{get_header}
use centralized_identity.OpaqueTokenApp as App
use centralized_identity.OpaqueTokenApp.Served.{serve_all-validate}
use centralized_identity.OpaqueTokenApp.{
  Call, serve, serve_all, session_body, new_session, Session, encode_hex, hour, handle_validate,
  delivered,
}
use centralized_identity.OpaqueTokenApp.Sessions.{Login, logged_in}

pub first_number : Str → Option ℕ
first_number (n ∷ s) = some n
first_number [] = none

abbrev pub eight : Str
eight = 0 ∷ 255 ∷ 16 ∷ 1 ∷ 171 ∷ 9 ∷ 90 ∷ 127 ∷ []

abbrev pub login : Login
login = record { bytes = eight; created = 5; now = 6 }

abbrev pub sessions : Map Session
sessions = logged_in [] (login ∷ [])

-- The app, behind a network and with clocks that stand still.
abbrev pub services : SessionStore.Services
services = record {
  new_request = λ url. ok url;
  send = λ req token. ok (
      delivered encode (λ t. t ∷ [])
        (handle_validate (10 * hour) (validate_request token) sessions));
  decode_json = decode;
  parse_time = first_number;
}

pub services-Reaches :
    Reaches services (codes "http://opaque-token-app:9002/validate") (10 * hour) sessions
unfolding first_number
services-Reaches = record {
  encode = encode;
  format = λ t. t ∷ [];
  request = codes "http://opaque-token-app:9002/validate";
  requested = refl;
  answered = λ token. refl;
  decodes = decode-encode;
  reads_time = λ t. refl;
}

abbrev platform : Platform
platform = record {
  env = [];
  jwt = record {
    parse = λ o now f s. err (plain []);
    get_issuer = λ claims. [];
    decode_segment = λ s. none;
    json_document = λ s. none;
  };
  saml = record { xml_response = λ s. none; xml_assertion = λ s. none; parse_time = λ s. none };
  session = services;
  network = record { get = λ n url. none; decode_json = λ body. none };
  generated_key = codes "key";
  signer = record { numeric_date = λ t. t; sign = λ alg c k. ok [] };
  decode_json = λ body. none;
  texts = λ c. [];
}

abbrev exchanged : ExchangeRequest
exchanged = record {
  subject_token = codes "00ff1001ab095a7f";
  subject_token_type = [];
  audience = [];
  scope = [];
  requested_type = [];
}

-- The app's own answers: a login, a page in between, and the validation.
abbrev page : Str → Map Str → ℕ → Call
page path header now = record {
  request = record { method = codes "GET"; path = path; header = header; body = [] };
  bytes = eight;
  created = 5;
  now = now;
}

abbrev app : App.Platform
app = record { encode = encode; format = λ t. t ∷ [] }

serve_all-validate_example :
    (serve app
      (page
        (codes "/validate")
        ((codes "X-Session-Token", codes "00ff1001ab095a7f") ∷ [])
        (10 * hour))
      (serve_all app (page (codes "/login") [] 6 ∷ page (codes "/healthz") [] 7 ∷ []) [])).1
    ≡ delivered encode (λ t. t ∷ []) (session_body (new_session 5 6))
unfolding encode_hex get_header ◌==◌
serve_all-validate_example =
    serve_all-validate app [] (page (codes "/login") [] 6) (page (codes "/healthz") [] 7 ∷ [])
      (page (codes "/validate") ((codes "X-Session-Token", codes "00ff1001ab095a7f") ∷ [])
        (10 * hour))
      refl (λ e. cc e) ((λ e. cc e), tt) refl refl
