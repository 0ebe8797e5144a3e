-- ===== src/LegacyJwtApp/Tests.antt =====
-- A library and a network to issue and exchange a token of the app with.
use centralized_identity.Common.{
  Str, drop, ◌∷◌, ◌==◌, ◌≡◌, codes, get, none, some, Option, [], ok, refl, ap, ◌>>=◌, Result,
}
use centralized_identity.Common.Json.{Value, text}
use centralized_identity.Jwt.{Parse, public_key}
use centralized_identity.Adapter.JwtAdapter.{MapClaims}
use centralized_identity.Server.Wiring.{Platform}
use centralized_identity.Common.Json.Codec.{encode, decode, decode-encode}
use centralized_identity.Server.Issuers.{get_env, parse_trusted_issuers}
use centralized_identity.Server.Keys.{Network, fetch_all_jwks}
use centralized_identity.LegacyJwtApp
use centralized_identity.LegacyJwtApp.{issued_claims, handle_jwks, serve, address}
use centralized_identity.LegacyJwtApp.Hosted.{get_of, Hosts, fetch_all_jwks-serve}
use centralized_identity.LegacyJwtApp.Exchanged.{token_of, Verifies, ReadsIssuer}

-- A parser that takes every token for one of the app's, if there is a key for it.
abbrev pub parse : Parse MapClaims
parse o now f s = f (token_of [] (issued_claims 0 5)) >>= λ k. ok (token_of [] (issued_claims 0 5))

pub issuer_text : Option Value → Str
issuer_text (some (text s)) = s
issuer_text _ = []

abbrev pub get_issuer : MapClaims → Str
get_issuer claims = issuer_text (get claims (codes "iss"))

pub get_issuer-ReadsIssuer : ReadsIssuer get_issuer
unfolding issuer_text
get_issuer-ReadsIssuer claims name h = ap issuer_text h

pub parse-Verifies : Verifies parse (public_key 258 7) (issued_claims 0 5) (codes "a.b.c")
parse-Verifies = record {
  header = [];
  accepts = λ o now expiry f any_issuer any_time exp early asked. rw asked refl;
}

abbrev pub platform : Platform
platform = record {
  env = [];
  jwt = record {
    parse = parse;
    get_issuer = get_issuer;
    decode_segment = λ s. none;
    json_document = λ s. none;
  };
  saml = record { xml_response = λ s. none; xml_assertion = λ s. none; parse_time = λ s. none };
  session = record {
    new_request = λ url. ok url;
    send = λ req id. ok (record { status_code = 401; body = [] });
    decode_json = λ s. none;
    parse_time = λ s. none;
  };
  network = record { get = λ n url. some []; decode_json = λ body. some (handle_jwks 258 7) };
  generated_key = codes "key";
  signer = record { numeric_date = λ t. t; sign = λ alg c k. ok [] };
  decode_json = λ body. none;
  texts = λ c. [];
}

abbrev pub sign : MapClaims → Result Str
sign claims = ok (codes "a.b.c")

-- The app behind a network.
abbrev hosted : LegacyJwtApp.Platform
hosted = record {
  sign = λ claims. ok (codes "a.b.c");
  x = 258;
  y = 7;
  encode = encode;
  texts = λ c. [];
}

-- What stands behind the app's host and port.
abbrev path_of : Str → Str
path_of = drop 26

abbrev network : Network
network = record {
  get = λ n url. some (serve hosted 0 5 (get_of (path_of url))).body;
  decode_json = decode;
}

network-Hosts : Hosts network (codes "legacy-jwt-app") (address []) encode (serve hosted 0 5)
unfolding address get_env ◌==◌
network-Hosts = record { answered = λ path. refl; reads = decode-encode }

fetch_all_jwks-serve_example :
    fetch_all_jwks network (parse_trusted_issuers [])
    ≡ record { keys = (codes "legacy-jwt-issuer", public_key 258 7) ∷ []; requests = 1 }
unfolding get
fetch_all_jwks-serve_example = fetch_all_jwks-serve [] [] hosted 0 5 network refl refl network-Hosts
