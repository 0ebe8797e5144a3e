-- ===== src/Sdk/Tests.antt =====
-- The SDK on small inputs: runs of the theorems about it.
use centralized_identity.Common.{
  codes, true, false, none, some, [], ◌∷◌, Result, ok, err, plain, ◌>>=◌, >>=-eq-ok, ◌≡◌, ◌≢◌, refl,
  ap, sym, ◌∙◌,
}
use centralized_identity.Common.Json.{Value, text, boolean, object, member, end, array, cons, nil}
use centralized_identity.Jwt.{
  Key, no_key, private_key, public_key, raw_message, Token, Parse, AsksKeyfunc, asserted,
}
use centralized_identity.Http.{HttpRequest, fresh}
use centralized_identity.Sdk.Jwks.{
  JwksCache, new_jwks_cache, fetched_keys, is_fresh, refresh_if_stale,
}
use centralized_identity.Sdk.Jwks
use centralized_identity.Sdk.Jwks.RawKeys.{new}
use centralized_identity.Sdk.Client.{
  Client, CanonicalClaims, default_config, validate_token, check_policy, exchange_token,
}
use centralized_identity.Sdk.Client
use centralized_identity.Sdk.Client.Decisions.{
  RefusesRaw, validate_token-refuses, check_policy-ok_iff,
}
use centralized_identity.Sdk.Middleware.{MiddlewareOptions, Platform, Handler, auth_middleware}
use centralized_identity.Sdk.Middleware.Access.{Access, handled, auth_middleware-cases}

abbrev key_document : Value
key_document = object (member (codes "kid") (text (codes "k1")) end)

abbrev services : Jwks.Services
services = record {
  http_get = λ url. ok (record { status_code = 200; body = [] });
  decode_json = λ body. some (object (member (codes "keys") (array (cons key_document nil)) end));
  checked = 1;
  rechecked = 2;
  fetched = 3;
}

-- Ten nanoseconds later the network is down.
abbrev later : Jwks.Services
later = record {
  http_get = λ url. err (plain (codes "down"));
  decode_json = λ body. none;
  checked = 13;
  rechecked = 14;
  fetched = 15;
}

abbrev empty_cache : JwksCache
empty_cache = record { endpoint = codes "http://idp/jwks"; ttl = 60; keys = []; fetched_at = none }

abbrev claims : CanonicalClaims
claims = record {
  subject = codes "ann";
  org_id = [];
  roles = [];
  auth_method = [];
  trust_level = codes "low";
  pci_scope = false;
}

abbrev parsed : Token CanonicalClaims
parsed = record { header = []; claims = asserted claims }

-- A parser that takes every token for the same one if there is a key for it that is not raw.
abbrev verified : Key → Result (Token CanonicalClaims)
verified (raw_message v) = err (plain (codes "key is of invalid type"))
verified _ = ok parsed

abbrev parse : Parse CanonicalClaims
parse o now f s = f parsed >>= verified

verified-parsed : (k : Key) (t : Token CanonicalClaims) → verified k ≡ ok t → t ≡ parsed
verified-parsed no_key t h = cc h
verified-parsed (private_key d) t h = cc h
verified-parsed (public_key x y) t h = cc h
verified-parsed (raw_message v) t h = cc h

parse-AsksKeyfunc : AsksKeyfunc CanonicalClaims parse
parse-AsksKeyfunc o now f s t h =
    let (k, asked, same) = >>=-eq-ok (f parsed) verified h in
    (k, ap f (verified-parsed k t same) ∙ asked)

raw_refused : (v : Value) (t : Token CanonicalClaims) → verified (raw_message v) ≢ ok t
raw_refused v t h = cc h

ok-inj : {k l : Key} → Result.ok k ≡ Result.ok l → k ≡ l
ok-inj h = cc h

parse-RefusesRaw : RefusesRaw parse
parse-RefusesRaw o now f s t v h raw_ =
    let (k, asked, same) = >>=-eq-ok (f parsed) verified h in
    let is_raw : k ≡ raw_message v =
      ok-inj (sym asked ∙ ap f (sym (verified-parsed k t same)) ∙ raw_) in
    raw_refused v t (sym (ap verified is_raw) ∙ same)

validate_token-refuses_example :
    (validate_token parse services 7 (new_jwks_cache (codes "http://idp/jwks") 60) (codes "t")).0
    ≢ ok (Client.identity_of claims)
validate_token-refuses_example =
    validate_token-refuses parse parse-AsksKeyfunc parse-RefusesRaw services 7
      (new_jwks_cache (codes "http://idp/jwks") 60) (codes "t") (Client.identity_of claims)
      (new (codes "http://idp/jwks") 60)

abbrev client : Client
client = record { config = default_config (codes "shop"); jwks_cache = empty_cache; timeout = 2 }

abbrev answers : Client.Services
answers = record {
  marshal_input = λ fields. ok (codes "{}");
  marshal_texts = λ fields. ok (codes "{}");
  new_request = λ url body. ok body;
  send = λ req. ok (record { status_code = 200; body = [] });
  decode_json = λ body. some (
      object (
        member (codes "result") (object (member (codes "allow") (boolean true) end))
          (member (codes "access_token") (text (codes "t")) end)));
}

check_policy-ok_iff_example :
    check_policy answers client (Client.identity_of claims) (codes "order") (codes "read") ≡ ok true
unfolding Client.allow_of
check_policy-ok_iff_example =
    (check_policy-ok_iff answers client (Client.identity_of claims) (codes "order") (codes "read")
        true).1
      (record {
        body = codes "{}";
        request = codes "{}";
        response = record { status_code = 200; body = [] };
        marshalled = refl;
        requested = refl;
        answered = refl;
        decided = refl;
      })

abbrev platform : Platform
platform = record { parse = parse; jwks = services; now = 7 }

abbrev options : MiddlewareOptions
options = record {
  skip_paths = codes "/health" ∷ [];
  require_trust = codes "medium";
  require_pci = false;
  on_error = none;
}

abbrev next : Handler
next identity r w = w

abbrev get_orders : HttpRequest
get_orders = record {
  method = codes "GET";
  path = codes "/orders";
  header = (codes "Authorization", codes "Bearer t") ∷ [];
  body = [];
}

auth_middleware-cases_example :
    (a : Access platform options get_orders empty_cache) × (auth_middleware platform options next
        get_orders fresh empty_cache
      ≡ handled next fresh a)
auth_middleware-cases_example =
    auth_middleware-cases platform options next get_orders fresh empty_cache
