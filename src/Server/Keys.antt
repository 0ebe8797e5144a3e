-- ===== src/Server/Keys.antt =====
-- main.go: fetchAllJWKS, parseECPublicKey and buildKeyFunc. The requests are answered by the
-- network, a parameter: it is given how many requests have been made before. Log lines and the
-- pauses between two attempts are left out.
pub mod Fetch
use centralized_identity.Common.{
  Str, codes, Map, get, put, ◌==◌, ◌++◌, ℕ, zero, suc, ◌+◌, ◌*◌, Bool, true, false, ◌&&◌, Option,
  none, some, List, [], ◌∷◌, Result, ok, err, plain, wrapped, cause, base64_input, ◌>>=◌, or_error,
  if◌then◌else◌,
}
use centralized_identity.Common.Base64.{decode_raw_url}
use centralized_identity.Common.Json.{
  Value, Values, null, array, values, Field, store_struct, store_text,
}
use centralized_identity.Jwt.{Key, public_key, Claims, asserted, other_type, Token, Keyfunc}
use centralized_identity.Adapter.JwtAdapter.{MapClaims}
use centralized_identity.Server.Issuers.{TrustedIssuerEntry}

pub record EcJwk : Type 0 where
  pub kty : Str
  pub crv : Str
  pub x : Str
  pub y : Str
  pub kid : Str

abbrev no_jwk : EcJwk
no_jwk = record { kty = []; crv = []; x = []; y = []; kid = [] }

jwk_fields : List (Field EcJwk)
unfolding store_text
jwk_fields =
    record {
      name = codes "kty";
      store = λ v k. let r = store_text v k.kty in (record k { kty = r.0 }, r.1);
    }
    ∷ record {
      name = codes "crv";
      store = λ v k. let r = store_text v k.crv in (record k { crv = r.0 }, r.1);
    }
    ∷ record {
      name = codes "x";
      store = λ v k. let r = store_text v k.x in (record k { x = r.0 }, r.1);
    }
    ∷ record {
      name = codes "y";
      store = λ v k. let r = store_text v k.y in (record k { y = r.0 }, r.1);
    }
    ∷ record {
      name = codes "kid";
      store = λ v k. let r = store_text v k.kid in (record k { kid = r.0 }, r.1);
    }
    ∷ []

-- A slice of keys, each stored over an empty one.
store_jwks_from : List Value → List EcJwk × Bool
unfolding store_struct jwk_fields
store_jwks_from [] = ([], true)
store_jwks_from (v ∷ vs) =
    let (k, fine) = store_struct jwk_fields v no_jwk in
    let (ks, rest_fine) = store_jwks_from vs in (k ∷ ks, fine && rest_fine)

store_jwks : Value → List EcJwk → List EcJwk × Bool
unfolding store_jwks_from
store_jwks (array vs) ks = store_jwks_from (values vs)
store_jwks null ks = ([], true)
store_jwks _ ks = (ks, false)

-- The struct around the keys.
jwks_fields : List (Field (List EcJwk))
unfolding store_jwks
jwks_fields = record { name = codes "keys"; store = store_jwks } ∷ []

-- The keys of a response. The error of the decoder is not looked at: what it has stored counts.
unfoldable pub decoded_keys : Option Value → List EcJwk
unfolding store_struct jwks_fields
decoded_keys none = []
decoded_keys (some v) = (store_struct jwks_fields v []).0

-- big.Int.SetBytes: the number of the bytes, the highest first.
unfoldable pub set_bytes : ℕ → Str → ℕ
set_bytes n [] = n
set_bytes n (b ∷ bs) = set_bytes (n * 256 + b) bs

unfoldable pub parse_ec_public_key : EcJwk → Result Key
unfolding set_bytes
parse_ec_public_key k = do
  x ← or_error (wrapped (codes "decode x") (cause base64_input)) (decode_raw_url k.x)
  y ← or_error (wrapped (codes "decode y") (cause base64_input)) (decode_raw_url k.y)
  ok (public_key (set_bytes 0 x) (set_bytes 0 y))

-- The loop over the keys of a response.
stored_key : Str → Map Key → Result Key → Map Key
unfolding put
stored_key name keys (ok pub_key) = put keys name pub_key
stored_key name keys (err e) = keys

unfoldable pub store_keys : Str → List EcJwk → Map Key → Map Key
unfolding stored_key
store_keys name [] keys = keys
store_keys name (k ∷ ks) keys =
    store_keys name ks
      (if k.kty == codes "EC" then stored_key name keys (parse_ec_public_key k) else keys)

-- The keys and the requests made so far.
pub record Fetched : Type 0 where
  pub keys : Map Key
  pub requests : ℕ

-- The network: the body of the answer to a GET, if there is one.
pub record Network : Type 0 where
  pub get : ℕ → Str → Option Str
  pub decode_json : Str → Option Value

-- The keys after one attempt: an error of the request leaves them alone.
attempted : Network → TrustedIssuerEntry → Map Key → Option Str → Map Key
unfolding decoded_keys store_keys
attempted net e keys none = keys
attempted net e keys (some body) = store_keys e.name (decoded_keys (net.decode_json body)) keys

-- Whether the loop ends behind the attempt: there was an answer, and there is a key for the issuer.
has_key : Str → Map Key → Bool
has_key name keys = elim (get keys name) [ none ↦ false | some k ↦ true ]

is_done : Str → Map Key → Option Str → Bool
unfolding has_key
is_done name keys none = false
is_done name keys (some body) = has_key name keys

-- `for attempt := 0; attempt < 10; attempt++`, by the attempts that are left.
unfoldable pub fetch_entry : Network → ℕ → TrustedIssuerEntry → Fetched → Fetched
unfolding attempted is_done
fetch_entry net zero e f = f
fetch_entry net (suc attempts) e f =
    let answer = net.get f.requests e.jwks_url in
    let keys = attempted net e f.keys answer in
    let next : Fetched = record { keys = keys; requests = f.requests + 1 } in
    let more = fetch_entry net attempts e next in if is_done e.name keys answer then next else more

fetch_from : Network → List TrustedIssuerEntry → Fetched → Fetched
unfolding fetch_entry
fetch_from net [] f = f
fetch_from net (e ∷ es) f = fetch_from net es (fetch_entry net 10 e f)

unfoldable pub fetch_all_jwks : Network → List TrustedIssuerEntry → Fetched
unfolding fetch_from
fetch_all_jwks net entries = fetch_from net entries (record { keys = []; requests = 0 })

issuer_key : (MapClaims → Str) → Map Key → Claims MapClaims → Result Key
issuer_key get_issuer keys other_type = err (plain (codes "unexpected claims type"))
issuer_key get_issuer keys (asserted claims) =
    or_error (plain (codes "no key for issuer: " ++ get_issuer claims))
      (get keys (get_issuer claims))

-- `get_issuer` is golang-jwt's.
unfoldable pub build_key_func : (MapClaims → Str) → Map Key → Keyfunc MapClaims
unfolding issuer_key
build_key_func get_issuer keys token = issuer_key get_issuer keys token.claims
