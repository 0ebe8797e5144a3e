-- ===== src/LegacyJwtApp.antt =====
-- local-dev/mock-services/legacy-jwt-app/main.go: the issuer of the custom JWTs that the JWT adapter
-- exchanges. Its key is generated, and golang-jwt signs: both are parameters.
pub mod Publishing
pub mod Hosted
pub mod Exchanged
pub mod Tests
use centralized_identity.Common.{
  Str, codes, ltb, ℕ, zero, suc, ◌+◌, ◌*◌, ◌/◌, ◌%◌, eqb, List, [], ◌∷◌, Result, ok, err, Error,
  if◌then◌else◌, Map, ◌++◌, ◌>>=◌, Cause, error_text,
}
use centralized_identity.Common.Base64.Encoding.{encode_raw_url}
use centralized_identity.Common.Json.{Value, text, number, array, object, nil, cons, end, member}
use centralized_identity.Http.{
  decimal, HttpRequest, HttpResponse, text_response, error_response, serve_mux,
}
use centralized_identity.Server.Issuers.{get_env}
use centralized_identity.Canonical.{second}
use centralized_identity.Adapter.JwtAdapter.{MapClaims}

-- What is written: http.Error, or JSON with status 200.
pub data Answer : Type 0 where
  http_error : Error → ℕ → Answer
  json : Value → Answer

-- jwt.MapClaims of a token: the clock is read for each of its times.
unfoldable pub issued_claims : ℕ → ℕ → MapClaims
unfolding decimal
issued_claims now later =
    (codes "sub", text (codes "user:legacy-user-1"))
    ∷ (codes "iss", text (codes "legacy-jwt-issuer"))
    ∷ (codes "exp", number (decimal ((now + 3600 * second) / second)))
    ∷ (codes "iat", number (decimal (later / second)))
    ∷ (codes "user_name", text (codes "john.doe"))
    ∷ (codes "org", text (codes "acme-corp"))
    ∷ (codes "perms", text (codes "order.read,order.write"))
    ∷ []

token_description : Str
token_description =
    codes
      "This is a legacy custom JWT with non-standard claims (user_name, org, perms). The Token Exchange Service should translate this into a canonical token."

-- The encoder sorts the keys of a map.
pub issued : Result Str → Answer
unfolding token_description
issued (err e) = http_error e 500
issued (ok signed) = json (
    object (
      member (codes "description") (text token_description) (
        member (codes "token") (text signed)
          (member (codes "token_type") (text (codes "Bearer")) end))))

-- handleIssueToken: `sign` is golang-jwt's SignedString with the app's key.
unfoldable pub handle_issue_token : (MapClaims → Result Str) → ℕ → ℕ → Answer
unfolding issued issued_claims
handle_issue_token sign now later = issued (sign (issued_claims now later))

-- big.Int.Bytes: the bytes of a number, the highest first, and none for 0. There are fewer of them
-- than the number is large.
big_bytes_from : ℕ → ℕ → Str → Str
big_bytes_from zero n acc = acc
big_bytes_from (suc f) n acc =
    let more = big_bytes_from f (n / 256) (n % 256 ∷ acc) in if eqb n 0 then acc else more

unfoldable pub big_bytes : ℕ → Str
unfolding big_bytes_from
big_bytes n = big_bytes_from n n []

jwk : ℕ → ℕ → Value
unfolding big_bytes encode_raw_url
jwk x y = object (
    member (codes "alg") (text (codes "ES256")) (
      member (codes "crv") (text (codes "P-256")) (
        member (codes "kid") (text (codes "legacy-key-1")) (
          member (codes "kty") (text (codes "EC")) (
            member (codes "use") (text (codes "sig")) (
              member (codes "x") (text (encode_raw_url (big_bytes x)))
                (member (codes "y") (text (encode_raw_url (big_bytes y))) end)))))))

-- handleJWKS, for the key with the public point (x, y): the document that it writes.
unfoldable pub handle_jwks : ℕ → ℕ → Value
unfolding jwk
handle_jwks x y = object (member (codes "keys") (array (cons (jwk x y) nil)) end)

protected_message : Str
protected_message =
    codes "This endpoint is protected by legacy JWT validation. After Bronze tier migration, "
    ++ codes "the sidecar will observe this traffic. After Gold tier, it will use the Identity SDK."

-- handleProtected
unfoldable pub handle_protected : Answer
unfolding protected_message
handle_protected = json (object (member (codes "message") (text protected_message) end))

-- The key that is generated, with its public point; and the libraries: signing, the encoder, the
-- texts of errors.
pub record Platform : Type 0 where
  pub sign : MapClaims → Result Str
  pub x : ℕ
  pub y : ℕ
  pub encode : Value → Str
  pub texts : Cause → Str

unfoldable pub delivered : Platform → Answer → HttpResponse
delivered p (http_error e code) = error_response (error_text p.texts e) code
delivered p (json v) = text_response (p.encode v)

-- The routes, for a request that is handled at the given times.
unfoldable pub routes : Platform → ℕ → ℕ → Map (HttpRequest → HttpResponse)
unfolding delivered
routes p now later =
    (codes "/issue-token", λ r. delivered p (handle_issue_token p.sign now later))
    ∷ (codes "/protected", λ r. delivered p handle_protected)
    ∷ (codes "/.well-known/jwks.json", λ r. delivered p (json (handle_jwks p.x p.y)))
    ∷ (codes "/healthz", λ r. text_response (codes "ok"))
    ∷ []

unfoldable pub serve : Platform → ℕ → ℕ → HttpRequest → HttpResponse
unfolding routes
serve p now later = serve_mux (routes p now later)

unfoldable pub address : Map Str → Str
unfolding get_env
address env = codes ":" ++ get_env env (codes "PORT") (codes "9001")

-- main: what it listens at, and what it serves there; without a key it exits.
unfoldable pub main :
    Map Str → Result Platform → Result (Str × (ℕ → ℕ → HttpRequest → HttpResponse))
unfolding address
main env generated = do p ← generated; ok (address env, serve p)
