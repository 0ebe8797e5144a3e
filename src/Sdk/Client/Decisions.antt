-- ===== src/Sdk/Client/Decisions.antt =====
-- sdk/go/helpers.go: when a token validates, when a policy allows, and when an exchange gives a
-- token.
use centralized_identity.Common.{
  eqb_iff, or_error-ok, ◌≢◌, codes, Str, ℕ, Bool, eqb, some, Result, ok, err, wrap_then, >>=-eq-ok,
  ◌∷◌, [], ◌≡◌, ◌↔◌, refl, inl, inr, Bool-cases,
}
use centralized_identity.Common.Json.{Value}
use centralized_identity.Http.{HttpResponse}
use centralized_identity.Jwt.{ParserOptions, Key, raw_message, Parse, AsksKeyfunc, Keyfunc, Token}
use centralized_identity.Sdk.{Identity}
use centralized_identity.Sdk.Jwks.{JwksCache, refresh_if_stale, key_of}
use centralized_identity.Sdk.Jwks
use centralized_identity.Sdk.Jwks.RawKeys.{IsRaw, raw, Reach, refresh, key_of-IsRaw}
use centralized_identity.Sdk.Client.{
  Client, CanonicalClaims, parser_options, validate_canonical_jwt, validated, validate_token,
  Services, policy_input, allow_of, evaluate_policy, check_policy, exchange_token, exchanged_token,
  access_token_of,
}

-- golang-jwt on ES256: a key that is no *ecdsa.PublicKey is refused with ErrInvalidKeyType.
abbrev pub RefusesRaw : Parse CanonicalClaims → Type 0
RefusesRaw parse =
    (o : ParserOptions) (now : ℕ) (f : Keyfunc CanonicalClaims) (s : Str)
    (t : Token CanonicalClaims) (v : Value)
    → parse o now f s ≡ ok t
    → f t ≢ Result.ok (raw_message v)

no-IsRaw :
    (parse : Parse CanonicalClaims) (refuses : RefusesRaw parse) (c : JwksCache) (o : ParserOptions)
    (now : ℕ) (token : Str) (t : Token CanonicalClaims) (k : Key)
    → parse o now (key_of c) token ≡ ok t
    → key_of c t ≡ ok k
    → ¬ (IsRaw k)
no-IsRaw parse refuses c o now token t _ h g (raw v) = refuses o now (key_of c) token t v h g

validated-refuses :
    (parse : Parse CanonicalClaims) (asks : AsksKeyfunc CanonicalClaims parse)
    (refuses : RefusesRaw parse) (now : ℕ) (token : Str) (o : Result (Unit {0}) × JwksCache)
    (i : Identity)
    → Reach o.1
    → (validated parse now token o).0 ≢ ok i
unfolding validated validate_canonical_jwt
validated-refuses parse asks refuses now token (err e, c) i r h = cc h
validated-refuses parse asks refuses now token (ok u, c) i r h =
    let (claims, h₁, _) = wrap_then _ (validate_canonical_jwt parse now token (key_of c)) _ h in
    let (t, accepted, _) = >>=-eq-ok (parse parser_options now (key_of c) token) _ h₁ in
    let (k, asked) = asks parser_options now (key_of c) token t accepted in
    no-IsRaw parse refuses c parser_options now token t k accepted asked
      (key_of-IsRaw c t k r asked)

-- ValidateToken never succeeds: the client's cache, as new or as any calls have left it, holds no
-- key that the parser can verify a token with, if the parser asks the key function for the key of
-- every token that it accepts, and accepts none by a key that is a raw JSON document.
pub validate_token-refuses :
    (parse : Parse CanonicalClaims) (asks : AsksKeyfunc CanonicalClaims parse)
    (refuses : RefusesRaw parse) (s : Jwks.Services) (now : ℕ) (c : JwksCache) (token : Str)
    (i : Identity)
    → Reach c
    → (validate_token parse s now c token).0 ≢ ok i
unfolding validate_token
validate_token-refuses parse asks refuses s now c token i r =
    validated-refuses parse asks refuses now token (refresh_if_stale s c) i (refresh s r)

-- The calls of a policy evaluation that gave `allow`.
pub record Decides (s : Services) (c : Client) (i : Identity) (resource action : Str) (allow : Bool)
    : Type 0 where
  pub body : Str
  pub request : Str
  pub response : HttpResponse
  pub marshalled : s.marshal_input (policy_input c.config i resource action) ≡ ok body
  pub requested : s.new_request c.config.policy_endpoint body ≡ ok request
  pub answered : s.send request ≡ ok response
  pub decided : allow_of s response.body ≡ some allow

-- CheckPolicy gives a decision exactly if each of its calls has succeeded, on the identity's input
-- and the configured endpoint, and the decision is the one decoded from the response: whatever
-- fails, access is never allowed. The status code of the response does not count.
pub check_policy-ok_iff :
    (s : Services) (c : Client) (i : Identity) (resource action : Str) (allow : Bool)
    → (check_policy s c i resource action ≡ ok allow) ↔ (Decides s c i resource action allow)
unfolding check_policy evaluate_policy
check_policy-ok_iff s c i resource action allow = (
  λ h.
      let (body, h₁, k₁) =
        wrap_then _ (s.marshal_input (policy_input c.config i resource action)) _ h in
      let (req, h₂, k₂) = >>=-eq-ok (s.new_request c.config.policy_endpoint body) _ k₁ in
      let (resp, h₃, k₃) = wrap_then _ (s.send req) _ k₂ in
      record {
        body = body;
        request = req;
        response = resp;
        marshalled = h₁;
        requested = h₂;
        answered = h₃;
        decided = or_error-ok _ (allow_of s resp.body) k₃;
      },
  λ d. rw (d.marshalled, d.requested, d.answered, d.decided) refl,
)

-- The calls of an exchange that gave the token.
pub record Exchanges (s : Services) (c : Client) (token token_type access_token : Str)
    : Type 0 where
  pub body : Str
  pub request : Str
  pub response : HttpResponse
  pub marshalled :
      s.marshal_texts (
        (codes "grant_type", codes "urn:ietf:params:oauth:grant-type:token-exchange")
        ∷ (codes "subject_token", token)
        ∷ (codes "subject_token_type", token_type)
        ∷ [])
      ≡ ok body
  pub requested : s.new_request c.config.exchange_endpoint body ≡ ok request
  pub answered : s.send request ≡ ok response
  pub fine : response.status_code ≡ 200
  pub decoded : access_token_of s response.body ≡ some access_token

exchanged_token-ok :
    (s : Services) (resp : HttpResponse) (t : Str)
    → exchanged_token s resp ≡ ok t
    → (resp.status_code ≡ 200) × (access_token_of s resp.body ≡ some t)
unfolding exchanged_token
exchanged_token-ok s resp t h = elim (Bool-cases (eqb resp.status_code 200)) [
  | inl fine ↦ (
    (eqb_iff resp.status_code 200).0 fine,
    or_error-ok _ (access_token_of s resp.body) (rw fine at h),
  )
  | inr other ↦ cc (rw other at h)
]

exchanged_token-fine :
    (s : Services) (resp : HttpResponse) (t : Str)
    → resp.status_code ≡ 200
    → access_token_of s resp.body ≡ some t
    → exchanged_token s resp ≡ ok t
unfolding exchanged_token
exchanged_token-fine s resp t fine decoded = rw (fine, decoded) refl

-- ExchangeToken gives a token exactly if it was sent to the exchange endpoint under its grant
-- type, the response has status 200, and the token is the access token of its body.
pub exchange_token-ok_iff :
    (s : Services) (c : Client) (token token_type access_token : Str)
    → (exchange_token s c token token_type ≡ ok access_token)
      ↔ (Exchanges s c token token_type access_token)
unfolding exchange_token
exchange_token-ok_iff s c token token_type access_token = (
  λ h.
      let (body, h₁, k₁) = >>=-eq-ok (s.marshal_texts _) _ h in
      let (req, h₂, k₂) = >>=-eq-ok (s.new_request c.config.exchange_endpoint body) _ k₁ in
      let (resp, h₃, k₃) = wrap_then _ (s.send req) _ k₂ in
      let (fine, decoded) = exchanged_token-ok s resp access_token k₃ in
      record {
        body = body;
        request = req;
        response = resp;
        marshalled = h₁;
        requested = h₂;
        answered = h₃;
        fine = fine;
        decoded = decoded;
      },
  λ d.
      rw (d.marshalled, d.requested, d.answered)
        (exchanged_token-fine s d.response access_token d.fine d.decoded),
)
