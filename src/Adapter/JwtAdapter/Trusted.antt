-- ===== src/Adapter/JwtAdapter/Trusted.antt =====
-- Which tokens the JWT adapter exchanges, and what it takes from their claims.
use centralized_identity.Common.{
  Str, codes, get, join, split-join, Lacks, ◌⊎◌, All, ℕ, none, some, true, false, List, [], ◌∷◌,
  map, ok, >>=-eq-ok, wrap_then, or_error_then, ◌≡◌, ◌≢◌, ◌↔◌, refl, arith, inl, inr,
}
use centralized_identity.Common.Json.{Value, Values, text, array, values}
use centralized_identity.Jwt.{ParserOptions, Claims, asserted, other_type, Token}
use centralized_identity.Adapter.{ExchangeRequest, ExchangeResult}
use centralized_identity.Adapter.JwtAdapter.{
  TrustedIssuer, MapClaims, Services, JwtConfig, claim_field, texts, extract_string_slice,
  map_claims, result, exchange,
}

abbrev pub expiring : ParserOptions
expiring = record { issuer = none; expiration_required = true; issued_at = false }

-- The library accepts the token, with an expiry and the configured keys, and the issuer in its
-- claims is one of the trusted.
pub record Trusted (s : Services) (config : JwtConfig) (now : ℕ) (token : Str) (claims : MapClaims)
    (issuer : TrustedIssuer) : Type 0 where
  pub parsed : Token MapClaims
  pub accepted : s.parse expiring now config.key_func token ≡ ok parsed
  pub asserts : parsed.claims ≡ asserted claims
  pub listed : get config.trusted_issuers (s.get_issuer claims) ≡ some issuer

map_claims-eq-ok :
    (c : Claims MapClaims) {claims : MapClaims} → map_claims c ≡ ok claims → c ≡ asserted claims
unfolding map_claims
map_claims-eq-ok (asserted c) h = ground arith
map_claims-eq-ok other_type h = cc

exchange_sound :
    (s : Services) (config : JwtConfig) (now : ℕ) (req : ExchangeRequest) (r : ExchangeResult)
    → exchange s config now req ≡ ok r
    → (claims : MapClaims) × (issuer : TrustedIssuer) × Trusted s config now req.subject_token
        claims issuer
      × (r ≡ result claims (s.get_issuer claims) issuer)
unfolding exchange
exchange_sound s config now req r h =
    let (token, e₁, h₁) =
      wrap_then _ (s.parse expiring now config.key_func req.subject_token) _ h in
    let (claims, e₂, h₂) = >>=-eq-ok (map_claims token.claims) _ h₁ in
    let (issuer, e₃, h₃) =
      or_error_then _ (get config.trusted_issuers (s.get_issuer claims)) _ h₂ in
    (
      claims,
      issuer,
      record {
        parsed = token;
        accepted = e₁;
        asserts = map_claims-eq-ok token.claims e₂;
        listed = e₃;
      },
      cc h₃,
    )

exchange_complete :
    (s : Services) (config : JwtConfig) (now : ℕ) (req : ExchangeRequest) (claims : MapClaims)
    (issuer : TrustedIssuer)
    → Trusted s config now req.subject_token claims issuer
    → exchange s config now req ≡ ok (result claims (s.get_issuer claims) issuer)
unfolding exchange
exchange_complete s config now req claims issuer t =
    rw (t.accepted, t.asserts, map_claims, t.listed)

-- The adapter exchanges a token exactly if golang-jwt accepts it, expiry required, under the
-- adapter's keys, and its issuer is trusted; the result is made from the claims, the issuer and
-- the issuer's entry.
pub jwt_exchange-ok_iff :
    (s : Services) (config : JwtConfig) (now : ℕ) (req : ExchangeRequest) (r : ExchangeResult)
    → (exchange s config now req ≡ ok r) ↔ (
        (claims : MapClaims) × (issuer : TrustedIssuer) × Trusted s config now req.subject_token
          claims issuer
        × (r ≡ result claims (s.get_issuer claims) issuer))
jwt_exchange-ok_iff s config now req r = (
  exchange_sound s config now req r,
  λ (claims, issuer, trusted, made).
      rw made (exchange_complete s config now req claims issuer trusted),
)

texts-map : (roles : List Str) → texts (map text roles) ≡ roles
unfolding texts
texts-map [] = refl
texts-map (r ∷ rs) = rw (texts-map rs)

-- What the roles are, whichever way the claim is written: as an array its items that are strings,
-- and as one string the roles that were joined by commas, if there is one and none holds a comma.
-- The field is the configured one, or the fallback where the configuration is empty.
pub extract_string_slice_lem :
    (claims : MapClaims) (preferred fallback : Str) (v : Value) (roles : List Str)
    → get claims (claim_field preferred fallback) ≡ some v
    → roles ≢ []
    → All (Lacks b',') roles
    → (v ≡ text (join roles (codes ",")))
      ⊎ ((vs : Values) × (v ≡ array vs) × (values vs ≡ map text roles))
    → extract_string_slice claims preferred fallback ≡ roles
unfolding extract_string_slice
extract_string_slice_lem claims preferred fallback v roles found some_role plain written =
    elim written [
      | inl joined ↦ rw (found, joined) (split-join roles b',' some_role plain)
      | inr (vs, listed, each) ↦ rw (found, listed, each) (texts-map roles)
    ]
