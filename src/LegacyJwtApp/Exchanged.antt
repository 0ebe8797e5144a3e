-- ===== src/LegacyJwtApp/Exchanged.antt =====
-- A token of the app, from its signing to its exchange by the service.
use centralized_identity.Common.{
  Str, codes, split, Map, ◌==◌, sym, get, trim_space, split_2, ℕ, ◌+◌, ◌*◌, ◌/◌, ◌<◌, false, [],
  ◌∷◌, Result, ok, none, some, ◌≡◌, ◌∙◌, refl, ap,
}
use centralized_identity.Common.Json.{Value, text, number}
use centralized_identity.Http.{decimal}
use centralized_identity.Jwt.{Key, public_key, Token, asserted, Keyfunc, Parse, ParserOptions}
use centralized_identity.Canonical.{auth_legacy, second}
use centralized_identity.Adapter.{ExchangeRequest, ExchangeResult}
use centralized_identity.Adapter.JwtAdapter
use centralized_identity.Adapter.JwtAdapter.{MapClaims}
use centralized_identity.Adapter.JwtAdapter.Trusted.{expiring, Trusted, jwt_exchange-ok_iff}
use centralized_identity.Server.Issuers.Format.{get_env-unset}
use centralized_identity.Server.Issuers.{
  TrustedIssuerEntry, default_issuers, parse_trusted_issuers, trusted_issuer,
  build_trusted_issuer_config,
}
use centralized_identity.Server.Keys.{fetch_all_jwks, build_key_func}
use centralized_identity.Server.Wiring.{Platform, server_jwt, jwt_config, entries}
use centralized_identity.LegacyJwtApp.{issued_claims, issued, handle_issue_token, handle_jwks}
use centralized_identity.LegacyJwtApp.Publishing.{fetch_all_jwks-handle_jwks}

-- The token that golang-jwt makes of a text which it accepts.
abbrev pub token_of : Map Value → MapClaims → Token MapClaims
token_of header claims = record { header = header; claims = asserted claims }

-- golang-jwt, as documented: it accepts a token which was signed over the claims if the key
-- function answers with the key and the time is before that of "exp", where no issuer and no check
-- of "iat" is asked for.
pub record Verifies (parse : Parse MapClaims) (key : Key) (claims : MapClaims) (signed : Str)
    : Type 0 where
  pub header : Map Value
  pub accepts :
      (o : ParserOptions) (now expiry : ℕ) (f : Keyfunc MapClaims)
      → o.issuer ≡ none
      → o.issued_at ≡ false
      → get claims (codes "exp") ≡ some (number (decimal expiry))
      → now < expiry * second
      → f (token_of header claims) ≡ ok key
      → parse o now f signed ≡ ok (token_of header claims)

-- golang-jwt's GetIssuer, as documented: it reads "iss".
abbrev pub ReadsIssuer : (MapClaims → Str) → Type 0
ReadsIssuer get_issuer =
    (claims : MapClaims) (name : Str)
    → get claims (codes "iss") ≡ some (text name)
    → get_issuer claims ≡ name

-- Where the service finds the app, if nothing else is configured.
abbrev pub app_entry : TrustedIssuerEntry
app_entry = record {
  name = codes "legacy-jwt-issuer";
  jwks_url = codes "http://legacy-jwt-app:9001/.well-known/jwks.json";
  trust = codes "medium";
}

abbrev pub app_identity : ExchangeResult
app_identity = record {
  subject = codes "user:legacy-user-1";
  identity_claims = record {
    org_id = codes "acme-corp";
    roles = codes "order.read" ∷ codes "order.write" ∷ [];
    auth_method = auth_legacy;
    original_issuer = codes "legacy-jwt-issuer";
    trust_level = codes "medium";
    pci_scope = false;
    service_name = [];
  };
}

pub default_entries :
    (env : Map Str)
    → get env (codes "TRUSTED_ISSUERS") ≡ none
    → parse_trusted_issuers env ≡ app_entry ∷ []
unfolding parse_trusted_issuers trim_space split split_2 ◌==◌
default_entries env unset =
    rw (get_env-unset env (codes "TRUSTED_ISSUERS") default_issuers unset) refl

app_identity-result :
    (now later : ℕ)
    → JwtAdapter.result
        (issued_claims now later)
        (codes "legacy-jwt-issuer")
        (trusted_issuer app_entry)
      ≡ app_identity
unfolding JwtAdapter.result issued_claims get ◌==◌
app_identity-result now later = refl

issued_claims-exp :
    (now later : ℕ)
    → get (issued_claims now later) (codes "exp")
      ≡ some (number (decimal ((now + 3600 * second) / second)))
unfolding issued_claims get ◌==◌
issued_claims-exp now later = refl

issued_claims-iss :
    (now later : ℕ)
    → get (issued_claims now later) (codes "iss") ≡ some (text (codes "legacy-jwt-issuer"))
unfolding issued_claims get ◌==◌
issued_claims-iss now later = refl

-- The service, if it trusts the default issuer only and its first request to the app is answered
-- with the app's key set.
module _ (p : Platform) (x y : ℕ) (body : Str) (unset : get p.env (codes "TRUSTED_ISSUERS") ≡ none)
    (answered : p.network.get 0 app_entry.jwks_url ≡ some body)
    (decoded : p.network.decode_json body ≡ some (handle_jwks x y))
    (reads : ReadsIssuer p.jwt.get_issuer) where
  fetched :
      fetch_all_jwks p.network (entries p)
      ≡ record { keys = (codes "legacy-jwt-issuer", public_key x y) ∷ []; requests = 1 }
  fetched =
      ap (fetch_all_jwks p.network) (default_entries p.env unset)
      ∙ fetch_all_jwks-handle_jwks p.network app_entry body x y answered decoded

  listed :
      get (jwt_config p).trusted_issuers (codes "legacy-jwt-issuer")
      ≡ some (trusted_issuer app_entry)
  unfolding jwt_config build_trusted_issuer_config get ◌==◌
  listed = rw (default_entries p.env unset) refl

  key :
      (header : Map Value) (now later : ℕ)
      → (jwt_config p).key_func (token_of header (issued_claims now later)) ≡ ok (public_key x y)
  unfolding jwt_config build_key_func get ◌==◌
  key header now later =
      rw (fetched, reads (issued_claims now later) _ (issued_claims-iss now later)) refl

  -- A token that the app issues with its key is exchanged, as the same identity each time, while
  -- the clock is before the whole second in which its hour ends. The service trusts the default
  -- issuer only, its first request for keys was answered with the app's key set, and golang-jwt
  -- accepts what was signed with the key and reads "iss", as documented.
  pub handle_issue_token-exchange :
      (sign : MapClaims → Result Str) (now later time : ℕ) (signed : Str) (req : ExchangeRequest)
      → sign (issued_claims now later) ≡ ok signed
      → Verifies p.jwt.parse (public_key x y) (issued_claims now later) signed
      → req.subject_token ≡ signed
      → time < (now + 3600 * second) / second * second
      → (handle_issue_token sign now later ≡ issued (ok signed))
        × ((server_jwt p).exchange time req ≡ ok app_identity)
  unfolding handle_issue_token JwtAdapter.jwt_adapter JwtAdapter.exchange
  handle_issue_token-exchange sign now later time signed req made v same early =
      let claims = issued_claims now later in
      let iss = reads claims (codes "legacy-jwt-issuer") (issued_claims-iss now later) in
      let trusted : Trusted p.jwt (jwt_config p) time req.subject_token claims
          (trusted_issuer app_entry) =
        record {
          parsed = token_of v.header claims;
          accepted = rw same (
              v.accepts expiring time ((now + 3600 * second) / second) (jwt_config p).key_func refl
                refl (issued_claims-exp now later) early (key v.header now later));
          asserts = refl;
          listed = rw iss listed;
        } in
      (
        ap issued made,
        (jwt_exchange-ok_iff p.jwt (jwt_config p) time req app_identity).1 (
          claims,
          trusted_issuer app_entry,
          trusted,
          rw iss (sym (app_identity-result now later)),
        ),
      )
