-- ===== src/EndToEnd.antt =====
-- A token of an old system, from its issuer through the SDK's ExchangeToken and the service to the
-- canonical token: the mock services of local-dev, sdk/go/helpers.go and cmd/server/main.go
-- together.
pub mod Tests
pub mod Access
use mathlib.Core.List.{Perm}
use centralized_identity.Common.{
  Str, codes, length, leb, ltb, Map, get, ℕ, ◌+◌, ◌*◌, ◌/◌, ◌≤◌, ◌<◌, true, false, none, some, All,
  List, [], ◌∷◌, Result, ok, ◌≡◌, ◌≢◌, ◌∙◌, refl, ap, arith, if◌then◌else◌,
}
use centralized_identity.Jwt.{public_key}
use centralized_identity.Canonical.{second, minute}
use centralized_identity.Adapter.{
  Adapter, ExchangeResult, token_type_jwt, token_type_opaque, get_adapter,
}
use centralized_identity.Adapter.Lookup.{adapters_of}
use centralized_identity.Adapter.JwtAdapter.{MapClaims}
use centralized_identity.Exchange.{Env, minted_token, request_of, exchange}
use centralized_identity.Exchange.Outcome.{Resolves, hinted, detected, bearer, exchange-ok_iff}
use centralized_identity.Server.Wiring.{
  Platform, Moment, server_env, server_jwt, server_opaque, server_saml, server_registry,
}
use centralized_identity.Sdk.Client.{Client, Services, exchange_token}
use centralized_identity.Sdk.Client.Served.{Connected, asked_for, as_told, exchange_token-served}
use centralized_identity.Adapter.JwtAdapter
use centralized_identity.Adapter.OpaqueAdapter
use centralized_identity.Adapter.SamlAdapter
use centralized_identity.Server.Issuers.{get_env}
use centralized_identity.OpaqueTokenApp.{Session, encode_hex, hour}
use centralized_identity.OpaqueTokenApp.Sessions.{Login, logged_in, encode_hex-ne-nil}
use centralized_identity.OpaqueTokenApp.Exchanged.{Reaches, login_identity, handle_login-exchange}
use centralized_identity.LegacyJwtApp.{issued_claims, issued, handle_issue_token, handle_jwks}
use centralized_identity.LegacyJwtApp.Exchanged.{
  Verifies, ReadsIssuer, app_entry, app_identity, handle_issue_token-exchange,
}
use centralized_identity.SamlApp.{saml_assertion}
use centralized_identity.SamlApp.Exchanged.{
  Reads, saml_identity, saml_assertion-exchange, saml_assertion-detected, saml_assertion-long,
}

-- What the client gets if the adapter for the token exchanges it and the result is minted.
exchange_token-minted :
    (s : Services) (client : Client) (env : Env) (uuid trace_id subject_token kind t : Str)
    (a : Adapter) (r : ExchangeResult)
    → Connected s client.config.exchange_endpoint env uuid trace_id
    → subject_token ≢ []
    → Resolves env (asked_for subject_token kind) a
    → a.exchange env.adapter_time (request_of (asked_for subject_token kind)) ≡ ok r
    → minted_token env (asked_for subject_token kind) r ≡ ok t
    → exchange_token s client subject_token kind ≡ ok t
exchange_token-minted s client env uuid trace_id subject_token kind t a r connected given found
      authenticated signed =
    exchange_token-served s client env uuid trace_id subject_token kind connected given
    ∙ ap (as_told env) (
        (exchange-ok_iff env (asked_for subject_token kind) (bearer t)).1 (
          t,
          record {
            adapter = a;
            result = r;
            found = found;
            authenticated = authenticated;
            signed = signed;
          },
          refl,
        ))

saml_assertion-given : (format : ℕ → Str) (now : ℕ) → saml_assertion format now ≢ []
saml_assertion-given format now e =
    absurd (omega (arith, saml_assertion-long format now, ap length e))

-- A client that sends an assertion of the app without a type gets the canonical token that is
-- signed for its identity, in whatever order the service asks its adapters, up to the whole second
-- in which the assertion's five minutes end. The key signs; the libraries and the network behave
-- as documented.
pub saml_assertion-served :
    (p : Platform) (m : Moment) (format : ℕ → Str) (now : ℕ) (s : Services) (client : Client)
    (uuid trace_id t : Str)
    → Perm m.order (adapters_of (server_registry p))
    → Reads p.saml format now
    → Connected s client.config.exchange_endpoint (server_env p m) uuid trace_id
    → m.adapter_time ≤ (now + 5 * minute) / second * second
    → minted_token (server_env p m) (asked_for (saml_assertion format now) []) saml_identity ≡ ok t
    → exchange_token s client (saml_assertion format now) [] ≡ ok t
saml_assertion-served p m format now s client uuid trace_id t perm reads connected early signed =
    let token = saml_assertion format now in
    let req = asked_for token [] in
    let in_time : ltb ((now + 5 * minute) / second * second) m.adapter_time ≡ false =
      ground (arith, early) in
    exchange_token-minted s client (server_env p m) uuid trace_id token [] t (server_saml p)
      saml_identity connected (saml_assertion-given format now)
      (detected refl (saml_assertion-detected p format now m.order reads.in_bytes perm))
      (saml_assertion-exchange p format now reads m.adapter_time (request_of req) refl
        ∙ rw in_time refl)
      signed

registry-jwt : (p : Platform) → get_adapter (server_registry p) token_type_jwt ≡ ok (server_jwt p)
unfolding server_registry get_adapter get JwtAdapter.jwt_adapter OpaqueAdapter.opaque_adapter
    SamlAdapter.saml_adapter
registry-jwt p = refl

registry-opaque :
    (p : Platform) → get_adapter (server_registry p) token_type_opaque ≡ ok (server_opaque p)
unfolding server_registry get_adapter get JwtAdapter.jwt_adapter OpaqueAdapter.opaque_adapter
    SamlAdapter.saml_adapter
registry-opaque p = refl

-- A client that sends a token of the JWT issuer as a JWT gets the canonical token that is signed
-- for its identity, while the clock is before the whole second in which the token's hour ends. The
-- service trusts the default issuer only, its first request for keys was answered with the
-- issuer's key set, the issuer's key has signed the token, the service's key signs, and the
-- libraries and the network behave as documented.
pub handle_issue_token-served :
    (p : Platform) (m : Moment) (sign : MapClaims → Result Str) (x y now later : ℕ)
    (body signed : Str) (s : Services) (client : Client) (uuid trace_id t : Str)
    → get p.env (codes "TRUSTED_ISSUERS") ≡ none
    → p.network.get 0 app_entry.jwks_url ≡ some body
    → p.network.decode_json body ≡ some (handle_jwks x y)
    → ReadsIssuer p.jwt.get_issuer
    → sign (issued_claims now later) ≡ ok signed
    → Verifies p.jwt.parse (public_key x y) (issued_claims now later) signed
    → signed ≢ []
    → Connected s client.config.exchange_endpoint (server_env p m) uuid trace_id
    → m.adapter_time < (now + 3600 * second) / second * second
    → minted_token (server_env p m) (asked_for signed token_type_jwt) app_identity ≡ ok t
    → (handle_issue_token sign now later ≡ issued (ok signed))
      × (exchange_token s client signed token_type_jwt ≡ ok t)
handle_issue_token-served p m sign x y now later body signed s client uuid trace_id t unset answered
      decoded reads made v given connected early minted =
    let (sent, exchanged) =
      handle_issue_token-exchange p x y body unset answered decoded reads sign now later
        m.adapter_time signed (request_of (asked_for signed token_type_jwt)) made v refl early in
    (
      sent,
      exchange_token-minted s client (server_env p m) uuid trace_id signed token_type_jwt t
          (server_jwt p) app_identity connected given (hinted (λ e. cc e) (registry-jwt p))
          exchanged minted,
    )

-- A client that sends the token of a login as an opaque token gets the canonical token that is
-- signed for its identity, for 24 hours from the login, whatever other logins follow, whose tokens
-- differ. The bytes of the login are not empty, the service's key signs, and the libraries and the
-- network behave as documented.
pub handle_login-served :
    (p : Platform) (m : Moment) (sessions : Map Session) (l : Login) (ls : List Login) (now : ℕ)
    (s : Services) (client : Client) (uuid trace_id t : Str)
    → Reaches p.session
        (get_env p.env
          (codes "OPAQUE_VALIDATE_URL")
          (codes "http://opaque-token-app:9002/validate"))
        now
        (logged_in sessions (l ∷ ls))
    → l.bytes ≢ []
    → All (λ m. encode_hex m.bytes ≢ encode_hex l.bytes) ls
    → Connected s client.config.exchange_endpoint (server_env p m) uuid trace_id
    → now ≤ l.now + 24 * hour
    → minted_token
        (server_env p m)
        (asked_for (encode_hex l.bytes) token_type_opaque)
        login_identity
      ≡ ok t
    → exchange_token s client (encode_hex l.bytes) token_type_opaque ≡ ok t
handle_login-served p m sessions l ls now s client uuid trace_id t reaches some_bytes others
      connected early minted =
    let token = encode_hex l.bytes in
    let in_time : ltb (l.now + 24 * hour) now ≡ false = ground (arith, early) in
    exchange_token-minted s client (server_env p m) uuid trace_id token token_type_opaque t
      (server_opaque p) login_identity connected (encode_hex-ne-nil l.bytes some_bytes)
      (hinted (λ e. cc e) (registry-opaque p))
      (handle_login-exchange p sessions l ls now m.adapter_time
          (request_of (asked_for token token_type_opaque)) reaches some_bytes others refl
        ∙ rw in_time refl)
      minted
