-- ===== src/Server/Wiring/Methods.antt =====
-- The authentication methods of the tokens of the service.
use mathlib.Core.List.{Perm}
use centralized_identity.Common.{
  Str, codes, ◌==◌, Bool, false, ◌||◌, ℕ, ok, Result, ◌∙◌, ◌≡◌, ap, sym,
}
use centralized_identity.Adapter.{Adapter, ExchangeRequest, ExchangeResult}
use centralized_identity.Adapter.Lookup.{adapters_of}
use centralized_identity.Adapter.JwtAdapter
use centralized_identity.Adapter.JwtAdapter.Trusted
use centralized_identity.Adapter.OpaqueAdapter
use centralized_identity.Adapter.OpaqueAdapter.Characters
use centralized_identity.Adapter.SamlAdapter
use centralized_identity.Adapter.SamlAdapter.Assertion
use centralized_identity.Http.{HttpRequest, fresh}
use centralized_identity.Canonical.{CanonicalClaims, mint, minted}
use centralized_identity.Exchange.{
  TokenExchangeResponse, token, minted_token, request_of, audience_of,
}
use centralized_identity.Handler.{serve_http}
use centralized_identity.Handler.Responses.{Sends, serve_http-token_iff}
use centralized_identity.Server.Wiring.{Platform, Moment, server_env, token_config, server_registry}
use centralized_identity.Server.Wiring.Scope.{Mem-registered, Resolves-registered}

-- The two methods that are no legacy of another system.
unfoldable pub is_strong : Str → Bool
unfolding ◌==◌
is_strong method = method == codes "oidc" || method == codes "mtls"

abbrev method : ExchangeResult → Str
method r = r.identity_claims.auth_method

-- Whatever the adapter exchanges, the method of the result is another.
abbrev NeverStrong : Adapter → Type 0
NeverStrong a =
    (now : ℕ) (req : ExchangeRequest) (r : ExchangeResult)
    → a.exchange now req ≡ ok r
    → is_strong (method r) ≡ false

jwt-NeverStrong :
    (s : JwtAdapter.Services) (config : JwtAdapter.JwtConfig)
    → NeverStrong (JwtAdapter.jwt_adapter s config)
unfolding JwtAdapter.jwt_adapter JwtAdapter.result is_strong
jwt-NeverStrong s config now req r h =
    let (_, _, _, made) = (Trusted.jwt_exchange-ok_iff s config now req r).0 h in
    ap (λ x. is_strong (method x)) made

opaque-NeverStrong :
    (lookup : OpaqueAdapter.Lookup) → NeverStrong (OpaqueAdapter.opaque_adapter lookup)
unfolding OpaqueAdapter.opaque_adapter OpaqueAdapter.result is_strong
opaque-NeverStrong lookup now req r h =
    let (_, _, made) = (Characters.opaque_exchange-ok_iff lookup now req r).0 h in
    ap (λ x. is_strong (method x)) made

saml-NeverStrong :
    (s : SamlAdapter.Services) (config : SamlAdapter.SamlConfig)
    → NeverStrong (SamlAdapter.saml_adapter s config)
unfolding SamlAdapter.saml_adapter SamlAdapter.result is_strong
saml-NeverStrong s config now req r h =
    let (_, _, _, made) =
      (Assertion.saml_exchange-ok_iff s (SamlAdapter.new_saml_config config) now req r).0 h in
    ap (λ x. is_strong (method x)) made

NeverStrong-prop : (a : Adapter) → IsProp (NeverStrong a)
NeverStrong-prop a = hlevel

-- The claims behind a token response, and their method.
pub server-NeverStrong :
    (p : Platform) (m : Moment) (perm : Perm m.order (adapters_of (server_registry p)))
    (r : HttpRequest) (response : TokenExchangeResponse)
    → Sends (serve_http (server_env p m) r fresh) 200 (token response)
    → (c : CanonicalClaims) × (p.signer.sign
          (token_config p).signing_alg
          c
          (token_config p).signing_key
        ≡ ok response.access_token)
      × (is_strong c.claims.auth_method ≡ false)
unfolding minted_token mint token_config
server-NeverStrong p m perm r response sent =
    let (req, t, _, i, made) = (serve_http-token_iff (server_env p m) r response).0 sent in
    let weak =
      Resolves-registered NeverStrong p m perm
        (Mem-registered NeverStrong NeverStrong-prop p (jwt-NeverStrong _ _) (opaque-NeverStrong _)
          (saml-NeverStrong _ _))
        req i.adapter i.found m.adapter_time (request_of req) i.result i.authenticated in
    (
      minted p.signer (token_config p) m.mint_time m.uuid i.result.subject (audience_of req)
          i.result.identity_claims,
      i.signed
          ∙ ap {B = Result Str} ok (sym (ap (λ (x : TokenExchangeResponse). x.access_token) made)),
      weak,
    )
