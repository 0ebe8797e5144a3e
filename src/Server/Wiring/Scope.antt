-- ===== src/Server/Wiring/Scope.antt =====
-- The PCI scope of the tokens of the service, and what it means for their lifetime.
use mathlib.Core.Logic.Or
use mathlib.Core.List.{Mem, mem-cons, not-mem-nil, Perm}
use mathlib.Core.List.Perm
use mathlib.Core.Path.{subst}
use centralized_identity.Common.{
  Str, ◌==◌, ℕ, Bool, false, some, [], ◌∷◌, ok, Result, ◌∙◌, ◌≡◌, refl, ap, sym, ◌+◌, ◌/◌,
}
use centralized_identity.Adapter.{Adapter, ExchangeRequest, ExchangeResult}
use centralized_identity.Adapter.Lookup.{adapters_of, get_adapter-Mem, detect_adapter-Mem}
use centralized_identity.Adapter.JwtAdapter
use centralized_identity.Adapter.JwtAdapter.Trusted
use centralized_identity.Adapter.OpaqueAdapter
use centralized_identity.Adapter.OpaqueAdapter.Characters
use centralized_identity.Adapter.SamlAdapter
use centralized_identity.Adapter.SamlAdapter.Assertion
use centralized_identity.Http.{HttpRequest, fresh}
use centralized_identity.Canonical.{second, CanonicalClaims, mint, minted}
use centralized_identity.Canonical.Minting.{Truncates, lifetime, minted-lifetime}
use centralized_identity.Exchange.{
  TokenExchangeRequest, TokenExchangeResponse, token, minted_token, request_of, audience_of,
}
use centralized_identity.Handler.{serve_http}
use centralized_identity.Exchange.Outcome.{Resolves, hinted, detected}
use centralized_identity.Handler.Responses.{Sends, serve_http-token_iff}
use centralized_identity.Server.Wiring.{
  Platform, Moment, server_env, token_config, server_registry, server_jwt, server_opaque,
  server_saml,
}

-- Whatever the adapter exchanges, the result is out of PCI scope.
abbrev pub NeverPci : Adapter → Type 0
NeverPci a =
    (now : ℕ) (req : ExchangeRequest) (r : ExchangeResult)
    → a.exchange now req ≡ ok r
    → r.identity_claims.pci_scope ≡ false

abbrev pci : ExchangeResult → Bool
pci r = r.identity_claims.pci_scope

jwt-NeverPci :
    (s : JwtAdapter.Services) (config : JwtAdapter.JwtConfig)
    → NeverPci (JwtAdapter.jwt_adapter s config)
unfolding JwtAdapter.jwt_adapter JwtAdapter.result
jwt-NeverPci s config now req r h =
    let (_, _, _, made) = (Trusted.jwt_exchange-ok_iff s config now req r).0 h in ap pci made

opaque-NeverPci : (lookup : OpaqueAdapter.Lookup) → NeverPci (OpaqueAdapter.opaque_adapter lookup)
unfolding OpaqueAdapter.opaque_adapter OpaqueAdapter.result
opaque-NeverPci lookup now req r h =
    let (_, _, made) = (Characters.opaque_exchange-ok_iff lookup now req r).0 h in ap pci made

saml-NeverPci :
    (s : SamlAdapter.Services) (config : SamlAdapter.SamlConfig)
    → NeverPci (SamlAdapter.saml_adapter s config)
unfolding SamlAdapter.saml_adapter SamlAdapter.result
saml-NeverPci s config now req r h =
    let (_, _, _, made) =
      (Assertion.saml_exchange-ok_iff s (SamlAdapter.new_saml_config config) now req r).0 h in
    ap pci made

pub registered :
    (p : Platform)
    → adapters_of (server_registry p) ≡ server_jwt p ∷ server_opaque p ∷ server_saml p ∷ []
unfolding server_registry ◌==◌ JwtAdapter.jwt_adapter OpaqueAdapter.opaque_adapter
    SamlAdapter.saml_adapter
registered p = refl

NeverPci-prop : (a : Adapter) → IsProp (NeverPci a)
NeverPci-prop a = hlevel

-- What holds of the three adapters holds of each that is registered.
pub Mem-registered :
    (P : Adapter → Type 0) (prop : (a : Adapter) → IsProp (P a)) (p : Platform)
    → P (server_jwt p)
    → P (server_opaque p)
    → P (server_saml p)
    → (a : Adapter) → Mem a (adapters_of (server_registry p))
    → P a
Mem-registered P prop p jwt opaque saml a m =
    Or.elim (prop a) (mem-cons.0 (subst (λ l. Mem a l) (registered p) m)) (λ e. subst P (sym e) jwt)
      λ m'.
        Or.elim (prop a) (mem-cons.0 m') (λ e. subst P (sym e) opaque)
          λ m''.
            Or.elim (prop a) (mem-cons.0 m'') (λ e. subst P (sym e) saml)
              λ m3. absurd (not-mem-nil m3)

-- And of each that is found for a request, if Go visits just the registered ones.
pub Resolves-registered :
    (P : Adapter → Type 0) (p : Platform) (m : Moment)
    → Perm m.order (adapters_of (server_registry p))
    → ((a : Adapter) → Mem a (adapters_of (server_registry p)) → P a)
    → (req : TokenExchangeRequest) (a : Adapter) → Resolves (server_env p m) req a
    → P a
Resolves-registered P p m perm all req a (hinted given found) = all a (get_adapter-Mem _ _ found)
Resolves-registered P p m perm all req a (detected empty found) =
    all a ((Perm.mem_iff perm).0 (detect_adapter-Mem m.order req.subject_token found))

module _ (p : Platform) (m : Moment) (perm : Perm m.order (adapters_of (server_registry p))) where
  Resolves-NeverPci :
      (req : TokenExchangeRequest) (a : Adapter) → Resolves (server_env p m) req a → NeverPci a
  Resolves-NeverPci = Resolves-registered NeverPci p m perm (
      Mem-registered NeverPci NeverPci-prop p (jwt-NeverPci _ _) (opaque-NeverPci _)
        (saml-NeverPci _ _))

  -- If Go visits just the registry's adapters, in any order, and numeric dates are whole seconds,
  -- rounded down: the `expires_in` of every token response of the service is the lifetime of its
  -- token. The token is signed over claims that expire exactly so many seconds after their issue
  -- and are out of PCI scope.
  pub server-expires_in :
      (truncates : Truncates p.signer) (r : HttpRequest) (response : TokenExchangeResponse)
      → Sends (serve_http (server_env p m) r fresh) 200 (token response)
      → (c : CanonicalClaims) × (issue : ℕ) × (p.signer.sign
            (token_config p).signing_alg
            c
            (token_config p).signing_key
          ≡ ok response.access_token)
        × (c.issued_at ≡ some issue)
        × (c.expires_at ≡ some (issue + response.expires_in))
        × (c.claims.pci_scope ≡ false)
  unfolding minted_token mint token_config
  server-expires_in truncates r response sent =
      let (req, t, _, i, made) = (serve_http-token_iff (server_env p m) r response).0 sent in
      let low =
        Resolves-NeverPci req i.adapter i.found m.adapter_time (request_of req) i.result
          i.authenticated in
      let claims = i.result.identity_claims in
      let (issued, expires, _, _, _) =
        minted-lifetime p.signer truncates (token_config p).signing_key (token_config p).signing_alg
          m.mint_time m.uuid i.result.subject (audience_of req) claims in
      let life : lifetime claims ≡ 300 = rw low in
      (
        minted p.signer (token_config p) m.mint_time m.uuid i.result.subject (audience_of req)
            claims,
        m.mint_time / second,
        i.signed
            ∙ ap {B = Result Str} ok
                (sym (ap (λ (x : TokenExchangeResponse). x.access_token) made)),
        issued,
        expires
            ∙ ap (λ (n : ℕ). some (m.mint_time / second + n))
                (life ∙ sym (ap (λ (x : TokenExchangeResponse). x.expires_in) made)),
        low,
      )
