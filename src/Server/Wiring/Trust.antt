-- ===== src/Server/Wiring/Trust.antt =====
-- The issuers and the keys behind an exchanged JWT.
use centralized_identity.Common.{get, ℕ, some, none, ok, ◌≡◌, refl, ap, sym, ◌∙◌, Option}
use mathlib.Core.Option
use mathlib.Core.Path.{subst}
use centralized_identity.Jwt.{Key, AsksKeyfunc}
use centralized_identity.Adapter.{ExchangeRequest, ExchangeResult}
use centralized_identity.Adapter.JwtAdapter
use centralized_identity.Adapter.JwtAdapter.{MapClaims, TrustedIssuer}
use centralized_identity.Adapter.JwtAdapter.Trusted
use centralized_identity.Adapter.JwtAdapter.Trusted.{Trusted, expiring}
use centralized_identity.Server.Issuers.{TrustedIssuerEntry, trusted_issuer}
use centralized_identity.Server.Issuers.Config.{last_entry, get-build_trusted_issuer_config}
use centralized_identity.Server.Keys.{fetch_all_jwks}
use centralized_identity.Server.Keys.Fetch.{build_key_func-ok}
use centralized_identity.Server.Wiring.{Platform, entries, jwt_config, server_jwt}

map-some :
    (o : Option TrustedIssuerEntry) {t : TrustedIssuer}
    → Option.map trusted_issuer o ≡ some t
    → (e : TrustedIssuerEntry) × (o ≡ some e) × (t ≡ trusted_issuer e)
map-some none h = cc
map-some (some e) {t} h = (e, refl, cc)

-- If golang-jwt asks the key function, as it documents, then the service exchanges a JWT only from
-- an issuer that TRUSTED_ISSUERS names and for which it has fetched a key; the result is at the
-- trust level of the issuer's last entry, and names the issuer.
pub server_jwt-trusted :
    (p : Platform) (now : ℕ) (req : ExchangeRequest) (r : ExchangeResult)
    → AsksKeyfunc MapClaims p.jwt.parse
    → (server_jwt p).exchange now req ≡ ok r
    → (e : TrustedIssuerEntry) × (k : Key) × (last_entry r.identity_claims.original_issuer
          (entries p)
        ≡ some e)
      × (r.identity_claims.trust_level ≡ e.trust)
      × (get (fetch_all_jwks p.network (entries p)).keys r.identity_claims.original_issuer ≡ some k)
unfolding JwtAdapter.jwt_adapter JwtAdapter.result jwt_config
server_jwt-trusted p now req r asks h =
    let (claims, issuer, t, made) =
      (Trusted.jwt_exchange-ok_iff p.jwt (jwt_config p) now req r).0 h in
    let issuer_name = p.jwt.get_issuer claims in
    let (e, named, entry) =
      map-some (last_entry issuer_name (entries p))
        (sym (get-build_trusted_issuer_config (entries p) issuer_name) ∙ t.listed) in
    let (k, answered) =
      asks expiring now (jwt_config p).key_func req.subject_token t.parsed t.accepted in
    let fetched =
      build_key_func-ok p.jwt.get_issuer (fetch_all_jwks p.network (entries p)).keys t.parsed claims
        t.asserts answered in
    let same : r.identity_claims.original_issuer ≡ issuer_name =
      ap (λ (x : ExchangeResult). x.identity_claims.original_issuer) made in
    (
      e,
      k,
      subst (λ name. last_entry name (entries p) ≡ some e) (sym same) named,
      ap (λ (x : ExchangeResult). x.identity_claims.trust_level) made
          ∙ ap (λ (x : TrustedIssuer). x.trust_level) entry,
      subst (λ name. get (fetch_all_jwks p.network (entries p)).keys name ≡ some k) (sym same)
          fetched,
    )
