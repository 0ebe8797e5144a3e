-- ===== src/EndToEnd/Access.antt =====
-- From a token of an old system to a decision of the policy engine: the tokens of the mock JWT
-- issuer, the minter of the service, the SDK's validateCanonicalJWT and CheckPolicy, and the rules
-- of the order service. The key function is a parameter here: the one of the SDK's key cache hands
-- out the document of a key, and golang-jwt wants the key.
mod Tests
use mathlib.Core.List.{Memᴰ}
use mathlib.Core.List.Memᴰ
use centralized_identity.Common.{
  get, some, ◌<◌, ◌/◌, Result, Str, codes, arith, ◌++◌, true, ℕ, ◌+◌, ◌*◌, ◌≤◌, none, [], ◌∷◌, ok,
  ◌≡◌, ◌≢◌, ap, ◌↔◌, ◌⊎◌, inl, inr, refl,
}
use centralized_identity.Jwt.{public_key, Key, private_key, Token, Keyfunc, Parse}
use centralized_identity.Canonical.{second}
use centralized_identity.Canonical.Minting.{Truncates, lifetime}
use centralized_identity.Adapter.{ExchangeResult, token_type_jwt}
use centralized_identity.Adapter.JwtAdapter.{MapClaims}
use centralized_identity.Exchange.{TokenExchangeRequest, minted_token, audience_of}
use centralized_identity.Server.Wiring.{Platform, Moment, server_env, token_config}
use centralized_identity.LegacyJwtApp.{issued_claims, issued, handle_issue_token, handle_jwks}
use centralized_identity.LegacyJwtApp.Exchanged.{app_identity, app_entry, Verifies, ReadsIssuer}
use centralized_identity.Sdk.Client.Served.{Connected, asked_for}
use centralized_identity.EndToEnd.{handle_issue_token-served}
use centralized_identity.Sdk.Client.{
  Client, CanonicalClaims, Services, identity_of, validate_canonical_jwt, check_policy,
  exchange_token,
}
use centralized_identity.Sdk.Client.Wire.{kept, Accepts, validate_canonical_jwt-mint}
use centralized_identity.Policies.{Rego}
use centralized_identity.Policies.Authz.Grants.{Documented, Permits-none}
use centralized_identity.Policies.Checked.{Engaged, order_path}
use centralized_identity.Policies.OrderService.Callers.{
  MayOrder, permitted, itself, reads, writes, check_policy-order_iff,
}

-- What the minter of the service signs for an identity, the SDK reads back as it.
validate_canonical_jwt-minted_token :
    (p : Platform) (m : Moment) (truncates : Truncates p.signer) (parse : Parse CanonicalClaims)
    (public : Key) (documented : Accepts p.signer parse (private_key p.generated_key) public)
    (req : TokenExchangeRequest) (r : ExchangeResult) (t : Str) (later : ℕ)
    (key_func : Keyfunc CanonicalClaims)
    → ((u : Token CanonicalClaims) → key_func u ≡ ok public)
    → minted_token (server_env p m) req r ≡ ok t
    → m.mint_time ≤ later
    → later + second ≤ m.mint_time + lifetime r.identity_claims * second
    → validate_canonical_jwt parse later t key_func ≡ ok (kept r.subject r.identity_claims)
unfolding minted_token token_config
validate_canonical_jwt-minted_token p m truncates parse public documented req r t later key_func
      keys signed le lt =
    validate_canonical_jwt-mint p.signer truncates parse (private_key p.generated_key) public
      documented (codes "ES256") m.mint_time later m.uuid r.subject (audience_of req)
      r.identity_claims key_func t keys signed le lt

first : Str → ℕ
first [] = 0
first (c ∷ s) = c

codes-ne : {c d : ℕ} (s t : Str) → c ≢ d → c ∷ s ≢ d ∷ t
unfolding first
codes-ne s t ne same = ne (ap first same)

user-ne : (s t : Str) → codes "u" ++ s ≢ codes "s" ++ t
user-ne s t = codes-ne s t (λ e. absurd (omega (arith, e)))

-- No permissions are loaded: the user of the mock JWT issuer has the two roles that the rules name.
app_identity-MayOrder :
    (service action : Str)
    → MayOrder none service
        (identity_of (kept app_identity.subject app_identity.identity_claims))
        action
      ↔ ((action ≡ codes "read") ⊎ (action ≡ codes "write"))
app_identity-MayOrder service action = (
  λ o. elim o [
    | permitted role m p ↦ absurd (Permits-none role service action p)
    | itself same ↦ absurd (user-ne _ _ same)
    | reads read m ↦ inl read
    | writes write trusted m ↦ inr write
  ],
  λ h. elim h [
    | inl read ↦ reads read (Memᴰ.head refl)
    | inr write ↦ writes write (λ e. cc e) (Memᴰ.tail (Memᴰ.head refl))
  ],
)

-- What CheckPolicy decides on the canonical token of that user, with no permissions loaded.
app_identity-check_policy :
    (p : Platform) (m : Moment) (truncates : Truncates p.signer) (parse : Parse CanonicalClaims)
    (public : Key) (documented : Accepts p.signer parse (private_key p.generated_key) public)
    (req : TokenExchangeRequest) (t : Str) (later : ℕ) (key_func : Keyfunc CanonicalClaims)
    (s : Services) (client : Client) (b : Rego)
    → ((u : Token CanonicalClaims) → key_func u ≡ ok public)
    → minted_token (server_env p m) req app_identity ≡ ok t
    → m.mint_time ≤ later
    → later + second ≤ m.mint_time + lifetime app_identity.identity_claims * second
    → Documented b
    → Engaged s client.config.policy_endpoint b none order_path
    → (c : CanonicalClaims) × (validate_canonical_jwt parse later t key_func ≡ ok c)
      × ((resource action : Str)
          → (check_policy s client (identity_of c) resource action ≡ ok true)
            ↔ ((action ≡ codes "read") ⊎ (action ≡ codes "write")))
app_identity-check_policy p m truncates parse public documented req t later key_func s client b keys
      signed le lt rego engaged =
    let c = kept app_identity.subject app_identity.identity_claims in
    (
      c,
      validate_canonical_jwt-minted_token p m truncates parse public documented req app_identity t
          later key_func keys signed le lt,
      λ resource action.
          let asked =
            check_policy-order_iff s client b none (identity_of c) resource action rego engaged in
          let may = app_identity-MayOrder client.config.service_name action in
          (λ h. may.0 (asked.0 h), λ h. asked.1 (may.1 h)),
    )

-- A token of the mock JWT issuer lets its user read and write orders, on any resource, and do
-- nothing else there: a client that sends it to the service as a JWT gets a canonical token; the
-- SDK's validateCanonicalJWT accepts that, given a key function that gives the service's public key,
-- in place of the one of its key cache; and CheckPolicy of another client, with the rules of the
-- order service at its endpoint and no permissions loaded, allows just the actions "read" and
-- "write". The clock is before the whole second in which the first token's hour ends, and then in
-- the canonical token's lifetime, but for its last second. The service trusts the default issuer
-- only, its first request for keys was answered with the issuer's key set, the keys of the issuer
-- and of the service sign, and the libraries, the engine and the networks behave as documented.
pub handle_issue_token-check_policy :
    (p : Platform) (m : Moment) (sign : MapClaims → Result Str) (x y now later : ℕ)
    (body signed : Str) (s : Services) (client : Client) (uuid trace_id t : Str)
    (truncates : Truncates p.signer) (parse : Parse CanonicalClaims) (public : Key)
    (documented : Accepts p.signer parse (private_key p.generated_key) public) (read_at : ℕ)
    (key_func : Keyfunc CanonicalClaims) (d : Services) (order : Client) (b : Rego)
    → get p.env (codes "TRUSTED_ISSUERS") ≡ none
    → p.network.get 0 app_entry.jwks_url ≡ some body
    → p.network.decode_json body ≡ some (handle_jwks x y)
    → ReadsIssuer p.jwt.get_issuer
    → sign (issued_claims now later) ≡ ok signed
    → Verifies p.jwt.parse (public_key x y) (issued_claims now later) signed
    → signed ≢ []
    → Connected s client.config.exchange_endpoint (server_env p m) uuid trace_id
    → m.adapter_time < (now + 3600 * second) / second * second
    → minted_token (server_env p m) (asked_for signed token_type_jwt) app_identity ≡ ok t
    → ((u : Token CanonicalClaims) → key_func u ≡ ok public)
    → m.mint_time ≤ read_at
    → read_at + second ≤ m.mint_time + lifetime app_identity.identity_claims * second
    → Documented b
    → Engaged d order.config.policy_endpoint b none order_path
    → (handle_issue_token sign now later ≡ issued (ok signed))
      × (exchange_token s client signed token_type_jwt ≡ ok t)
      × ((c : CanonicalClaims) × (validate_canonical_jwt parse read_at t key_func ≡ ok c)
          × ((resource action : Str)
              → (check_policy d order (identity_of c) resource action ≡ ok true)
                ↔ ((action ≡ codes "read") ⊎ (action ≡ codes "write"))))
handle_issue_token-check_policy p m sign x y now later body signed s client uuid trace_id t
      truncates parse public documented read_at key_func d order b unset answered decoded names made
      v given connected early minted keys le lt rego engaged =
    let (sent, got) =
      handle_issue_token-served p m sign x y now later body signed s client uuid trace_id t unset
        answered decoded names made v given connected early minted in
    (
      sent,
      got,
      app_identity-check_policy p m truncates parse public documented
          (asked_for signed token_type_jwt) t read_at key_func d order b keys minted le lt rego
          engaged,
    )
