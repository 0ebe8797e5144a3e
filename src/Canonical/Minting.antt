-- ===== src/Canonical/Minting.antt =====
-- What `Mint` signs, and how `Validate` judges it.
use centralized_identity.Common.{
  Str, Map, ◌≢◌, >>=-eq-ok, ℕ, ◌+◌, ◌*◌, ◌/◌, ◌≤◌, ◌<◌, ◌≡◌, refl, true, some, List, ok, arith,
  if◌then◌else◌,
}
use centralized_identity.Jwt.{Key, Token, Keyfunc, Parse, asserted}
use centralized_identity.Common.Json.{Value}
use centralized_identity.Canonical.{
  second, IdentityClaims, CanonicalClaims, TokenConfig, default_config, Signer, ttl, minted, mint,
  Validator, new_validator, validate,
}

-- The documented precision of a numeric date: whole seconds, rounded down.
abbrev pub Truncates : Signer → Type 0
Truncates signer = (t : ℕ) → signer.numeric_date t ≡ t / second

-- A token's lifetime in seconds, from its issue to its expiry.
abbrev pub lifetime : IdentityClaims → ℕ
lifetime claims = if claims.pci_scope then 60 else 300

-- `Mint` and `Validate` agree on who signed: the documented behaviour of the library for tokens
-- signed by `private` and checked against `public`.
pub record Verifies (signer : Signer) (parse : Parse CanonicalClaims) (private public : Key)
    : Type 0 where
  -- A signed token is accepted for its issuer, from its issue until its expiry.
  pub accepts :
      (v : Validator) (alg : Str) (claims : CanonicalClaims) (token : Str) (now from until : ℕ)
      → signer.sign alg claims private ≡ ok token
      → ((t : Token CanonicalClaims) → v.key_func t ≡ ok public)
      → v.parser_opts.issuer ≡ some claims.issuer
      → claims.issued_at ≡ some from
      → from * second ≤ now
      → claims.expires_at ≡ some until
      → now < until * second
      → (header : Map Value) × (parse v.parser_opts now v.key_func token
          ≡ ok (record { header = header; claims = asserted claims }))
  -- An accepted token holds what was signed, and if expiry is required it has not expired.
  pub genuine :
      (v : Validator) (alg : Str) (claims : CanonicalClaims) (token : Str) (now until : ℕ)
      (t : Token CanonicalClaims)
      → signer.sign alg claims private ≡ ok token
      → parse v.parser_opts now v.key_func token ≡ ok t
      → v.parser_opts.expiration_required ≡ true
      → claims.expires_at ≡ some until
      → (t.claims ≡ asserted claims) × (now < until * second)

abbrev pub configured : Key → Str → TokenConfig
configured key alg = record default_config { signing_key = key; signing_alg = alg }

module _ (signer : Signer) (truncates : Truncates signer) where
  -- If numeric dates are whole seconds, rounded down: with the default configuration the signed
  -- claims expire 300 s after the second of their issue, and 60 s after it in PCI scope; the
  -- identity, the subject and the audience are those given.
  pub minted-lifetime :
      (key : Key) (alg : Str) (now : ℕ) (uuid subject : Str) (audience : List Str)
      (claims : IdentityClaims)
      → let c = minted signer (configured key alg) now uuid subject audience claims in
        (c.issued_at ≡ some (now / second))
        × (c.expires_at ≡ some (now / second + lifetime claims))
        × (c.claims ≡ claims)
        × (c.subject ≡ subject)
        × (c.audience ≡ audience)
  unfolding minted default_config
  minted-lifetime key alg now uuid subject audience claims =
      ground (arith, truncates now, truncates (now + ttl signer (configured key alg) claims))

  module _ (parse : Parse CanonicalClaims) (private public : Key)
      (verifies : Verifies signer parse private public) where
    -- If numeric dates are whole seconds, rounded down, and the library verifies what it signed with
    -- the private key by the public one: a token minted by the default configuration is validated,
    -- to the very claims that were minted, by a validator for the same issuer whose key function
    -- always gives the public key, from its issue until one second before the end of its lifetime.
    pub validate-mint :
        (alg : Str) (now later : ℕ) (uuid subject : Str) (audience : List Str)
        (claims : IdentityClaims) (key_func : Keyfunc CanonicalClaims) (token : Str)
        → ((t : Token CanonicalClaims) → key_func t ≡ ok public)
        → mint signer (configured private alg) now uuid subject audience claims ≡ ok token
        → now ≤ later
        → later + second ≤ now + lifetime claims * second
        → validate parse (new_validator (configured private alg).issuer key_func) later token
          ≡ ok (minted signer (configured private alg) now uuid subject audience claims)
    unfolding mint new_validator validate
    validate-mint alg now later uuid subject audience claims key_func token keys signed le lt =
        let c = minted signer (configured private alg) now uuid subject audience claims in
        let (from, until, _, _, _) = minted-lifetime private alg now uuid subject audience claims in
        let (header, parsed) =
          verifies.accepts (new_validator (configured private alg).issuer key_func) alg c token
            later (now / second) (now / second + lifetime claims) signed keys refl from
            (omega arith) until (omega arith) in
        rw parsed

    -- Under the same two conditions on the library: once its lifetime is over, a token minted by the
    -- default configuration is validated no more for its issuer, whatever the key function.
    pub validate-expired :
        (alg : Str) (now later : ℕ) (uuid subject : Str) (audience : List Str)
        (claims : IdentityClaims) (key_func : Keyfunc CanonicalClaims) (token : Str)
        (c : CanonicalClaims)
        → mint signer (configured private alg) now uuid subject audience claims ≡ ok token
        → now + lifetime claims * second ≤ later
        → validate parse (new_validator (configured private alg).issuer key_func) later token ≢ ok c
    unfolding mint new_validator validate
    validate-expired alg now later uuid subject audience claims key_func token c signed over valid =
        let v = new_validator (configured private alg).issuer key_func in
        let m = minted signer (configured private alg) now uuid subject audience claims in
        let (from, until, _, _, _) = minted-lifetime private alg now uuid subject audience claims in
        let (t, parsed, _) = >>=-eq-ok (parse v.parser_opts later v.key_func token) _ valid in
        let (_, fresh) =
          verifies.genuine v alg m token later (now / second + lifetime claims) t signed parsed refl
            until in
        absurd (omega arith)
