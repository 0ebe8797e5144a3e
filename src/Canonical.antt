-- ===== src/Canonical.antt =====
-- services/token-exchange/internal/canonical/token.go: the canonical token, its minter and its
-- validator. Times and durations are nanoseconds; a numeric date is in seconds.
pub mod Minting
pub mod Document
pub mod Tests
use centralized_identity.Common.{
  Str, codes, ℕ, ◌+◌, ◌*◌, ◌^◌, Bool, true, false, Option, none, some, List, Result, ok, err, cause,
  foreign, if◌then◌else◌, ◌>>=◌,
}
use centralized_identity.Jwt.{Key, no_key, ParserOptions, Token, Claims, asserted, other_type}
use centralized_identity.Jwt.{Keyfunc, Parse}

abbrev pub second : ℕ
second = 10 ^ 9

abbrev pub minute : ℕ
minute = 60 * second

-- TrustLevel
abbrev pub trust_high : Str
trust_high = codes "high"

abbrev pub trust_medium : Str
trust_medium = codes "medium"

abbrev pub trust_low : Str
trust_low = codes "low"

-- AuthMethod
abbrev pub auth_oidc : Str
auth_oidc = codes "oidc"

abbrev pub auth_saml : Str
auth_saml = codes "saml"

abbrev pub auth_mtls : Str
auth_mtls = codes "mtls"

abbrev pub auth_legacy : Str
auth_legacy = codes "legacy"

pub record IdentityClaims : Type 0 where
  pub org_id : Str
  pub roles : List Str
  pub auth_method : Str
  pub original_issuer : Str
  pub trust_level : Str
  pub pci_scope : Bool
  pub service_name : Str

-- jwt.RegisteredClaims (the fields that the source sets) and the claims of the fabric.
pub record CanonicalClaims : Type 0 where
  pub issuer : Str
  pub subject : Str
  pub audience : List Str
  pub expires_at : Option ℕ
  pub issued_at : Option ℕ
  pub id : Str
  pub claims : IdentityClaims

pub record TokenConfig : Type 0 where
  pub issuer : Str
  pub default_ttl : ℕ
  pub pci_ttl : ℕ
  pub signing_key : Key
  pub signing_alg : Str

unfoldable pub default_config : TokenConfig
default_config = record {
  issuer = codes "identity-fabric.internal";
  default_ttl = 5 * minute;
  pci_ttl = 60 * second;
  signing_key = no_key;
  signing_alg = codes "";
}

-- jwt.NewNumericDate, and the signing of claims by an algorithm and a key.
pub record Signer : Type 0 where
  pub numeric_date : ℕ → ℕ
  pub sign : Str → CanonicalClaims → Key → Result Str

module _ (signer : Signer) where
  open signer use {numeric_date, sign}

  unfoldable pub ttl : TokenConfig → IdentityClaims → ℕ
  ttl config claims = if claims.pci_scope then config.pci_ttl else config.default_ttl

  -- The claims that `Mint` signs; `uuid` is the result of uuid.New.
  unfoldable pub minted : TokenConfig → ℕ → Str → Str → List Str → IdentityClaims → CanonicalClaims
  unfolding ttl
  minted config now uuid subject audience claims = record {
    issuer = config.issuer;
    subject = subject;
    audience = audience;
    expires_at = some (numeric_date (now + ttl config claims));
    issued_at = some (numeric_date now);
    id = uuid;
    claims = claims;
  }

  unfoldable pub mint : TokenConfig → ℕ → Str → Str → List Str → IdentityClaims → Result Str
  unfolding minted
  mint config now uuid subject audience claims =
      sign config.signing_alg (minted config now uuid subject audience claims) config.signing_key

pub record Validator : Type 0 where
  pub issuer : Str
  pub key_func : Keyfunc CanonicalClaims
  pub parser_opts : ParserOptions

unfoldable pub new_validator : Str → Keyfunc CanonicalClaims → Validator
new_validator issuer key_func = record {
  issuer = issuer;
  key_func = key_func;
  parser_opts = record { issuer = some issuer; expiration_required = true; issued_at = true };
}

-- The type assertion of the parsed claims; jwt.ErrTokenInvalidClaims otherwise.
claims_of : Claims CanonicalClaims → Result CanonicalClaims
claims_of (asserted c) = ok c
claims_of other_type = err (cause (foreign (codes "token has invalid claims")))

unfoldable pub validate : Parse CanonicalClaims → Validator → ℕ → Str → Result CanonicalClaims
unfolding claims_of
validate parse v now token = do t ← parse v.parser_opts now v.key_func token; claims_of t.claims
