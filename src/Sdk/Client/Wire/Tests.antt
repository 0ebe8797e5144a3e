-- ===== src/Sdk/Client/Wire/Tests.antt =====
-- A token of the service, read by the SDK: a run of the theorem about it.
use centralized_identity.Common.{
  codes, ◌==◌, ltb, ℕ, ◌*◌, ◌<◌, true, [], ok, plain, ◌≡◌, refl, arith, require, ◌>>◌,
}
use centralized_identity.Jwt.{
  private_key, public_key, ParserOptions, Keyfunc, Token, Parse, asserted,
}
use centralized_identity.Canonical
use centralized_identity.Canonical.{second, mint, minted}
use centralized_identity.Canonical.Document.{identity_document}
use centralized_identity.Canonical.Tests.{
  ann, identity, the_claims, token, signer, signed_claims, the_expiry, in_time,
}
use centralized_identity.Sdk.Client.{CanonicalClaims, validate_canonical_jwt}
use centralized_identity.Sdk.Client.Wire.{
  store_identity, bare, kept, Accepts, validate_canonical_jwt-mint,
}

read : Canonical.CanonicalClaims → Token CanonicalClaims
read c = record {
  header = [];
  claims = asserted (store_identity (identity_document true c.claims) (bare c.subject)).0;
}

abbrev parse : Parse CanonicalClaims
parse o now f s = require (ltb now (67 * second)) (plain (codes "expired")) >> ok (read the_claims)

accepted :
    (o : ParserOptions) (now : ℕ) (f : Keyfunc CanonicalClaims) (c : Canonical.CanonicalClaims)
    → c ≡ the_claims
    → now < 67 * second
    → parse o now f token ≡ ok (read c)
accepted o now f c e early = rw (in_time now early, e) refl

parse-Accepts : Accepts signer parse (private_key (codes "d")) (public_key 1 2)
unfolding read
parse-Accepts = record {
  accepts = λ o alg c t now from until f signed keys issued from_ starts expires ends.
      let e = signed_claims alg c (private_key (codes "d")) signed in
      let u = the_expiry until c e expires in
      ([], true, accepted o now f c e (omega (arith, u, ends)));
}

validate_canonical_jwt-mint_example :
    validate_canonical_jwt parse (60 * second) token (λ t. ok (public_key 1 2))
    ≡ ok (kept ann identity)
unfolding Canonical.default_config mint minted ◌==◌
validate_canonical_jwt-mint_example =
    validate_canonical_jwt-mint signer (λ t. refl) parse (private_key (codes "d")) (public_key 1 2)
      parse-Accepts (codes "ES256") (7 * second) (60 * second) (codes "id") ann [] identity
      (λ t. ok (public_key 1 2)) token (λ t. refl) refl (omega arith) (omega arith)
