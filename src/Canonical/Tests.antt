-- ===== src/Canonical/Tests.antt =====
-- Minting and validating one token: runs of the theorems about them.
use centralized_identity.Common.{
  Bool-cases, inl, inr, ap, sym, ◌∙◌, Str, codes, ◌==◌, ==_iff, ltb, eqb, eqb_iff, ℕ, ◌*◌, ◌/◌, ◌<◌,
  Bool, true, false, ◌&&◌, Option, none, some, List, [], ◌∷◌, Result, ok, err, plain, ◌≡◌, ◌≢◌,
  refl, arith, if◌then◌else◌, require, require_then, ◌>>◌,
}
use centralized_identity.Jwt.{Key, private_key, public_key, Token, Parse, asserted}
use centralized_identity.Canonical.{
  second, CanonicalClaims, IdentityClaims, Signer, mint, minted, default_config, Validator,
  new_validator, validate,
}
use centralized_identity.Canonical.Minting.{Verifies, validate-mint, validate-expired}

abbrev pub ann : Str
ann = codes "ann"

abbrev pub identity : IdentityClaims
identity = record {
  org_id = [];
  roles = [];
  auth_method = codes "oidc";
  original_issuer = [];
  trust_level = codes "high";
  pci_scope = true;
  service_name = [];
}

abbrev pub the_claims : CanonicalClaims
the_claims = record {
  issuer = codes "identity-fabric.internal";
  subject = ann;
  audience = [];
  expires_at = some 67;
  issued_at = some 7;
  id = codes "id";
  claims = identity;
}

abbrev pub same_strings : List Str → List Str → Bool
same_strings [] [] = true
same_strings (s ∷ ss) (t ∷ ts) = (s == t) && same_strings ss ts
same_strings _ _ = false

abbrev pub same_number : Option ℕ → Option ℕ → Bool
same_number none none = true
same_number (some m) (some n) = eqb m n
same_number _ _ = false

abbrev pub same_identity : IdentityClaims → Bool
same_identity i =
    (i.org_id == [])
    && (same_strings i.roles []
        && ((i.auth_method == identity.auth_method)
            && ((i.original_issuer == [])
                && ((i.trust_level == identity.trust_level)
                    && (i.pci_scope && (i.service_name == []))))))

abbrev pub same : CanonicalClaims → Bool
same c =
    (c.issuer == the_claims.issuer)
    && ((c.subject == ann)
        && (same_strings c.audience []
            && (same_number c.expires_at (some 67)
                && (same_number c.issued_at (some 7)
                    && ((c.id == the_claims.id) && same_identity c.claims)))))

abbrev pub token : Str
token = codes "token"

-- A signer that signs just these claims, and the parser that knows their token.
abbrev pub signer : Signer
signer = record {
  numeric_date = λ t. t / second;
  sign = λ alg c k. if same c then ok token else err (plain (codes "not signed"));
}

abbrev the_token : Token CanonicalClaims
the_token = record { header = []; claims = asserted the_claims }

abbrev parse : Parse CanonicalClaims
parse o now f s = require (ltb now (67 * second)) (plain (codes "expired")) >> ok the_token

same_strings-nil : (ss : List Str) → same_strings ss [] ≡ true → ss ≡ []
same_strings-nil [] h = refl
same_strings-nil (s ∷ ss) h = cc h

same_number-some : (o : Option ℕ) (n : ℕ) → same_number o (some n) ≡ true → o ≡ some n
same_number-some none n h = cc h
same_number-some (some m) n h = ground (arith, eqb_iff m n)

and_true : (p q : Bool) → (p && q) ≡ true → (p ≡ true) × (q ≡ true)
and_true p q h = (ground arith, ground arith)

identity_ext :
    (i : IdentityClaims)
    → i.org_id ≡ []
    → i.roles ≡ []
    → i.auth_method ≡ codes "oidc"
    → i.original_issuer ≡ []
    → i.trust_level ≡ codes "high"
    → i.pci_scope ≡ true
    → i.service_name ≡ []
    → i ≡ identity
identity_ext i a b c d e f g = cc

same_identity_sound : (i : IdentityClaims) → same_identity i ≡ true → i ≡ identity
same_identity_sound i h =
    let (a, h₁) = and_true (i.org_id == []) _ h in
    let (b, h₂) = and_true (same_strings i.roles []) _ h₁ in
    let (c, h₃) = and_true (i.auth_method == identity.auth_method) _ h₂ in
    let (d, h₄) = and_true (i.original_issuer == []) _ h₃ in
    let (e, h₅) = and_true (i.trust_level == identity.trust_level) _ h₄ in
    let (f, g) = and_true i.pci_scope _ h₅ in
    identity_ext i ((==_iff _ _).0 a) (same_strings-nil i.roles b) ((==_iff _ _).0 c)
      ((==_iff _ _).0 d) ((==_iff _ _).0 e) f ((==_iff _ _).0 g)

claims_ext :
    (c : CanonicalClaims)
    → c.issuer ≡ the_claims.issuer
    → c.subject ≡ ann
    → c.audience ≡ []
    → c.expires_at ≡ some 67
    → c.issued_at ≡ some 7
    → c.id ≡ the_claims.id
    → c.claims ≡ identity
    → c ≡ the_claims
claims_ext c h₁ h₂ h₃ h₄ h₅ h₆ h₇ = cc

same_sound : (c : CanonicalClaims) → same c ≡ true → c ≡ the_claims
same_sound c h =
    let (i, h₁) = and_true (c.issuer == the_claims.issuer) _ h in
    let (s, h₂) = and_true (c.subject == ann) _ h₁ in
    let (a, h₃) = and_true (same_strings c.audience []) _ h₂ in
    let (e, h₄) = and_true (same_number c.expires_at (some 67)) _ h₃ in
    let (f, h₅) = and_true (same_number c.issued_at (some 7)) _ h₄ in
    let (j, k) = and_true (c.id == the_claims.id) _ h₅ in
    claims_ext c ((==_iff _ _).0 i) ((==_iff _ _).0 s) (same_strings-nil c.audience a)
      (same_number-some c.expires_at 67 e) (same_number-some c.issued_at 7 f) ((==_iff _ _).0 j)
      (same_identity_sound c.claims k)

-- Only these claims are signed.
pub signed_claims :
    (alg : Str) (c : CanonicalClaims) (k : Key) {t : Str}
    → signer.sign alg c k ≡ ok t
    → c ≡ the_claims
signed_claims alg c k h = elim (Bool-cases (same c)) [
  | inl is_same ↦ same_sound c is_same
  | inr other ↦ cc (rw other at h)
]

some-inj : {m n : ℕ} → some m ≡ some n → m ≡ n
some-inj h = cc h

pub the_expiry :
    (until : ℕ) (c : CanonicalClaims) → c ≡ the_claims → c.expires_at ≡ some until → until ≡ 67
the_expiry until c e h = some-inj (sym h ∙ ap (λ (x : CanonicalClaims). x.expires_at) e)

pub in_time : (now : ℕ) → now < 67 * second → ltb now (67 * second) ≡ true
in_time now h = ground (arith, h)

not_over : (now : ℕ) → ltb now (67 * second) ≡ true → now < 67 * second
not_over now h = ground (arith, h)

ok-inj : {t u : Token CanonicalClaims} → Result.ok t ≡ Result.ok u → t ≡ u
ok-inj h = cc h

accepted :
    (v : Validator) (now : ℕ) (c : CanonicalClaims)
    → c ≡ the_claims
    → now < 67 * second
    → parse v.parser_opts now v.key_func token ≡ ok (record { header = []; claims = asserted c })
accepted v now c e early = rw (in_time now early, e) refl

genuine :
    (v : Validator) (now : ℕ) (c : CanonicalClaims) (t : Token CanonicalClaims)
    → c ≡ the_claims
    → parse v.parser_opts now v.key_func token ≡ ok t
    → (t.claims ≡ asserted c) × (now < 67 * second)
genuine v now c t e h =
    let (early, same_) =
      require_then (ltb now (67 * second)) (plain (codes "expired")) (ok the_token) h in
    (
      ap (λ (x : Token CanonicalClaims). x.claims) (sym (ok-inj same_)) ∙ ap asserted (sym e),
      not_over now early,
    )

parse-Verifies : Verifies signer parse (private_key (codes "d")) (public_key 1 2)
parse-Verifies = record {
  accepts = λ v alg c t now from until signed keys issued from_ starts expires ends.
      let e = signed_claims alg c (private_key (codes "d")) signed in
      let u = the_expiry until c e expires in ([], accepted v now c e (omega (arith, u, ends)));
  genuine = λ v alg c tok now until t signed parsed required expires.
      let e = signed_claims alg c (private_key (codes "d")) signed in
      let u = the_expiry until c e expires in
      let (same_, early) = genuine v now c t e parsed in (same_, omega (arith, u, early));
}

validate-mint_example :
    validate parse
      (new_validator (codes "identity-fabric.internal") (λ t. ok (public_key 1 2)))
      (60 * second)
      token
    ≡ ok the_claims
unfolding default_config mint minted ◌==◌
validate-mint_example =
    validate-mint signer (λ t. refl) parse (private_key (codes "d")) (public_key 1 2) parse-Verifies
      (codes "ES256") (7 * second) (60 * second) (codes "id") ann [] identity
      (λ t. ok (public_key 1 2)) token (λ t. refl) refl (omega arith) (omega arith)

validate-expired_example :
    validate parse
      (new_validator (codes "identity-fabric.internal") (λ t. ok (public_key 1 2)))
      (67 * second)
      token
    ≢ ok the_claims
unfolding default_config mint minted ◌==◌
validate-expired_example =
    validate-expired signer (λ t. refl) parse (private_key (codes "d")) (public_key 1 2)
      parse-Verifies (codes "ES256") (7 * second) (67 * second) (codes "id") ann [] identity
      (λ t. ok (public_key 1 2)) token the_claims refl (omega arith)
