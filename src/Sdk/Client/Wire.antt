-- ===== src/Sdk/Client/Wire.antt =====
-- sdk/go/helpers.go: canonicalClaims, by the tags of its fields, and the tokens of the service as
-- it reads them.
mod Tests
use centralized_identity.Common.{
  Str, codes, ◌==◌, ℕ, ◌+◌, ◌*◌, ◌/◌, ◌≤◌, ◌<◌, Map, Bool, true, false, some, List, [], ◌∷◌, Result,
  ok, ◌≡◌, refl, arith, inl, inr, Bool-cases, ap, ◌∙◌,
}
use centralized_identity.Common.Json.{
  Value, Field, store_struct, store_text, store_texts, store_bool, slice_document,
  store_texts-slice_document,
}
use centralized_identity.Jwt.{Key, ParserOptions, Token, Keyfunc, Parse, asserted}
use centralized_identity.Canonical
use centralized_identity.Canonical.{second, IdentityClaims, Signer, mint, minted}
use centralized_identity.Canonical.Document.{identity_document}
use centralized_identity.Canonical.Minting.{Truncates, lifetime, configured, minted-lifetime}
use centralized_identity.Sdk.{Identity}
use centralized_identity.Sdk.Client.{
  CanonicalClaims, claims_of, identity_of, parser_options, validate_canonical_jwt,
}

-- The struct under "claims".
identity_fields : List (Field CanonicalClaims)
unfolding store_text store_texts store_bool
identity_fields =
    record {
      name = codes "org_id";
      store = λ v c. let r = store_text v c.org_id in (record c { org_id = r.0 }, r.1);
    }
    ∷ record {
      name = codes "roles";
      store = λ v c. let r = store_texts v c.roles in (record c { roles = r.0 }, r.1);
    }
    ∷ record {
      name = codes "auth_method";
      store = λ v c. let r = store_text v c.auth_method in (record c { auth_method = r.0 }, r.1);
    }
    ∷ record {
      name = codes "trust_level";
      store = λ v c. let r = store_text v c.trust_level in (record c { trust_level = r.0 }, r.1);
    }
    ∷ record {
      name = codes "pci_scope";
      store = λ v c. let r = store_bool v c.pci_scope in (record c { pci_scope = r.0 }, r.1);
    }
    ∷ []

-- What the field IdentityClaims stores of a document.
unfoldable pub store_identity : Value → CanonicalClaims → CanonicalClaims × Bool
unfolding identity_fields store_struct
store_identity = store_struct identity_fields

-- The claims before a document is stored, behind those that are registered.
abbrev pub bare : Str → CanonicalClaims
bare subject = record {
  subject = subject;
  org_id = [];
  roles = [];
  auth_method = [];
  trust_level = [];
  pci_scope = false;
}

-- What the client keeps of the claims of the service.
abbrev pub kept : Str → IdentityClaims → CanonicalClaims
kept subject c = record {
  subject = subject;
  org_id = c.org_id;
  roles = c.roles;
  auth_method = c.auth_method;
  trust_level = c.trust_level;
  pci_scope = c.pci_scope;
}

store_identity-document :
    (nil_slice : Bool) (subject : Str) (c : IdentityClaims)
    → store_identity (identity_document nil_slice c) (bare subject) ≡ (kept subject c, true)
unfolding store_identity identity_document
store_identity-document nil_slice subject c = elim (Bool-cases (c.service_name == [])) [
  | inl unnamed ↦ rw (unnamed, store_texts-slice_document nil_slice c.roles []) refl
  | inr named ↦ rw (named, store_texts-slice_document nil_slice c.roles []) refl
]

-- golang-jwt, as documented: a token that the private key has signed over claims is accepted with
-- a key function that gives the public key, for its issuer, from its issue until its expiry. What
-- it holds is the document of those claims, stored in the struct that the caller passes.
pub record Accepts (signer : Signer) (parse : Parse CanonicalClaims) (private public : Key)
    : Type 0 where
  pub accepts :
      (o : ParserOptions) (alg : Str) (claims : Canonical.CanonicalClaims) (token : Str)
      (now from until : ℕ) (f : Keyfunc CanonicalClaims)
      → signer.sign alg claims private ≡ ok token
      → ((t : Token CanonicalClaims) → f t ≡ ok public)
      → o.issuer ≡ some claims.issuer
      → claims.issued_at ≡ some from
      → from * second ≤ now
      → claims.expires_at ≡ some until
      → now < until * second
      → (header : Map Value) × (nil_slice : Bool) × (parse o now f token
          ≡ ok (record {
            header = header;
            claims =
                asserted
                  (store_identity
                    (identity_document nil_slice claims.claims)
                    (bare claims.subject)).0;
          }))

-- What the service's Mint signs with the default configuration, the SDK's validateCanonicalJWT
-- reads back: the subject and the five claims that it keeps are those that were minted, from the
-- issue until one second before the end of the lifetime. Its key function gives the public key for
-- each token, numeric dates are whole seconds, rounded down, and the library behaves as
-- documented.
pub validate_canonical_jwt-mint :
    (signer : Signer) (truncates : Truncates signer) (parse : Parse CanonicalClaims)
    (private public : Key) (documented : Accepts signer parse private public) (alg : Str)
    (now later : ℕ) (uuid subject : Str) (audience : List Str) (claims : IdentityClaims)
    (key_func : Keyfunc CanonicalClaims) (token : Str)
    → ((t : Token CanonicalClaims) → key_func t ≡ ok public)
    → mint signer (configured private alg) now uuid subject audience claims ≡ ok token
    → now ≤ later
    → later + second ≤ now + lifetime claims * second
    → validate_canonical_jwt parse later token key_func ≡ ok (kept subject claims)
unfolding validate_canonical_jwt mint claims_of Canonical.default_config
validate_canonical_jwt-mint signer truncates parse private public documented alg now later uuid
      subject audience claims key_func token keys signed le lt =
    let c = minted signer (configured private alg) now uuid subject audience claims in
    let (from, until, _, _, _) =
      minted-lifetime signer truncates private alg now uuid subject audience claims in
    let (header, nil_slice, parsed) =
      documented.accepts parser_options alg c token later (now / second)
        (now / second + lifetime claims) key_func signed keys refl from (omega arith) until
        (omega arith) in
    rw parsed (ap (λ r. ok r.0) (store_identity-document nil_slice subject claims))
