-- ===== src/EndToEnd/Access/Tests.antt =====
-- From the token of an old system to a decision: a run of the theorem about it.
use centralized_identity.Common.{
  get, Str, codes, Option, none, some, true, [], Result, ok, err, plain, ◌≡◌, ◌↔◌, ◌⊎◌, ◌*◌, ◌/◌,
  refl, sym, ◌∙◌, ap, arith, ◌==◌, ◌>>=◌,
}
use centralized_identity.Common.Json.{Value, object, member, end}
use centralized_identity.Common.Json.Codec.{encode, decode, decode-encode}
use centralized_identity.Jwt.{private_key, public_key, Token, Parse, asserted}
use centralized_identity.Canonical
use centralized_identity.Canonical.{Signer, second}
use centralized_identity.Canonical.Document.{identity_document}
use centralized_identity.Exchange.{minted_token}
use centralized_identity.Server.Wiring.{Platform, server_env}
use centralized_identity.Adapter.{token_type_jwt}
use centralized_identity.LegacyJwtApp.{issued, handle_issue_token}
use centralized_identity.LegacyJwtApp.Tests.{sign, get_issuer-ReadsIssuer, parse-Verifies}
use centralized_identity.Sdk.Client.Tests.{client, services, services-Connected}
use centralized_identity.LegacyJwtApp.Exchanged.{app_identity}
use centralized_identity.Sdk.Client.{
  CanonicalClaims, identity_of, validate_canonical_jwt, check_policy, exchange_token,
}
use centralized_identity.Sdk.Client.Wire.{store_identity, bare, Accepts}
use centralized_identity.Policies.Checked.{order_path}
use centralized_identity.Policies.Tests.{rego, rego-Documented, services-Engaged}
use centralized_identity.Policies
use centralized_identity.EndToEnd.Tests.{moment}
use centralized_identity.EndToEnd
use centralized_identity.EndToEnd.Access.{handle_issue_token-check_policy}

-- A token is the document of a subject and its identity.
document : Canonical.CanonicalClaims → Value
document c = object (member c.subject (identity_document true c.claims) end)

abbrev signer : Signer
signer = record { numeric_date = λ t. t / second; sign = λ alg c k. ok (encode (document c)) }

abbrev read : Str → Value → Token CanonicalClaims
read subject v = record { header = []; claims = asserted (store_identity v (bare subject)).0 }

read_document : Option Value → Result (Token CanonicalClaims)
read_document (some (object (member subject v end))) = ok (read subject v)
read_document v = err (plain (codes "malformed"))

abbrev parse : Parse CanonicalClaims
parse o now f t = read_document (decode t)

parse-Accepts : Accepts signer parse (private_key (codes "d")) (public_key 1 2)
unfolding document read_document
parse-Accepts = record {
  accepts = λ o alg c t now from until f signed keys issued from_ starts expires ends. (
    [],
    true,
    sym (ap (λ r. r >>= (λ s. read_document (decode s))) signed)
        ∙ ap read_document (decode-encode (document c)),
  );
}

abbrev platform : Platform
platform = record EndToEnd.Tests.platform { signer = signer; generated_key = codes "d" }

abbrev token : Str
token = encode (
    object (
      member (codes "user:legacy-user-1") (identity_document true app_identity.identity_claims)
        end))

handle_issue_token-check_policy_example :
    (handle_issue_token sign 0 5 ≡ issued (ok (codes "a.b.c")))
    × (exchange_token (services (server_env platform moment)) client (codes "a.b.c") token_type_jwt
        ≡ ok token)
    × ((c : CanonicalClaims) × (validate_canonical_jwt parse
            (302 * second)
            token
            (λ u. ok (public_key 1 2))
          ≡ ok c)
        × ((resource action : Str)
            → (check_policy
                  (Policies.Tests.services none order_path)
                  (Policies.Tests.client order_path)
                  (identity_of c)
                  resource
                  action
                ≡ ok true)
              ↔ ((action ≡ codes "read") ⊎ (action ≡ codes "write"))))
unfolding document minted_token Canonical.mint Canonical.default_config ◌==◌ get
handle_issue_token-check_policy_example =
    handle_issue_token-check_policy platform moment sign 258 7 0 5 [] (codes "a.b.c")
      (services (server_env platform moment)) client (codes "u") (codes "t") token (λ t. refl) parse
      (public_key 1 2) parse-Accepts (302 * second) (λ u. ok (public_key 1 2))
      (Policies.Tests.services none order_path) (Policies.Tests.client order_path) rego refl refl
      refl get_issuer-ReadsIssuer refl parse-Verifies (λ e. cc e)
      (services-Connected (server_env platform moment) decode-encode) (omega arith) refl (λ u. refl)
      (omega arith) (omega arith) rego-Documented (services-Engaged none order_path)
