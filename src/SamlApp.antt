-- ===== src/SamlApp.antt =====
-- local-dev/mock-services/saml-app/main.go: the issuer of the assertions that the SAML adapter
-- exchanges. The clock and the writing of a time in the layout of RFC 3339 are parameters.
pub mod Exchanged
pub mod Tests
use centralized_identity.Common.{Str, codes, Map, List, [], ◌∷◌, ◌++◌, ℕ, ◌+◌, ◌*◌}
use centralized_identity.Common.Base64.Encoding.{encode_std}
use centralized_identity.Common.Json.{Value, text, object, member, end}
use centralized_identity.Canonical.{minute}
use centralized_identity.Http.{HttpRequest, HttpResponse, text_response, serve_mux}
use centralized_identity.Server.Issuers.{get_env}

abbrev pub opening : Str
opening =
    codes
      "<saml2:Assertion xmlns:saml2=\"urn:oasis:names:tc:SAML:2.0:assertion\" Version=\"2.0\" IssueInstant=\""

abbrev pub named : Str
named =
    codes "\">\n  <saml2:Issuer>https://legacy-idp.example.com/saml</saml2:Issuer>\n"
    ++ (codes
          "  <saml2:Subject>\n    <saml2:NameID Format=\"urn:oasis:names:tc:SAML:1.1:nameid-format:emailAddress\">"
        ++ codes
            "saml-user@example.com</saml2:NameID>\n  </saml2:Subject>\n  <saml2:Conditions NotBefore=\"")

abbrev pub until : Str
until = codes "\" NotOnOrAfter=\""

abbrev pub attributed : Str
attributed =
    codes
      "\">\n  </saml2:Conditions>\n  <saml2:AttributeStatement>\n    <saml2:Attribute Name=\"roles\">\n"
    ++ (codes
          "      <saml2:AttributeValue>order.read,order.write</saml2:AttributeValue>\n    </saml2:Attribute>\n"
        ++ (codes
              "    <saml2:Attribute Name=\"org_id\">\n      <saml2:AttributeValue>acme-corp</saml2:AttributeValue>\n"
            ++ codes "    </saml2:Attribute>\n  </saml2:AttributeStatement>\n</saml2:Assertion>"))

-- The document that fmt.Sprintf makes of a time.
unfoldable pub assertion_text : (ℕ → Str) → ℕ → Str
assertion_text format now =
    opening
    ++ (format now
        ++ (named ++ (format now ++ (until ++ (format (now + 5 * minute) ++ attributed)))))

-- The assertion as it is sent.
unfoldable pub saml_assertion : (ℕ → Str) → ℕ → Str
unfolding assertion_text encode_std
saml_assertion format now = encode_std (assertion_text format now)

assertion_description : Str
assertion_description =
    codes
      "Base64-encoded SAML 2.0 assertion from a legacy IdP. Token Exchange Service parses this and extracts identity claims."

-- handleIssueAssertion: the document that it writes.
unfoldable pub handle_issue_assertion : (ℕ → Str) → ℕ → Value
unfolding saml_assertion assertion_description
handle_issue_assertion format now = object (
    member (codes "description") (text assertion_description)
      (member (codes "saml_assertion") (text (saml_assertion format now)) end))

protected_message : Str
protected_message =
    codes "Protected by SAML assertion. The Token Exchange Service converts SAML to canonical JWT "
    ++ codes "during migration."

-- handleProtected: the document that it writes.
unfoldable pub handle_protected : Value
unfolding protected_message
handle_protected = object (member (codes "message") (text protected_message) end)

-- The routes, given the encoder, for a request that is handled at the given time.
unfoldable pub routes : (Value → Str) → (ℕ → Str) → ℕ → Map (HttpRequest → HttpResponse)
unfolding handle_protected
routes encode format now =
    (codes "/issue-assertion", λ r. text_response (encode (handle_issue_assertion format now)))
    ∷ (codes "/protected", λ r. text_response (encode handle_protected))
    ∷ (codes "/healthz", λ r. text_response (codes "ok"))
    ∷ []

unfoldable pub serve : (Value → Str) → (ℕ → Str) → ℕ → HttpRequest → HttpResponse
unfolding routes serve_mux
serve encode format now = serve_mux (routes encode format now)

-- main: what it listens at.
unfoldable pub address : Map Str → Str
unfolding get_env
address env = codes ":" ++ get_env env (codes "PORT") (codes "9003")
