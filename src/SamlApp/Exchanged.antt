-- ===== src/SamlApp/Exchanged.antt =====
-- An assertion of the app, from its issue to its exchange by the service.
use mathlib.Core.List.{Perm}
use centralized_identity.Common.{
  Str, codes, length, length-append, ◌++◌, get, ◌==◌, ne-==-false, ltb, ℕ, ◌+◌, ◌*◌, ◌/◌, ◌<◌,
  false, true, All, All-append, List, [], ◌∷◌, ok, err, plain, none, some, ◌≡◌, ◌≢◌, refl, ap, inl,
  inr, Bool-cases, if◌then◌else◌, arith,
}
use centralized_identity.Common.Base64.{decode_std}
use centralized_identity.Common.Base64.Encoding.{
  IsByte, all_bytes, IsByte-sound, decode_std-encode, length-encode_std,
}
use centralized_identity.Canonical.{auth_saml, second, minute}
use centralized_identity.Adapter.{Adapter, ExchangeRequest, ExchangeResult, detect_adapter}
use centralized_identity.Adapter.Lookup.{adapters_of}
use centralized_identity.Adapter.OpaqueAdapter
use centralized_identity.Adapter.SamlAdapter
use centralized_identity.Adapter.SamlAdapter.{SamlAssertion}
use centralized_identity.Server.Wiring.{Platform, server_saml, server_registry, saml_config}
use centralized_identity.Server.Wiring.Detection.{server_detect-saml}
use centralized_identity.SamlApp.{opening, named, until, attributed, assertion_text, saml_assertion}

-- The assertion that stands in the document.
abbrev pub issued_assertion : (ℕ → Str) → ℕ → SamlAssertion
issued_assertion format now = record {
  issuer = codes "https://legacy-idp.example.com/saml";
  name_id = codes "saml-user@example.com";
  not_before = format now;
  not_on_or_after = format (now + 5 * minute);
  attribute_statements =
      (record { name = codes "roles"; values = codes "order.read,order.write" ∷ [] }
        ∷ record { name = codes "org_id"; values = codes "acme-corp" ∷ [] }
        ∷ [])
      ∷ [];
}

-- The library, as documented: a time is written in bytes, whole seconds of it, and read back so;
-- and the document is read as the assertion that stands in it, and not as a response.
pub record Reads (s : SamlAdapter.Services) (format : ℕ → Str) (now : ℕ) : Type 0 where
  pub written : (t : ℕ) → format t ≢ []
  pub in_bytes : (t : ℕ) → All IsByte (format t)
  pub reads_time : (t : ℕ) → s.parse_time (format t) ≡ some (t / second * second)
  pub no_response : s.xml_response (assertion_text format now) ≡ none
  pub reads_assertion :
      s.xml_assertion (assertion_text format now) ≡ some (issued_assertion format now)

abbrev pub saml_identity : ExchangeResult
saml_identity = record {
  subject = codes "user:saml-user@example.com";
  identity_claims = record {
    org_id = codes "acme-corp";
    roles = codes "order.read" ∷ codes "order.write" ∷ [];
    auth_method = auth_saml;
    original_issuer = codes "https://legacy-idp.example.com/saml";
    trust_level = codes "medium";
    pci_scope = false;
    service_name = [];
  };
}

assertion_text-IsByte :
    (format : ℕ → Str)
    → ((t : ℕ) → All IsByte (format t))
    → (now : ℕ) → All IsByte (assertion_text format now)
unfolding assertion_text all_bytes
assertion_text-IsByte format h now = All-append IsByte opening _ (IsByte-sound opening refl) (
    All-append IsByte (format now) _ (h now) (
      All-append IsByte named _ (IsByte-sound named refl) (
        All-append IsByte (format now) _ (h now) (
          All-append IsByte until _ (IsByte-sound until refl) (
            All-append IsByte (format (now + 5 * minute)) _ (h (now + 5 * minute))
              (IsByte-sound attributed refl))))))

decode-saml_assertion :
    (format : ℕ → Str)
    → ((t : ℕ) → All IsByte (format t))
    → (now : ℕ) → decode_std (saml_assertion format now) ≡ some (assertion_text format now)
unfolding saml_assertion
decode-saml_assertion format h now =
    decode_std-encode (assertion_text format now) (assertion_text-IsByte format h now)

issued-result :
    (format : ℕ → Str) (now : ℕ)
    → SamlAdapter.result (issued_assertion format now) (record {
      entity_id = codes "https://legacy-idp.example.com/saml";
      cert_pem = [];
      trust_level = codes "medium";
    })
      ≡ saml_identity
unfolding SamlAdapter.result ◌==◌
issued-result format now = refl

is_saml :
    (format : ℕ → Str) (now : ℕ)
    → SamlAdapter.detect_decoded (some (assertion_text format now)) ≡ true
unfolding SamlAdapter.detect_decoded assertion_text
is_saml format now = refl

-- The SAML adapter takes the assertions of the app for its own.
saml_assertion-detect :
    (p : Platform) (format : ℕ → Str)
    → ((t : ℕ) → All IsByte (format t))
    → (now : ℕ) → (server_saml p).detect (saml_assertion format now) ≡ true
unfolding SamlAdapter.saml_adapter SamlAdapter.detect
saml_assertion-detect p format h now = rw (decode-saml_assertion format h now) (is_saml format now)

-- The libraries read and write as documented.
module _ (p : Platform) (format : ℕ → Str) (now : ℕ) (reads : Reads p.saml format now) where
  expired :
      (time : ℕ)
      → SamlAdapter.is_expired p.saml (issued_assertion format now) time
        ≡ ltb ((now + 5 * minute) / second * second) time
  unfolding SamlAdapter.is_expired
  expired time =
      rw
        (
          ne-==-false (format (now + 5 * minute)) [] (reads.written (now + 5 * minute)),
          reads.reads_time (now + 5 * minute),
        )
        refl

  -- An assertion of the app is exchanged, as the same identity each time, up to the whole second
  -- in which its five minutes end, and then refused with an error that tells that time. The
  -- libraries read and write as documented.
  pub saml_assertion-exchange :
      (time : ℕ) (req : ExchangeRequest)
      → req.subject_token ≡ saml_assertion format now
      → (server_saml p).exchange time req ≡ (
          if ltb ((now + 5 * minute) / second * second) time
          then err (plain (codes "SAML assertion expired at " ++ format (now + 5 * minute)))
          else ok saml_identity)
  unfolding SamlAdapter.saml_adapter SamlAdapter.exchange SamlAdapter.parse_saml_payload saml_config
      get ◌==◌
  saml_assertion-exchange time req same =
      rw
        (
          same,
          decode-saml_assertion format reads.in_bytes now,
          reads.no_response,
          reads.reads_assertion,
          expired time,
        )
        (elim (Bool-cases (ltb ((now + 5 * minute) / second * second) time)) [
          | inl late ↦ rw late refl
          | inr early ↦ rw early (ap ok (issued-result format now))
        ])

-- A token of more than 256 bytes is none that the opaque adapter takes for its own.
opaque-detect-long : (token : Str) → 256 < length token → OpaqueAdapter.detect token ≡ false
unfolding OpaqueAdapter.detect
opaque-detect-long token long = ground (arith, long)

assertion_text-long : (format : ℕ → Str) (now : ℕ) → 256 < length (assertion_text format now)
unfolding assertion_text
assertion_text-long format now = omega (
  arith,
  length-append opening (
      format now
      ++ (named ++ (format now ++ (until ++ (format (now + 5 * minute) ++ attributed))))),
  length-append (format now)
      (named ++ (format now ++ (until ++ (format (now + 5 * minute) ++ attributed)))),
  length-append named (format now ++ (until ++ (format (now + 5 * minute) ++ attributed))),
)

pub saml_assertion-long : (format : ℕ → Str) (now : ℕ) → 256 < length (saml_assertion format now)
unfolding saml_assertion
saml_assertion-long format now =
    omega (arith, assertion_text-long format now, length-encode_std (assertion_text format now))

-- Without a type, an assertion of the app is given to the SAML adapter, in whatever order the
-- adapters are asked. The times in it are written in bytes.
pub saml_assertion-detected :
    (p : Platform) (format : ℕ → Str) (now : ℕ) (order : List Adapter)
    → ((t : ℕ) → All IsByte (format t))
    → Perm order (adapters_of (server_registry p))
    → detect_adapter order (saml_assertion format now) ≡ some (server_saml p)
saml_assertion-detected p format now order in_bytes perm =
    server_detect-saml p (saml_assertion format now) order perm
      (saml_assertion-detect p format in_bytes now)
      (opaque-detect-long (saml_assertion format now) (saml_assertion-long format now))
