-- ===== src/Adapter/SamlAdapter/Assertion.antt =====
-- Which assertions the SAML adapter exchanges.
use centralized_identity.Common.{
  Str, get, ◌==◌, ==_iff, ℕ, ◌≤◌, some, none, true, [], ok, wrap_then, or_error_then, require_then,
  not, ◌≡◌, ◌↔◌, arith, Bool-cases, Option-cases, inl, inr,
}
use centralized_identity.Common.Base64.{decode_std}
use centralized_identity.Adapter.{ExchangeRequest, ExchangeResult}
use centralized_identity.Adapter.SamlAdapter.{
  SamlIdp, SamlConfig, SamlAssertion, Services, parse_saml_payload, is_expired, past, result,
  exchange,
}

-- The end of the assertion, where it is given as a time, has not passed.
pub data IsCurrent (s : Services) (a : SamlAssertion) (now : ℕ) : Type 0 where
  no_end : a.not_on_or_after ≡ [] → IsCurrent s a now
  no_time : s.parse_time a.not_on_or_after ≡ none → IsCurrent s a now
  ends :
      (expiry : ℕ) → s.parse_time a.not_on_or_after ≡ some expiry → now ≤ expiry → IsCurrent s a now

not-is_expired :
    (s : Services) (a : SamlAssertion) (now : ℕ)
    → not (is_expired s a now) ≡ true
    → IsCurrent s a now
unfolding is_expired past
not-is_expired s a now h = elim (Bool-cases (a.not_on_or_after == [])) [
  | inl missing ↦ no_end ((==_iff a.not_on_or_after []).0 missing)
  | inr given ↦ elim (Option-cases (s.parse_time a.not_on_or_after)) [
    | inl unreadable ↦ no_time unreadable
    | inr (expiry, parsed) ↦ ends expiry parsed (ground arith)
  ]
]

is_expired_current :
    (s : Services) (a : SamlAssertion) (now : ℕ)
    → IsCurrent s a now
    → not (is_expired s a now) ≡ true
unfolding is_expired past
is_expired_current s a now (no_end missing) = rw ((==_iff a.not_on_or_after []).1 missing)
is_expired_current s a now (no_time unreadable) = ground arith
is_expired_current s a now (ends expiry parsed later) = ground arith

-- The assertion in the token: base64 of XML that holds it, by an issuer among the trusted, and
-- current.
pub record Accepted (s : Services) (config : SamlConfig) (now : ℕ) (token : Str)
    (assertion : SamlAssertion) (idp : SamlIdp) : Type 0 where
  pub xml : Str
  pub decoded : decode_std token ≡ some xml
  pub parsed : parse_saml_payload s xml ≡ ok assertion
  pub listed : get config.trusted_idps assertion.issuer ≡ some idp
  pub current : IsCurrent s assertion now

exchange_sound :
    (s : Services) (config : SamlConfig) (now : ℕ) (req : ExchangeRequest) (r : ExchangeResult)
    → exchange s config now req ≡ ok r
    → (assertion : SamlAssertion) × (idp : SamlIdp) × Accepted s config now req.subject_token
        assertion idp
      × (r ≡ result assertion idp)
unfolding exchange
exchange_sound s config now req r h =
    let (xml, e₁, h₁) = or_error_then _ (decode_std req.subject_token) _ h in
    let (a, e₂, h₂) = wrap_then _ (parse_saml_payload s xml) _ h₁ in
    let (idp, e₃, h₃) = or_error_then _ (get config.trusted_idps a.issuer) _ h₂ in
    let (fresh, made) = require_then (not (is_expired s a now)) _ _ h₃ in
    (
      a,
      idp,
      record {
        xml = xml;
        decoded = e₁;
        parsed = e₂;
        listed = e₃;
        current = not-is_expired s a now fresh;
      },
      cc made,
    )

exchange_complete :
    (s : Services) (config : SamlConfig) (now : ℕ) (req : ExchangeRequest)
    (assertion : SamlAssertion) (idp : SamlIdp)
    → Accepted s config now req.subject_token assertion idp
    → exchange s config now req ≡ ok (result assertion idp)
unfolding exchange
exchange_complete s config now req assertion idp a =
    rw (a.decoded, a.parsed, a.listed, is_expired_current s assertion now a.current)

-- The adapter exchanges a token exactly if it is base64 of an assertion, or of a response with one
-- first, whose issuer is trusted and whose end, where it is given as a time, has not passed; the
-- result is made from the assertion and the issuer's entry. Nothing else is asked: no signature,
-- no start of validity, no age.
pub saml_exchange-ok_iff :
    (s : Services) (config : SamlConfig) (now : ℕ) (req : ExchangeRequest) (r : ExchangeResult)
    → (exchange s config now req ≡ ok r) ↔ (
        (assertion : SamlAssertion) × (idp : SamlIdp) × Accepted s config now req.subject_token
          assertion idp
        × (r ≡ result assertion idp))
saml_exchange-ok_iff s config now req r = (
  exchange_sound s config now req r,
  λ (assertion, idp, accepted, made).
      rw made (exchange_complete s config now req assertion idp accepted),
)
