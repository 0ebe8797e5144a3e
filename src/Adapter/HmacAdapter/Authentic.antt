-- ===== src/Adapter/HmacAdapter/Authentic.antt =====
-- Which tokens the HMAC adapter exchanges, and for what.
use centralized_identity.Common.{
  Str, Lacks, split_2, split_2-cut, split_2_whole, cut, cut_sound, cut-append, ◌==◌, ==_iff, ◌++◌,
  ℕ, some, Option-cases, [], ◌∷◌, ok, Error, >>=-eq-ok, wrap_then, or_error_then, require_then,
  ==_refl, ◌≡◌, ◌↔◌, inl, inr, ap, arith,
}
use centralized_identity.Common.Base64.{decode_raw_url}
use centralized_identity.Adapter.{ExchangeRequest, ExchangeResult}
use centralized_identity.Adapter.HmacAdapter.{
  HmacSecret, Services, Payload, payload_of, two_parts, result, exchange,
}

-- The token is `encoded.signed`, where `encoded` is the payload's text in base64url and `signed` its
-- HMAC-SHA256 under the secret that the store has for the service which the payload names.
pub record Authentic (s : Services) (token : Str) (payload : Payload) (secret : HmacSecret)
    : Type 0 where
  pub encoded : Str
  pub signed : Str
  pub payload_bytes : Str
  pub shape : token ≡ encoded ++ b'.' ∷ signed
  pub no_dot : Lacks b'.' encoded
  pub decoded : decode_raw_url encoded ≡ some payload_bytes
  pub parsed : payload_of s payload_bytes ≡ some payload
  pub known : s.get_secret payload.service_id ≡ ok secret
  pub matches : decode_raw_url signed ≡ some (s.hmac_sha256 secret.secret payload_bytes)

two_parts-split_2 :
    (e : Error) (token a b : Str)
    → two_parts e (split_2 token b'.') ≡ ok (a, b)
    → cut token b'.' ≡ some (a, b)
two_parts-split_2 e token a b h = elim (Option-cases (cut token b'.')) [
  | inl whole ↦ cc (ap (two_parts e) (split_2_whole token b'.' whole))
  | inr ((a', b'), found) ↦ ground (arith, split_2-cut token b'.' a' b' found)
]

module _ (s : Services) (now : ℕ) (req : ExchangeRequest) where
  exchange_sound :
      (r : ExchangeResult)
      → exchange s now req ≡ ok r
      → (payload : Payload) × (secret : HmacSecret) × Authentic s req.subject_token payload secret
        × (r ≡ result payload secret)
  unfolding exchange
  exchange_sound r h =
      let (parts, e₁, h₁) =
        >>=-eq-ok {V = Str × Str} (two_parts _ (split_2 req.subject_token b'.')) _ h in
      let (bytes, e₂, h₂) = or_error_then _ (decode_raw_url parts.0) _ h₁ in
      let (payload, e₃, h₃) = or_error_then _ (payload_of s bytes) _ h₂ in
      let (secret, e₄, h₄) = wrap_then _ (s.get_secret payload.service_id) _ h₃ in
      let (signature, e₅, h₅) = or_error_then _ (decode_raw_url parts.1) _ h₄ in
      let (same, e₆) = require_then (signature == s.hmac_sha256 secret.secret bytes) _ _ h₅ in
      let (shape, no_dot) =
        cut_sound req.subject_token b'.' parts.0 parts.1 (two_parts-split_2 _ _ _ _ e₁) in
      (
        payload,
        secret,
        record {
          encoded = parts.0;
          signed = parts.1;
          payload_bytes = bytes;
          shape = shape;
          no_dot = no_dot;
          decoded = e₂;
          parsed = e₃;
          known = e₄;
          matches = rw (← (==_iff signature (s.hmac_sha256 secret.secret bytes)).0 same) e₅;
        },
        cc e₆,
      )

  exchange_complete :
      (payload : Payload) (secret : HmacSecret)
      → Authentic s req.subject_token payload secret
      → exchange s now req ≡ ok (result payload secret)
  unfolding exchange
  exchange_complete payload secret a =
      let parts : split_2 req.subject_token b'.' ≡ a.encoded ∷ a.signed ∷ [] =
        split_2-cut req.subject_token b'.' a.encoded a.signed
          (rw a.shape (cut-append a.encoded a.signed b'.' a.no_dot)) in
      rw (parts, a.decoded, a.parsed, a.known, a.matches, ==_refl)

-- The adapter exchanges a token exactly if it is authentic: the payload before its first dot, in
-- base64url, is a JSON text of the expected shape, it names a service that the secret store knows,
-- and what follows the dot is the payload's HMAC under that service's secret. The result is then
-- made from that payload and that secret, whatever the time.
pub hmac_exchange-ok_iff :
    (s : Services) (now : ℕ) (req : ExchangeRequest) (r : ExchangeResult)
    → (exchange s now req ≡ ok r) ↔ (
        (payload : Payload) × (secret : HmacSecret) × Authentic s req.subject_token payload secret
        × (r ≡ result payload secret))
hmac_exchange-ok_iff s now req r = (
  exchange_sound s now req r,
  λ (payload, secret, authentic, made).
      rw made (exchange_complete s now req payload secret authentic),
)
