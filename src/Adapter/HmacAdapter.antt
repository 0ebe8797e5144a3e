-- ===== src/Adapter/HmacAdapter.antt =====
-- services/token-exchange/internal/adapter/hmac_adapter.go. The secret store is an interface that
-- the repository does not implement; HMAC-SHA256 and the parsing of a JSON text are the library's.
pub mod Authentic
use centralized_identity.Common.{
  Str, codes, split_2, ◌==◌, ◌++◌, ℕ, Bool, true, false, Option, none, some, List, [], ◌∷◌, Result,
  ok, err, plain, wrapped, cause, base64_input, json_input, Error, ◌>>=◌, ◌>>◌, require, wrap,
  or_error,
}
use centralized_identity.Common.Base64.{decode_raw_url}
use centralized_identity.Common.Json.{
  Value, null, object, members, field, Field, store_struct, when_fine, store_text, store_texts,
  is_int64, number,
}
use centralized_identity.Canonical.{trust_low, auth_legacy}
use centralized_identity.Adapter.{token_type_hmac, ExchangeRequest, ExchangeResult, Adapter}

pub record HmacSecret : Type 0 where
  pub service_name : Str
  pub secret : Str
  pub trust_level : Str
  pub deprecated_at : Option ℕ

-- What the adapter is built from: the SecretStore, and the library.
pub record Services : Type 0 where
  pub get_secret : Str → Result HmacSecret
  pub hmac_sha256 : Str → Str → Str
  pub json_document : Str → Option Value

pub record Payload : Type 0 where
  pub service_id : Str
  pub roles : List Str
  pub org_id : Str
  -- The literal of the number.
  pub timestamp : Str

abbrev pub no_payload : Payload
no_payload = record { service_id = []; roles = []; org_id = []; timestamp = [] }

-- An int64 field takes a whole number in range.
store_int64 : Value → Str → Str × Bool
unfolding is_int64
store_int64 (number n) s = (n, is_int64 n)
store_int64 null s = (s, true)
store_int64 _ s = (s, false)

payload_fields : List (Field Payload)
unfolding store_text store_texts store_int64
payload_fields =
    record {
      name = codes "service_id";
      store = λ v p. let r = store_text v p.service_id in (record p { service_id = r.0 }, r.1);
    }
    ∷ record {
      name = codes "roles";
      store = λ v p. let r = store_texts v p.roles in (record p { roles = r.0 }, r.1);
    }
    ∷ record {
      name = codes "org_id";
      store = λ v p. let r = store_text v p.org_id in (record p { org_id = r.0 }, r.1);
    }
    ∷ record {
      name = codes "timestamp";
      store = λ v p. let r = store_int64 v p.timestamp in (record p { timestamp = r.0 }, r.1);
    }
    ∷ []

unfoldable pub payload_of : Services → Str → Option Payload
unfolding store_struct payload_fields
payload_of s text = elim (s.json_document text) [
  | none ↦ none
  | some v ↦ when_fine (store_struct payload_fields v no_payload)
]

-- json.Unmarshal into a map[string]any, and whether the key is there.
has_service_id : Option Value → Bool
unfolding field ◌==◌
has_service_id (some (object ms)) = elim (field (members ms) (codes "service_id")) [
  | some v ↦ true
  | none ↦ false
]
has_service_id _ = false

detect_payload : Services → Option Str → Bool
unfolding has_service_id
detect_payload s none = false
detect_payload s (some payload) = has_service_id (s.json_document payload)

detect_parts : Services → List Str → Bool
unfolding detect_payload decode_raw_url
detect_parts s (a ∷ b ∷ []) = detect_payload s (decode_raw_url a)
detect_parts s _ = false

unfoldable pub detect : Services → Str → Bool
unfolding detect_parts split_2
detect s token = detect_parts s (split_2 token b'.')

-- if len(parts) != 2 { return nil, e }
abbrev two_parts : Error → List Str → Result (Str × Str)
two_parts e (a ∷ b ∷ []) = ok (a, b)
two_parts e _ = err e

-- Deprecated or not, the trust is low.
trust_level : HmacSecret → Str
trust_level secret = elim secret.deprecated_at [ none ↦ trust_low | some t ↦ trust_low ]

unfoldable pub result : Payload → HmacSecret → ExchangeResult
unfolding trust_level
result payload secret = record {
  subject = codes "service:" ++ payload.service_id;
  identity_claims = record {
    org_id = payload.org_id;
    roles = payload.roles;
    auth_method = auth_legacy;
    original_issuer = payload.service_id;
    trust_level = trust_level secret;
    pci_scope = false;
    service_name = secret.service_name;
  };
}

unfoldable pub exchange : Services → ℕ → ExchangeRequest → Result ExchangeResult
unfolding result
exchange s now req = do
  (encoded, signed) ←
      two_parts (plain (codes "invalid HMAC token format: expected payload.signature"))
        (split_2 req.subject_token b'.')
  payload_bytes ←
      or_error (wrapped (codes "invalid HMAC payload encoding") (cause base64_input))
        (decode_raw_url encoded)
  payload ←
      or_error (wrapped (codes "invalid HMAC payload") (cause json_input))
        (payload_of s payload_bytes)
  secret ← wrap (codes "secret lookup failed") (s.get_secret payload.service_id)
  signature ←
      or_error (wrapped (codes "invalid signature encoding") (cause base64_input))
        (decode_raw_url signed)
  require (signature == s.hmac_sha256 secret.secret payload_bytes)
      (plain (codes "HMAC signature verification failed"))
  ok (result payload secret)

unfoldable pub hmac_adapter : Services → Adapter
unfolding detect exchange
hmac_adapter s = record { token_type = token_type_hmac; exchange = exchange s; detect = detect s }
