-- ===== src/Exchange.antt =====
-- services/token-exchange/internal/exchange/handler.go: the exchange of a token. Log
-- lines, spans and metrics are a list of events in the order of the calls; durations and trace
-- ids are left out of them. The registry, the signer and the adapters are those of the modules
-- Adapter and Canonical.
pub mod Outcome
use centralized_identity.Common.{
  Str, codes, ◌==◌, ◌++◌, ℕ, Bool, true, false, Option, none, some, List, [], ◌∷◌, Result, ok, err,
  plain, wrapped, Cause, Error, error_text, if◌then◌else◌,
}
use centralized_identity.Common.Json.{
  Value, text, number, object, member, end, Field, store_struct, when_fine, store_text,
}
use centralized_identity.Http.{HttpRequest, decimal, Writer, set_header, write_header, write}
use centralized_identity.Canonical.{TokenConfig, Signer, mint}
use centralized_identity.Adapter.{
  token_type_jwt, ExchangeRequest, ExchangeResult, Adapter, Registry, get_adapter, detect_adapter,
}

pub record TokenExchangeRequest : Type 0 where
  pub grant_type : Str
  pub subject_token : Str
  pub subject_token_type : Str
  pub audience : Str
  pub scope : Str

pub record TokenExchangeResponse : Type 0 where
  pub access_token : Str
  pub issued_token_type : Str
  pub token_type : Str
  pub expires_in : ℕ

-- What is written as JSON: a response, or an ErrorResponse.
pub data Body : Type 0 where
  token : TokenExchangeResponse → Body
  failure : Str → Str → Body

-- The documents of the two structs, by the tags of their fields.
unfoldable pub body_document : Body → Value
unfolding decimal
body_document (token t) = object (
    member (codes "access_token") (text t.access_token) (
      member (codes "issued_token_type") (text t.issued_token_type) (
        member (codes "token_type") (text t.token_type)
          (member (codes "expires_in") (number (decimal t.expires_in)) end))))
body_document (failure code description) =
    object (
      member (codes "error") (text code)
        (member (codes "error_description") (text description) end))

-- What the handler tells the world besides its response.
pub data Event : Type 0 where
  log_info log_error : Str → Str → Event
  span_start span_end : Str → Event
  span_error : Str → Str → Event
  span_attribute : Str → Str → Str → Event
  adapter_duration : Str → Event
  mint_duration : Event
  tokens_issued : Str → Str → Event

-- What a Handler holds, and what its calls of the library and the clock return: `order` is the order
-- in which Go visits the registry's adapters, `texts` the texts of foreign errors.
pub record Env : Type 0 where
  pub registry : Registry
  pub order : List Adapter
  pub config : TokenConfig
  pub signer : Signer
  pub decode_json : Str → Option Value
  pub texts : Cause → Str
  pub adapter_time : ℕ
  pub mint_time : ℕ
  pub uuid : Str

abbrev pub grant_type_token_exchange : Str
grant_type_token_exchange = codes "urn:ietf:params:oauth:grant-type:token-exchange"

abbrev no_request : TokenExchangeRequest
no_request = record {
  grant_type = [];
  subject_token = [];
  subject_token_type = [];
  audience = [];
  scope = [];
}

request_fields : List (Field TokenExchangeRequest)
unfolding store_text
request_fields =
    record {
      name = codes "grant_type";
      store = λ v q. let r = store_text v q.grant_type in (record q { grant_type = r.0 }, r.1);
    }
    ∷ record {
      name = codes "subject_token";
      store =
          λ v q. let r = store_text v q.subject_token in (record q { subject_token = r.0 }, r.1);
    }
    ∷ record {
      name = codes "subject_token_type";
      store = λ v q.
          let r = store_text v q.subject_token_type in (record q { subject_token_type = r.0 }, r.1);
    }
    ∷ record {
      name = codes "audience";
      store = λ v q. let r = store_text v q.audience in (record q { audience = r.0 }, r.1);
    }
    ∷ record {
      name = codes "scope";
      store = λ v q. let r = store_text v q.scope in (record q { scope = r.0 }, r.1);
    }
    ∷ []

unfoldable pub decode_request : Env → Str → Option TokenExchangeRequest
unfolding store_struct request_fields
decode_request env body = elim (env.decode_json body) [
  | none ↦ none
  | some v ↦ when_fine (store_struct request_fields v no_request)
]

-- The adapter for the request; or the status of the span and the error.
pub data Resolved : Type 0 where
  resolved : Adapter → Resolved
  unresolved : Str → Error → Resolved

resolved_get : Env → Str → Result Adapter → Resolved
resolved_get env token_type (ok a) = resolved a
resolved_get env token_type (err e) =
    unresolved (error_text env.texts e) (plain (codes "unsupported token type: " ++ token_type))

resolved_detect : Option Adapter → Resolved
resolved_detect (some a) = resolved a
resolved_detect none =
    unresolved (codes "auto-detect failed")
      (plain (codes "unable to determine token type; provide subject_token_type"))

unfoldable pub resolve : Env → TokenExchangeRequest → Resolved
unfolding resolved_get resolved_detect
resolve env req =
    if req.subject_token_type == []
    then resolved_detect (detect_adapter env.order req.subject_token)
    else resolved_get env req.subject_token_type (get_adapter env.registry req.subject_token_type)

-- A run of `exchange`: what it returns, the adapter that it sets on the writer, and its events.
pub record Run : Type 0 where
  pub response : Result TokenExchangeResponse
  pub adapter : Option Str
  pub events : List Event

-- The steps of `exchange` behind the resolution of the adapter, and behind the adapter's exchange.
unfoldable pub audience_of : TokenExchangeRequest → List Str
audience_of req = if req.audience == [] then [] else req.audience ∷ []

unfoldable pub minted_token : Env → TokenExchangeRequest → ExchangeResult → Result Str
unfolding audience_of
minted_token env req r =
    mint env.signer env.config env.mint_time env.uuid r.subject (audience_of req) r.identity_claims

abbrev mint_span : Str
mint_span = codes "mint_canonical_token"

unfoldable pub finish :
    Env → ExchangeResult → Result Str → Result TokenExchangeResponse × List Event
finish env r (err e) = (
  err (wrapped (codes "canonical token minting failed") e),
  mint_duration ∷ span_error mint_span (error_text env.texts e) ∷ span_end mint_span ∷ [],
)
finish env r (ok access_token) = (
  ok (record {
    access_token = access_token;
    issued_token_type = token_type_jwt;
    token_type = codes "Bearer";
    expires_in = 300;
  }),
  mint_duration
      ∷ span_end mint_span
      ∷ tokens_issued r.identity_claims.trust_level r.identity_claims.auth_method
      ∷ [],
)

abbrev adapter_span : Str
adapter_span = codes "adapter_exchange"

unfoldable pub exchanged :
    Env → TokenExchangeRequest → Result ExchangeResult → Result TokenExchangeResponse × List Event
unfolding minted_token finish
exchanged env req (err e) = (
  err (wrapped (codes "token exchange failed") e),
  span_error adapter_span (error_text env.texts e) ∷ span_end adapter_span ∷ [],
)
exchanged env req (ok r) =
    let rest = finish env r (minted_token env req r) in
    (
      rest.0,
      span_attribute adapter_span (codes "subject") r.subject
          ∷ span_attribute adapter_span (codes "trust_level") r.identity_claims.trust_level
          ∷ span_attribute adapter_span (codes "auth_method") r.identity_claims.auth_method
          ∷ span_end adapter_span
          ∷ span_start mint_span
          ∷ rest.1,
    )

abbrev resolve_span : Str
resolve_span = codes "resolve_adapter"

abbrev pub request_of : TokenExchangeRequest → ExchangeRequest
request_of req = record {
  subject_token = req.subject_token;
  subject_token_type = req.subject_token_type;
  audience = [];
  scope = [];
  requested_type = [];
}

unfoldable pub adapted : Env → TokenExchangeRequest → Resolved → Run
unfolding exchanged
adapted env req (unresolved status e) = record {
  response = err e;
  adapter = none;
  events =
      span_start resolve_span
      ∷ span_attribute resolve_span (codes "token_type_hint") req.subject_token_type
      ∷ span_error resolve_span status
      ∷ span_end resolve_span
      ∷ [];
}
adapted env req (resolved a) =
    let rest = exchanged env req (a.exchange env.adapter_time (request_of req)) in
    record {
      response = rest.0;
      adapter = some a.token_type;
      events =
          span_start resolve_span
          ∷ span_attribute resolve_span (codes "token_type_hint") req.subject_token_type
          ∷ span_attribute resolve_span (codes "adapter") a.token_type
          ∷ span_end resolve_span
          ∷ span_start adapter_span
          ∷ span_attribute adapter_span (codes "adapter") a.token_type
          ∷ adapter_duration a.token_type
          ∷ rest.1;
    }

unfoldable pub exchange : Env → TokenExchangeRequest → Run
unfolding adapted resolve
exchange env req = adapted env req (resolve env req)
