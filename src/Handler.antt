-- ===== src/Handler.antt =====
-- services/token-exchange/internal/exchange/handler.go: what ServeHTTP writes for a request.
pub mod Responses
pub mod Headers
pub mod Telemetry
pub mod Issued
use centralized_identity.Common.{
  Str, codes, ◌==◌, ◌++◌, ℕ, Bool, true, false, Option, none, some, List, [], ◌∷◌, Result, ok, err,
  plain, wrapped, Cause, Error, error_text, if◌then◌else◌,
}
use centralized_identity.Common.Json.{Value, Field, store_struct, when_fine, store_text}
use centralized_identity.Http.{HttpRequest, Writer, set_header, write_header, write}
use centralized_identity.Canonical.{TokenConfig, Signer, mint}
use centralized_identity.Adapter.{
  token_type_jwt, ExchangeRequest, ExchangeResult, Adapter, Registry, get_adapter, detect_adapter,
}
use centralized_identity.Exchange.{
  TokenExchangeRequest, TokenExchangeResponse, Body, token, failure, Event, log_info, log_error,
  Env, grant_type_token_exchange, decode_request, Run, exchange,
}

unfoldable pub write_error : ℕ → Str → Str → Writer Body → Writer Body
unfolding set_header write_header write
write_error status code description w =
    write (failure code description)
      (write_header status (set_header (codes "Content-Type") (codes "application/json") w))

-- What `ServeHTTP` leaves: the writer, the adapter set on it, and the events.
pub record Served : Type 0 where
  pub writer : Writer Body
  pub adapter : Option Str
  pub events : List Event

refused : ℕ → Str → Str → Writer Body → Served
unfolding write_error
refused status code description w = record {
  writer = write_error status code description w;
  adapter = none;
  events = [];
}

unfoldable pub answered : Env → Run → Writer Body → Result TokenExchangeResponse → Served
unfolding write_error set_header write
answered env run w (err e) = record {
  writer = write_error 401 (codes "invalid_grant") (error_text env.texts e) w;
  adapter = run.adapter;
  events = run.events ++ log_error (codes "exchange_failed") (error_text env.texts e) ∷ [];
}
answered env run w (ok response) = record {
  writer = write (token response) (
      set_header (codes "Cache-Control") (codes "no-store")
        (set_header (codes "Content-Type") (codes "application/json") w));
  adapter = run.adapter;
  events = run.events ++ log_info (codes "exchange_success") response.issued_token_type ∷ [];
}

unfoldable pub logged : Str → Served → Served
logged token_type s = record s {
  events = log_info (codes "exchange_request") token_type ∷ s.events;
}

serve_request : Env → TokenExchangeRequest → Writer Body → Served
unfolding refused exchange answered logged
serve_request env req w =
    if req.grant_type == grant_type_token_exchange
    then if req.subject_token == []
      then refused 400 (codes "invalid_request") (codes "subject_token is required") w
      else logged req.subject_token_type
          (answered env (exchange env req) w (exchange env req).response)
    else refused 400 (codes "unsupported_grant_type")
        (codes "expected " ++ grant_type_token_exchange) w

serve_decoded : Env → Option TokenExchangeRequest → Writer Body → Served
unfolding refused serve_request
serve_decoded env none w = refused 400 (codes "invalid_request") (codes "malformed request body") w
serve_decoded env (some req) w = serve_request env req w

unfoldable pub serve_http : Env → HttpRequest → Writer Body → Served
unfolding refused serve_decoded decode_request
serve_http env r w =
    if r.method == codes "POST"
    then serve_decoded env (decode_request env r.body) w
    else refused 405 (codes "invalid_request") (codes "POST required") w
