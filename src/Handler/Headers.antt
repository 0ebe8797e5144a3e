-- ===== src/Handler/Headers.antt =====
-- What the handler leaves of the response's header.
use centralized_identity.Common.{
  error_text, false, Str, codes, get, get-put, ◌==◌, ℕ, ◌++◌, Option, none, some, [], Result, ok,
  err, ◌≡◌, ◌∙◌, refl, ap, Option-cases, Bool-cases, inl, inr,
}
use centralized_identity.Http.{HttpRequest, Writer, set_header, write_header, write}
use centralized_identity.Exchange.{
  Body, token, failure, Env, Run, TokenExchangeRequest, TokenExchangeResponse, exchange,
  decode_request, grant_type_token_exchange,
}
use centralized_identity.Handler.{
  serve_http, serve_request, serve_decoded, refused, answered, logged, write_error,
}
use centralized_identity.Http.{correlation_header}

write_header-keeps : (code : ℕ) (w : Writer Body) → (write_header code w).header ≡ w.header
unfolding write_header
write_header-keeps code w = elim (Option-cases w.code) [
  | inl unsent ↦ rw unsent refl
  | inr (c, sent) ↦ rw sent refl
]

write-keeps : (b : Body) (w : Writer Body) → (write b w).header ≡ w.header
unfolding write
write-keeps b w = write_header-keeps 200 w

set_header-keeps :
    (name value : Str) (w : Writer Body)
    → (name == correlation_header) ≡ false
    → get (set_header name value w).header correlation_header ≡ get w.header correlation_header
unfolding set_header
set_header-keeps name value w other = rw (get-put, other) refl

write_error-keeps :
    (status : ℕ) (code description : Str) (w : Writer Body)
    → get (write_error status code description w).header correlation_header
      ≡ get w.header correlation_header
unfolding write_error ◌==◌
write_error-keeps status code description w =
    let typed = set_header (codes "Content-Type") (codes "application/json") w in
    ap (λ h. get h correlation_header)
      (write-keeps (failure code description) (write_header status typed)
        ∙ write_header-keeps status typed)
    ∙ set_header-keeps (codes "Content-Type") (codes "application/json") w refl

refused-keeps :
    (status : ℕ) (code description : Str) (w : Writer Body)
    → get (refused status code description w).writer.header correlation_header
      ≡ get w.header correlation_header
unfolding refused
refused-keeps = write_error-keeps

answered-keeps :
    (env : Env) (run : Run) (w : Writer Body) (m : Result TokenExchangeResponse)
    → get (answered env run w m).writer.header correlation_header ≡ get w.header correlation_header
unfolding answered ◌==◌
answered-keeps env run w (err e) =
    write_error-keeps 401 (codes "invalid_grant") (error_text env.texts e) w
answered-keeps env run w (ok response) =
    let typed = set_header (codes "Content-Type") (codes "application/json") w in
    ap (λ h. get h correlation_header)
      (write-keeps (token response) (set_header (codes "Cache-Control") (codes "no-store") typed))
    ∙ set_header-keeps (codes "Cache-Control") (codes "no-store") typed refl
    ∙ set_header-keeps (codes "Content-Type") (codes "application/json") w refl

serve_request-keeps :
    (env : Env) (req : TokenExchangeRequest) (w : Writer Body)
    → get (serve_request env req w).writer.header correlation_header
      ≡ get w.header correlation_header
unfolding serve_request logged
serve_request-keeps env req w = elim (Bool-cases (req.grant_type == grant_type_token_exchange)) [
  | inr other ↦ rw other (
      refused-keeps 400 (codes "unsupported_grant_type")
        (codes "expected " ++ grant_type_token_exchange) w)
  | inl grant ↦ elim (Bool-cases (req.subject_token == [])) [
    | inl empty ↦
        rw (grant, empty)
          (refused-keeps 400 (codes "invalid_request") (codes "subject_token is required") w)
    | inr given ↦
        rw (grant, given) (answered-keeps env (exchange env req) w (exchange env req).response)
  ]
]

serve_decoded-keeps :
    (env : Env) (o : Option TokenExchangeRequest) (w : Writer Body)
    → get (serve_decoded env o w).writer.header correlation_header ≡ get w.header correlation_header
unfolding serve_decoded
serve_decoded-keeps env none w =
    refused-keeps 400 (codes "invalid_request") (codes "malformed request body") w
serve_decoded-keeps env (some req) w = serve_request-keeps env req w

-- The handler leaves the correlation id of the response alone.
pub serve_http-keeps :
    (env : Env) (r : HttpRequest) (w : Writer Body)
    → get (serve_http env r w).writer.header correlation_header ≡ get w.header correlation_header
unfolding serve_http
serve_http-keeps env r w = elim (Bool-cases (r.method == codes "POST")) [
  | inl post ↦ rw post (serve_decoded-keeps env (decode_request env r.body) w)
  | inr other ↦ rw other (refused-keeps 405 (codes "invalid_request") (codes "POST required") w)
]
