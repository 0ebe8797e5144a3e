-- ===== src/Handler/Responses.antt =====
-- What the handler answers, on every path.
use centralized_identity.Common.{
  Str, Map, codes, ◌==◌, ==-dec, ==_iff, ne-==-false, ◌++◌, ℕ, true, none, some, [], ◌∷◌, ok, err,
  ◌≡◌, ◌≢◌, ◌↔◌, refl, Option-cases, Result-cases, Error, inl, inr, error_text,
}
use centralized_identity.Http.{HttpRequest, Writer, fresh}
use centralized_identity.Exchange.Outcome.{Issues, bearer, exchange-ok_iff}
use centralized_identity.Exchange.{
  TokenExchangeRequest, TokenExchangeResponse, Body, token, failure, Env, grant_type_token_exchange,
  decode_request, Run, exchange,
}
use centralized_identity.Handler.{
  serve_http, serve_request, serve_decoded, refused, answered, logged, Served,
}

-- A POST whose body is a request to exchange some token.
pub record Requests (env : Env) (r : HttpRequest) (req : TokenExchangeRequest) : Type 0 where
  pub posted : r.method ≡ codes "POST"
  pub decoded : decode_request env r.body ≡ some req
  pub granted : req.grant_type ≡ grant_type_token_exchange
  pub given : req.subject_token ≢ []

-- The response to a fresh writer: the code that is sent, and the one body.
abbrev pub Sends : Served → ℕ → Body → Type 0
Sends s code body = (s.writer.code ≡ some code) × (s.writer.bodies ≡ body ∷ [])

pub serve_http-valid :
    (env : Env) (r : HttpRequest) (req : TokenExchangeRequest) (w : Writer Body)
    → Requests env r req
    → serve_http env r w
      ≡ logged req.subject_token_type
          (answered env (exchange env req) w (exchange env req).response)
unfolding serve_http serve_decoded serve_request
serve_http-valid env r req w q =
    let posted : (r.method == codes "POST") ≡ true = (==_iff r.method (codes "POST")).1 q.posted in
    let granted = (==_iff req.grant_type grant_type_token_exchange).1 q.granted in
    rw (
      posted,
      q.decoded,
      serve_decoded,
      serve_request,
      granted,
      ne-==-false req.subject_token [] q.given,
    )

-- A writer to which only headers were given.
abbrev pub unsent : Map Str → Writer Body
unsent header = record { header = header; code = none; bodies = [] }

answered-ok :
    (header : Map Str) (env : Env) (run : Run) (token_type : Str) (response : TokenExchangeResponse)
    → Sends
        (logged token_type (answered env run (unsent header) (ok response)))
        200
        (token response)
unfolding answered logged
answered-ok header env run token_type response = (refl, refl)

answered-err :
    (header : Map Str) (env : Env) (run : Run) (token_type : Str) (e : Error)
    → Sends
        (logged token_type (answered env run (unsent header) (err e)))
        401
        (failure (codes "invalid_grant") (error_text env.texts e))
unfolding answered logged
answered-err header env run token_type e = (refl, refl)

-- Why a request is answered as it is: the conditions, of which just one holds for a request.
pub data Verdict (env : Env) (r : HttpRequest) : Type 0 where
  not_post : r.method ≢ codes "POST" → Verdict env r
  malformed : r.method ≡ codes "POST" → decode_request env r.body ≡ none → Verdict env r
  other_grant :
      (req : TokenExchangeRequest)
      → r.method ≡ codes "POST"
      → decode_request env r.body ≡ some req
      → req.grant_type ≢ grant_type_token_exchange
      → Verdict env r
  no_token :
      (req : TokenExchangeRequest)
      → r.method ≡ codes "POST"
      → decode_request env r.body ≡ some req
      → req.grant_type ≡ grant_type_token_exchange
      → req.subject_token ≡ []
      → Verdict env r
  denied :
      (req : TokenExchangeRequest) (e : Error)
      → Requests env r req
      → (exchange env req).response ≡ err e
      → Verdict env r
  issued :
      (req : TokenExchangeRequest) (response : TokenExchangeResponse)
      → Requests env r req
      → (exchange env req).response ≡ ok response
      → Verdict env r

-- The status code and the body that each verdict calls for.
abbrev pub verdict_code : {env : Env} {r : HttpRequest} → Verdict env r → ℕ
verdict_code (not_post _) = 405
verdict_code (malformed _ _) = 400
verdict_code (other_grant _ _ _ _) = 400
verdict_code (no_token _ _ _ _ _) = 400
verdict_code (denied _ _ _ _) = 401
verdict_code (issued _ _ _ _) = 200

abbrev pub verdict_body : {env : Env} {r : HttpRequest} → Verdict env r → Body
verdict_body (not_post _) = failure (codes "invalid_request") (codes "POST required")
verdict_body (malformed _ _) = failure (codes "invalid_request") (codes "malformed request body")
verdict_body (other_grant _ _ _ _) =
    failure (codes "unsupported_grant_type") (codes "expected " ++ grant_type_token_exchange)
verdict_body (no_token _ _ _ _ _) =
    failure (codes "invalid_request") (codes "subject_token is required")
verdict_body {env} (denied _ e _ _) = failure (codes "invalid_grant") (error_text env.texts e)
verdict_body (issued _ response _ _) = token response

pub serve_http-Verdict :
    (header : Map Str) (env : Env) (r : HttpRequest) (v : Verdict env r)
    → Sends (serve_http env r (unsent header)) (verdict_code v) (verdict_body v)
unfolding serve_http serve_decoded serve_request refused
serve_http-Verdict header env r (not_post other) =
    rw (ne-==-false r.method (codes "POST") other) (refl, refl)
serve_http-Verdict header env r (malformed post undecoded) =
    rw ((==_iff r.method (codes "POST")).1 post, undecoded, serve_decoded) (refl, refl)
serve_http-Verdict header env r (other_grant req post decoded other) =
    rw
      (
        (==_iff r.method (codes "POST")).1 post,
        decoded,
        serve_decoded,
        serve_request,
        ne-==-false req.grant_type grant_type_token_exchange other,
      )
      (refl, refl)
serve_http-Verdict header env r (no_token req post decoded grant empty) =
    rw
      (
        (==_iff r.method (codes "POST")).1 post,
        decoded,
        serve_decoded,
        serve_request,
        (==_iff req.grant_type grant_type_token_exchange).1 grant,
        (==_iff req.subject_token []).1 empty,
      )
      (refl, refl)
serve_http-Verdict header env r (denied req e q h) =
    rw (serve_http-valid env r req (unsent header) q, h)
      (answered-err header env (exchange env req) req.subject_token_type e)
serve_http-Verdict header env r (issued req response q h) =
    rw (serve_http-valid env r req (unsent header) q, h)
      (answered-ok header env (exchange env req) req.subject_token_type response)

exchange-Verdict :
    (env : Env) (r : HttpRequest) (req : TokenExchangeRequest) → Requests env r req → Verdict env r
exchange-Verdict env r req q = elim (Result-cases (exchange env req).response) [
  | inl (response, e) ↦ issued req response q e
  | inr (x, e) ↦ denied req x q e
]

request-Verdict :
    (env : Env) (r : HttpRequest) (req : TokenExchangeRequest)
    → r.method ≡ codes "POST"
    → decode_request env r.body ≡ some req
    → Verdict env r
request-Verdict env r req post decoded = elim (==-dec req.grant_type grant_type_token_exchange) [
  | inr other ↦ other_grant req post decoded other
  | inl grant ↦ elim (==-dec req.subject_token []) [
    | inl empty ↦ no_token req post decoded grant empty
    | inr given ↦
        exchange-Verdict env r req
          (record { posted = post; decoded = decoded; granted = grant; given = given })
  ]
]

pub Verdict-of : (env : Env) (r : HttpRequest) → Verdict env r
Verdict-of env r = elim (==-dec r.method (codes "POST")) [
  | inr other ↦ not_post other
  | inl post ↦ elim (Option-cases (decode_request env r.body)) [
    | inl undecoded ↦ malformed post undecoded
    | inr (req, decoded) ↦ request-Verdict env r req post decoded
  ]
]

same_body : (s : Served) (c d : ℕ) (b b' : Body) → Sends s c b → Sends s d b' → b ≡ b'
same_body s c d b b' (_, h) (_, k) = cc

-- Only the last verdict has a token for its body.
token-Verdict :
    (env : Env) (r : HttpRequest) (v : Verdict env r) {response : TokenExchangeResponse}
    → Sends (serve_http env r fresh) 200 (token response)
    → (req : TokenExchangeRequest) × (t : Str) × Requests env r req
      × Issues env req t
      × (response ≡ bearer t)
token-Verdict env r (issued req answer q h) {response} sent =
    let same =
      same_body (serve_http env r fresh) 200 200 (token answer) (token response)
        (serve_http-Verdict [] env r (issued req answer q h)) sent in
    let (t, issues, made) = (exchange-ok_iff env req answer).0 h in
    (req, t, q, issues, cc (same, made))
token-Verdict env r v {response} sent =
    let same =
      same_body (serve_http env r fresh) (verdict_code v) 200 (verdict_body v) (token response)
        (serve_http-Verdict [] env r v) sent in
    cc same

-- Every request is answered, with one status code and one body, as one of six verdicts says: 405
-- for another method than POST; 400 for a body that cannot be decoded, for another grant type and
-- for an empty token; for a valid request 401 with the text of the exchange's error, or 200 with
-- the exchange's token.
pub serve_http-answers :
    (env : Env) (r : HttpRequest)
    → (v : Verdict env r) × Sends (serve_http env r fresh) (verdict_code v) (verdict_body v)
serve_http-answers env r = (Verdict-of env r, serve_http-Verdict [] env r (Verdict-of env r))

-- The handler hands out a token exactly for a valid request for which one is issued: an
-- adapter has authenticated the subject token, and what is handed out is its result, minted.
pub serve_http-token_iff :
    (env : Env) (r : HttpRequest) (response : TokenExchangeResponse)
    → Sends (serve_http env r fresh) 200 (token response) ↔ (
        (req : TokenExchangeRequest) × (t : Str) × Requests env r req
        × Issues env req t
        × (response ≡ bearer t))
serve_http-token_iff env r response = (
  λ sent. token-Verdict env r (Verdict-of env r) sent,
  λ (req, t, q, issues, made).
      serve_http-Verdict [] env r
        (issued req response q ((exchange-ok_iff env req response).1 (t, issues, made))),
)
