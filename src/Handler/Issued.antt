-- ===== src/Handler/Issued.antt =====
-- What the handler tells the counter of issued tokens.
use centralized_identity.Common.{
  Str, codes, ◌==◌, ◌++◌, ℕ, ◌+◌, suc, Option, none, some, List, [], ◌∷◌, Result, ok, err, ◌≡◌,
  refl, Bool-cases, inl, inr, arith,
}
use centralized_identity.Adapter.{ExchangeResult}
use centralized_identity.Http.{HttpRequest, fresh}
use centralized_identity.Exchange.{
  TokenExchangeRequest, TokenExchangeResponse, Body, token, failure, Event, tokens_issued, Env,
  Resolved, resolved, unresolved, Run, exchange, adapted, exchanged, finish, minted_token,
  request_of, resolve, decode_request, grant_type_token_exchange,
}
use centralized_identity.Handler.{
  serve_http, serve_request, serve_decoded, refused, answered, logged,
}

-- How many tokens the counter of issued tokens counts.
pub issues : List Event → ℕ
issues [] = 0
issues (tokens_issued level method ∷ es) = suc (issues es)
issues (e ∷ es) = issues es

-- How many of the bodies hold a token.
unfoldable pub tokens_in : List Body → ℕ
tokens_in [] = 0
tokens_in (token t ∷ bs) = suc (tokens_in bs)
tokens_in (failure code description ∷ bs) = tokens_in bs

abbrev granted : Result TokenExchangeResponse → ℕ
granted (ok response) = 1
granted (err e) = 0

finish-issues :
    (env : Env) (r : ExchangeResult) (m : Result Str)
    → issues (finish env r m).1 ≡ granted (finish env r m).0
unfolding finish issues
finish-issues env r (ok t) = refl
finish-issues env r (err e) = refl

exchanged-issues :
    (env : Env) (req : TokenExchangeRequest) (m : Result ExchangeResult)
    → issues (exchanged env req m).1 ≡ granted (exchanged env req m).0
unfolding exchanged issues
exchanged-issues env req (ok r) = finish-issues env r (minted_token env req r)
exchanged-issues env req (err e) = refl

adapted-issues :
    (env : Env) (req : TokenExchangeRequest) (x : Resolved)
    → issues (adapted env req x).events ≡ granted (adapted env req x).response
unfolding adapted issues
adapted-issues env req (resolved a) =
    exchanged-issues env req (a.exchange env.adapter_time (request_of req))
adapted-issues env req (unresolved status e) = refl

issues-append : (es fs : List Event) → issues (es ++ fs) ≡ issues es + issues fs
unfolding issues
issues-append [] fs = omega arith
issues-append (tokens_issued level method ∷ es) fs = omega (arith, issues-append es fs)
issues-append (e ∷ es) fs = issues-append es fs

answered-issues :
    (env : Env) (run : Run) (m : Result TokenExchangeResponse)
    → issues run.events ≡ granted m
    → issues (answered env run fresh m).events ≡ tokens_in (answered env run fresh m).writer.bodies
unfolding answered issues tokens_in
answered-issues env run (ok response) h = omega (arith, h, issues-append run.events)
answered-issues env run (err e) h = omega (arith, h, issues-append run.events)

serve_request-issues :
    (env : Env) (req : TokenExchangeRequest)
    → issues (serve_request env req fresh).events
      ≡ tokens_in (serve_request env req fresh).writer.bodies
unfolding serve_request refused exchange logged issues tokens_in
serve_request-issues env req = elim (Bool-cases (req.grant_type == grant_type_token_exchange)) [
  | inr other ↦ rw other
  | inl same ↦ elim (Bool-cases (req.subject_token == [])) [
    | inl empty ↦ rw (same, empty)
    | inr given ↦
        rw (same, given)
          (answered-issues env (exchange env req) (exchange env req).response
            (adapted-issues env req (resolve env req)))
  ]
]

serve_decoded-issues :
    (env : Env) (o : Option TokenExchangeRequest)
    → issues (serve_decoded env o fresh).events
      ≡ tokens_in (serve_decoded env o fresh).writer.bodies
unfolding serve_decoded refused issues tokens_in
serve_decoded-issues env none = refl
serve_decoded-issues env (some req) = serve_request-issues env req

-- On every path of the handler the counter of issued tokens is raised once for each token that is
-- written into the response, and not at all if none is.
pub serve_http-issues :
    (env : Env) (r : HttpRequest)
    → issues (serve_http env r fresh).events ≡ tokens_in (serve_http env r fresh).writer.bodies
unfolding serve_http refused issues tokens_in
serve_http-issues env r = elim (Bool-cases (r.method == codes "POST")) [
  | inl post ↦ rw post (serve_decoded-issues env (decode_request env r.body))
  | inr other ↦ rw other
]
