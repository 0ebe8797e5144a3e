-- ===== src/Handler/Telemetry.antt =====
-- What the handler tells the tracer.
use centralized_identity.Common.{
  Str, codes, ◌==◌, ◌++◌, Bool, false, Option, none, some, List, [], ◌∷◌, Result, ok, err, ◌≡◌,
  refl, if◌then◌else◌, Bool-cases, inl, inr,
}
use centralized_identity.Adapter.{ExchangeResult}
use centralized_identity.Http.{HttpRequest, Writer}
use centralized_identity.Exchange.{
  TokenExchangeRequest, TokenExchangeResponse, Body, Event, span_start, span_end, span_error,
  span_attribute, Env, Resolved, resolved, unresolved, Run, exchange, adapted, exchanged, finish,
  minted_token, request_of, resolve, decode_request, grant_type_token_exchange,
}
use centralized_identity.Handler.{serve_http, serve_request, serve_decoded, answered, logged}

-- The span that is open after the events, given the one open before; `none` outside if some event
-- breaks the protocol: a span is started when none is open, and only the open span is ended,
-- marked as failed or given an attribute.
abbrev in_span : Str → Option Str → Bool
in_span name none = false
in_span name (some open_name) = open_name == name

pub spans : Option Str → List Event → Option (Option Str)
unfolding ◌==◌
spans o [] = some o
spans none (span_start name ∷ es) = spans (some name) es
spans (some n) (span_start name ∷ es) = none
spans o (span_end name ∷ es) = let rest = spans none es in if in_span name o then rest else none
spans o (span_error name status ∷ es) =
    let rest = spans o es in if in_span name o then rest else none
spans o (span_attribute name k v ∷ es) =
    let rest = spans o es in if in_span name o then rest else none
spans o (e ∷ es) = spans o es

finish-spans :
    (env : Env) (r : ExchangeResult) (m : Result Str) (es : List Event)
    → spans none (span_start (codes "mint_canonical_token") ∷ ((finish env r m).1 ++ es))
      ≡ spans none es
unfolding finish spans
finish-spans env r (ok t) es = refl
finish-spans env r (err e) es = refl

exchanged-spans :
    (env : Env) (req : TokenExchangeRequest) (m : Result ExchangeResult) (es : List Event)
    → spans (some (codes "adapter_exchange")) ((exchanged env req m).1 ++ es) ≡ spans none es
unfolding exchanged spans
exchanged-spans env req (ok r) es = finish-spans env r (minted_token env req r) es
exchanged-spans env req (err e) es = refl

adapted-spans :
    (env : Env) (req : TokenExchangeRequest) (x : Resolved) (es : List Event)
    → spans none ((adapted env req x).events ++ es) ≡ spans none es
unfolding adapted spans
adapted-spans env req (resolved a) es =
    exchanged-spans env req (a.exchange env.adapter_time (request_of req)) es
adapted-spans env req (unresolved status e) es = refl

answered-spans :
    (env : Env) (run : Run) (w : Writer Body) (m : Result TokenExchangeResponse)
    → ((es : List Event) → spans none (run.events ++ es) ≡ spans none es)
    → spans none (answered env run w m).events ≡ some none
unfolding answered spans
answered-spans env run w (ok response) balanced = balanced _
answered-spans env run w (err e) balanced = balanced _

serve_request-spans :
    (env : Env) (req : TokenExchangeRequest) (w : Writer Body)
    → spans none (serve_request env req w).events ≡ some none
unfolding serve_request exchange logged spans
serve_request-spans env req w = elim (Bool-cases (req.grant_type == grant_type_token_exchange)) [
  | inr other ↦ rw other
  | inl same ↦ elim (Bool-cases (req.subject_token == [])) [
    | inl empty ↦ rw (same, empty)
    | inr given ↦
        rw (same, given)
          (answered-spans env (exchange env req) w (exchange env req).response
            (adapted-spans env req (resolve env req)))
  ]
]

serve_decoded-spans :
    (env : Env) (o : Option TokenExchangeRequest) (w : Writer Body)
    → spans none (serve_decoded env o w).events ≡ some none
unfolding serve_decoded spans
serve_decoded-spans env none w = refl
serve_decoded-spans env (some req) w = serve_request-spans env req w

-- On every path of the handler each span that is started is ended, once and before the next one is
-- started, and it is given attributes and marked as failed only while it is open.
pub serve_http-spans :
    (env : Env) (r : HttpRequest) (w : Writer Body)
    → spans none (serve_http env r w).events ≡ some none
unfolding serve_http spans
serve_http-spans env r w = elim (Bool-cases (r.method == codes "POST")) [
  | inl post ↦ rw post (serve_decoded-spans env (decode_request env r.body) w)
  | inr other ↦ rw other
]
