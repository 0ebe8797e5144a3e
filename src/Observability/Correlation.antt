-- ===== src/Observability/Correlation.antt =====
-- Which correlation id the response carries.
use centralized_identity.Common.{
  false, Str, codes, get, get-put, ◌==◌, ==_iff, ne-==-false, some, [], ◌≡◌, ◌≢◌, ◌∙◌, refl, ap,
  Bool-cases, inl, inr,
}
use centralized_identity.Http.{HttpRequest, Writer, get_header, correlation_header, set_header}
use centralized_identity.Exchange.{Body, Env}
use centralized_identity.Handler.Headers.{serve_http-keeps}
use centralized_identity.Observability.{correlation_id, traced_id, exchange_handler}

set_header-get :
    (value : Str) (w : Writer Body)
    → get (set_header correlation_header value w).header correlation_header ≡ some value
unfolding set_header ◌==◌
set_header-get value w = rw get-put refl

pub correlation_id-given : (uuid : Str) (r : HttpRequest) → uuid ≢ [] → correlation_id uuid r ≢ []
unfolding correlation_id
correlation_id-given uuid r given =
    elim (Bool-cases (get_header r.header (codes "X-Correlation-Id") == [])) [
      | inr set ↦
          rw set (λ e. cc ((==_iff (get_header r.header (codes "X-Correlation-Id")) []).1 e, set))
      | inl unset ↦ elim (Bool-cases (get_header r.header (codes "X-Request-Id") == [])) [
        | inl none_ ↦ rw (unset, none_) given
        | inr set ↦
            rw (unset, set)
              (λ e. cc ((==_iff (get_header r.header (codes "X-Request-Id")) []).1 e, set))
      ]
    ]

pub traced_id-given : (trace_id cid : Str) → (cid == []) ≡ false → traced_id trace_id cid ≡ cid
unfolding traced_id
traced_id-given trace_id cid h = rw h refl

-- On every path the response carries the request's correlation id, or else its request id, or else
-- the new id, if that is not empty: the tracing middleware and the handler do not change it.
pub exchange_handler-correlation :
    (uuid trace_id : Str) (env : Env) (r : HttpRequest) (w : Writer Body)
    → uuid ≢ []
    → get (exchange_handler uuid trace_id env r w).served.writer.header correlation_header
      ≡ some (correlation_id uuid r)
unfolding exchange_handler
exchange_handler-correlation uuid trace_id env r w given =
    let cid = correlation_id uuid r in
    let w₁ = set_header correlation_header cid w in
    let traced = ne-==-false cid [] (correlation_id-given uuid r given) in
    serve_http-keeps env r (set_header correlation_header (traced_id trace_id cid) w₁)
    ∙ set_header-get (traced_id trace_id cid) w₁
    ∙ ap some (traced_id-given trace_id cid traced)
