-- ===== src/Observability/Chain.antt =====
-- services/token-exchange/internal/observability/middleware.go: what the whole chain tells of a
-- request.
use centralized_identity.Common.{ℕ, Str, ==_iff, some, List, [], ◌∷◌, ◌≡◌, refl}
use centralized_identity.Http.{HttpRequest, fresh, correlation_header, set_header}
use centralized_identity.Exchange.{Env, Body}
use centralized_identity.Handler.{Served, serve_http}
use centralized_identity.Handler.Responses.{
  Verdict, Verdict-of, verdict_code, verdict_body, Sends, unsent, serve_http-Verdict,
}
use centralized_identity.Observability.{
  Metric, active_inc, active_dec, request_duration, request_total, adapter_label, exchange_path,
  recorded_status, request_span, metrics_middleware, handler, exchange_handler, correlation_id,
  traced_id,
}
use centralized_identity.Observability.Labels.{verdict_label, verdict_label-code, counted}

-- What the metrics are told of a request.
abbrev pub counts : Served → Str → List Metric
counts s label =
    active_inc
    ∷ request_duration (adapter_label s.adapter) label
    ∷ request_total (adapter_label s.adapter) label
    ∷ active_dec
    ∷ []

spanned :
    (s : Served) (cid : Str) (r : HttpRequest) (code : ℕ)
    → s.writer.code ≡ some code
    → request_span cid r (recorded_status s.writer) ∷ [] ≡ request_span cid r code ∷ []
spanned s cid r code sent = rw sent refl

-- Every exchange request is answered by one verdict, and what the chain tells of it is that
-- verdict's: the metrics count and time it once, under "success" for an issued token and "error"
-- for any other, and one span is ended, which is named for the method and the path and has the
-- correlation id of the request and the status code that is sent.
pub exchange_handler-observes :
    (uuid trace_id : Str) (env : Env) (r : HttpRequest)
    → r.path ≡ exchange_path
    → let o = exchange_handler uuid trace_id env r fresh in
      (v : Verdict env r) × Sends o.served (verdict_code v) (verdict_body v)
      × (o.metrics ≡ counts o.served (verdict_label v))
      × (o.spans ≡ request_span (correlation_id uuid r) r (verdict_code v) ∷ [])
unfolding exchange_handler metrics_middleware handler set_header
exchange_handler-observes uuid trace_id env r path =
    let v = Verdict-of env r in
    let cid = correlation_id uuid r in
    let header =
      (set_header correlation_header (traced_id trace_id cid)
        (set_header {Body = Body} correlation_header cid fresh)).header in
    let sends = serve_http-Verdict header env r v in
    (
      v,
      sends,
      rw ((==_iff r.path exchange_path).1 path) (
          counted (serve_http env r (unsent header)) (verdict_code v) (verdict_label v) sends.0
            (verdict_label-code v)),
      spanned (serve_http env r (unsent header)) cid r (verdict_code v) sends.0,
    )
