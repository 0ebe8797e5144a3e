-- ===== src/Observability.antt =====
-- services/token-exchange/internal/observability/middleware.go: the middleware around the handler of
-- the service, as main chains it. Durations and exemplars are left out.
pub mod Labels
pub mod Correlation
pub mod Logging
pub mod Lines
pub mod Chain
pub mod Tracing
mod Tests
use centralized_identity.Common.{
  Str, codes, ◌==◌, ◌++◌, ℕ, leb, Option, none, some, List, [], ◌∷◌, if◌then◌else◌,
}
use centralized_identity.Http.{HttpRequest, Writer, get_header, set_header, correlation_header}
use centralized_identity.Exchange.{Body, Env, Event}
use centralized_identity.Handler.{Served, serve_http}

-- The calls of the Prometheus metrics, with their labels.
pub data Metric : Type 0 where
  active_inc active_dec : Metric
  request_duration request_total : Str → Str → Metric

-- attribute.String and attribute.Int
pub data Attribute : Type 0 where
  text : Str → Attribute
  int : ℕ → Attribute

-- A span that has ended.
pub record Span : Type 0 where
  pub name : Str
  pub attributes : List (Str × Attribute)

-- What the chain leaves. What the handler does is done in the context of its request: each event
-- stands with the correlation id of that context, which is what CorrelationID reads of it.
pub record Observed : Type 0 where
  pub served : Served
  pub events : List (Str × Event)
  pub metrics : List Metric
  pub spans : List Span

-- An http.Handler: it is given the correlation id that the request's context holds, the request
-- and the response writer.
abbrev pub Middleware : Type 0
Middleware = Str → HttpRequest → Writer Body → Observed

pub in_context : Str → List Event → List (Str × Event)
in_context cid [] = []
in_context cid (e ∷ es) = (cid, e) ∷ in_context cid es

-- The exchange handler, which logs with the context of its request.
unfoldable pub handler : Env → Middleware
unfolding in_context
handler env cid r w =
    let s = serve_http env r w in
    record { served = s; events = in_context cid s.events; metrics = []; spans = [] }

-- The status that statusWriter keeps: the handler calls WriteHeader once at most, and it starts at
-- 200.
abbrev pub recorded_status : Writer Body → ℕ
recorded_status w = elim w.code [ none ↦ 200 | some code ↦ code ]

abbrev pub status_label : ℕ → Str
status_label status = if leb 400 status then codes "error" else codes "success"

abbrev pub adapter_label : Option Str → Str
adapter_label none = codes "unknown"
adapter_label (some adapter) = if adapter == [] then codes "unknown" else adapter

abbrev pub exchange_path : Str
exchange_path = codes "/v1/token/exchange"

pub request_metrics : Served → List Metric
request_metrics s =
    active_inc
    ∷ request_duration (adapter_label s.adapter) (status_label (recorded_status s.writer))
    ∷ request_total (adapter_label s.adapter) (status_label (recorded_status s.writer))
    ∷ active_dec
    ∷ []

-- MetricsMiddleware(next), which passes the request's context on.
unfoldable pub metrics_middleware : Middleware → Middleware
unfolding request_metrics
metrics_middleware next cid r w =
    let o = next cid r w in
    record o { metrics = if r.path == exchange_path then request_metrics o.served else o.metrics }

-- The correlation id of the context.
unfoldable pub correlation_id : Str → HttpRequest → Str
unfolding get_header
correlation_id uuid r =
    let given = get_header r.header (codes "X-Correlation-Id") in
    let request = get_header r.header (codes "X-Request-Id") in
    if given == [] then if request == [] then uuid else request else given

-- CorrelationMiddleware: the context of the request it passes on holds the id.
unfoldable pub correlation_middleware : Str → Middleware → HttpRequest → Writer Body → Observed
unfolding correlation_id set_header
correlation_middleware uuid next r w =
    next (correlation_id uuid r) r (set_header correlation_header (correlation_id uuid r) w)

unfoldable pub traced_id : Str → Str → Str
traced_id trace_id cid = if cid == [] then trace_id else cid

-- The span gets its last attribute when the handler has returned.
unfoldable pub request_span : Str → HttpRequest → ℕ → Span
request_span cid r status = record {
  name = codes "HTTP " ++ (r.method ++ (codes " " ++ r.path));
  attributes =
      (codes "http.method", text r.method)
      ∷ (codes "http.url", text r.path)
      ∷ (codes "correlation_id", text cid)
      ∷ (codes "http.status_code", int status)
      ∷ [];
}

unfoldable pub tracing_middleware : Str → Middleware → Middleware
unfolding traced_id set_header request_span
tracing_middleware trace_id next cid r w =
    let o =
      next (traced_id trace_id cid) r (set_header correlation_header (traced_id trace_id cid) w) in
    record o { spans = request_span cid r (recorded_status o.served.writer) ∷ o.spans }

-- The handler of main: the middleware around the exchange handler, given a new id and a trace id.
unfoldable pub exchange_handler : Str → Str → Env → HttpRequest → Writer Body → Observed
unfolding correlation_middleware tracing_middleware metrics_middleware handler
exchange_handler uuid trace_id env =
    correlation_middleware uuid (tracing_middleware trace_id (metrics_middleware (handler env)))
