-- ===== src/Server/Routes.antt =====
-- main.go: main, the address of the service and its routes. A pattern of http.ServeMux that ends
-- in no slash stands for that path only. The page of the metrics is Prometheus's.
use centralized_identity.Common.{
  Str, codes, get, Map, ◌==◌, ◌++◌, Option, none, some, List, [], ◌∷◌, if◌then◌else◌,
}
use centralized_identity.Common.Json.{Value}
use centralized_identity.Http.{HttpRequest, HttpResponse, Writer, fresh, not_found}
use centralized_identity.Exchange.{Body, body_document, Env}
use centralized_identity.Observability.{recorded_status, exchange_handler}
use centralized_identity.Server.Issuers.{variable}

unfoldable pub address : Map Str → Str
unfolding variable
address env =
    let port = variable env (codes "PORT") in
    if port == [] then codes ":8080" else codes ":" ++ port

pub data Page : Type 0 where
  exchange_page metrics_page ok_page : Page

routes : Map Page
routes =
    (codes "/v1/token/exchange", exchange_page)
    ∷ (codes "/metrics", metrics_page)
    ∷ (codes "/healthz", ok_page)
    ∷ (codes "/readyz", ok_page)
    ∷ []

abbrev pub ok_response : HttpResponse
ok_response = record { status_code = 200; body = codes "ok" }

-- The handlers that are registered.
pub record Pages : Type 0 where
  pub exchange : HttpRequest → HttpResponse
  pub metrics : HttpRequest → HttpResponse

respond : Pages → HttpRequest → Option Page → HttpResponse
respond pages r none = not_found
respond pages r (some exchange_page) = pages.exchange r
respond pages r (some metrics_page) = pages.metrics r
respond pages r (some ok_page) = ok_response

unfoldable pub serve : Pages → HttpRequest → HttpResponse
unfolding respond routes get ◌==◌
serve pages r = respond pages r (get routes r.path)

bodies_text : (Value → Str) → List Body → Str
bodies_text encode [] = []
bodies_text encode (b ∷ []) = encode (body_document b)
bodies_text encode (b ∷ c ∷ bs) = encode (body_document b) ++ bodies_text encode (c ∷ bs)

-- A response as it arrives, given the encoder.
unfoldable pub delivered : (Value → Str) → Writer Body → HttpResponse
unfolding bodies_text
delivered encode w = record { status_code = recorded_status w; body = bodies_text encode w.bodies }

-- The pages of the service, given a new id and a trace id.
unfoldable pub service_pages :
    (Value → Str) → (HttpRequest → HttpResponse) → Str → Str → Env → Pages
unfolding delivered
service_pages encode metrics uuid trace_id env = record {
  exchange = λ r. delivered encode (exchange_handler uuid trace_id env r fresh).served.writer;
  metrics = metrics;
}
