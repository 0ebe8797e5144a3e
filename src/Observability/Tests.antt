-- ===== src/Observability/Tests.antt =====
-- The middleware on a request: runs of the theorems about it.
use centralized_identity.Common.{
  Str, All, codes, get, ◌==◌, none, some, [], ◌∷◌, err, plain, ◌≡◌, refl,
}
use centralized_identity.Http.{get_header, HttpRequest, fresh, correlation_header}
use centralized_identity.Canonical.{default_config}
use centralized_identity.Adapter.{new_registry}
use centralized_identity.Exchange.{Env}
use centralized_identity.Handler.Responses.{Verdict, verdict_code, verdict_body, Sends}
use centralized_identity.Observability.{
  exchange_path, exchange_handler, correlation_id, traced_id, request_span,
}
use centralized_identity.Observability.Labels.{verdict_label}
use centralized_identity.Observability.Chain.{counts, exchange_handler-observes}
use centralized_identity.Observability.Lines.{log_lines, Carries, exchange_handler-Carries}
use centralized_identity.Common.Json.{text, object, member, end}

-- A handler without adapters.
abbrev env : Env
env = record {
  registry = new_registry;
  order = [];
  config = default_config;
  signer = record { numeric_date = λ t. t; sign = λ alg c k. err (plain (codes "no key")) };
  decode_json = λ body. none;
  texts = λ c. [];
  adapter_time = 0;
  mint_time = 0;
  uuid = [];
}

abbrev post : HttpRequest
post = record {
  method = codes "POST";
  path = exchange_path;
  header = (codes "X-Request-Id", codes "r1") ∷ [];
  body = [];
}

exchange_handler-observes_example :
    let o = exchange_handler (codes "u1") (codes "t1") env post fresh in
    (v : Verdict env post) × Sends o.served (verdict_code v) (verdict_body v)
    × (o.metrics ≡ counts o.served (verdict_label v))
    × (o.spans ≡ request_span (correlation_id (codes "u1") post) post (verdict_code v) ∷ [])
exchange_handler-observes_example =
    exchange_handler-observes (codes "u1") (codes "t1") env post refl

-- A handler that reads a request of every body.
abbrev reading : Env
reading = record env {
  decode_json = λ body. some (
      object (
        member (codes "grant_type") (text (codes "urn:ietf:params:oauth:grant-type:token-exchange"))
          (member (codes "subject_token") (text (codes "tok")) end)));
}

abbrev cid : Str
cid = codes "r1"

exchange_handler-Carries_example :
    let o = exchange_handler (codes "u1") (codes "t1") reading post fresh in
    (get o.served.writer.header correlation_header ≡ some cid)
    × All
        (Carries cid)
        (log_lines (λ d. []) (λ n. codes "now") (some (codes "t1", codes "s1")) 0 o.events)
unfolding correlation_id get_header traced_id ◌==◌
exchange_handler-Carries_example =
    exchange_handler-Carries (codes "u1") (codes "t1") reading post fresh (λ d. [])
      (λ n. codes "now") (some (codes "t1", codes "s1")) (λ e. cc e)
