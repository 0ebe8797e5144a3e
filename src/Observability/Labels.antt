-- ===== src/Observability/Labels.antt =====
-- What the metrics count a request as.
use centralized_identity.Common.{ℕ, some, Str, codes, ==_iff, [], ◌∷◌, ◌≡◌, refl}
use centralized_identity.Http.{HttpRequest, fresh}
use centralized_identity.Exchange.{Env}
use centralized_identity.Handler.{Served, serve_http}
use centralized_identity.Handler.Responses.{
  Verdict, not_post, malformed, other_grant, no_token, denied, issued, verdict_code, verdict_body,
  Sends, serve_http-answers,
}
use centralized_identity.Observability.{
  active_inc, active_dec, request_duration, request_total, status_label, adapter_label,
  exchange_path, handler, metrics_middleware, request_metrics,
}

-- The label of each verdict: only an issued token is a success.
abbrev pub verdict_label : {env : Env} {r : HttpRequest} → Verdict env r → Str
verdict_label (not_post _) = codes "error"
verdict_label (malformed _ _) = codes "error"
verdict_label (other_grant _ _ _ _) = codes "error"
verdict_label (no_token _ _ _ _ _) = codes "error"
verdict_label (denied _ _ _ _) = codes "error"
verdict_label (issued _ _ _ _) = codes "success"

pub verdict_label-code :
    {env : Env} {r : HttpRequest} (v : Verdict env r)
    → status_label (verdict_code v) ≡ verdict_label v
verdict_label-code (not_post _) = refl
verdict_label-code (malformed _ _) = refl
verdict_label-code (other_grant _ _ _ _) = refl
verdict_label-code (no_token _ _ _ _ _) = refl
verdict_label-code (denied _ _ _ _) = refl
verdict_label-code (issued _ _ _ _) = refl

pub counted :
    (s : Served) (code : ℕ) (label : Str)
    → s.writer.code ≡ some code
    → status_label code ≡ label
    → request_metrics s
      ≡ active_inc
        ∷ request_duration (adapter_label s.adapter) label
        ∷ request_total (adapter_label s.adapter) label
        ∷ active_dec
        ∷ []
unfolding request_metrics
counted s code label sent same = rw (sent, same) refl

-- Every exchange request is answered by one verdict, and is counted and timed once, under the
-- adapter that was set and under "success" for an issued token and "error" for any other verdict,
-- while the gauge of active requests is raised and lowered again.
pub metrics_middleware-counts :
    (env : Env) (cid : Str) (r : HttpRequest)
    → r.path ≡ exchange_path
    → let o = metrics_middleware (handler env) cid r fresh in
      (v : Verdict env r) × Sends o.served (verdict_code v) (verdict_body v)
      × (o.metrics
          ≡ active_inc
            ∷ request_duration (adapter_label o.served.adapter) (verdict_label v)
            ∷ request_total (adapter_label o.served.adapter) (verdict_label v)
            ∷ active_dec
            ∷ [])
unfolding metrics_middleware handler
metrics_middleware-counts env cid r path =
    let (v, (code, bodies)) = serve_http-answers env r in
    (
      v,
      (code, bodies),
      rw ((==_iff r.path exchange_path).1 path) (
          counted (serve_http env r fresh) (verdict_code v) (verdict_label v) code
            (verdict_label-code v)),
    )
