-- ===== src/Observability/Lines.antt =====
-- The lines that the handler logs for a request.
use centralized_identity.Common.{
  Str, codes, suc, ==_refl, Option-cases, get, ◌==◌, ne-==-false, ℕ, eqb, All, Option, none, some,
  false, List, [], ◌∷◌, ◌≡◌, ◌≢◌, ◌∙◌, refl, inl, inr, Bool-cases, sym,
}
use mathlib.Core.Path.{subst}
use centralized_identity.Common.Json.{Value, text, object, Members, member, members, field}
use centralized_identity.Http.{HttpRequest, Writer, correlation_header}
use centralized_identity.Exchange.{Body, Env, Event, log_info, log_error}
use centralized_identity.Observability.{correlation_id, in_context, exchange_handler}
use centralized_identity.Observability.Correlation.{
  correlation_id-given, traced_id-given, exchange_handler-correlation,
}
use centralized_identity.Observability.Logging.{
  LogEntry, LogField, with_adapter, with_error, with_duration, set_fields, LogContext, log_entry,
  optional, optional_duration, entry_document, log, info, error,
}

some-inj : {a b : Value} → some a ≡ some b → a ≡ b
some-inj h = cc h

line_of : (ℕ → Str) → Str → LogContext → Event → Option Value
unfolding info error
line_of millis ts ctx (log_info msg adapter) =
    some (info millis ts ctx msg (with_adapter adapter ∷ []))
line_of millis ts ctx (log_error msg x) = some (error millis ts ctx msg (with_error x ∷ []))
line_of millis ts ctx e = none

-- The lines of the events, in order, each logged in its context; `stamps` are the times of the
-- clock, as they are written, and the contexts have one span.
unfoldable pub log_lines :
    (ℕ → Str) → (ℕ → Str) → Option (Str × Str) → ℕ → List (Str × Event) → List Value
unfolding line_of
log_lines millis stamps span n [] = []
log_lines millis stamps span n ((cid, e) ∷ es) =
    elim (line_of millis (stamps n) (record { correlation_id = cid; span = span }) e) [
      | none ↦ log_lines millis stamps span n es
      | some line ↦ line ∷ log_lines millis stamps span (suc n) es
    ]

abbrev pub read_field : Value → Str → Option Value
read_field (object ms) key = field (members ms) key
read_field v key = none

abbrev pub Carries : Str → Value → Type 0
Carries cid line = read_field line (codes "correlation_id") ≡ some (text cid)

set_fields-correlation_id :
    (fs : List LogField) (e : LogEntry) → (set_fields fs e).correlation_id ≡ e.correlation_id
unfolding set_fields
set_fields-correlation_id [] e = refl
set_fields-correlation_id (with_adapter a ∷ fs) e = set_fields-correlation_id fs _
set_fields-correlation_id (with_error x ∷ fs) e = set_fields-correlation_id fs _
set_fields-correlation_id (with_duration d ∷ fs) e = set_fields-correlation_id fs _

-- A field stands behind, or in front of, those of other names.
member-other :
    (key k : Str) (v : Value) (rest : Members)
    → (key == k) ≡ false
    → field (members (member key v rest)) k ≡ field (members rest) k
unfolding field
member-other key k v rest h = elim (Option-cases (field (members rest) k)) [
  | inl absent ↦ rw (absent, h) refl
  | inr (w, there) ↦ rw there refl
]

optional-other :
    (key k value : Str) (rest : Members)
    → (key == k) ≡ false
    → field (members (optional key value rest)) k ≡ field (members rest) k
unfolding optional
optional-other key k value rest h = elim (Bool-cases (value == [])) [
  | inl empty ↦ rw empty refl
  | inr given ↦ rw given (member-other key k (text value) rest h)
]

optional-here :
    (key value : Str) (rest : Members)
    → value ≢ []
    → field (members rest) key ≡ none
    → field (members (optional key value rest)) key ≡ some (text value)
unfolding optional field
optional-here key value rest given absent =
    rw (ne-==-false value [] given, absent, ==_refl key) refl

duration-absent :
    (millis : ℕ → Str) (d : ℕ)
    → field (members (optional_duration millis d)) (codes "correlation_id") ≡ none
unfolding optional_duration field ◌==◌
duration-absent millis d = elim (Bool-cases (eqb d 0)) [
  | inl none_ ↦ rw none_ refl
  | inr some_ ↦ rw some_ refl
]

entry_document-Carries :
    (millis : ℕ → Str) (e : LogEntry)
    → e.correlation_id ≢ []
    → Carries e.correlation_id (entry_document millis e)
unfolding entry_document ◌==◌
entry_document-Carries millis e given =
    let k = codes "correlation_id" in
    let duration = optional_duration millis e.duration_us in
    let errors = optional (codes "error") e.error duration in
    let adapters = optional (codes "adapter") e.adapter errors in
    let absent : field (members adapters) k ≡ none =
      optional-other (codes "adapter") k e.adapter errors refl
      ∙ optional-other (codes "error") k e.error duration refl
      ∙ duration-absent millis e.duration_us in
    let ids = optional k e.correlation_id adapters in
    let spans = optional (codes "span_id") e.span_id ids in
    let traces = optional (codes "trace_id") e.trace_id spans in
    let msgs = member (codes "msg") (text e.msg) traces in
    let levels = member (codes "level") (text e.level) msgs in
    member-other (codes "ts") k (text e.timestamp) levels refl
    ∙ member-other (codes "level") k (text e.level) msgs refl
    ∙ member-other (codes "msg") k (text e.msg) traces refl
    ∙ optional-other (codes "trace_id") k e.trace_id spans refl
    ∙ optional-other (codes "span_id") k e.span_id ids refl
    ∙ optional-here k e.correlation_id adapters given absent

log_entry-correlation_id :
    (ts : Str) (ctx : LogContext) (level msg : Str) (fs : List LogField)
    → (log_entry ts ctx level msg fs).correlation_id ≡ ctx.correlation_id
unfolding log_entry
log_entry-correlation_id ts ctx level msg fs = set_fields-correlation_id fs _

log-Carries :
    (millis : ℕ → Str) (ts : Str) (ctx : LogContext) (level msg : Str) (fs : List LogField)
    → ctx.correlation_id ≢ []
    → Carries ctx.correlation_id (log millis ts ctx level msg fs)
unfolding log
log-Carries millis ts ctx level msg fs given =
    let e = log_entry ts ctx level msg fs in
    let same = log_entry-correlation_id ts ctx level msg fs in
    subst (λ cid. Carries cid (entry_document millis e)) same
      (entry_document-Carries millis e (subst (λ cid. cid ≢ []) (sym same) given))

line_of-Carries :
    (millis : ℕ → Str) (ts : Str) (ctx : LogContext) (e : Event) (line : Value)
    → ctx.correlation_id ≢ []
    → line_of millis ts ctx e ≡ some line
    → Carries ctx.correlation_id line
unfolding line_of info error
line_of-Carries millis ts ctx (log_info msg adapter) line given h =
    subst (Carries ctx.correlation_id) (some-inj h)
      (log-Carries millis ts ctx (codes "info") msg (with_adapter adapter ∷ []) given)
line_of-Carries millis ts ctx (log_error msg x) line given h =
    subst (Carries ctx.correlation_id) (some-inj h)
      (log-Carries millis ts ctx (codes "error") msg (with_error x ∷ []) given)
line_of-Carries millis ts ctx e line given h = absurd (cc h)

log_lines-Carries :
    (millis stamps : ℕ → Str) (span : Option (Str × Str)) (n : ℕ) (cid : Str) (es : List Event)
    → cid ≢ []
    → All (Carries cid) (log_lines millis stamps span n (in_context cid es))
unfolding log_lines in_context
log_lines-Carries millis stamps span n cid [] given = tt
log_lines-Carries millis stamps span n cid (e ∷ es) given =
    let ctx : LogContext = record { correlation_id = cid; span = span } in
    elim (Option-cases (line_of millis (stamps n) ctx e)) [
      | inl silent ↦ rw (log_lines, silent) (log_lines-Carries millis stamps span n cid es given)
      | inr (line, said) ↦
          rw (log_lines, said)
            (
              line_of-Carries millis (stamps n) ctx e line given said,
              log_lines-Carries millis stamps span (suc n) cid es given,
            )
    ]

-- The response carries the request's correlation id, or else its request id, or else the new id,
-- if that is not empty; and so does every line that the handler logs for the request, in the context
-- that it gets through the three middlewares, whatever span that context has.
pub exchange_handler-Carries :
    (uuid trace_id : Str) (env : Env) (r : HttpRequest) (w : Writer Body) (millis stamps : ℕ → Str)
    (span : Option (Str × Str))
    → uuid ≢ []
    → let o = exchange_handler uuid trace_id env r w in
      (get o.served.writer.header correlation_header ≡ some (correlation_id uuid r))
      × All (Carries (correlation_id uuid r)) (log_lines millis stamps span 0 o.events)
unfolding exchange_handler
exchange_handler-Carries uuid trace_id env r w millis stamps span given =
    let cid = correlation_id uuid r in
    let some_id = correlation_id-given uuid r given in
    let same = traced_id-given trace_id cid (ne-==-false cid [] some_id) in
    (
      exchange_handler-correlation uuid trace_id env r w given,
      rw same (log_lines-Carries millis stamps span 0 cid _ some_id),
    )
