-- ===== src/Observability/Logging.antt =====
-- services/token-exchange/internal/observability/logging.go: the lines of the log. The clock, the
-- formats of a time and of milliseconds, and the span of the context are parameters.
use centralized_identity.Common.{
  Str, codes, ◌==◌, eqb, ℕ, ◌/◌, Option, none, some, List, [], ◌∷◌, if◌then◌else◌,
}
use centralized_identity.Common.Json.{Value, text, number, object, Members, member, end}

pub record LogEntry : Type 0 where
  pub timestamp : Str
  pub level : Str
  pub msg : Str
  pub trace_id : Str
  pub span_id : Str
  pub correlation_id : Str
  pub adapter : Str
  pub error : Str
  pub duration_us : ℕ

-- The functions of a log entry, which only this package makes; a duration is in nanoseconds.
pub data LogField : Type 0 where
  with_adapter : Str → LogField
  with_error : Str → LogField
  with_duration : ℕ → LogField

set_field : LogField → LogEntry → LogEntry
set_field (with_adapter a) e = record e { adapter = a }
set_field (with_error x) e = record e { error = x }
set_field (with_duration d) e = record e { duration_us = d / 1000 }

unfoldable pub set_fields : List LogField → LogEntry → LogEntry
unfolding set_field
set_fields [] e = e
set_fields (f ∷ fs) e = set_fields fs (set_field f e)

-- The context: its correlation id, and the ids of its span if that is valid.
pub record LogContext : Type 0 where
  pub correlation_id : Str
  pub span : Option (Str × Str)

abbrev trace_of : Option (Str × Str) → Str
trace_of none = []
trace_of (some (trace_id, span_id)) = trace_id

abbrev span_of : Option (Str × Str) → Str
span_of none = []
span_of (some (trace_id, span_id)) = span_id

unfoldable pub log_entry : Str → LogContext → Str → Str → List LogField → LogEntry
unfolding set_fields
log_entry timestamp ctx level msg fields = set_fields fields (record {
  timestamp = timestamp;
  level = level;
  msg = msg;
  trace_id = trace_of ctx.span;
  span_id = span_of ctx.span;
  correlation_id = ctx.correlation_id;
  adapter = [];
  error = [];
  duration_us = 0;
})

-- A field with `omitempty`.
unfoldable pub optional : Str → Str → Members → Members
optional key value rest = if value == [] then rest else member key (text value) rest

unfoldable pub optional_duration : (ℕ → Str) → ℕ → Members
optional_duration millis d =
    if eqb d 0 then end else member (codes "duration_ms") (number (millis d)) end

-- The document of an entry, given how microseconds are written as milliseconds.
unfoldable pub entry_document : (ℕ → Str) → LogEntry → Value
unfolding optional optional_duration
entry_document millis e = object (
    member (codes "ts") (text e.timestamp) (
      member (codes "level") (text e.level) (
        member (codes "msg") (text e.msg) (
          optional (codes "trace_id") e.trace_id (
            optional (codes "span_id") e.span_id (
              optional (codes "correlation_id") e.correlation_id (
                optional (codes "adapter") e.adapter
                  (optional (codes "error") e.error (optional_duration millis e.duration_us)))))))))

-- Log, Info and Error: the document of the line.
unfoldable pub log : (ℕ → Str) → Str → LogContext → Str → Str → List LogField → Value
unfolding log_entry entry_document
log millis timestamp ctx level msg fields =
    entry_document millis (log_entry timestamp ctx level msg fields)

unfoldable pub info : (ℕ → Str) → Str → LogContext → Str → List LogField → Value
unfolding log
info millis timestamp ctx msg fields = log millis timestamp ctx (codes "info") msg fields

unfoldable pub error : (ℕ → Str) → Str → LogContext → Str → List LogField → Value
unfolding log
error millis timestamp ctx msg fields = log millis timestamp ctx (codes "error") msg fields
