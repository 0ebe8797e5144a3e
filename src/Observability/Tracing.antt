-- ===== src/Observability/Tracing.antt =====
-- services/token-exchange/internal/observability/tracing.go: the setup of the tracer. The exporter
-- and the resource are OpenTelemetry's.
use centralized_identity.Common.{Str, codes, ◌++◌, List, [], ◌∷◌, Result, ok, ◌>>=◌}

abbrev pub tracer_name : Str
tracer_name = codes "identity-fabric/token-exchange"

-- A provider that exports every span in batches: its endpoint, which is not encrypted, and its
-- resource.
pub record TracerProvider : Type 0 where
  pub endpoint : Str
  pub resource : List (Str × Str)

-- The two calls that may fail.
pub record Library : Type 0 where
  pub new_exporter : Str → Result (Unit {0})
  pub new_resource : List (Str × Str) → Result (Unit {0})

abbrev pub service_attributes : List (Str × Str)
service_attributes =
    (codes "service.name", codes "token-exchange") ∷ (codes "service.version", codes "0.1.0") ∷ []

unfoldable pub init_tracer : Library → Str → Result TracerProvider
init_tracer lib endpoint = do
  exporter ← lib.new_exporter endpoint
  res ← lib.new_resource service_attributes
  ok (record { endpoint = endpoint; resource = service_attributes })

-- The line that InitTracer logs when the provider is the global one.
unfoldable pub initialised_line : TracerProvider → Str
initialised_line p = codes "tracing initialized (exporter=" ++ (p.endpoint ++ codes ")")
