-- ===== src/Tracing.antt =====
-- tracing/tracing.go: which provider Init registers. The libraries of OpenTelemetry are parameters:
-- whether the resource and the exporter are made.
use omkit_go.Prelude.{String, Bool, List, [], ◌∷◌, ◌||◌, if◌then◌else◌, ◌==◌}

-- The attributes of the resource, service.name and service.version.
unfoldable pub attributes_of : (service version : String) → List (String × String)
attributes_of service version =
    ("service.name", service) ∷ (if version == "" then [] else ("service.version", version) ∷ [])

-- The propagators are always installed. `failed` returns before a provider is registered.
pub data Tracing : Type 0 where
  failed : Tracing
  without_exporter : List (String × String) → Tracing
  with_exporter : (endpoint : String) → List (String × String) → Tracing

unfoldable pub init :
    (getenv : String → String) (resource_made exporter_made : Bool) (service version : String)
    → Tracing
unfolding attributes_of
init getenv resource_made exporter_made service version =
    let endpoint = getenv "OTEL_EXPORTER_OTLP_ENDPOINT" in
    if resource_made
    then (if endpoint == "" || (endpoint == "disabled" || endpoint == "none")
        then without_exporter (attributes_of service version)
        else if exporter_made
        then with_exporter endpoint (attributes_of service version)
        else failed)
    else failed
