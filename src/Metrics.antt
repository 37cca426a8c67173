-- ===== src/Metrics.antt =====
-- metrics/metrics.go: HTTPMiddlewareWithExclusions over the two families that it writes. A handler
-- is the list of its calls on the ResponseWriter, whose status on the wire is that of net/http.
pub mod Laws
use omkit_go.Prelude.{
  ℕ, String, Bool, true, false, ◌&&◌, List, [], ◌∷◌, contains, ltb, if◌then◌else◌,
}
use omkit_go.Prelude.Int.{ℤ, ◌-ℤ◌}

-- WriteHeader with a code, or Write.
pub data Write : Type 0 where
  write_header : ℕ → Write
  write_body : Write

-- The status that the client sees: the first code that is not informational, or 200 with the first
-- bytes of the body or at the end.
unfoldable pub sent_status : List Write → ℕ
sent_status [] = 200
sent_status (write_body ∷ ws) = 200
sent_status (write_header code ∷ ws) =
    let rest = sent_status ws in
    if ltb code 200 then (if ltb 100 code && ltb code 102 then code else rest) else code

-- statusRecorder, which starts with 200, after these calls.
unfoldable pub recorded_status : ℕ → List Write → ℕ
recorded_status status [] = status
recorded_status status (write_body ∷ ws) = recorded_status status ws
recorded_status status (write_header code ∷ ws) = recorded_status code ws

pub record Request : Type 0 where
  pub method : String
  pub path : String

pub record Labels : Type 0 where
  pub service : String
  pub method : String
  pub code : ℕ

-- What was added to http_requests_total, and observed in http_request_duration_seconds with the
-- service and the method, in nanoseconds; the latest first.
pub record Recorded : Type 0 where
  pub requests : List Labels
  pub durations : List (String × String × ℤ)

abbrev pub default_metrics_exclusions : List String
default_metrics_exclusions = "/metrics" ∷ "/health" ∷ "/healthz" ∷ "/ready" ∷ []

-- The calls that reach the client's writer are those of the handler, through the recorder or not.
unfoldable pub http_middleware_with_exclusions :
    (service : String) (exclude : List String)
    → (Request → List Write)
    → (start stop : ℤ) → Request
    → Recorded
    → List Write × Recorded
http_middleware_with_exclusions service exclude next start stop r seen =
    if contains r.path exclude then (next r, seen) else (
      next r,
      record {
        requests =
            record { service = service; method = r.method; code = recorded_status 200 (next r) }
            ∷ seen.requests;
        durations = (service, r.method, stop -ℤ start) ∷ seen.durations;
      },
    )

unfoldable pub http_middleware :
    (service : String)
    → (Request → List Write)
    → (start stop : ℤ) → Request
    → Recorded
    → List Write × Recorded
unfolding http_middleware_with_exclusions
http_middleware service next start stop r seen =
    http_middleware_with_exclusions service [] next start stop r seen
