-- ===== src/Middleware/RequestLog.antt =====
-- middleware/middleware.go: RequestLog, with its statusWriter, over the calls of a handler on the
-- ResponseWriter.
use omkit_go.Prelude.{ℕ, String, List, [], ◌∷◌, if◌then◌else◌, ◌==◌}
use omkit_go.Prelude.Int.{ℤ, ◌-ℤ◌}
use omkit_go.Context.{Context, request_id_of}
use omkit_go.Headers.{Headers, header}
use omkit_go.Metrics.{Request, Write, write_header, write_body}
use omkit_go.Requestid.{header_name}

-- The field `status` after these calls.
unfoldable pub logged_status : ℕ → List Write → ℕ
logged_status status [] = status
logged_status status (write_body ∷ ws) = logged_status status ws
logged_status status (write_header code ∷ ws) = logged_status code ws

-- A line of the log; the duration is in nanoseconds, before it is cut to milliseconds.
pub record Line : Type 0 where
  pub method : String
  pub path : String
  pub status : ℕ
  pub duration : ℤ
  pub request_id : String

unfoldable pub request_log :
    (Request → List Write) → (start stop : ℤ) → Context → Headers → Request → List Write × Line
request_log next start stop ctx h r = (
  next r,
  record {
    method = r.method;
    path = r.path;
    status = logged_status 200 (next r);
    duration = stop -ℤ start;
    request_id = let id = request_id_of ctx in if id == "" then header h header_name else id;
  },
)
