-- ===== src/Syncnotifier.antt =====
-- syncnotifier/notifier.go: the notifications to solid-sync. `rows` is what json.Marshal makes of the
-- rows, with `none` for an error; `buildable` is whether http.NewRequestWithContext takes a URL, and
-- the server answers a request with a status, or `none` for an error of the client.
use Prim.Native.String
use omkit_go.Prelude.{
  ℕ, String, Bool, true, false, ◌≡◌, refl, ap, sym, Option, none, some, if◌then◌else◌, ◌&&◌, leb,
  arith, ◌↔◌, Bool-cases, inl, inr, [],
}
use omkit_go.Headers.{Headers, header, set_header, header-set_header}
use omkit_go.Jobqueue.Json.{Json, str, obj, end, field}

pub record Notifier : Type 0 where
  pub base_url : String
  pub token : String

unfoldable pub new : String → String → Notifier
new base_url token = record { base_url = base_url; token = token }

pub record Request : Type 0 where
  pub method : String
  pub url : String
  pub body : Json
  pub headers : Headers

pub data Warning : Type 0 where
  request_failed : Warning
  unexpected_status : ℕ → Warning

-- What `send` leaves behind: the request it sent, and the line it logged.
pub record Trace : Type 0 where
  pub request : Option Request
  pub warning : Option Warning

abbrev quiet : Trace
quiet = record { request = none; warning = none }

-- The end of `send`: the reply of the client.
unfoldable pub warning_of : Option ℕ → Option Warning
warning_of none = some request_failed
warning_of (some status) =
    if leb 202 status && leb status 202 then none else some (unexpected_status status)

unfoldable pub request_of : Notifier → (method path : String) → Json → Request
request_of n method path body = record {
  method = method;
  url = String.◌++◌ n.base_url path;
  body = body;
  headers = set_header "X-Service-Token" n.token (set_header "Content-Type" "application/json" []);
}

module _ (buildable : String → Bool) (answer : Request → Option ℕ) (n : Notifier) where
  -- The end of `send`, with whether the request was built.
  unfoldable pub sent : Bool → Request → Trace
  sent false r = quiet
  sent true r = record { request = some r; warning = warning_of (answer r) }

  unfoldable pub send : (method path : String) (payload : Option Json) → Trace
  send method path none = quiet
  send method path (some body) =
      sent (buildable (String.◌++◌ n.base_url path)) (request_of n method path body)

  -- The keys of a map are marshalled in their order.
  unfoldable pub payload_of : (metric_name date : String) (rows : Option Json) → Option Json
  payload_of metric_name date none = none
  payload_of metric_name date (some rows) = some (
      obj (field "date" (str date) (field "metric_name" (str metric_name) (field "rows" rows end))))

  -- NotifyMetrics, to the end of the goroutine that it starts.
  unfoldable pub notify_metrics : (metric_name date : String) (rows : Option Json) → Trace
  unfolding send payload_of
  notify_metrics metric_name date rows =
      send "POST" "/sync/metrics" (payload_of metric_name date rows)

warning_of-none : (reply : Option ℕ) → (warning_of reply ≡ none) ↔ (reply ≡ some 202)
unfolding warning_of
warning_of-none none = (λ e. absurd (ground (arith, e)), λ e. absurd (ground (arith, e)))
warning_of-none (some status) = elim (Bool-cases (leb 202 status && leb status 202)) [
  | inl h ↦ (λ e. ap some (ground (arith, h)), λ e. rw h refl)
  | inr h ↦ (λ e. absurd (ground (arith, h, e)), λ e. absurd (ground (arith, h, e)))
]

sent-request :
    (buildable : String → Bool) (answer : Request → Option ℕ) (n : Notifier) (b : Bool)
    (built r : Request)
    → (sent buildable answer n b built).request ≡ some r
    → (built ≡ r) × (((sent buildable answer n b built).warning ≡ none) ↔ (answer built ≡ some 202))
unfolding sent
sent-request buildable answer n false built r e = absurd (ground (arith, e))
sent-request buildable answer n true built r e = (ground (arith, e), warning_of-none (answer built))

-- A notification that is sent carries the notifier's token, and it leaves no warning exactly where
-- solid-sync answers it 202.
notify_metrics-quiet_iff :
    (buildable : String → Bool) (answer : Request → Option ℕ) (n : Notifier)
    (metric_name date : String) (rows : Option Json) (r : Request)
    → (notify_metrics buildable answer n metric_name date rows).request ≡ some r
    → (header r.headers "X-Service-Token" ≡ n.token)
      × (((notify_metrics buildable answer n metric_name date rows).warning ≡ none)
          ↔ (answer r ≡ some 202))
unfolding notify_metrics payload_of send request_of
notify_metrics-quiet_iff buildable answer n metric_name date none r delivered =
    absurd (ground (arith, delivered))
notify_metrics-quiet_iff buildable answer n metric_name date (some rows) r delivered =
    let built = request_of n "POST" "/sync/metrics" (
      obj (
        field "date" (str date) (field "metric_name" (str metric_name) (field "rows" rows end)))) in
    let (same, quiet) =
      sent-request buildable answer n (buildable (String.◌++◌ n.base_url "/sync/metrics")) built r
        delivered in
    rw (sym same) (
      header-set_header "X-Service-Token" "X-Service-Token" n.token
          (set_header "Content-Type" "application/json" []),
      quiet,
    )
