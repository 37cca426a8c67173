-- ===== src/Health/Command.antt =====
-- health/handler.go: Mount, LegacyHealthcheck and LegacyHealthcheckPath. The mux is any type with its
-- method Handle; a handler stands for its reply while the probes' results stay as they are. http.Get
-- on localhost is a parameter, a function of the port and the path: `none` is its error.
use Prim.Native.String
use omkit_go.Prelude.{
  ℕ, String, ◌&&◌, leb, arith, Bool-cases, inl, inr, ◌≡◌, refl, Option, none, some, List, [], ◌↔◌,
  if◌then◌else◌, ◌==◌, Map, insert, lookup,
}
use omkit_go.Health.{Probe, Reply, handler, ready_handler_with_probes}
use omkit_go.Health.Readiness.{failing, ready_handler_with_probes_iff}

unfoldable pub mount {ℓ} : {Mux : Type ℓ} → (String → Reply → Mux → Mux) → List Probe → Mux → Mux
mount handle probes mux =
    let live = handler in
    let ready = ready_handler_with_probes probes in
    handle "GET /readyz" ready
      (handle "GET /ready" ready (handle "GET /healthz" live (handle "GET /health" live mux)))

-- What the command returns: nil, or one of its errors.
pub data Checked : Type 0 where
  healthy : Checked
  bad_path : String → Checked
  unreachable : Checked
  returned : String → ℕ → Checked

checked : String → Option ℕ → Checked
checked path none = unreachable
checked path (some status) =
    if leb 200 status && leb status 200 then healthy else returned path status

unfoldable pub legacy_healthcheck_path :
    (get : ℕ → String → Option ℕ) (port : ℕ) (path : String) → Checked
unfolding checked
legacy_healthcheck_path get port path =
    if path == ""
    then bad_path path
    else if String.slice path 0 1 == "/"
    then checked path (get port path)
    else bad_path path

unfoldable pub legacy_healthcheck : (get : ℕ → String → Option ℕ) (port : ℕ) → Checked
unfolding legacy_healthcheck_path
legacy_healthcheck get port = legacy_healthcheck_path get port "/readyz"

checked-healthy :
    (path : String) (status : ℕ) → (checked path (some status) ≡ healthy) ↔ (status ≡ 200)
unfolding checked
checked-healthy path status = elim (Bool-cases (leb 200 status && leb status 200)) [
  | inl h ↦ (λ e. ground (arith, h), λ e. rw h refl)
  | inr h ↦ (λ e. absurd (ground (arith, h, e)), λ e. absurd (ground (arith, h, e)))
]

-- The status of the handler that a route table has for a pattern.
abbrev served : String → Map Reply → Option ℕ
served pattern mux = elim (lookup pattern mux) [ none ↦ none | some r ↦ some r.status ]

-- The command on a service that serves the routes of Mount succeeds exactly where no probe returns
-- an error.
legacy_healthcheck-mount :
    (get : ℕ → String → Option ℕ) (port : ℕ) (probes : List Probe)
    → get port "/readyz" ≡ served "GET /readyz" (mount insert probes [])
    → (legacy_healthcheck get port ≡ healthy) ↔ (failing probes ≡ [])
unfolding legacy_healthcheck legacy_healthcheck_path mount lookup insert
legacy_healthcheck-mount get port probes answer =
    let ready = ready_handler_with_probes_iff probes in
    let (there, back) = checked-healthy "/readyz" (ready_handler_with_probes probes).status in
    rw answer (λ e. ready.0.0 (there e), λ e. back (ready.0.1 e))
