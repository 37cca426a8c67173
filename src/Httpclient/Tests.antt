-- ===== src/Httpclient/Tests.antt =====
-- The theorems on the client and its breaker, at one client with three retries.
use omkit_go.Prelude.{ℕ, zero, suc, ◌≡◌, refl, ◌↔◌, true, false, none, some, List, [], ◌∷◌, arith}
use omkit_go.Prelude.Int.{pos, ◌<ℤ◌}
use omkit_go.Context.{Context}
use omkit_go.Httpclient.Breaker.{CircuitBreaker, new_circuit_breaker, allow, closed}
use omkit_go.Httpclient.Breaker.History.{Call, ask, success, failure, run, run-closed_iff}
use omkit_go.Httpclient.Config.{Client, default_transport}
use omkit_go.Httpclient.Client.{Attempt, status, admit, post_json}
use omkit_go.Httpclient.Client.Rounds.{after_success, after_failures, FirstFail, trace_of}
use omkit_go.Httpclient.Client.Retry.{post_json-delivers}

abbrev breaker : CircuitBreaker
breaker = record {
  threshold = pos 5;
  cooldown = pos 1000;
  failures = 0;
  state = closed;
  opened_at = pos 0;
}

abbrev client : Client
client = record {
  timeout = pos 30_000_000_000;
  transport = default_transport;
  check_redirect = none;
  retries = pos 2;
  headers = ("Authorization", "Bearer t") ∷ [];
  circuit_breaker = some breaker;
  tracing_disabled = true;
  tenant_from_context = true;
  request_id_from_context = true;
}

abbrev ctx : Context
ctx = record {
  tenant_id = some "acme";
  request_id = some "r-1";
  job_request_id = none;
  roles = none;
}

-- A first attempt that is answered 503, and further ones that are answered 200.
abbrev flaky : ℕ → Attempt
flaky zero = record { ctx_done = false; buildable = true; answer = status 503; now = pos 7 }
flaky (suc n) = record { ctx_done = false; buildable = true; answer = status 200; now = pos 9 }

flaky_first : FirstFail flaky 1
flaky_first zero h = ((refl, refl), omega arith)
flaky_first (suc i) h = absurd (omega arith)

admitted : (admit (pos 1) client.circuit_breaker).1 ≡ true
unfolding admit allow
admitted = refl

post_json-delivers_example : post_json client ctx (pos 1) true flaky ≡ (
  (some 200, none),
  trace_of client ctx
      (after_success (after_failures flaky 1 (admit (pos 1) client.circuit_breaker).0))
      2,
)
post_json-delivers_example =
    post_json-delivers client ctx flaky (pos 1) 1 200 admitted flaky_first (refl, refl) refl
      (omega arith) (omega arith)

abbrev calls : List Call
calls = failure (pos 1) ∷ success ∷ failure (pos 2) ∷ ask (pos 3) ∷ failure (pos 4) ∷ []

run-closed_iff_example :
    ((run (new_circuit_breaker (pos 2) (pos 10)) calls).state ≡ closed) ↔ (pos 2 <ℤ pos 2)
run-closed_iff_example = run-closed_iff (pos 2) (pos 10) calls (omega arith)
