-- ===== src/Httpclient/Breaker.antt =====
-- CircuitBreaker of httpclient/client.go. A method on `*CircuitBreaker` returns the new record;
-- the mutex makes each method one step. `time.Now()` is the argument `now`, in nanoseconds.
-- `failures` grows by one for each recorded failure from 0, so it is not wrapped.
pub mod History
use omkit_go.Prelude.{ℕ, ◌+◌, Bool, true, false, if◌then◌else◌}
use omkit_go.Prelude.Int.{ℤ, pos, ◌-ℤ◌, leb_ℤ}

pub data CircuitState : Type 0 where
  closed open_state half_open : CircuitState

pub record CircuitBreaker : Type 0 where
  pub threshold : ℤ
  pub cooldown : ℤ  -- time.Duration
  pub failures : ℕ
  pub state : CircuitState
  pub opened_at : ℤ  -- time.Time

-- The zero `time.Time` of a new breaker is never read: its state is closed.
unfoldable pub new_circuit_breaker : ℤ → ℤ → CircuitBreaker
new_circuit_breaker threshold cooldown = record {
  threshold = threshold;
  cooldown = cooldown;
  failures = 0;
  state = closed;
  opened_at = pos 0;
}

-- The `switch` of Allow.
allow_in : CircuitState → ℤ → CircuitBreaker → CircuitBreaker × Bool
allow_in closed now cb = (cb, true)
allow_in open_state now cb =
    if leb_ℤ cb.cooldown (now -ℤ cb.opened_at)
    then (record cb { state = half_open }, true)
    else (cb, false)
allow_in half_open now cb = (cb, true)

unfoldable pub allow : ℤ → CircuitBreaker → CircuitBreaker × Bool
unfolding allow_in
allow now cb = allow_in cb.state now cb

unfoldable pub record_success : CircuitBreaker → CircuitBreaker
record_success cb = record cb { failures = 0; state = closed }

unfoldable pub record_failure : ℤ → CircuitBreaker → CircuitBreaker
record_failure now cb =
    let failed = record cb { failures = cb.failures + 1 } in
    if leb_ℤ cb.threshold (pos (cb.failures + 1))
    then record failed { state = open_state; opened_at = now }
    else failed
