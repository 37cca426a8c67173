-- ===== src/Httpclient/Breaker/History.antt =====
-- The breaker as a function of the calls that it has seen.
use omkit_go.Prelude.{ℕ, ◌+◌, ◌≡◌, refl, ap, ◌≢◌, ◌↔◌, true, false, List, [], ◌∷◌, arith}
use omkit_go.Prelude.Int.{ℤ, pos, ◌-ℤ◌, ◌≤ℤ◌, ◌<ℤ◌}
use omkit_go.Httpclient.Breaker.{
  closed, open_state, half_open, CircuitBreaker, new_circuit_breaker, allow, record_success,
  record_failure,
}

pub data Call : Type 0 where
  ask : ℤ → Call
  success : Call
  failure : ℤ → Call

unfoldable pub apply : Call → CircuitBreaker → CircuitBreaker
unfolding allow record_success record_failure
apply (ask now) cb = (allow now cb).0
apply success cb = record_success cb
apply (failure now) cb = record_failure now cb

-- The calls in order, the oldest first.
unfoldable pub run : CircuitBreaker → List Call → CircuitBreaker
run cb [] = cb
run cb (c ∷ cs) = run (apply c cb) cs

-- The failures since the last success, counted on from `n`.
abbrev pub streak : ℕ → List Call → ℕ
streak n [] = n
streak n (ask now ∷ cs) = streak n cs
streak n (success ∷ cs) = streak 0 cs
streak n (failure now ∷ cs) = streak (n + 1) cs

-- Open or half-open exactly when the threshold is reached.
pub record IsValid (cb : CircuitBreaker) : Type 0 where
  pub below : cb.state ≡ closed → pos cb.failures <ℤ cb.threshold
  pub reached : cb.state ≢ closed → cb.threshold ≤ℤ pos cb.failures

pub new-IsValid :
    (threshold cooldown : ℤ) → pos 0 <ℤ threshold → IsValid (new_circuit_breaker threshold cooldown)
unfolding new_circuit_breaker
new-IsValid threshold cooldown h = record { below = λ e. h; reached = λ n. absurd (n refl) }

pub apply-IsValid :
    (c : Call) (cb : CircuitBreaker) → pos 0 <ℤ cb.threshold → IsValid cb → IsValid (apply c cb)
unfolding apply
apply-IsValid (ask now) cb h v = ground arith
apply-IsValid success cb h v = ground arith
apply-IsValid (failure now) cb h v = ground arith

threshold-apply : (c : Call) (cb : CircuitBreaker) → (apply c cb).threshold ≡ cb.threshold
unfolding apply
threshold-apply (ask now) cb = ground arith
threshold-apply success cb = refl
threshold-apply (failure now) cb = ground arith

run-IsValid :
    (cs : List Call) (cb : CircuitBreaker)
    → pos 0 <ℤ cb.threshold
    → IsValid cb
    → IsValid (run cb cs)
unfolding run
run-IsValid [] cb h v = v
run-IsValid (c ∷ cs) cb h v =
    run-IsValid cs (apply c cb) (rw threshold-apply h) (apply-IsValid c cb h v)

failures-ask : (now : ℤ) (cb : CircuitBreaker) → (apply (ask now) cb).failures ≡ cb.failures
unfolding apply
failures-ask now cb = ground arith

failures-failure :
    (now : ℤ) (cb : CircuitBreaker) → (apply (failure now) cb).failures ≡ cb.failures + 1
unfolding apply
failures-failure now cb = ground arith

failures-success : (cb : CircuitBreaker) → (apply success cb).failures ≡ 0
unfolding apply
failures-success cb = refl

failures-run : (cs : List Call) (cb : CircuitBreaker) → (run cb cs).failures ≡ streak cb.failures cs
unfolding run
failures-run [] cb = refl
failures-run (ask now ∷ cs) cb =
    rw (failures-run cs (apply (ask now) cb)) (ap (λ n. streak n cs) (failures-ask now cb))
failures-run (success ∷ cs) cb =
    rw (failures-run cs (apply success cb)) (ap (λ n. streak n cs) (failures-success cb))
failures-run (failure now ∷ cs) cb =
    rw (failures-run cs (apply (failure now) cb)) (ap (λ n. streak n cs) (failures-failure now cb))

threshold-run : (cs : List Call) (cb : CircuitBreaker) → (run cb cs).threshold ≡ cb.threshold
unfolding run
threshold-run [] cb = refl
threshold-run (c ∷ cs) cb = rw (threshold-run cs (apply c cb)) (threshold-apply c cb)

closed_iff :
    (cb : CircuitBreaker) → IsValid cb → (cb.state ≡ closed) ↔ (pos cb.failures <ℤ cb.threshold)
closed_iff cb v = (v.below, λ h. ground (arith, v.reached))

-- With a positive threshold, whatever calls a new breaker has seen, it is closed exactly when the
-- failures since the last success are fewer than the threshold.
pub run-closed_iff :
    (threshold cooldown : ℤ) (cs : List Call)
    → pos 0 <ℤ threshold
    → ((run (new_circuit_breaker threshold cooldown) cs).state ≡ closed)
      ↔ (pos (streak 0 cs) <ℤ threshold)
unfolding new_circuit_breaker
run-closed_iff threshold cooldown cs h =
    let fresh = new_circuit_breaker threshold cooldown in
    let v = run-IsValid cs fresh h (new-IsValid threshold cooldown h) in
    rw (failures-run cs fresh, threshold-run cs fresh) at (closed_iff (run fresh cs) v)

-- A breaker that the failure at `t` has taken to its threshold refuses a request at `now`, and
-- stays as it is, exactly while less than the cooldown has passed since `t`; from then on it lets
-- the request through and is half open.
pub allow-record_failure :
    (t now : ℤ) (cb : CircuitBreaker)
    → cb.threshold ≤ℤ pos (cb.failures + 1)
    → let tripped = record_failure t cb in
      ((allow now tripped ≡ (tripped, false)) ↔ (now -ℤ t <ℤ cb.cooldown))
      × ((allow now tripped ≡ (record tripped { state = half_open }, true))
          ↔ (cb.cooldown ≤ℤ now -ℤ t))
unfolding allow record_failure
allow-record_failure t now cb h = ground arith

-- The outcome of a request decides what a valid half-open breaker does next: a failure opens it
-- again, from the time of that failure, and a success closes it with no failures counted.
half_open-decides :
    (now : ℤ) (cb : CircuitBreaker)
    → IsValid cb
    → cb.state ≡ half_open
    → (record_failure now cb
        ≡ record cb { state = open_state; failures = cb.failures + 1; opened_at = now })
      × (record_success cb ≡ record cb { state = closed; failures = 0 })
unfolding record_failure record_success
half_open-decides now cb v h = ground arith
