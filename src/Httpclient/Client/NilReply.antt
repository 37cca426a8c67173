-- ===== src/Httpclient/Client/NilReply.antt =====
-- PostJSON with no attempt to make: it returns neither a response nor an error. And a bound on what
-- it sends, whatever the environment does.
use omkit_go.Prelude.{
  ℕ, zero, suc, ◌+◌, ◌-◌, ◌≤◌, ◌≡◌, refl, ◌≢◌, ◌↔◌, Bool, true, none, [], ◌∷◌, length,
  length-append, arith,
}
use omkit_go.Prelude.Int.{ℤ, pos_part}
use omkit_go.Context.{Context}
use omkit_go.Httpclient.Config.{Client}
use omkit_go.Httpclient.Client.{
  Attempt, Reply, Trace, Round, stop, again, initial_backoff, admit, round, post_loop, post_headers,
  start, post_json, panicked, notify_async,
}

abbrev pub nil_reply : Reply
nil_reply = (none, none)

module _ (c : Client) (ctx : Context) (env : ℕ → Attempt) where
  -- What a round leaves after `n` rounds before it.
  abbrev IsBounded : Round → ℕ → Type 0
  IsBounded (stop r t) n = (length t.sent ≤ suc n) × (length t.waits ≤ length t.sent)
  IsBounded (again backoff last t) n = (length t.sent ≡ suc n) × (length t.waits ≤ n)

  round-IsBounded :
      (n backoff : ℕ) (t : Trace)
      → length t.sent ≡ n
      → length t.waits ≤ n - 1
      → IsBounded (round c ctx (env n) n backoff t) n
  unfolding round
  round-IsBounded n backoff t h k =
      ground (
        arith,
        length-append t.sent (post_headers c ctx ∷ []),
        length-append t.waits (backoff ∷ []),
      )

  abbrev after : Round → ℕ → ℕ → Reply × Trace
  after (stop r t) left n = (r, t)
  after (again backoff last t) left n = post_loop c ctx env left (n + 1) backoff last t

  post_loop-suc :
      (left n backoff : ℕ) (last : Reply) (t : Trace)
      → post_loop c ctx env (suc left) n backoff last t
        ≡ after (round c ctx (env n) n backoff t) left n
  unfolding post_loop
  post_loop-suc left n backoff last t = ground arith

  loop_bounds :
      (left n backoff : ℕ) (last : Reply) (t : Trace)
      → length t.sent ≡ n
      → length t.waits ≤ n - 1
      → let t' = (post_loop c ctx env left n backoff last t).1 in
        (length t'.sent ≤ n + left) × (length t'.waits ≤ length t'.sent)
  unfolding post_loop
  loop_bounds zero n backoff last t h k = omega arith
  loop_bounds (suc left) n backoff last t h k = rw post_loop-suc (
      go (round c ctx (env n) n backoff t) (round-IsBounded n backoff t h k)
        (loop_bounds left (n + 1)))
    where
      go :
          (r : Round)
          → IsBounded r n
          → ((backoff : ℕ) (last : Reply) (t : Trace)
              → length t.sent ≡ n + 1
              → length t.waits ≤ n + 1 - 1
              → (length (post_loop c ctx env left (n + 1) backoff last t).1.sent ≤ n + 1 + left)
                × (length (post_loop c ctx env left (n + 1) backoff last t).1.waits
                    ≤ length (post_loop c ctx env left (n + 1) backoff last t).1.sent))
          → (length (after r left n).1.sent ≤ n + suc left)
            × (length (after r left n).1.waits ≤ length (after r left n).1.sent)
      go (stop r t') b ih = omega arith
      go (again backoff' last' t') b ih =
          omega (arith, ih backoff' last' t' (omega arith) (omega arith))

  -- Whatever the body, the breaker and the environment, PostJSON sends at most as many requests as
  -- the client has retries, and waits at most as often as it sends.
  pub post_json_bounds :
      (asked : ℤ) (marshals : Bool)
      → let t = (post_json c ctx asked marshals env).1 in
        (length t.sent ≤ pos_part c.retries) × (length t.waits ≤ length t.sent)
  unfolding post_json
  post_json_bounds asked marshals = ground (
    arith,
    loop_bounds (pos_part c.retries) 0 initial_backoff nil_reply
        (start (admit asked c.circuit_breaker).0) refl (omega arith),
  )

  abbrev Answered : Round → Type 0
  Answered (stop r t) = r ≢ nil_reply
  Answered (again backoff last t) = last ≢ nil_reply

  round-Answered : (n backoff : ℕ) (t : Trace) → Answered (round c ctx (env n) n backoff t)
  unfolding round
  round-Answered n backoff t = ground arith

  after-ne-nil :
      (r : Round) (left n : ℕ)
      → Answered r
      → ((backoff : ℕ) (last : Reply) (t : Trace)
          → last ≢ nil_reply
          → (post_loop c ctx env left (n + 1) backoff last t).0 ≢ nil_reply)
      → (after r left n).0 ≢ nil_reply
  after-ne-nil (stop r t') left n a ih = a
  after-ne-nil (again backoff' last' t') left n a ih = ih backoff' last' t' a

  loop-ne-nil :
      (left n backoff : ℕ) (last : Reply) (t : Trace)
      → last ≢ nil_reply
      → (post_loop c ctx env left n backoff last t).0 ≢ nil_reply
  unfolding post_loop
  loop-ne-nil zero n backoff last t h = ground arith
  loop-ne-nil (suc left) n backoff last t h = rw post_loop-suc (
      after-ne-nil (round c ctx (env n) n backoff t) left n (round-Answered n backoff t)
        (loop-ne-nil left (n + 1)))

  loop-suc-ne-nil :
      (left n backoff : ℕ) (last : Reply) (t : Trace)
      → (post_loop c ctx env (suc left) n backoff last t).0 ≢ nil_reply
  loop-suc-ne-nil left n backoff last t = rw post_loop-suc (
      after-ne-nil (round c ctx (env n) n backoff t) left n (round-Answered n backoff t)
        (loop-ne-nil left (n + 1)))

  loop_nil_iff :
      (left : ℕ) (b : Trace)
      → ((post_loop c ctx env left 0 initial_backoff nil_reply b).0 ≡ nil_reply) ↔ (left ≡ 0)
  loop_nil_iff zero b = (λ e. refl, λ e. unfold post_loop in refl)
  loop_nil_iff (suc left) b = (
    λ e. absurd (loop-suc-ne-nil left 0 initial_backoff nil_reply b e),
    λ e. absurd (omega arith),
  )

  -- PostJSON returns neither a response nor an error exactly where the breaker admits the call, the
  -- body can be marshalled and the number of retries is 0 or negative.
  post_json-nil_iff :
      (asked : ℤ) (marshals : Bool)
      → ((post_json c ctx asked marshals env).0 ≡ nil_reply) ↔ (
          ((admit asked c.circuit_breaker).1 ≡ true) × (marshals ≡ true) × (pos_part c.retries ≡ 0))
  unfolding post_json
  post_json-nil_iff asked marshals =
      ground (arith, loop_nil_iff (pos_part c.retries) (start (admit asked c.circuit_breaker).0))

  notify_async-panicked_iff : (r : Reply) → (notify_async r ≡ panicked) ↔ (r ≡ nil_reply)
  unfolding notify_async
  notify_async-panicked_iff r = ground arith

  -- The goroutine of NotifyAsync closes the body of a nil response, which panics, exactly where the
  -- breaker admits the call, the payload can be marshalled and the number of retries is 0 or
  -- negative.
  pub notify_async-panics_iff :
      (asked : ℤ) (marshals : Bool)
      → (notify_async (post_json c ctx asked marshals env).0 ≡ panicked) ↔ (
          ((admit asked c.circuit_breaker).1 ≡ true) × (marshals ≡ true) × (pos_part c.retries ≡ 0))
  notify_async-panics_iff asked marshals =
      let p = notify_async-panicked_iff (post_json c ctx asked marshals env).0 in
      let q = post_json-nil_iff asked marshals in (λ h. q.0 (p.0 h), λ h. p.1 (q.1 h))
