-- ===== src/Httpclient/Client/Retry.antt =====
-- What PostJSON returns, sends and waits for, from start to end.
use omkit_go.Prelude.{ℕ, suc, ◌+◌, ◌-◌, ◌<◌, ◌≡◌, sym, Bool, true, false, none, some, arith}
use omkit_go.Prelude.Int.{ℤ, pos_part}
use omkit_go.Context.{Context}
use omkit_go.Httpclient.Breaker.{CircuitBreaker, allow}
use omkit_go.Httpclient.Config.{Client}
use omkit_go.Httpclient.Client.{status, Attempt, circuit_open, admit, start, post_json}
use omkit_go.Httpclient.Client.Rounds.{
  after_success, after_failures, Runs, FirstFail, trace_of, last_reply, loop_delivers,
  loop_exhausts,
}

module _ (c : Client) (ctx : Context) (env : ℕ → Attempt) (asked : ℤ) where
  -- Where the breaker admits the call and the first `k` attempts fail, by a transport error or a
  -- status from 500 on, with `k` below the number of retries, and the attempt after them is
  -- answered with a status below 500, PostJSON returns that status and no error. It has sent
  -- k + 1 requests, all with the same headers, has waited for the first k delays, and leaves the
  -- breaker closed by a success after k failures.
  pub post_json-delivers :
      (k code : ℕ)
      → (admit asked c.circuit_breaker).1 ≡ true
      → FirstFail env k
      → Runs (env k)
      → (env k).answer ≡ status code
      → code < 500
      → k < pos_part c.retries
      → let b = (admit asked c.circuit_breaker).0 in
        post_json c ctx asked true env
        ≡ ((some code, none), trace_of c ctx (after_success (after_failures env k b)) (suc k))
  unfolding post_json
  post_json-delivers k code ok f r a h l =
      let rest = pos_part c.retries - suc k in
      let e : pos_part c.retries ≡ k + suc rest = omega arith in
      rw (ok, e)
        (loop_delivers c ctx env (admit asked c.circuit_breaker).0 k code rest f r a h (sym e))

  -- Where the breaker admits the call and all the attempts fail, of which there is one at least,
  -- PostJSON returns what the last one was answered: the response of a server error, with no
  -- error, or the transport's error. Every attempt has been sent and is a failure to the breaker.
  pub post_json-exhausts :
      (k : ℕ)
      → (admit asked c.circuit_breaker).1 ≡ true
      → FirstFail env (suc k)
      → suc k ≡ pos_part c.retries
      → let b = (admit asked c.circuit_breaker).0 in
        post_json c ctx asked true env
        ≡ (last_reply (env k).answer, trace_of c ctx (after_failures env (suc k) b) (suc k))
  unfolding post_json
  post_json-exhausts k ok f e =
      rw (ok, ← e) (loop_exhausts c ctx env (admit asked c.circuit_breaker).0 k f e)

  -- A breaker that refuses the call leaves nothing sent and nothing changed, whatever the body.
  post_json-refused :
      (marshals : Bool) (cb : CircuitBreaker)
      → c.circuit_breaker ≡ some cb
      → (allow asked cb).1 ≡ false
      → post_json c ctx asked marshals env
        ≡ ((none, some circuit_open), start (some (allow asked cb).0))
  unfolding post_json
  post_json-refused marshals cb e h = rw (e, post_json) (rw h)
