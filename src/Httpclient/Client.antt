-- ===== src/Httpclient/Client.antt =====
-- The requests of httpclient/client.go, with and without retries. What the environment does is an
-- argument: for each attempt, the branch of the `select`, whether the request can be built, what
-- the transport answers and the time. Each operation returns Go's two results, and a trace: the
-- breaker that it leaves, what it has sent and how long it has waited.
pub mod Rounds
pub mod Retry
pub mod NilReply
pub mod RequestHeaders
use omkit_go.Prelude.{
  ℕ, zero, suc, ◌+◌, ◌*◌, ◌%◌, ◌^◌, String, Bool, true, false, not, ◌&&◌, Option, none, some, List,
  [], ◌∷◌, ◌++◌, Map, ltb, leb, if◌then◌else◌, ◌==◌,
}
use omkit_go.Prelude.Int.{ℤ, pos_part}
use omkit_go.Context.{Context, tenant_of}
use omkit_go.Headers.{Headers, header, set_header}
use omkit_go.Requestid.{with_request_id_propagation}
use omkit_go.Httpclient.Breaker.{CircuitBreaker, allow, record_success, record_failure}
use omkit_go.Httpclient.Config.{Client}

-- `for k, v := range c.headers { req.Header.Set(k, v) }`; the keys of a map are distinct, so the
-- order of the range does not show.
unfoldable pub set_all : Map String → Headers → Headers
set_all [] h = h
set_all ((k, v) ∷ m) h = set_all m (set_header k v h)

-- The same loop in Do, which leaves a header that the caller has set.
unfoldable pub set_missing : Map String → Headers → Headers
set_missing [] h = h
set_missing ((k, v) ∷ m) h = set_missing m (if header h k == "" then set_header k v h else h)

set_tenant : Client → Context → Headers → Headers
set_tenant c ctx h =
    if c.tenant_from_context
    then (let tid = tenant_of ctx in if tid == "" then h else set_header "X-Tenant-ID" tid h)
    else h

set_missing_tenant : Client → Context → Headers → Headers
set_missing_tenant c ctx h =
    if c.tenant_from_context
    then (let tid = tenant_of ctx in
        if not (tid == "") && header h "X-Tenant-ID" == ""
        then set_header "X-Tenant-ID" tid h
        else h)
    else h

set_request_id : Client → Context → Headers → Headers
set_request_id c ctx h = if c.request_id_from_context then with_request_id_propagation ctx h else h

-- The headers of a request that PostJSON builds.
unfoldable pub post_headers : Client → Context → Headers
unfolding set_tenant set_request_id
post_headers c ctx =
    set_request_id c ctx
      (set_tenant c ctx (set_all c.headers (set_header "Content-Type" "application/json" [])))

-- The headers of a request that GetJSON builds.
unfoldable pub get_headers : Client → Context → Headers
unfolding set_tenant set_request_id
get_headers c ctx =
    set_request_id c ctx
      (set_tenant c ctx (set_all c.headers (set_header "Accept" "application/json" [])))

-- The headers of the clone that Do sends for a request with the headers `h`.
unfoldable pub do_headers : Client → Context → Headers → Headers
unfolding set_missing_tenant set_request_id
do_headers c ctx h = set_request_id c ctx (set_missing_tenant c ctx (set_missing c.headers h))

pub data Fault : Type 0 where
  circuit_open marshal_failed cancelled build_failed : Fault
  transport_failed : ℕ → Fault

-- What the environment does in one attempt. `reply` is a transport error or a status code.
pub data Answer : Type 0 where
  refused : ℕ → Answer
  status : ℕ → Answer

pub record Attempt : Type 0 where
  pub ctx_done : Bool
  pub buildable : Bool
  pub answer : Answer
  pub now : ℤ

-- Go's two results: the response (its status code) and the error; `none` is nil.
abbrev pub Reply : Type 0
Reply = Option ℕ × Option Fault

-- The client's breaker, and what it has sent and waited for.
pub record Trace : Type 0 where
  pub breaker : Option CircuitBreaker
  pub sent : List Headers
  pub waits : List ℕ

abbrev on_failure : ℤ → Option CircuitBreaker → Option CircuitBreaker
on_failure now none = none
on_failure now (some cb) = some (record_failure now cb)

abbrev on_success : Option CircuitBreaker → Option CircuitBreaker
on_success none = none
on_success (some cb) = some (record_success cb)

pub fail : ℤ → Trace → Trace
fail now t = record t { breaker = on_failure now t.breaker }

pub succeed : Trace → Trace
succeed t = record t { breaker = on_success t.breaker }

-- The outcome of the last answer, recorded as every operation ends.
pub settle : ℕ → ℤ → Trace → Trace
unfolding fail succeed
settle code now t = if leb 500 code then fail now t else succeed t

-- `c.circuitBreaker != nil && !c.circuitBreaker.Allow()`, with the breaker after the call.
unfoldable pub admit : ℤ → Option CircuitBreaker → Option CircuitBreaker × Bool
admit now none = (none, true)
admit now (some cb) = let (cb', ok) = allow now cb in (some cb', ok)

-- The int64 backoff, as a bit pattern, in nanoseconds: 100 ms at first, and `backoff *= 2`.
abbrev pub initial_backoff : ℕ
initial_backoff = 100_000_000

abbrev pub double : ℕ → ℕ
double backoff = backoff * 2 % 2 ^ 64

abbrev pub start : Option CircuitBreaker → Trace
start b = record { breaker = b; sent = []; waits = [] }

-- One round of the loop of PostJSON ends the call, or goes on with the backoff, `resp` and `err`
-- that it has left.
pub data Round : Type 0 where
  stop : Reply → Trace → Round
  again : ℕ → Reply → Trace → Round

module _ (c : Client) (ctx : Context) where
  -- From the building of the request to the end of the round.
  attempt_once : Attempt → ℕ → ℕ → Trace → Round
  unfolding fail settle
  attempt_once e attempt backoff t =
      if e.buildable
      then (let t' = record t { sent = t.sent ++ post_headers c ctx ∷ [] } in
          elim e.answer [
            | refused x ↦ again backoff (none, some (transport_failed x)) (fail e.now t')
            | status code ↦
                if leb 500 code && ltb (attempt + 1) (pos_part c.retries)
                then again backoff (some code, none) (fail e.now t')
                else stop (some code, none) (settle code e.now t')
          ])
      else stop (none, some build_failed) t

  -- The wait comes before every attempt but the first.
  pub round : Attempt → ℕ → ℕ → Trace → Round
  unfolding attempt_once
  round e attempt backoff t =
      if ltb 0 attempt
      then (if e.ctx_done
          then stop (none, some cancelled) t
          else attempt_once e attempt (double backoff)
              (record t { waits = t.waits ++ backoff ∷ [] }))
      else attempt_once e attempt backoff t

  -- `left` attempts are left of `c.retries`, from the number `attempt` on.
  pub post_loop : (ℕ → Attempt) → ℕ → ℕ → ℕ → Reply → Trace → Reply × Trace
  post_loop env zero attempt backoff last t =
      (elim last.1 [ some f ↦ (none, some f) | none ↦ last ], t)
  post_loop env (suc left) attempt backoff last t = elim (round (env attempt) attempt backoff t) [
    | stop r t' ↦ (r, t')
    | again backoff' last' t' ↦ post_loop env left (attempt + 1) backoff' last' t'
  ]

  -- `marshals` says whether `json.Marshal` takes the body; `asked` is when Allow is called.
  unfoldable pub post_json : (asked : ℤ) (marshals : Bool) → (ℕ → Attempt) → Reply × Trace
  unfolding admit post_loop
  post_json asked marshals env =
      let (b, ok) = admit asked c.circuit_breaker in
      if ok
      then (if marshals
          then post_loop env (pos_part c.retries) 0 initial_backoff (none, none) (start b)
          else ((none, some marshal_failed), start b))
      else ((none, some circuit_open), start b)

  -- What GetJSON and Do have in common: one request with the headers `h`.
  send_once : Headers → Attempt → Trace → Reply × Trace
  unfolding fail settle
  send_once h e t =
      let t' = record t { sent = t.sent ++ h ∷ [] } in
      elim e.answer [
        | refused x ↦ ((none, some (transport_failed x)), fail e.now t')
        | status code ↦ ((some code, none), settle code e.now t')
      ]

  unfoldable pub get_json : (asked : ℤ) → Attempt → Reply × Trace
  unfolding admit send_once
  get_json asked e =
      let (b, ok) = admit asked c.circuit_breaker in
      if ok
      then (if e.buildable
          then send_once (get_headers c ctx) e (start b)
          else ((none, some build_failed), start b))
      else ((none, some circuit_open), start b)

  unfoldable pub do_request : (asked : ℤ) → Headers → Attempt → Reply × Trace
  unfolding admit send_once
  do_request asked h e =
      let (b, ok) = admit asked c.circuit_breaker in
      if ok
      then send_once (do_headers c ctx h) e (start b)
      else ((none, some circuit_open), start b)

-- The goroutine of NotifyAsync after PostJSON has returned: with no error it closes `resp.Body`,
-- which panics where the response is nil.
pub data Notified : Type 0 where
  returned panicked : Notified

unfoldable pub notify_async : Reply → Notified
notify_async (resp, some f) = returned
notify_async (some code, none) = returned
notify_async (none, none) = panicked
