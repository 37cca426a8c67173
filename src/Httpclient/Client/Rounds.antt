-- ===== src/Httpclient/Client/Rounds.antt =====
-- The retry loop of PostJSON, round by round: attempts that fail, and the one that ends it.
use native.Mathlib.Numerals.{add-one}
use omkit_go.Prelude.{
  ℕ, zero, suc, ◌+◌, ◌≤◌, ◌<◌, ◌≡◌, refl, ◌∙◌, true, false, Option, none, some, List, [], ◌∷◌, ◌++◌,
  arith,
}
use omkit_go.Prelude.Int.{ℤ, pos_part}
use omkit_go.Context.{Context}
use omkit_go.Headers.{Headers}
use omkit_go.Httpclient.Breaker.{CircuitBreaker, record_failure, record_success}
use omkit_go.Httpclient.Config.{Client}
use omkit_go.Httpclient.Client.{
  Answer, refused, status, Attempt, transport_failed, Reply, Trace, Round, stop, again, double,
  initial_backoff, round, post_loop, post_headers, start,
}

-- The breaker after the failures of the first `n` attempts.
abbrev pub after_failure : ℤ → Option CircuitBreaker → Option CircuitBreaker
after_failure now none = none
after_failure now (some cb) = some (record_failure now cb)

abbrev pub after_success : Option CircuitBreaker → Option CircuitBreaker
after_success none = none
after_success (some cb) = some (record_success cb)

unfoldable pub after_failures : (ℕ → Attempt) → ℕ → Option CircuitBreaker → Option CircuitBreaker
after_failures env zero b = b
after_failures env (suc n) b = after_failure (env n).now (after_failures env n b)

-- The wait before the attempt `m + 1`, and the list of the waits before the attempt `n`.
unfoldable pub delay : ℕ → ℕ
delay zero = initial_backoff
delay (suc m) = double (delay m)

unfoldable pub delays : ℕ → List ℕ
delays zero = []
delays (suc zero) = []
delays (suc (suc m)) = delays (suc m) ++ delay m ∷ []

abbrev backoff_at : ℕ → ℕ
backoff_at zero = delay 0
backoff_at (suc m) = delay m

abbrev pub copies : Headers → ℕ → List Headers
copies h zero = []
copies h (suc n) = copies h n ++ h ∷ []

-- An attempt that is not cancelled, and whose request can be built.
abbrev pub Runs : Attempt → Type 0
Runs e = (e.buildable ≡ true) × (e.ctx_done ≡ false)

abbrev pub Fails : Answer → Type 0
Fails (refused x) = Unit
Fails (status code) = 500 ≤ code

-- The trace of `n` attempts that leave the breaker `b`.
abbrev pub trace_of : Client → Context → Option CircuitBreaker → ℕ → Trace
trace_of c ctx b n = record { breaker = b; sent = copies (post_headers c ctx) n; waits = delays n }

-- What PostJSON returns when its last attempt has failed.
abbrev pub last_reply : Answer → Reply
last_reply (refused x) = (none, some (transport_failed x))
last_reply (status code) = (some code, none)

-- The first `k` attempts run and fail.
abbrev pub FirstFail : (ℕ → Attempt) → ℕ → Type 0
FirstFail env k = (i : ℕ) → i < k → Runs (env i) × Fails (env i).answer

module _ (c : Client) (ctx : Context) (env : ℕ → Attempt) (b : Option CircuitBreaker) where
  -- The trace and the backoff after `n` attempts that all failed.
  record Progress (n backoff : ℕ) (t : Trace) : Type 0 where
    sent : t.sent ≡ copies (post_headers c ctx) n
    waits : t.waits ≡ delays n
    breaker : t.breaker ≡ after_failures env n b
    backoff_is : backoff ≡ backoff_at n

  abbrev Continues : Round → ℕ → Type 0
  Continues (stop r t) n = ⊥
  Continues (again backoff last t) n = Progress n backoff t

  round-Fails :
      (n backoff : ℕ) (t : Trace)
      → Progress n backoff t
      → Runs (env n)
      → Fails (env n).answer
      → n + 1 < pos_part c.retries
      → Continues (round c ctx (env n) n backoff t) (suc n)
  unfolding round delays after_failures delay
  round-Fails zero backoff t p r f h = ground arith
  round-Fails (suc n) backoff t p r f h = ground arith

  continues :
      (r : Round) (n : ℕ)
      → Continues r n
      → (backoff : ℕ) × (last : Reply) × (t : Trace) × (r ≡ again backoff last t)
        × Progress n backoff t
  continues (stop r t) n p = absurd p
  continues (again backoff last t) n p = (backoff, last, t, refl, p)

  post_loop-again :
      (left n backoff : ℕ) (last : Reply) (t : Trace) {backoff' : ℕ} {last' : Reply} {t' : Trace}
      → round c ctx (env n) n backoff t ≡ again backoff' last' t'
      → post_loop c ctx env (suc left) n backoff last t
        ≡ post_loop c ctx env left (n + 1) backoff' last' t'
  unfolding post_loop
  post_loop-again left n backoff last t e = rw (e, post_loop)

  post_loop-stop :
      (left n backoff : ℕ) (last : Reply) (t : Trace) {r : Reply} {t' : Trace}
      → round c ctx (env n) n backoff t ≡ stop r t'
      → post_loop c ctx env (suc left) n backoff last t ≡ (r, t')
  unfolding post_loop
  post_loop-stop left n backoff last t e = rw (e, post_loop)

  record Reached (left n backoff : ℕ) (last : Reply) (t : Trace) (l k : ℕ) : Type 0 where
    backoff' : ℕ
    last' : Reply
    trace' : Trace
    progress : Progress k backoff' trace'
    same :
        post_loop c ctx env left n backoff last t
        ≡ post_loop c ctx env (suc l) k backoff' last' trace'

  -- While attempts fail and another is left, the loop goes on.
  reach :
      (j n left l backoff : ℕ) (last : Reply) (t : Trace) (k : ℕ)
      → left ≡ j + suc l
      → k ≡ n + j
      → FirstFail env k
      → n + left ≡ pos_part c.retries
      → Progress n backoff t
      → Reached left n backoff last t l k
  reach zero n left l backoff last t k e d f h p = record {
    backoff' = backoff;
    last' = last;
    trace' = t;
    progress = (let q : k ≡ n = omega arith in rw q p);
    same = (let q : k ≡ n = omega arith in let q' : left ≡ suc l = omega arith in rw (q, q'));
  }
  reach (suc j) n zero l backoff last t k e d f h p = absurd (omega arith)
  reach (suc j) n (suc left) l backoff last t k e d f h p =
      let (runs, fails) = f n (omega arith) in
      let (backoff', last', t', went, p') =
        continues (round c ctx (env n) n backoff t) (suc n)
          (round-Fails n backoff t p runs fails (omega arith)) in
      let rest =
        reach j (n + 1) left l backoff' last' t' k (omega arith) (omega arith) f (omega arith)
          (rw add-one p') in
      record {
        backoff' = rest.backoff';
        last' = rest.last';
        trace' = rest.trace';
        progress = rest.progress;
        same = post_loop-again left n backoff last t went ∙ rest.same;
      }

  -- The round of the attempt `n` that is answered with no server error.
  round_delivers :
      (n backoff : ℕ) (t : Trace) {code : ℕ}
      → Progress n backoff t
      → Runs (env n)
      → (env n).answer ≡ status code
      → code < 500
      → round c ctx (env n) n backoff t
        ≡ stop (some code, none) (trace_of c ctx (after_success (after_failures env n b)) (suc n))
  unfolding round delays after_failures delay
  round_delivers zero backoff t p r a h = ground arith
  round_delivers (suc n) backoff t p r a h = ground arith

  -- The loop whose last attempt fails too.
  loop_exhausted :
      (n backoff : ℕ) (last : Reply) (t : Trace)
      → Progress n backoff t
      → Runs (env n)
      → Fails (env n).answer
      → n + 1 ≡ pos_part c.retries
      → post_loop c ctx env 1 n backoff last t
        ≡ (last_reply (env n).answer, trace_of c ctx (after_failures env (suc n) b) (suc n))
  unfolding post_loop round delays after_failures delay
  loop_exhausted zero backoff last t p r f h = ground arith
  loop_exhausted (suc n) backoff last t p r f h = ground arith

  start-Progress : Progress 0 initial_backoff (start b)
  unfolding delays after_failures delay
  start-Progress = record { sent = refl; waits = refl; breaker = refl; backoff_is = refl }

  pub loop_delivers :
      (k code rest : ℕ)
      → FirstFail env k
      → Runs (env k)
      → (env k).answer ≡ status code
      → code < 500
      → k + suc rest ≡ pos_part c.retries
      → post_loop c ctx env (k + suc rest) 0 initial_backoff (none, none) (start b)
        ≡ ((some code, none), trace_of c ctx (after_success (after_failures env k b)) (suc k))
  loop_delivers k code rest f r a h e =
      let at_k =
        reach k 0 (k + suc rest) rest initial_backoff (none, none) (start b) k refl (omega arith) f
          (omega arith) start-Progress in
      at_k.same
      ∙ post_loop-stop rest k at_k.backoff' at_k.last' at_k.trace'
          (round_delivers k at_k.backoff' at_k.trace' at_k.progress r a h)

  pub loop_exhausts :
      (k : ℕ)
      → FirstFail env (suc k)
      → suc k ≡ pos_part c.retries
      → post_loop c ctx env (suc k) 0 initial_backoff (none, none) (start b)
        ≡ (last_reply (env k).answer, trace_of c ctx (after_failures env (suc k) b) (suc k))
  loop_exhausts k f e =
      let (r, a) = f k (omega arith) in
      let at_k =
        reach k 0 (suc k) 0 initial_backoff (none, none) (start b) k (omega arith) (omega arith)
          (λ i h. f i (omega arith)) (omega arith) start-Progress in
      at_k.same
      ∙ loop_exhausted k at_k.backoff' at_k.last' at_k.trace' at_k.progress r a (omega arith)
