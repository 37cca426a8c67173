-- ===== src/Kms/Requests.antt =====
-- The requests that a call of kms/openbao.go sends, and what it returns for the replies.
use omkit_go.Prelude.{
  ℕ, suc, String, ◌+◌, ◌≤◌, ◌<◌, ◌≡◌, ◌⊎◌, inl, inr, refl, ◌∷◌, length, leb, ◌==◌, arith,
  Bool-cases, Option-cases,
}
use omkit_go.Kms.OpenBao.{
  Method, Answer, unreachable, response, unavailable, auth, other, Result, ok, failed, Env, Client,
  result_of, do_raw, keep_token, login, is_fresh, is_forbidden, get_token, do_with, retry, do_call,
  do_request,
}

-- Requests are only added, at most so many.
abbrev pub Sends : ℕ → Client → Client → Type 0
Sends n o o' = (length o.sent ≤ length o'.sent) × (length o'.sent ≤ length o.sent + n)

keep_token-sent :
    (env : Env) (o : Client) (reply : Result) → (keep_token env o reply).0.sent ≡ o.sent
unfolding keep_token
keep_token-sent env o (failed e) = refl
keep_token-sent env o (ok body) = elim (Option-cases (env.codec.login body)) [
  | inl e ↦ ground (arith, e)
  | inr (l, e) ↦ ground (arith, e)
]

login-sent : (env : Env) (o : Client) → length (login env o).0.sent ≡ suc (length o.sent)
unfolding login do_raw
login-sent env o = rw keep_token-sent refl

get_token-Sends : (env : Env) (o : Client) → Sends 1 o (get_token env o).0
unfolding get_token
get_token-Sends env o = elim (Bool-cases (is_fresh env o)) [
  | inl f ↦ rw f (omega arith, omega arith)
  | inr f ↦ rw f (omega (arith, login-sent env o), omega (arith, login-sent env o))
]

do_with-Sends :
    (env : Env) (method : Method) (path body : String) (o : Client) (r : Client × Result)
    → Sends 1 o r.0
    → Sends 2 o (do_with env method path body r).0
unfolding do_with do_raw
do_with-Sends env method path body o (o', failed e) h = ground (arith, h)
do_with-Sends env method path body o (o', ok token) h = ground (arith, h)

retry-Sends :
    (env : Env) (method : Method) (path body : String) (o : Client) (reply : Result)
    → Sends 2 o (retry env method path body (o, reply)).0
unfolding retry
retry-Sends env method path body o (ok reply) = (omega arith, omega arith)
retry-Sends env method path body o (failed (unavailable s)) = (omega arith, omega arith)
retry-Sends env method path body o (failed other) = (omega arith, omega arith)
retry-Sends env method path body o (failed (auth s)) =
    let again : Client = record o { token = "" } in
    elim (Bool-cases (is_forbidden s)) [
      | inl f ↦ rw f (
          do_with-Sends env method path body again (get_token env again)
            (get_token-Sends env again))
      | inr f ↦ rw f (omega arith, omega arith)
    ]

do_call-Sends :
    (env : Env) (method : Method) (path body : String) (o : Client) (r : Client × Result)
    → Sends 1 o r.0
    → Sends 4 o (do_call env method path body r).0
unfolding do_call do_raw
do_call-Sends env method path body o (o', failed e) h = (omega (arith, h.0), omega (arith, h.1))
do_call-Sends env method path body o (o', ok token) h =
    let sent : Client = (do_raw env method path token body o').0 in
    let (more, most) =
      retry-Sends env method path body sent (do_raw env method path token body o').1 in
    (omega (arith, h.0, more), omega (arith, h.1, most))

-- A call of `do` sends at most four requests, its own at most twice and a login before each, and
-- it forgets none.
pub do_request-Sends :
    (env : Env) (method : Method) (path body : String) (o : Client)
    → Sends 4 o (do_request env method path body o).0
unfolding do_request
do_request-Sends env method path body o =
    do_call-Sends env method path body o (get_token env o) (get_token-Sends env o)

-- The kind of an error goes with its status: a server that cannot be reached, or a status from 500
-- on, is unavailable, and a status from 400 on below that is one of authorisation.
abbrev pub Classified : Result → Type 0
Classified (ok body) = Unit
Classified (failed (unavailable s)) = (s ≡ 0) ⊎ (500 ≤ s)
Classified (failed (auth s)) = (400 ≤ s) × (s < 500)
Classified (failed other) = Unit

result_of-Classified : (a : Answer) → Classified (result_of a)
unfolding result_of
result_of-Classified unreachable = inl refl
result_of-Classified (response s body) = elim (Bool-cases (leb 500 s)) [
  | inl t ↦ rw t (inr (ground (arith, t)))
  | inr f ↦ rw f (elim (Bool-cases (leb 400 s)) [
    | inl t ↦ rw t (ground (arith, t), ground (arith, f))
    | inr t ↦ rw t tt
  ])
]

keep_token-Classified :
    (env : Env) (o : Client) (reply : Result)
    → Classified reply
    → Classified (keep_token env o reply).1
unfolding keep_token
keep_token-Classified env o (failed e) h = h
keep_token-Classified env o (ok body) h = elim (Option-cases (env.codec.login body)) [
  | inl e ↦ rw (Classified, e) tt
  | inr (l, e) ↦
      rw (Classified, e)
        (elim (Bool-cases (l.client_token == "")) [ inl t ↦ rw t tt | inr t ↦ rw t tt ])
]

get_token-Classified : (env : Env) (o : Client) → Classified (get_token env o).1
unfolding get_token login do_raw
get_token-Classified env o = elim (Bool-cases (is_fresh env o)) [
  | inl f ↦ rw f tt
  | inr f ↦ rw f (keep_token-Classified env _ _ (result_of-Classified _))
]

do_with-Classified :
    (env : Env) (method : Method) (path body : String) (r : Client × Result)
    → Classified r.1
    → Classified (do_with env method path body r).1
unfolding do_with do_raw
do_with-Classified env method path body (o, failed e) h = h
do_with-Classified env method path body (o, ok token) h = result_of-Classified _

retry-Classified :
    (env : Env) (method : Method) (path body : String) (o : Client) (reply : Result)
    → Classified reply
    → Classified (retry env method path body (o, reply)).1
unfolding retry
retry-Classified env method path body o (ok reply) h = tt
retry-Classified env method path body o (failed (unavailable s)) h = h
retry-Classified env method path body o (failed other) h = h
retry-Classified env method path body o (failed (auth s)) h = elim (Bool-cases (is_forbidden s)) [
  | inl f ↦ rw f (do_with-Classified env method path body _ (get_token-Classified env _))
  | inr f ↦ rw f h
]

-- Whatever the server replies, to the call or to a login, an error that `do` returns is unavailable
-- with the status 0 or one from 500 on, one of authorisation with a status from 400 to 499, or that
-- of a login reply that does not decode.
pub do_request-Classified :
    (env : Env) (method : Method) (path body : String) (o : Client)
    → Classified (do_request env method path body o).1
unfolding do_request do_call do_raw
do_request-Classified env method path body o = called (get_token env o) (get_token-Classified env o)
  where
    called : (r : Client × Result) → Classified r.1 → Classified (do_call env method path body r).1
    called (o', failed e) h = h
    called (o', ok token) h =
        retry-Classified env method path body _ (do_raw env method path token body o').1 (
          result_of-Classified (
            env.server
              (record { method = method; path = path; token = token; body = body } ∷ o'.sent)))
