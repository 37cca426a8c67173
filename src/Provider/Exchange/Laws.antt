-- ===== src/Provider/Exchange/Laws.antt =====
-- When an exchange succeeds.
use omkit_go.Prelude.{
  ℕ, String, true, ◌≡◌, ◌↔◌, refl, ap, Option, none, some, inl, inr, Bool-cases, Option-cases,
  arith,
}
use omkit_go.Headers.{Headers}
use omkit_go.Jobqueue.Json.{Json}
use omkit_go.Provider.Exchange.{Request, Env, ok, read_reply, exchange}

-- The request was made, the reply has the status 200, and `finish` gives `a` from its body.
pub record Exchanged {B W A : Type 0} (decode : B → Option W) (finish : W → A) (env : Env B)
    (url : String) (headers : Headers) (payload : Option Json) (a : A) : Type 0 where
  pub body : Json
  pub marshalled : payload ≡ some body
  pub built : env.buildable url ≡ true
  pub reply : B
  pub answered :
      env.answer (record { url = url; headers = headers; body = body }) ≡ some (200, reply)
  pub wire : W
  pub decoded : decode reply ≡ some wire
  pub finished : finish wire ≡ a

module _ {B W A : Type 0} (decode : B → Option W) (finish : W → A) where
  read_reply-ok :
      (answer : Option (ℕ × B)) (a : A)
      → read_reply decode finish answer ≡ ok a
      → (b : B) × (w : W) × (answer ≡ some (200, b)) × (decode b ≡ some w) × (finish w ≡ a)
  unfolding read_reply
  read_reply-ok none a h = absurd (ground (arith, h))
  read_reply-ok (some (status, b)) a h = elim (Option-cases (decode b)) [
    | inl e ↦ absurd (ground (arith, h, e))
    | inr (w, e) ↦ (b, w, ground (arith, h, e), e, ground (arith, h, e))
  ]

  Exchanged-of_ok :
      (env : Env B) (url : String) (headers : Headers) (payload : Option Json) (a : A)
      → (exchange decode finish env url headers payload).1 ≡ ok a
      → Exchanged decode finish env url headers payload a
  unfolding exchange
  Exchanged-of_ok env url headers none a h = absurd (ground (arith, h))
  Exchanged-of_ok env url headers (some body) a h = elim (Bool-cases (env.buildable url)) [
    | inr b ↦ absurd (ground (arith, h, b))
    | inl b ↦
        let request : Request = record { url = url; headers = headers; body = body } in
        let (r, w, answered, decoded, finished) =
          read_reply-ok (env.answer request) a (ground (arith, h, b)) in
        record {
          body = body;
          marshalled = refl;
          built = b;
          reply = r;
          answered = answered;
          wire = w;
          decoded = decoded;
          finished = finished;
        }
  ]

  pub exchange_iff :
      (env : Env B) (url : String) (headers : Headers) (payload : Option Json) (a : A)
      → ((exchange decode finish env url headers payload).1 ≡ ok a)
        ↔ Exchanged decode finish env url headers payload a
  unfolding exchange read_reply
  exchange_iff env url headers payload a = (
    Exchanged-of_ok env url headers payload a,
    λ x. rw (x.marshalled, x.built, x.answered, x.decoded) (ap ok x.finished),
  )
