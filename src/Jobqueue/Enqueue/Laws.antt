-- ===== src/Jobqueue/Enqueue/Laws.antt =====
-- The queue that a task goes to.
use omkit_go.Prelude.{
  ℕ, String, ◌≡◌, refl, ap, Bool, Option, none, some, List, [], ◌∷◌, ◌++◌, inl, inr, Bool-cases,
  ◌==◌,
}
use omkit_go.Context.{Context, job_request_id_of}
use omkit_go.Jobqueue.Json.{Json}
use omkit_go.Jobqueue.Envelope.{Result, ok, err, ◌>>=◌, wrap, wrap_with_request_id}
use omkit_go.Jobqueue.Enqueue.{
  TaskOption, queue, Task, Client, default_options, new_task, enqueue, enqueue_with_request_id,
  Enqueued, invalid, sent_wrapped, sent_plain,
}

-- asynq processes options from left to right, and a later one wins.
abbrev later : Option String → TaskOption → Option String
later q (queue name) = some name
later q _ = q

abbrev pub queue_from : Option String → List TaskOption → Option String
queue_from q [] = q
queue_from q (o ∷ os) = queue_from (later q o) os

queue_from-last :
    (os : List TaskOption) (q : Option String) (name : String)
    → queue_from q (os ++ queue name ∷ []) ≡ some name
queue_from-last [] q name = refl
queue_from-last (o ∷ os) q name = queue_from-last os (later q o) name

module _ (is_uuid : String → Bool) (send send' : Context → Task → List TaskOption → Option ℕ) where
  -- The two agree on every call whose options end in the queue `name`.
  abbrev pub Agree : String → Type 0
  Agree name =
      (ctx : Context) (t : Task) (os : List TaskOption)
      → queue_from none os ≡ some name
      → send ctx t os ≡ send' ctx t os

  module _ (c : Client) (ctx : Context) (agree : Agree c.queue_name) where
    dispatch-Agree :
        (r : Result (Task × List TaskOption))
        → ◌≡◌ {A = Enqueued}
            (elim r [
              | err e ↦ invalid e
              | ok (t, os) ↦ sent_wrapped (send ctx t (os ++ queue c.queue_name ∷ []))
            ])
            (elim r [
              | err e ↦ invalid e
              | ok (t, os) ↦ sent_wrapped (send' ctx t (os ++ queue c.queue_name ∷ []))
            ])
    dispatch-Agree (ok (t, os)) =
        ap sent_wrapped
          (agree ctx t (os ++ queue c.queue_name ∷ []) (queue_from-last os none c.queue_name))
    dispatch-Agree (err e) = refl

    -- Client.Enqueue hands asynq only calls whose options end in the client's own queue, whatever
    -- options the caller passes: it returns the same under any two ways to send that agree on those.
    pub enqueue-queue :
        (task_type tenant_id : String) (payload : Option Json) (opts : List TaskOption)
        → enqueue is_uuid send c ctx task_type tenant_id payload opts
          ≡ enqueue is_uuid send' c ctx task_type tenant_id payload opts
    unfolding enqueue
    enqueue-queue task_type tenant_id payload opts =
        dispatch-Agree (new_task is_uuid task_type tenant_id payload opts)

    dispatch_plain-Agree :
        (task_type : String) (opts : List TaskOption) (r : Result Json)
        → ◌≡◌ {A = Enqueued}
            (elim r [
              | err e ↦ invalid e
              | ok body ↦ sent_plain (
                  send ctx
                    (record { type_name = task_type; payload = some body })
                    ((default_options ++ opts) ++ queue c.queue_name ∷ []))
            ])
            (elim r [
              | err e ↦ invalid e
              | ok body ↦ sent_plain (
                  send' ctx
                    (record { type_name = task_type; payload = some body })
                    ((default_options ++ opts) ++ queue c.queue_name ∷ []))
            ])
    dispatch_plain-Agree task_type opts (ok body) =
        let task : Task = record { type_name = task_type; payload = some body } in
        ap sent_plain (
          agree ctx task ((default_options ++ opts) ++ queue c.queue_name ∷ [])
            (queue_from-last (default_options ++ opts) none c.queue_name))
    dispatch_plain-Agree task_type opts (err e) = refl

    -- EnqueueMiddleware.Enqueue too hands asynq only calls whose options end in the client's own
    -- queue, with and without a request id in the context: it returns the same under any two ways to
    -- send that agree on those.
    pub enqueue_with_request_id-queue :
        (task_type tenant_id : String) (payload : Option Json) (opts : List TaskOption)
        → enqueue_with_request_id is_uuid send c ctx task_type tenant_id payload opts
          ≡ enqueue_with_request_id is_uuid send' c ctx task_type tenant_id payload opts
    unfolding enqueue_with_request_id
    enqueue_with_request_id-queue task_type tenant_id payload opts =
        elim (Bool-cases (job_request_id_of ctx == "")) [
          | inl e ↦ rw e (enqueue-queue task_type tenant_id payload opts)
          | inr e ↦ rw e (
              dispatch_plain-Agree task_type opts
                (wrap_with_request_id is_uuid tenant_id (job_request_id_of ctx) payload))
        ]

-- What NewTask returns where it returns no error.
pub new_task-ok :
    (is_uuid : String → Bool) (task_type tenant_id : String) (payload : Option Json)
    (opts os : List TaskOption) (task : Task)
    → new_task is_uuid task_type tenant_id payload opts ≡ ok (task, os)
    → (body : Json) × (wrap is_uuid tenant_id payload ≡ ok body)
      × (task ≡ record { type_name = task_type; payload = some body })
      × (os ≡ default_options ++ opts)
unfolding new_task
new_task-ok is_uuid task_type tenant_id payload opts os task e =
    go (wrap is_uuid tenant_id payload) e
  where
    built : Json → Result (Task × List TaskOption)
    built body = ok (record { type_name = task_type; payload = some body }, default_options ++ opts)

    go :
        (r : Result Json)
        → (r >>= built) ≡ ok (task, os)
        → (body : Json) × (r ≡ ok body)
          × (task ≡ record { type_name = task_type; payload = some body })
          × (os ≡ default_options ++ opts)
    go (ok body) h = (body, refl, cc, cc)
    go (err x) h = cc
