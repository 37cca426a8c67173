-- ===== src/Jobqueue/Enqueue.antt =====
-- jobqueue/task.go, client.go, config.go and the enqueuing half of correlation.go. What asynq does
-- with a task is the parameter `send`: EnqueueContext on a task and its options.
pub mod Laws
use omkit_go.Prelude.{ℕ, String, Bool, Option, none, some, List, [], ◌∷◌, ◌++◌, if◌then◌else◌, ◌==◌}
use omkit_go.Prelude.Int.{ℤ, pos, leb_ℤ}
use omkit_go.Context.{Context, job_request_id_of}
use omkit_go.Jobqueue.Json.{Json, Document}
use omkit_go.Jobqueue.Envelope.{EnvelopeError, Result, ok, err, ◌>>=◌, wrap, wrap_with_request_id}

-- The options of asynq that the package builds, and those of the caller.
pub data TaskOption : Type 0 where
  max_retry timeout retention : ℤ → TaskOption
  queue : String → TaskOption
  other : ℕ → TaskOption

pub record Task : Type 0 where
  pub type_name : String
  pub payload : Document

-- Durations in nanoseconds.
unfoldable pub default_options : List TaskOption
default_options =
    max_retry (pos 2) ∷ timeout (pos 300_000_000_000) ∷ retention (pos 172_800_000_000_000) ∷ []

pub record Config : Type 0 where
  pub addr : String
  pub password : String
  pub queue_name : String
  pub concurrency : ℤ
  pub shutdown_timeout : ℤ

pub data ConfigError : Type 0 where
  addr_required password_required queue_name_required : ConfigError

unfoldable pub validate : Config → Option ConfigError
validate c =
    if c.addr == ""
    then some addr_required
    else if c.password == ""
    then some password_required
    else if c.queue_name == ""
    then some queue_name_required
    else none

-- The method concurrency of Config.
unfoldable pub workers : Config → ℤ
workers c = if leb_ℤ c.concurrency (pos 0) then pos 4 else c.concurrency

-- A Client is the queue that it is bound to; its connection is asynq's.
pub record Client : Type 0 where
  pub queue_name : String

pub data NewClient : Type 0 where
  client : Client → NewClient
  refused : ConfigError → NewClient

unfoldable pub new_client : Config → NewClient
unfolding validate
new_client c = elim (validate c) [
  | some e ↦ refused e
  | none ↦ client (record { queue_name = c.queue_name })
]

-- Enqueue's results: the TaskInfo, the error of the envelope, or asynq's error, which
-- Client.Enqueue wraps in a message of its own and EnqueueMiddleware.Enqueue does not.
pub data Enqueued : Type 0 where
  info : ℕ → Enqueued
  invalid : EnvelopeError → Enqueued
  wrapped_failure plain_failure : Enqueued

sent_wrapped : Option ℕ → Enqueued
sent_wrapped none = wrapped_failure
sent_wrapped (some n) = info n

sent_plain : Option ℕ → Enqueued
sent_plain none = plain_failure
sent_plain (some n) = info n

module _ (is_uuid : String → Bool) where
  unfoldable pub new_task :
      String → String → Option Json → List TaskOption → Result (Task × List TaskOption)
  new_task task_type tenant_id payload opts = do
    body ← wrap is_uuid tenant_id payload
    ok (record { type_name = task_type; payload = some body }, default_options ++ opts)

  module _ (send : Context → Task → List TaskOption → Option ℕ) where
    unfoldable pub enqueue :
        Client → Context → String → String → Option Json → List TaskOption → Enqueued
    unfolding sent_wrapped
    enqueue c ctx task_type tenant_id payload opts =
        elim (new_task task_type tenant_id payload opts) [
          | err e ↦ invalid e
          | ok (task, defaults) ↦ sent_wrapped (send ctx task (defaults ++ queue c.queue_name ∷ []))
        ]

    -- EnqueueMiddleware.Enqueue
    unfoldable pub enqueue_with_request_id :
        Client → Context → String → String → Option Json → List TaskOption → Enqueued
    unfolding sent_plain
    enqueue_with_request_id c ctx task_type tenant_id payload opts =
        let request_id = job_request_id_of ctx in
        if request_id == ""
        then enqueue c ctx task_type tenant_id payload opts
        else elim (wrap_with_request_id is_uuid tenant_id request_id payload) [
          | err e ↦ invalid e
          | ok body ↦ sent_plain (
              send ctx (record { type_name = task_type; payload = some body })
                ((default_options ++ opts) ++ queue c.queue_name ∷ []))
        ]
