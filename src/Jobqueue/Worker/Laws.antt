-- ===== src/Jobqueue/Worker/Laws.antt =====
-- What a handler behind the middlewares sees of a task that was enqueued, and which tasks it sees.
use omkit_go.Prelude.{String, ◌≡◌, ◌↔◌, Bool, true, some, List, arith, if◌then◌else◌, ◌==◌}
use omkit_go.Context.{Context, with_tenant_id, with_job_request_id}
use omkit_go.Jobqueue.Json.{Json}
use omkit_go.Jobqueue.Envelope.{
  EnvelopeError, ok, err, wrap, wrap_with_request_id, unwrap, is_invalid_envelope_error,
}
use omkit_go.Jobqueue.Envelope.Laws.{FoldLaws, unwrap-wrap, unwrap-err}
use omkit_go.Jobqueue.Enqueue.{Task, TaskOption, new_task}
use omkit_go.Jobqueue.Enqueue.Laws.{new_task-ok}
use omkit_go.Jobqueue.Worker.{Handler, skip_retry, handled, with_tenant, with_envelope}

module _ (is_uuid : String → Bool) {folds : String → String → Bool} {R : Type 0} where
  -- Behind WithEnvelope a handler sees the payload that was wrapped, under a context with the
  -- wrapped tenant id and, where it is not empty, the wrapped request id.
  pub with_envelope-wrap :
      (laws : FoldLaws folds) (next : Handler R) (ctx : Context) (task_type t r : String)
      (j d : Json)
      → wrap_with_request_id is_uuid t r (some j) ≡ ok d
      → with_envelope is_uuid folds next ctx (record { type_name = task_type; payload = some d })
        ≡ handled (
            next
              (if r == ""
                then with_tenant_id ctx t
                else with_job_request_id (with_tenant_id ctx t) r)
              (record { type_name = task_type; payload = some j }))
  unfolding with_envelope
  with_envelope-wrap laws next ctx task_type t r j d e =
      rw (with_envelope, unwrap-wrap laws is_uuid t r j d e)

  -- Behind WithTenant a handler sees a task of NewTask with the payload that was enqueued, under a
  -- context with its tenant id.
  pub with_tenant-new_task :
      (laws : FoldLaws folds) (next : Handler R) (ctx : Context) (task_type t : String) (j : Json)
      (opts os : List TaskOption) (task : Task)
      → new_task is_uuid task_type t (some j) opts ≡ ok (task, os)
      → with_tenant is_uuid folds next ctx task
        ≡ handled (next (with_tenant_id ctx t) (record { type_name = task_type; payload = some j }))
  unfolding with_tenant wrap
  with_tenant-new_task laws next ctx task_type t j opts os task e =
      let (body, wrapped, same, _) = new_task-ok is_uuid task_type t (some j) opts os task e in
      rw same (rw (with_tenant, unwrap-wrap laws is_uuid t "" j body wrapped))

-- Both middlewares end with SkipRetry and an error exactly where Unwrap returns that error, and it
-- is one that IsInvalidEnvelopeError recognises, whatever the handler is.
pub skip_retry_iff :
    (is_uuid : String → Bool) (folds : String → String → Bool) {R : Type 0} (next : Handler R)
    (ctx : Context) (task : Task) (x : EnvelopeError)
    → ((with_tenant is_uuid folds next ctx task ≡ skip_retry x)
        ↔ ((unwrap is_uuid folds task.payload ≡ err x) × (is_invalid_envelope_error x ≡ true)))
      × ((with_envelope is_uuid folds next ctx task ≡ skip_retry x)
          ↔ ((unwrap is_uuid folds task.payload ≡ err x) × (is_invalid_envelope_error x ≡ true)))
unfolding with_tenant with_envelope
skip_retry_iff is_uuid folds next ctx task x =
    ground (arith, unwrap-err is_uuid folds task.payload x)
