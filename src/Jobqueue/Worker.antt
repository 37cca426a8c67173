-- ===== src/Jobqueue/Worker.antt =====
-- jobqueue/server.go and the consuming half of correlation.go: the middlewares around a handler.
-- `R` is what the wrapped handler returns.
pub mod Laws
use omkit_go.Prelude.{String, Bool, if◌then◌else◌, ◌==◌}
use omkit_go.Context.{Context, with_tenant_id, with_job_request_id}
use omkit_go.Jobqueue.Envelope.{Envelope, EnvelopeError, ok, err, unwrap}
use omkit_go.Jobqueue.Enqueue.{Task}

abbrev pub Handler : Type 0 → Type 0
Handler R = Context → Task → R

-- An error that chains asynq.SkipRetry with the envelope's, or what the handler returned.
pub data Processed (R : Type 0) : Type 0 where
  skip_retry : EnvelopeError → Processed R
  handled : R → Processed R

module _ (is_uuid : String → Bool) (folds : String → String → Bool) {R : Type 0} where
  unfoldable pub with_tenant : Handler R → Context → Task → Processed R
  with_tenant next ctx t = elim (unwrap is_uuid folds t.payload) [
    | err e ↦ skip_retry e
    | ok env ↦ handled (
        next (with_tenant_id ctx env.tenant_id)
          (record { type_name = t.type_name; payload = env.payload }))
  ]

  unfoldable pub with_envelope : Handler R → Context → Task → Processed R
  with_envelope next ctx t = elim (unwrap is_uuid folds t.payload) [
    | err e ↦ skip_retry e
    | ok env ↦
        let ctx' = with_tenant_id ctx env.tenant_id in
        let ctx'' =
          if env.request_id == "" then ctx' else with_job_request_id ctx' env.request_id in
        handled (next ctx'' (record { type_name = t.type_name; payload = env.payload }))
  ]
