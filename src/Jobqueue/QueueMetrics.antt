-- ===== src/Jobqueue/QueueMetrics.antt =====
-- jobqueue/queue_metrics.go: one scrape of the collector. The inspector is two functions, with
-- `none` for an error; a value is kept exact, where the source has a float64.
pub mod Laws
use omkit_go.Prelude.{ℕ, suc, String, Bool, Option, none, some, List, [], ◌∷◌, ◌++◌, if◌then◌else◌}
use omkit_go.Prelude.Int.{ℤ, pos}

pub data Desc : Type 0 where
  size pending active scheduled retry archived completed aggregating : Desc
  latency memory_usage paused processed failed : Desc

-- asynq.QueueInfo; `latency_time` is a duration in nanoseconds.
pub record QueueInfo : Type 0 where
  pub queue : String
  pub size_count : ℤ
  pub pending_count : ℤ
  pub active_count : ℤ
  pub scheduled_count : ℤ
  pub retry_count : ℤ
  pub archived_count : ℤ
  pub completed_count : ℤ
  pub aggregating_count : ℤ
  pub latency_time : ℤ
  pub memory_bytes : ℤ
  pub is_paused : Bool
  pub processed_count : ℤ
  pub failed_count : ℤ

-- A number, or a duration in nanoseconds that is reported in seconds.
pub data Value : Type 0 where
  number : ℤ → Value
  seconds : ℤ → Value

-- A gauge with its labels service and queue, or the counter of errors.
pub data Metric : Type 0 where
  gauge : Desc → Value → (service queue : String) → Metric
  errors_total : ℕ → (service : String) → Metric

pub record Collector : Type 0 where
  pub service : String
  pub errors : ℕ

unfoldable pub new_queue_metrics_collector : String → Collector
new_queue_metrics_collector service = record { service = service; errors = 0 }

-- Describe, less the counter of errors, which describes itself.
abbrev pub described : List Desc
described =
    size ∷ pending ∷ active ∷ scheduled ∷ retry ∷ archived ∷ completed ∷ aggregating ∷ latency
    ∷ memory_usage ∷ paused ∷ processed ∷ failed ∷ []

-- The metrics of one queue.
unfoldable pub gauges : String → QueueInfo → List Metric
gauges service i =
    let q = i.queue in
    gauge size (number i.size_count) service q
    ∷ gauge pending (number i.pending_count) service q
    ∷ gauge active (number i.active_count) service q
    ∷ gauge scheduled (number i.scheduled_count) service q
    ∷ gauge retry (number i.retry_count) service q
    ∷ gauge archived (number i.archived_count) service q
    ∷ gauge completed (number i.completed_count) service q
    ∷ gauge aggregating (number i.aggregating_count) service q
    ∷ gauge latency (seconds i.latency_time) service q
    ∷ gauge memory_usage (number i.memory_bytes) service q
    ∷ gauge paused (number (if i.is_paused then pos 1 else pos 0)) service q
    ∷ gauge processed (number i.processed_count) service q
    ∷ gauge failed (number i.failed_count) service q
    ∷ []

-- The loop over the queues: the gauges, and the counter of errors behind it.
pub collect_queues : (String → Option QueueInfo) → String → ℕ → List String → List Metric × ℕ
unfolding gauges
collect_queues info service errors [] = ([], errors)
collect_queues info service errors (q ∷ qs) = elim (info q) [
  | none ↦ collect_queues info service (suc errors) qs
  | some i ↦
      let (rest, errors') = collect_queues info service errors qs in
      (gauges service i ++ rest, errors')
]

collected : Collector → List Metric × ℕ → Collector × List Metric
collected c (metrics, errors) =
    (record c { errors = errors }, metrics ++ errors_total errors c.service ∷ [])

-- Collect: the collector, and what it sends.
unfoldable pub collect :
    Option (List String) → (String → Option QueueInfo) → Collector → Collector × List Metric
unfolding collected collect_queues
collect none info c =
    (record c { errors = suc c.errors }, errors_total (suc c.errors) c.service ∷ [])
collect (some qs) info c = collected c (collect_queues info c.service c.errors qs)
