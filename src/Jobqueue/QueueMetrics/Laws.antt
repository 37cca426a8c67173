-- ===== src/Jobqueue/QueueMetrics/Laws.antt =====
-- What a scrape reports, against a plain description of it.
use omkit_go.Prelude.{
  ℕ, suc, ◌+◌, String, ◌≡◌, refl, ap, Option, none, some, List, [], ◌∷◌, ◌++◌, length, Option-cases,
  inl, inr, arith, map,
}
use omkit_go.Jobqueue.QueueMetrics.{
  Collector, Desc, Metric, QueueInfo, collect, collect_queues, collected, described, errors_total,
  gauge, gauges,
}

-- The queues of which the inspector gives the state, in order.
abbrev pub reported : (String → Option QueueInfo) → List String → List QueueInfo
reported info [] = []
reported info (q ∷ qs) = elim (info q) [ none ↦ reported info qs | some i ↦ i ∷ reported info qs ]

abbrev pub all_gauges : String → List QueueInfo → List Metric
all_gauges service [] = []
all_gauges service (i ∷ is) = gauges service i ++ all_gauges service is

collect_queues_lem :
    (info : String → Option QueueInfo) (service : String) (errors : ℕ) (qs : List String)
    → ((collect_queues info service errors qs).0 ≡ all_gauges service (reported info qs))
      × ((collect_queues info service errors qs).1 + length (reported info qs) ≡ errors + length qs)
unfolding collect_queues
collect_queues_lem info service errors [] = (refl, refl)
collect_queues_lem info service errors (q ∷ qs) = elim (Option-cases (info q)) [
  | inl e ↦
      let (metrics, count) = collect_queues_lem info service (suc errors) qs in
      rw (e, collect_queues, reported) (metrics, omega (arith, count))
  | inr (i, e) ↦
      let (metrics, count) = collect_queues_lem info service errors qs in
      rw (e, collect_queues, reported)
        (ap (λ (l : List Metric). gauges service i ++ l) metrics, omega (arith, count))
]

abbrev pub desc_of : Metric → Option Desc
desc_of (gauge d v s q) = some d
desc_of (errors_total n s) = none

-- A scrape that has its list of queues sends, for each queue whose state the inspector gives, in
-- their order, one gauge of each described kind, and then the counter of errors, which has grown by
-- the number of the other queues.
pub collect_lem :
    (info : String → Option QueueInfo) (qs : List String) (c : Collector)
    → ((collect (some qs) info c).1
        ≡ all_gauges c.service (reported info qs)
          ++ errors_total (collect (some qs) info c).0.errors c.service ∷ [])
      × ((collect (some qs) info c).0.errors + length (reported info qs) ≡ c.errors + length qs)
      × ((i : QueueInfo) → map desc_of (gauges c.service i) ≡ map some described)
unfolding collect collected gauges
collect_lem info qs c =
    let (metrics, count) = collect_queues_lem info c.service c.errors qs in
    (
      ap
          (λ (l : List Metric).
            l ++ errors_total (collect_queues info c.service c.errors qs).1 c.service ∷ [])
          metrics,
      count,
      λ i. refl,
    )
