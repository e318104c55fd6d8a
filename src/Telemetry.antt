-- ===== src/Telemetry.antt =====
-- relayq/telemetry/metrics.py. `prometheus_client` keeps the metrics: the model records the calls on it,
-- oldest last.
pub mod Registered
use relayq.Prelude.{ℕ, String, Bool, true, false, List, [], ◌∷◌}

pub data Metric : Type 0 where
  queue_depth oldest_job_age processing_seconds delivery_attempts dead_letter_total : Metric
  worker_inflight : Metric

-- A call on a metric with its labels: `Gauge.set`, `Histogram.observe`, `Counter.inc`.
pub data MetricCall : Type 0 where
  set : Metric → List (String × String) → ℕ → MetricCall
  observe : Metric → List (String × String) → ℕ → MetricCall
  inc : Metric → List (String × String) → MetricCall

unfoldable pub observe_queue_depth : String → ℕ → MetricCall
observe_queue_depth queue depth = set queue_depth (("queue", queue) ∷ []) depth

unfoldable pub observe_oldest_job_age : String → ℕ → MetricCall
observe_oldest_job_age queue age_seconds = set oldest_job_age (("queue", queue) ∷ []) age_seconds

unfoldable pub observe_processing_seconds : String → ℕ → MetricCall
observe_processing_seconds kind elapsed =
    observe processing_seconds (("queue", "unknown") ∷ ("kind", kind) ∷ []) elapsed

unfoldable pub observe_processing_seconds_for_queue : String → String → ℕ → MetricCall
observe_processing_seconds_for_queue queue kind elapsed =
    observe processing_seconds (("queue", queue) ∷ ("kind", kind) ∷ []) elapsed

abbrev pub success_label : Bool → String
success_label true = "true"
success_label false = "false"

unfoldable pub incr_delivery_attempts : String → Bool → MetricCall
incr_delivery_attempts kind success =
    inc delivery_attempts
      (("queue", "unknown") ∷ ("kind", kind) ∷ ("success", success_label success) ∷ [])

unfoldable pub incr_dead_letter : String → MetricCall
incr_dead_letter kind = inc dead_letter_total (("queue", "unknown") ∷ ("kind", kind) ∷ [])

unfoldable pub observe_worker_inflight : String → ℕ → MetricCall
observe_worker_inflight queue count = set worker_inflight (("queue", queue) ∷ []) count

-- The classes of `prometheus_client` that `__init__` makes the metrics of.
pub data MetricClass : Type 0 where
  gauge histogram counter : MetricClass

unfoldable pub class_of : Metric → MetricClass
class_of queue_depth = gauge
class_of oldest_job_age = gauge
class_of processing_seconds = histogram
class_of delivery_attempts = counter
class_of dead_letter_total = counter
class_of worker_inflight = gauge

-- `labelnames=[…]`
unfoldable pub labelnames : Metric → List String
labelnames queue_depth = "queue" ∷ []
labelnames oldest_job_age = "queue" ∷ []
labelnames processing_seconds = "queue" ∷ "kind" ∷ []
labelnames delivery_attempts = "queue" ∷ "kind" ∷ "success" ∷ []
labelnames dead_letter_total = "queue" ∷ "kind" ∷ []
labelnames worker_inflight = "queue" ∷ []
