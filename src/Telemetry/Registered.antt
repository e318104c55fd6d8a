-- ===== src/Telemetry/Registered.antt =====
-- The calls of relayq/telemetry/metrics.py fit the metrics that `__init__` registers.
use relayq.Prelude.{ℕ, String, ◌≡◌, refl, Bool, map}
use relayq.Telemetry.{
  MetricCall, set, observe, inc, gauge, histogram, counter, class_of, labelnames,
  observe_queue_depth, observe_oldest_job_age, observe_processing_seconds,
  observe_processing_seconds_for_queue, incr_delivery_attempts, incr_dead_letter,
  observe_worker_inflight,
}

-- `labels(…)` takes the names that the metric was registered with and no others, and the metric's class has
-- the method.
IsRegistered : MetricCall → Type 0
IsRegistered (set metric labels n) =
    (class_of metric ≡ gauge) × (map (λ l. l.0) labels ≡ labelnames metric)
IsRegistered (observe metric labels n) =
    (class_of metric ≡ histogram) × (map (λ l. l.0) labels ≡ labelnames metric)
IsRegistered (inc metric labels) =
    (class_of metric ≡ counter) × (map (λ l. l.0) labels ≡ labelnames metric)

-- Whatever its arguments, no wrapper makes a call that `prometheus_client` refuses.
wrappers-IsRegistered :
    (queue kind : String) (n : ℕ) (success : Bool)
    → IsRegistered (observe_queue_depth queue n)
      × IsRegistered (observe_oldest_job_age queue n)
      × IsRegistered (observe_processing_seconds kind n)
      × IsRegistered (observe_processing_seconds_for_queue queue kind n)
      × IsRegistered (incr_delivery_attempts kind success)
      × IsRegistered (incr_dead_letter kind)
      × IsRegistered (observe_worker_inflight queue n)
unfolding IsRegistered class_of labelnames observe_queue_depth observe_oldest_job_age
    observe_processing_seconds observe_processing_seconds_for_queue incr_delivery_attempts
    incr_dead_letter observe_worker_inflight
wrappers-IsRegistered queue kind n success = (
  (refl, refl),
  (refl, refl),
  (refl, refl),
  (refl, refl),
  (refl, refl),
  (refl, refl),
  (refl, refl),
)
