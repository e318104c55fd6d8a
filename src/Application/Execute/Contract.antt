-- ===== src/Application/Execute/Contract.antt =====
-- At-least-once delivery (relayq/application/execute.py): when an entry may leave the pending list.
use relayq.Prelude.{
  ℕ, ◌-◌, ◌∷◌, String, ◌≡◌, ◌⊎◌, inl, inr, refl, sym, true, false, Option, none, some, arith,
  Bool-cases,
}
use relayq.Effect.{
  Exception, Result, ok, err, is_exception, Result-cases, timeout_error, cancelled_error,
}
use relayq.Effect.Action.{try_except, continue, continue-pure}
use relayq.Domain.Job.{Job, JobStatus, should_dlq, dead, failed}
use relayq.Infrastructure.Redis.Log.{Log, IsStream, is_pending}
use relayq.Infrastructure.RedisStream.{stream_key, group_key, dlq_key, dlq_fields, xadd_dlq, xack}
use relayq.Infrastructure.RedisStream.Names.{stream_key-ne-dlq_key}
use relayq.System.{System}
use relayq.Telemetry.{incr_delivery_attempts, observe_processing_seconds}
use relayq.Application.Execute.{
  Handler, Executor, attempted, update_quietly, dead_letter, route, handle_failure, settle, execute,
}
use relayq.Application.Execute.Steps.{update_quietly_lem, execute-settle, acked_if}
use relayq.Application.Execute.Outcomes.{reported, settle-err, ran}

module _ {R : Type 0} (self : Executor R) (queue entry_id : String) (view : R → Log)
    (laws : IsStream self.transport.redis
      (stream_key self.transport.prefix queue)
      (group_key self.transport.prefix queue)
      view) where
  open self use {transport}

  -- The entry is on the pending list.
  abbrev pub Pending : R → Type 0
  Pending r = is_pending entry_id (view r).pending ≡ true

  xadd_dlq-view :
      (job : Job) (reason : String) (r : R)
      → view (xadd_dlq transport queue job reason r).1 ≡ view r
  unfolding xadd_dlq
  xadd_dlq-view job reason r = elim (Result-cases (dlq_fields transport job reason)) [
    | inl (fields, e) ↦ rw (
      e,
      laws.xadd_other (dlq_key transport.prefix queue) fields none false r
          (λ k. stream_key-ne-dlq_key transport.prefix queue queue (sym k)),
    )
    | inr (x, e) ↦ rw e
  ]

  -- Redis after the `try` block of the exhausted branch: XACK is sent if the write to the DLQ returned.
  dead_letter-redis :
      (job : Job) (reason : String) (s : System R)
      → let (q, r) = xadd_dlq transport queue job reason s.redis in
        (try_except (dead_letter self queue entry_id job reason) (λ _ t. (ok tt, t)) s).1.redis
        ≡ acked_if self queue entry_id q r
  unfolding dead_letter try_except
  dead_letter-redis job reason s =
      let (q, r) = xadd_dlq transport queue job reason s.redis in
      elim (Result-cases q) [
        | inr (x, e) ↦ ground arith
        | inl (i, e) ↦ elim (Result-cases (xack transport queue entry_id r).0) [
          | inl (n, a) ↦ ground arith
          | inr (x, a) ↦ ground arith
        ]
      ]

  -- A status update after another step leaves Redis as that step did.
  update_quietly-redis :
      (r : Result (Unit {0})) (id : String) (st : JobStatus) (n : Option ℕ) (s : System R)
      → (continue r (λ _. update_quietly id st n) s).1.redis ≡ s.redis
  update_quietly-redis (ok a) id st n s = rw (update_quietly_lem id st n s)
  update_quietly-redis (err e) id st n s = refl

  -- The job, with its attempt counted, has no retry left, and what has been sent to Redis is an XADD to the
  -- DLQ, which returned, and then the XACK.
  abbrev pub IsBuried : Job → String → R → R → Type 0
  IsBuried job reason before after =
      (should_dlq job ≡ true)
      × (id : String) × ((xadd_dlq transport queue job reason before).0 ≡ ok id)
      × (after ≡ (xack transport queue entry_id (xadd_dlq transport queue job reason before).1).1)

  route-Pending :
      (job : Job) (exc : Exception) (s : System R)
      → Pending s.redis
      → Pending (route self queue entry_id job exc s).1.redis
        ⊎ IsBuried job (self.describe exc) s.redis (route self queue entry_id job exc s).1.redis
  unfolding route
  route-Pending job exc s h =
      let left = dead_letter-redis job (self.describe exc) s in
      elim (Bool-cases (should_dlq job)) [
        | inr d ↦ inl (rw (d, update_quietly_lem job.id failed (some job.attempts) s) h)
        | inl d ↦ elim (Result-cases (xadd_dlq transport queue job (self.describe exc) s.redis).0) [
          | inl (id, e) ↦
              inr (d, id, e, rw (d, update_quietly-redis _ job.id dead none _, left, e) refl)
          | inr (x, e) ↦ inl (
              rw
                (
                  d,
                  update_quietly-redis _ job.id dead none _,
                  left,
                  e,
                  xadd_dlq-view job (self.describe exc) s.redis,
                )
                h)
        ]
      ]

  handle_failure-Pending :
      (job : Job) (exc : Exception) (s : System R)
      → Pending s.redis
      → Pending (handle_failure self queue entry_id job exc s).1.redis
        ⊎ IsBuried
            (attempted job)
            (self.describe exc)
            s.redis
            (handle_failure self queue entry_id job exc s).1.redis
  unfolding handle_failure
  handle_failure-Pending job exc s h = rw (continue-pure _ (attempted job) _) (
      route-Pending (attempted job) exc
        (record s { metrics = incr_delivery_attempts job.kind false ∷ s.metrics }) h)

  settle-uncaught :
      (e : Exception) (job : Job) (elapsed : ℕ) (s : System R)
      → is_exception e ≡ false
      → settle self queue entry_id (err e) job elapsed s ≡ (err e, s)
  unfolding settle
  settle-uncaught timeout_error job elapsed s h = cc
  settle-uncaught cancelled_error job elapsed s h = refl
  settle-uncaught e job elapsed s h = cc

  module _ (handler : Handler R) (job : Job) (s : System R) where
    -- The handler raised an `Exception`, its job has no retry left, and `execute` has left Redis, named
    -- `after`, as the XADD to the DLQ, which returned, and the XACK behind it leave it.
    abbrev pub Buried : R → Type 0
    Buried after =
        let done = ran self queue entry_id handler job s in
        (e : Exception) × (done.outcome ≡ err e)
        × IsBuried (attempted done.job) (self.describe (reported self done.job e)) done.system.redis
            after

    settle-Pending :
        (r : Result (Unit {0}))
        → (ran self queue entry_id handler job s).outcome ≡ r
        → Pending (ran self queue entry_id handler job s).system.redis
        → let done = ran self queue entry_id handler job s in
          let after =
            (settle self queue entry_id r done.job
              (done.system.monotonic - s.monotonic)
              done.system).1.redis in
          Pending after ⊎ (r ≡ ok tt) ⊎ Buried after
    settle-Pending (ok a) o h = inr (inl refl)
    settle-Pending (err e) o h =
        let done = ran self queue entry_id handler job s in
        let elapsed = done.system.monotonic - s.monotonic in
        elim (Bool-cases (is_exception e)) [
          | inl c ↦
              rw (settle-err self queue entry_id e done.job elapsed done.system c)
                (elim (handle_failure-Pending done.job (reported self done.job e)
                  (record done.system {
                    metrics =
                        observe_processing_seconds done.job.kind elapsed ∷ done.system.metrics;
                  })
                  h) [ inl p ↦ inl p | inr b ↦ inr (inr (e, o, b)) ])
          | inr c ↦ rw (settle-uncaught e done.job elapsed done.system c) (inl h)
        ]

    -- On a Redis with the laws of `IsStream`, an entry that is pending when the handler has ended is
    -- pending still after `execute`, whichever of its commands failed or were cancelled, unless the handler
    -- returned, or the job had no retry left and was written to the DLQ, where that write returned, before
    -- the XACK was sent.
    pub execute_never_loses :
        Pending (ran self queue entry_id handler job s).system.redis
        → let after = (execute self queue entry_id handler job s).1.redis in
          Pending after ⊎ ((ran self queue entry_id handler job s).outcome ≡ ok tt) ⊎ Buried after
    execute_never_loses h =
        rw (execute-settle self queue entry_id handler job s)
          (settle-Pending (ran self queue entry_id handler job s).outcome refl h)
