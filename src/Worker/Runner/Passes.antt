-- ===== src/Worker/Runner/Passes.antt =====
-- How a pass of the loop of relayq/worker/runner.py ends, and how a task does.
use relayq.Prelude.{
  ℕ, String, ◌≡◌, refl, ◌⊎◌, inl, inr, false, some, List, ◌∷◌, arith, leb, if◌then◌else◌,
  Bool-cases,
}
use relayq.Effect.{
  NotCancelled, Exception, Result, ok, err, is_exception, cancelled_error, Result-cases,
}
use relayq.Effect.Action.{try_except}
use relayq.Domain.Job.{DateTime, Job}
use relayq.Infrastructure.RedisStream.{stream_length, read_group}
use relayq.System.{System}
use relayq.Telemetry.{observe_worker_inflight}
use relayq.Application.Execute.{execute}
use relayq.Worker.Admission.{AdmissionController, check}
use relayq.Worker.Runner.{
  WorkerRunner, Delivery, Poll, paused, delivered, read_jobs, poll, logged, process_job,
}

-- What a read of the stream means for the pass.
abbrev pub outcome : Result (List Delivery) → Poll
outcome (ok jobs) = delivered jobs
outcome (err e) = paused

only_cancelled : (e : Exception) → is_exception e ≡ false → e ≡ cancelled_error
unfolding is_exception
only_cancelled cancelled_error h = refl
only_cancelled e h = cc

module _ {R : Type 0} (self : WorkerRunner R) where
  -- A worker whose admission controller measures the stream returns from its pass, unless the read is
  -- cancelled. From the maximal depth on it pauses and has sent nothing but XLEN; below it, it sends one
  -- XREADGROUP, and has the jobs of the reply, or pauses where the read raised.
  poll_lem :
      (admission : AdmissionController R) (now : DateTime) (depth : ℕ) (s r : R)
      → self.admission ≡ some admission
      → stream_length admission.transport self.queue s ≡ (ok depth, r)
      → NotCancelled
          (read_group self.transport now self.queue self.worker_id self.poll_batch self.poll_timeout
            r).0
      → poll self now s ≡ (
          if leb admission.max_depth depth
          then (ok paused, r)
          else (let (jobs, r') =
                read_group self.transport now self.queue self.worker_id self.poll_batch
                  self.poll_timeout r in
              (ok (outcome jobs), r')))
  unfolding poll check try_except read_jobs
  poll_lem admission now depth s r ea measured answered =
      let (q, r') =
        read_group self.transport now self.queue self.worker_id self.poll_batch self.poll_timeout
          r in
      elim (Result-cases q) [ inl (jobs, e) ↦ ground arith | inr (x, e) ↦ ground arith ]

  logged_lem : (r : Result Job) → (logged self r ≡ ok tt) ⊎ (logged self r ≡ err cancelled_error)
  logged_lem (ok job) = inl refl
  logged_lem (err e) = elim (Bool-cases (is_exception e)) [
    | inl h ↦ inl (rw h)
    | inr h ↦ inr (rw (h, only_cancelled e h))
  ]

  -- A task returns or is cancelled, whatever `execute` raises, and sets the gauge in either case.
  process_job_lem :
      (stream entry_id : String) (job : Job) (inflight : ℕ) (s : System R)
      → let (r, s') = process_job self (stream, entry_id, job) inflight s in
        let (_, after) = execute self.executor self.queue entry_id self.handler job s in
        ((r ≡ ok tt) ⊎ (r ≡ err cancelled_error))
        × (s' ≡ record after {
          metrics = observe_worker_inflight self.queue inflight ∷ after.metrics;
        })
  unfolding process_job
  process_job_lem stream entry_id job inflight s =
      (logged_lem (execute self.executor self.queue entry_id self.handler job s).0, refl)
