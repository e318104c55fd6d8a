-- ===== src/Worker/Runner/Starved.antt =====
-- Admission control in front of the worker's read (relayq/worker/runner.py, relayq/worker/admission.py).
use relayq.Prelude.{ℕ, ◌≤◌, String, ◌≡◌, some, arith}
use relayq.Effect.{ok}
use relayq.Domain.Job.{DateTime}
use relayq.Infrastructure.Redis.Log.{Log, IsStream}
use relayq.Infrastructure.RedisStream.{stream_key, group_key, stream_length}
use relayq.Effect.Action.{try_except}
use relayq.Application.Enqueue.{Enqueuer}
use relayq.Application.Enqueue.Exhaustion.{Reaches, IsFull, Reaches-IsFull, measured_full}
use relayq.Worker.Admission.{AdmissionController, check}
use relayq.Worker.Runner.{WorkerRunner, paused, poll}

-- A worker whose admission controller measures its limit or more pauses, and has sent nothing but XLEN.
poll-blocked :
    {R : Type 0} (self : WorkerRunner R) (admission : AdmissionController R) (now : DateTime)
    (depth : ℕ) (s r : R)
    → self.admission ≡ some admission
    → stream_length admission.transport self.queue s ≡ (ok depth, r)
    → admission.max_depth ≤ depth
    → poll self now s ≡ (ok paused, r)
unfolding poll check try_except
poll-blocked self admission now depth s r given measured full = ground arith

module _ {R : Type 0} (self : Enqueuer R) (queue : String) (view : R → Log)
    (laws : IsStream self.transport.redis
      (stream_key self.transport.prefix queue)
      (group_key self.transport.prefix queue)
      view) where
  -- On a Redis with the laws of `IsStream`, once a queue's stream has as many entries as the queue may
  -- have, a worker with admission control reads nothing of it any more, after any sequence of the
  -- operations of `Sends`: if its limit is not above the queue's, it pauses in every pass in which the
  -- queue is measured, and sends nothing but XLEN.
  pub full_never_read :
      {s r after : R} (runner : WorkerRunner R) (admission : AdmissionController R) (now : DateTime)
      (n : ℕ)
      → runner.admission ≡ some admission
      → admission.transport ≡ self.transport
      → runner.queue ≡ queue
      → admission.max_depth ≤ self.max_queue_depth
      → IsFull self queue view laws s
      → Reaches self queue s r
      → stream_length self.transport queue r ≡ (ok n, after)
      → poll runner now r ≡ (ok paused, after)
  full_never_read {r} {after} runner admission now n given same_transport same_queue limit full
        reached measured =
      let full' =
        measured_full self queue view laws r after n
          (Reaches-IsFull self queue view laws reached full) measured in
      poll-blocked runner admission now n r after given (rw (same_transport, same_queue) measured)
        (omega (arith, limit, full'))
