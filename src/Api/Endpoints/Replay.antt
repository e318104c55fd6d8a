-- ===== src/Api/Endpoints/Replay.antt =====
-- The replay of a dead letter (api/main.py) assigns a plain `str` to `job.status`, and `to_dict` and
-- `insert_outbox` then read `job.status.value`.
use relayq.Prelude.{
  ℕ, ◌+◌, String, ◌≡◌, ◌≢◌, refl, true, none, some, arith, inl, inr, leb, Bool-cases,
}
use relayq.Effect.{Exception, ok, err, attribute_error, Result-cases}
use relayq.Domain.Job.{Job, plain, from_document}
use relayq.Infrastructure.RedisStream.{Transport, DlqItem, stream_length, xadd, read_dlq_entry}
use relayq.System.{System}
use relayq.Application.Enqueue.{
  Enqueuer, given_key, keyed, check_depth, check_key, write_outbox, write_stream, enqueue,
}
use relayq.Api.Endpoints.{Globals, reset, no_validation, replay_dlq_job}

module _ {R : Type 0} where
  xadd_plain :
      (self : Transport R) (queue : String) (job : Job) (text : String) (n : ℕ) (r : R)
      → job.status ≡ plain text
      → xadd self queue job n true r ≡ (err attribute_error, r)
  unfolding xadd
  xadd_plain self queue job text n r e = ground arith

  write_outbox_redis :
      (self : Enqueuer R) (job : Job) (s : System R) → (write_outbox self job s).1.redis ≡ s.redis
  unfolding write_outbox
  write_outbox_redis self job s = ground arith

  -- Whatever the outbox says, a job with a plain text for its status is not enqueued, and XADD is not sent.
  enqueue_plain :
      (self : Enqueuer R) (job : Job) (text : String) (depth : ℕ) (s : System R) (r : R)
      → job.status ≡ plain text
      → stream_length self.transport job.queue s.redis ≡ (ok depth, r)
      → ((entry_id : String) → (enqueue self no_validation job none s).0 ≢ ok entry_id)
        × ((enqueue self no_validation job none s).1.redis ≡ r)
  unfolding enqueue check_depth check_key given_key keyed write_stream
  enqueue_plain self job text depth s r e measured =
      let measured_state : System R = record s { redis = r } in
      let written = write_outbox self job measured_state in
      let unsent =
        xadd_plain self.transport job.queue job text (self.max_queue_depth + 1000) written.1.redis
          e in
      let same = write_outbox_redis self job measured_state in
      elim (Bool-cases (leb self.max_queue_depth depth)) [
        | inl full ↦ (λ entry_id h. ground arith, ground arith)
        | inr room ↦ elim (Result-cases written.0) [
          | inl (done, o) ↦ (λ entry_id h. ground arith, ground arith)
          | inr (x, o) ↦ (λ entry_id h. ground arith, ground arith)
        ]
      ]

  -- A dead letter that is found and decodes, for a queue whose length is read, is never replayed: the
  -- endpoint raises, Redis has been sent only the reads XREVRANGE and XLEN, and the entry has not been
  -- deleted from the DLQ.
  pub replay_never_succeeds :
      (app : Globals R) (transport : Transport R) (enqueuer : Enqueuer R) (name job_id : String)
      (entry : DlqItem) (job : Job) (depth : ℕ) (s : System R) (r1 r2 : R)
      → app.transport ≡ some transport
      → app.enqueuer ≡ some enqueuer
      → read_dlq_entry transport name job_id s.redis ≡ (ok (some entry), r1)
      → from_document transport.codec s.utcnow entry.job ≡ ok job
      → stream_length enqueuer.transport job.queue r1 ≡ (ok depth, r2)
      → (e : Exception) × ((replay_dlq_job app name job_id s).0 ≡ err e)
        × ((replay_dlq_job app name job_id s).1.redis ≡ r2)
  unfolding replay_dlq_job
  replay_never_succeeds app transport enqueuer name job_id entry job depth s r1 r2 et eq found
        decoded measured =
      let after : System R = record s { redis = r1 } in
      let refused = enqueue_plain enqueuer (reset job) "pending" depth after r2 refl measured in
      let tried = enqueue enqueuer no_validation (reset job) none after in
      elim (Result-cases tried.0) [
        | inl (id, o) ↦ absurd (refused.0 id o)
        | inr (x, o) ↦ (x, ground (arith, refused.1), ground (arith, refused.1))
      ]
