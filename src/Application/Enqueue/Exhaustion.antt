-- ===== src/Application/Enqueue/Exhaustion.antt =====
-- A queue that is full (relayq/application/enqueue.py): XACK takes an entry off the pending list and leaves
-- it in the stream, and XLEN, which `enqueue` measures the queue by, counts it on.
use relayq.Prelude.{
  ℕ, ◌≤◌, String, ◌≡◌, inl, inr, sym, ap, false, Option, none, arith, length, le→leb,
}
use relayq.Effect.Action.{continue-lift}
use relayq.Effect.{Result, ok, err, queue_full, Result-cases}
use relayq.Domain.Job.{DateTime, Job}
use relayq.Infrastructure.Redis.Log.{Log, IsStream}
use relayq.Infrastructure.RedisStream.{
  stream_key, group_key, dlq_key, consumer_name, dlq_fields, stream_length, read_group, xack,
  claimed, autoclaim_stale, decode_streams, xadd_dlq,
}
use relayq.Infrastructure.RedisStream.Names.{stream_key-ne-dlq_key}
use relayq.System.{System}
use relayq.Application.Enqueue.{Enqueuer, check_depth, enqueue}
use relayq.Application.Enqueue.Outcomes.{enqueue_full}

module _ {R : Type 0} (self : Enqueuer R) (queue : String) where
  open self use {transport, max_queue_depth}

  -- What RelayQ sends to the Redis that holds the queue: the operations of its transport by which a worker
  -- reads, acknowledges, claims and dead-letters jobs, a measurement, and a call of `enqueue`.
  pub data Sends : R → R → Type 0 where
    measures : {s : R} → Sends s (stream_length transport queue s).1
    reads :
        {s : R} (now : DateTime) (worker : String) (count block : ℕ)
        → Sends s (read_group transport now queue worker count block s).1
    acks : {s : R} (id : String) → Sends s (xack transport queue id s).1
    claims :
        {s : R} (now : DateTime) (worker : String) (idle count : ℕ)
        → Sends s (autoclaim_stale transport now queue worker idle count s).1
    buries :
        {s : R} (dead_queue : String) (job : Job) (reason : String)
        → Sends s (xadd_dlq transport dead_queue job reason s).1
    enqueues :
        {s : R} (validate : Job → Result (Unit {0})) (job : Job) (key : Option String)
        (process : System R)
        → process.redis ≡ s
        → job.queue ≡ queue
        → Sends s (enqueue self validate job key process).1.redis

  pub data Reaches (start : R) : R → Type 0 where
    here : Reaches start start
    next : {s r : R} → Reaches start s → Sends s r → Reaches start r

  module _ (view : R → Log)
      (laws : IsStream transport.redis
        (stream_key transport.prefix queue)
        (group_key transport.prefix queue)
        view) where
    -- The stream has as many entries as the queue may have.
    abbrev pub IsFull : R → Type 0
    IsFull s = max_queue_depth ≤ length (view s).entries

    same_view : (s r : R) → view r ≡ view s → IsFull s → IsFull r
    same_view s r e h = rw e h

    stream_length-IsFull : (s : R) → IsFull s → IsFull (stream_length transport queue s).1
    unfolding stream_length
    stream_length-IsFull s h = same_view s _ (laws.xlen_view s) h

    read_group-IsFull :
        (now : DateTime) (worker : String) (count block : ℕ) (s : R)
        → IsFull s
        → IsFull (read_group transport now queue worker count block s).1
    unfolding read_group
    read_group-IsFull now worker count block s h =
        rw (continue-lift _ (decode_streams transport.codec now) _)
          (elim (laws.xreadgroup_view (consumer_name worker) count block s) [
            | inl e ↦ rw e h
            | inr e ↦ rw e h
          ])

    xack-IsFull : (id : String) (s : R) → IsFull s → IsFull (xack transport queue id s).1
    unfolding xack
    xack-IsFull id s h = elim (laws.xack_view id s) [ inl e ↦ rw e h | inr e ↦ rw e h ]

    autoclaim_stale-IsFull :
        (now : DateTime) (worker : String) (idle count : ℕ) (s : R)
        → IsFull s
        → IsFull (autoclaim_stale transport now queue worker idle count s).1
    unfolding autoclaim_stale
    autoclaim_stale-IsFull now worker idle count s h =
        rw
          (
            continue-lift _ (claimed transport now (stream_key transport.prefix queue)) _,
            laws.xautoclaim_entries,
          )
          h

    xadd_dlq-IsFull :
        (dead_queue : String) (job : Job) (reason : String) (s : R)
        → IsFull s
        → IsFull (xadd_dlq transport dead_queue job reason s).1
    unfolding xadd_dlq
    xadd_dlq-IsFull dead_queue job reason s h =
        elim (Result-cases (dlq_fields transport job reason)) [
          | inl (fields, e) ↦
              rw
                (
                  e,
                  laws.xadd_other (dlq_key transport.prefix dead_queue) fields none false s
                      (λ k. stream_key-ne-dlq_key transport.prefix queue dead_queue (sym k)),
                )
                h
          | inr (x, e) ↦ rw e h
        ]

    -- A full queue's measurement, and what `enqueue` leaves of Redis.
    pub measured_full :
        (s r : R) (n : ℕ)
        → IsFull s
        → stream_length transport queue s ≡ (ok n, r)
        → max_queue_depth ≤ n
    unfolding stream_length
    measured_full s r n h e = rw (laws.xlen_ok s r n e) h

    enqueue-IsFull :
        (validate : Job → Result (Unit {0})) (job : Job) (key : Option String) (process : System R)
        → job.queue ≡ queue
        → IsFull process.redis
        → IsFull (enqueue self validate job key process).1.redis
    unfolding enqueue check_depth
    enqueue-IsFull validate job key process same h =
        let kept = stream_length-IsFull process.redis h in
        elim (Result-cases (validate job)) [
          | inr (x, e) ↦ rw e h
          | inl (done, e) ↦ elim (Result-cases (stream_length transport queue process.redis).0) [
            | inr (x, m) ↦ rw (e, same, m) kept
            | inl (n, m) ↦
                let full =
                  measured_full process.redis _ n h
                    (ap (λ q. (q, (stream_length transport queue process.redis).1)) m) in
                rw (e, same, m, le→leb max_queue_depth n full) kept
          ]
        ]

    Sends-IsFull : {s r : R} → Sends s r → IsFull s → IsFull r
    Sends-IsFull {s} measures h = stream_length-IsFull s h
    Sends-IsFull {s} (reads now worker count block) h = read_group-IsFull now worker count block s h
    Sends-IsFull {s} (acks id) h = xack-IsFull id s h
    Sends-IsFull {s} (claims now worker idle count) h =
        autoclaim_stale-IsFull now worker idle count s h
    Sends-IsFull {s} (buries dead_queue job reason) h = xadd_dlq-IsFull dead_queue job reason s h
    Sends-IsFull (enqueues validate job key process e same) h =
        enqueue-IsFull validate job key process same (rw e h)

    pub Reaches-IsFull : {s r : R} → Reaches s r → IsFull s → IsFull r
    Reaches-IsFull here h = h
    Reaches-IsFull (next before sent) h = Sends-IsFull sent (Reaches-IsFull before h)

    -- On a Redis with the laws of `IsStream`, once a queue's stream has as many entries as the queue
    -- may have, no sequence of the operations of `Sends` makes room again, acknowledging every job
    -- included: every later valid job for the queue, whose length is measured, is refused as
    -- `QueueFull`.
    pub enqueue_exhausted :
        {s r after : R} (validate : Job → Result (Unit {0})) (job : Job) (key : Option String)
        (process : System R) (n : ℕ)
        → IsFull s
        → Reaches s r
        → process.redis ≡ r
        → job.queue ≡ queue
        → validate job ≡ ok tt
        → stream_length transport queue r ≡ (ok n, after)
        → (enqueue self validate job key process).0 ≡ err (queue_full queue n max_queue_depth)
    enqueue_exhausted {r} {after} validate job key process n h reached same_redis same_queue valid
          measured =
        let full = measured_full r after n (Reaches-IsFull reached h) measured in
        ground (
          arith,
          enqueue_full self validate job process n after valid
              (rw (same_redis, same_queue) measured) key full,
        )
