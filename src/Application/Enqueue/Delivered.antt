-- ===== src/Application/Enqueue/Delivered.antt =====
-- What an accepted call of `enqueue` (relayq/application/enqueue.py) puts on the queue.
use relayq.Prelude.{
  ℕ, suc, ◌+◌, ◌<◌, String, ◌≡◌, inl, inr, refl, ◌∙◌, sym, ap, true, Option, none, some, List, [],
  ◌∷◌, ◌++◌, length, arith,
}
use relayq.Effect.{Result, ok, err, Result-cases}
use relayq.Effect.Action.{Action, continue}
use relayq.Domain.Job.{DateTime, Job}
use relayq.Infrastructure.Redis.Log.{Log, IsStream}
use relayq.Infrastructure.RedisStream.{stream_key, group_key, stream_length, xadd, read_group}
use relayq.Infrastructure.RedisStream.Fifo.{
  IsWritable, Represents, take-nil, xadd_refines, read_group_refines,
}
use relayq.Infrastructure.SqliteStore.{Db, find_by_idempotency_key}
use relayq.System.{System, on_db, if_store}
use relayq.Application.Enqueue.{
  Enqueuer, given_key, keyed, check_depth, refuse_existing, check_key, write_outbox, enqueue,
}
use relayq.Application.Enqueue.Steps.{write_stream-keyed}

-- A chain that returned has a first step that returned.
continue-ok :
    {S A B : Type 0} (r : Result A) (f : A → Action S B) (s t : S) (b : B)
    → continue r f s ≡ (ok b, t)
    → (a : A) × (r ≡ ok a) × (f a s ≡ (ok b, t))
continue-ok (ok a) f s t b h = (a, refl, h)
continue-ok (err e) f s t b h = absurd (ground arith)

result_redis :
    {R : Type 0} (q : Result String) (r : R) (s t : System R) (id : String)
    → ◌≡◌ {A = Result String × System R} (q, record s { redis = r }) (ok id, t)
    → (q ≡ ok id) × (r ≡ t.redis)
result_redis q r s t id h = (ap (λ p. p.0) h, ap (λ p. p.1.redis) h)

pair : {A B : Type 0} {a a' : A} {b b' : B} → a ≡ a' → b ≡ b' → ◌≡◌ {A = A × B} (a, b) (a', b')
pair e h = cc

-- The outbox does not touch Redis.
on_db-redis :
    {R A : Type 0} (db : Option Db) (without : A) (m : Action Db A) (s : System R)
    → (on_db db without m s).1.redis ≡ s.redis
on_db-redis none without m s = refl
on_db-redis (some db) without m s = refl

module _ {R : Type 0} (self : Enqueuer R) where
  open self use {transport, max_queue_depth}

  refused_redis :
      (key : String) (r : Result (Option Job)) (s : System R)
      → (continue r (refuse_existing self key) s).1.redis ≡ s.redis
  refused_redis key (ok none) s = refl
  refused_redis key (ok (some existing)) s = refl
  refused_redis key (err e) s = refl

  check_key-redis :
      (given : Option String) (s : System R) → (check_key self given s).1.redis ≡ s.redis
  unfolding check_key
  check_key-redis none s = refl
  check_key-redis (some key) s =
      let looked : Action (System R) (Option Job) =
        if_store none (find_by_idempotency_key transport.codec s.utcnow key) in
      refused_redis key (looked s).0 (looked s).1 ∙ on_db-redis s.store none _ s

  write_outbox-redis : (job : Job) (s : System R) → (write_outbox self job s).1.redis ≡ s.redis
  unfolding write_outbox
  write_outbox-redis job s = on_db-redis s.store tt _ s

  check_depth-ok :
      (job : Job) (s : System R)
      → (check_depth self job s).0 ≡ ok tt
      → (n : ℕ) × (n < max_queue_depth)
        × (stream_length transport job.queue s.redis ≡ (ok n, (check_depth self job s).1.redis))
  unfolding check_depth
  check_depth-ok job s h = elim (Result-cases (stream_length transport job.queue s.redis).0) [
    | inl (n, e) ↦ (n, ground arith, ground arith)
    | inr (x, e) ↦ absurd (ground arith)
  ]

  -- A call that returned an id found room, and its XADD returned that id.
  pub enqueue-ok :
      (validate : Job → Result (Unit {0})) (job : Job) (key : Option String) (s after : System R)
      (id : String)
      → enqueue self validate job key s ≡ (ok id, after)
      → (n : ℕ) × (r : R) × (n < max_queue_depth)
        × (stream_length transport job.queue s.redis ≡ (ok n, r))
        × (xadd transport job.queue (keyed key job) (max_queue_depth + 1000) true r
            ≡ (ok id, after.redis))
  unfolding enqueue
  enqueue-ok validate job key s after id h =
      let (u, valid, h0) = continue-ok (validate job) _ s after id h in
      let s1 = (check_depth self job s).1 in
      let (v, checked, h1) = continue-ok (check_depth self job s).0 _ s1 after id h0 in
      let s2 = (check_key self (given_key key) s1).1 in
      let (x, free, h2) = continue-ok (check_key self (given_key key) s1).0 _ s2 after id h1 in
      let s3 = (write_outbox self (keyed key job) s2).1 in
      let (y, written, h3) =
        continue-ok (write_outbox self (keyed key job) s2).0 _ s3 after id h2 in
      let (n, room, measured) = check_depth-ok job s checked in
      let same : s3.redis ≡ s1.redis =
        write_outbox-redis (keyed key job) s2 ∙ check_key-redis (given_key key) s1 in
      let (q, r) =
        xadd transport job.queue (keyed key job) (max_queue_depth + 1000) true s3.redis in
      let (sent, left) =
        result_redis q r s3 after id (sym (write_stream-keyed self key job s3) ∙ h3) in
      (
        n,
        s1.redis,
        room,
        measured,
        ap (xadd transport job.queue (keyed key job) (max_queue_depth + 1000) true) (sym same)
            ∙ pair sent left,
      )

module _ {R : Type 0} (self : Enqueuer R) (queue : String) (view : R → Log)
    (laws : IsStream self.transport.redis
      (stream_key self.transport.prefix queue)
      (group_key self.transport.prefix queue)
      view) where
  open self use {transport, max_queue_depth}

  -- On a Redis with the laws of `IsStream`, a call that is accepted, of a job that survives the stream
  -- (`IsWritable`), puts it, with its key, at the end of what the queue of the job holds, under the id
  -- that the call returns.
  pub enqueue_refines :
      (validate : Job → Result (Unit {0})) (job : Job) (key : Option String) (s after : System R)
      (id : String) (q : List (String × String × Job))
      → job.queue ≡ queue
      → IsWritable transport.codec (keyed key job)
      → Represents transport queue view laws s.redis q
      → enqueue self validate job key s ≡ (ok id, after)
      → Represents transport queue view laws after.redis
          (q ++ (stream_key transport.prefix queue, id, keyed key job) ∷ [])
  unfolding stream_length
  enqueue_refines validate job key s after id q same w h e =
      let (n, r, room, measured, sent) = enqueue-ok self validate job key s after id e in
      let measured' : stream_length transport queue s.redis ≡ (ok n, r) =
        ap (λ name. stream_length transport name s.redis) (sym same) ∙ measured in
      let unchanged : view r ≡ view s.redis =
        ap (λ t. view t.1) (sym measured') ∙ laws.xlen_view s.redis in
      let counted = laws.xlen_ok s.redis r n measured' in
      let bound : suc (max_queue_depth + 999) ≡ max_queue_depth + 1000 = omega arith in
      let sent' : xadd transport queue (keyed key job) (suc (max_queue_depth + 999)) true r
          ≡ (ok id, after.redis) =
        rw (bound, sym same) sent in
      let small : length (view r).entries < suc (max_queue_depth + 999) =
        rw (unchanged, sym counted) (omega (arith, room)) in
      xadd_refines transport queue view laws (keyed key job) (max_queue_depth + 999) true id r
        after.redis q w small (rw unchanged h) sent'

  -- So a worker that reads next, with any name and any limit of one or more, gets the job, where nothing else
  -- is undelivered.
  pub enqueued_is_read :
      (validate : Job → Result (Unit {0})) (job : Job) (key : Option String) (s after : System R)
      (id : String) (now : DateTime) (worker : String) (count block : ℕ) (r : R)
      (jobs : List (String × String × Job))
      → job.queue ≡ queue
      → IsWritable transport.codec (keyed key job)
      → (view s.redis).waiting ≡ []
      → enqueue self validate job key s ≡ (ok id, after)
      → read_group transport now queue worker (suc count) block after.redis ≡ (ok jobs, r)
      → jobs ≡ (stream_key transport.prefix queue, id, keyed key job) ∷ []
  enqueued_is_read validate job key s after id now worker count block r jobs same w empty e read =
      let held = enqueue_refines validate job key s after id [] same w (rw empty tt) e in
      (read_group_refines transport queue view laws now worker (suc count) block after.redis r _
        jobs held read).0
      ∙ ap (λ rest. (stream_key transport.prefix queue, id, keyed key job) ∷ rest) (take-nil count)
