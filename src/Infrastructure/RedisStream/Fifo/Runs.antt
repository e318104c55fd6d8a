-- ===== src/Infrastructure/RedisStream/Fifo/Runs.antt =====
-- Every run of a queue through the transport of relayq/infrastructure/redis_stream.py has a history.
use relayq.Prelude.{
  ℕ, suc, ◌<◌, String, ◌≡◌, ◌⊎◌, refl, ◌∙◌, sym, ap, inl, inr, Bool, some, [], ◌∷◌, ◌++◌, length,
  take,
}
use relayq.Effect.{Result, ok, err, Result-cases}
use relayq.Effect.Action.{continue-lift}
use relayq.Domain.Json.{obj}
use relayq.Domain.Job.{DateTime, Job}
use relayq.Infrastructure.Redis.Log.{Log, IsStream, delivered}
use relayq.Infrastructure.RedisStream.{
  Transport, stream_key, group_key, consumer_name, decode_streams, job_body, xadd, read_group,
}
use relayq.Infrastructure.RedisStream.Fifo.Contents.{Holds-take}
use relayq.Infrastructure.RedisStream.Fifo.{IsWritable, key, Represents}
use relayq.Infrastructure.RedisStream.Fifo.History.{
  Jobs, Runs, History, begins, passes, writes, written_unknown, not_written, reads, reply_lost,
  not_read, History-ordered,
}

pair : {A R : Type 0} (call : Result A × R) (a : Result A) → call.0 ≡ a → call ≡ (a, call.1)
pair {A} call a e = ap (λ (r : Result A). (r, call.1)) e

module _ {R : Type 0} (self : Transport R) (queue : String) (view : R → Log)
    (laws : IsStream self.redis
      (stream_key self.prefix queue)
      (group_key self.prefix queue)
      view) where
  open self use {codec, prefix, redis}

  xadd-writable :
      (job : Job) (maxlen : ℕ) (approximate : Bool) (s : R) (w : IsWritable codec job)
      → (job_body self job ≡ ok (codec.dumps (obj w.fields)))
        × (xadd self queue job (suc maxlen) approximate s
            ≡ redis.xadd
                (stream_key prefix queue)
                (("job", codec.dumps (obj w.fields)) ∷ [])
                (some (suc maxlen))
                approximate
                s)
  unfolding xadd
  xadd-writable job maxlen approximate s w =
      let encoded : job_body self job ≡ ok (codec.dumps (obj w.fields)) =
        rw (w.dict, job_body) refl in
      (encoded, rw encoded refl)

  -- A write is one of the three writes of a history.
  write_recorded :
      {start s : R} {sent got : Jobs} (job : Job) (maxlen : ℕ) (approximate : Bool)
      → History self queue view start sent got s
      → IsWritable codec job
      → length (view s).entries < suc maxlen
      → (sent' : Jobs) × History self queue view start sent' got
          (xadd self queue job (suc maxlen) approximate s).1
  write_recorded {s} {sent} job maxlen approximate before w room =
      let call = xadd self queue job (suc maxlen) approximate s in
      let (encoded, same) = xadd-writable job maxlen approximate s w in
      elim (Result-cases call.0) [
        | inl (id, e) ↦ (_, writes job id maxlen approximate before w room (pair call (ok id) e))
        | inr (x, e) ↦
            let raised = pair call (err x) e in
            elim (laws.xadd_err _ (suc maxlen) approximate s call.1 x room (sym same ∙ raised)) [
              | inl unseen ↦ (sent, not_written job maxlen approximate x before raised unseen)
              | inr (id, seen) ↦
                  (_, written_unknown job id _ maxlen approximate x before w raised encoded seen)
            ]
      ]

  read_group-view :
      (now : DateTime) (worker : String) (count block : ℕ) (s : R)
      → (view (read_group self now queue worker count block s).1 ≡ view s)
        ⊎ (view (read_group self now queue worker count block s).1
            ≡ delivered (consumer_name worker) count (view s))
  unfolding read_group
  read_group-view now worker count block s =
      rw (continue-lift _ (decode_streams codec now) _)
        (laws.xreadgroup_view (consumer_name worker) count block s)

  -- So is a read, of what the stream holds.
  read_recorded :
      {start s : R} {sent got : Jobs} (now : DateTime) (worker : String) (count block : ℕ)
      (rest : Jobs)
      → History self queue view start sent got s
      → Represents self queue view laws s rest
      → (got' : Jobs) × History self queue view start sent got'
          (read_group self now queue worker count block s).1
  read_recorded {s} {got} now worker count block rest before held =
      let call = read_group self now queue worker count block s in
      elim (Result-cases call.0) [
        | inl (jobs, e) ↦ (_, reads now worker count block jobs before (pair call (ok jobs) e))
        | inr (x, e) ↦
            let raised = pair call (err x) e in
            elim (read_group-view now worker count block s) [
              | inl unseen ↦ (got, not_read now worker count block x before raised unseen)
              | inr seen ↦
                  let (first, left) =
                    Holds-take codec (key self queue) count (view s).waiting rest held in
                  (
                    _,
                    reply_lost now worker count block x (take count rest) before raised seen first,
                  )
            ]
      ]

  Runs-History :
      {start s : R}
      → (view start).waiting ≡ []
      → Runs self queue view start s
      → (sent got : Jobs) × History self queue view start sent got s
  Runs-History empty begins = ([], [], begins)
  Runs-History empty (passes before pass) =
      let (sent, got, h) = Runs-History empty before in (sent, got, passes h pass)
  Runs-History empty (writes job maxlen approximate before w room) =
      let (sent, got, h) = Runs-History empty before in
      let (sent', h') = write_recorded job maxlen approximate h w room in (sent', got, h')
  Runs-History empty (reads now worker count block before) =
      let (sent, got, h) = Runs-History empty before in
      let (rest, same, held) = History-ordered self queue view laws empty h in
      let (got', h') = read_recorded now worker count block rest h held in (sent, got', h')

  -- On a Redis with the laws of `IsStream`, jobs leave the queue in the order in which they came to it, each
  -- once. Take any sequence of calls of the transport, on a queue that has nothing undelivered: writes of
  -- jobs that survive the stream (`IsWritable`), with room for each, reads by any workers, measurements,
  -- acknowledgements, claims and dead letters, in any order, returning or raising. It has a history, of the
  -- jobs that came onto the stream and of those that were delivered; the delivered jobs are the first
  -- of those that came, in their order, and the rest waits.
  pub fifo :
      {start s : R}
      → (view start).waiting ≡ []
      → Runs self queue view start s
      → (sent got rest : Jobs) × History self queue view start sent got s
        × (sent ≡ got ++ rest)
        × Represents self queue view laws s rest
  fifo empty run =
      let (sent, got, h) = Runs-History empty run in
      let (rest, same, held) = History-ordered self queue view laws empty h in
      (sent, got, rest, h, same, held)
