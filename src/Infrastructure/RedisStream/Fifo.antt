-- ===== src/Infrastructure/RedisStream/Fifo.antt =====
-- The transport of relayq/infrastructure/redis_stream.py as a queue: jobs leave a stream in the order in
-- which they were written to it, each to one worker.
pub mod Contents
pub mod History
pub mod Runs
use mathlib.Core.List.{append_assoc, append-nil}
use relayq.Prelude.{
  ℕ, zero, suc, ◌+◌, ◌<◌, String, ◌≡◌, refl, ◌∙◌, sym, ap, inl, inr, Bool, true, false, Option,
  none, some, List, [], ◌∷◌, ◌++◌, map, arith, length, take, drop,
}
use relayq.Effect.{Result, ok, err, ◌>>=◌, Result-cases}
use relayq.Domain.Json.{obj, Fields}
use relayq.Domain.Job.{Codec, DateTime, Job, JobStatus, member, to_dict}
use relayq.Infrastructure.Redis.{Wire, text, Entry}
use relayq.Infrastructure.Redis.Log.{Log, IsStream, added, delivered, replied, on_wire}
use relayq.Infrastructure.RedisStream.{
  Transport, stream_key, group_key, consumer_name, decode_entry, decode_entries, decode_streams,
  job_body, xadd, read_group,
}
use relayq.Infrastructure.RedisStream.Fifo.Contents.{
  Holds, Holds-take, Holds-append, decode_streams-replied,
}
use relayq.Infrastructure.RedisStream.Delivery.{decode_entry-job_body}

-- A job that survives the stream: its status is a member of `JobStatus`, and `json` and the ISO format give
-- back its dictionary and its time.
pub record IsWritable (codec : Codec) (job : Job) : Type 0 where
  pub status : JobStatus
  pub fields : Fields
  pub has_status : job.status ≡ member status
  pub dict : to_dict codec job ≡ ok fields
  pub iso : codec.fromisoformat (codec.isoformat job.created_at) ≡ some job.created_at
  pub json : codec.loads (codec.dumps (obj fields)) ≡ some (obj fields)

pub take-nil : {A : Type 0} (n : ℕ) → ◌≡◌ {A = List A} (take n []) []
take-nil zero = refl
take-nil (suc n) = refl

read_result :
    {A R : Type 0} (a b : A) (r s : R)
    → ◌≡◌ {A = Result A × R} (ok b, s) (ok a, r)
    → (a ≡ b) × (r ≡ s)
read_result a b r s e = (cc, cc)

module _ {R : Type 0} (self : Transport R) (queue : String) where
  open self use {codec, prefix, redis}

  abbrev pub key : String
  key = stream_key prefix queue

  module _ (view : R → Log) (laws : IsStream redis key (group_key prefix queue) view) where
    -- The stream's undelivered entries hold the jobs `q`.
    abbrev pub Represents : R → List (String × String × Job) → Type 0
    Represents s q = Holds codec key (view s).waiting q

    xadd-body :
        (job : Job) (maxlen : ℕ) (approximate : Bool) (id : String) (s r : R)
        → xadd self queue job (suc maxlen) approximate s ≡ (ok id, r)
        → (body : String) × (job_body self job ≡ ok body)
          × (redis.xadd key (("job", body) ∷ []) (some (suc maxlen)) approximate s ≡ (ok id, r))
    unfolding xadd
    xadd-body job maxlen approximate id s r e = elim (Result-cases (job_body self job)) [
      | inl (body, b) ↦ (body, b, rw b at e)
      | inr (x, b) ↦ absurd (ground arith)
    ]

    -- An entry with the body of a job is at the end of the queue.
    pub added_refines :
        (job : Job) (body id : String) (s r : R) (q : List (String × String × Job))
        → IsWritable codec job
        → job_body self job ≡ ok body
        → view r ≡ added id (("job", body) ∷ []) (view s)
        → Represents s q
        → Represents r (q ++ (key, id, job) ∷ [])
    added_refines job body id s r q w written e h =
        let entry : Entry = record { entry_id = id; fields = (text "job", text body) ∷ [] } in
        rw e (
          Holds-append codec key (view s).waiting q entry (key, id, job) h
            (λ now. rw written at (
              decode_entry-job_body self job w.status w.fields now key id w.has_status w.dict w.iso
                w.json)))

    -- `xadd` writes at the end of the queue.
    pub xadd_refines :
        (job : Job) (maxlen : ℕ) (approximate : Bool) (id : String) (s r : R)
        (q : List (String × String × Job))
        → IsWritable codec job
        → length (view s).entries < suc maxlen
        → Represents s q
        → xadd self queue job (suc maxlen) approximate s ≡ (ok id, r)
        → Represents r (q ++ (key, id, job) ∷ [])
    xadd_refines job maxlen approximate id s r q w room h e =
        let (body, written, sent) = xadd-body job maxlen approximate id s r e in
        added_refines job body id s r q w written
          (laws.xadd_ok (("job", body) ∷ []) (suc maxlen) approximate s r id room sent) h

    -- `read_group` takes the oldest jobs, as many as were asked for if there are so many.
    pub read_group_refines :
        (now : DateTime) (worker : String) (count block : ℕ) (s r : R)
        (q jobs : List (String × String × Job))
        → Represents s q
        → read_group self now queue worker count block s ≡ (ok jobs, r)
        → (jobs ≡ take count q) × Represents r (drop count q)
    unfolding read_group
    read_group_refines now worker count block s r q jobs h e =
        let call =
          redis.xreadgroup (group_key prefix queue) (consumer_name worker) key ">" count block s in
        elim (Result-cases call.0) [
          | inr (x, o) ↦ absurd (ground arith)
          | inl (reply, o) ↦
              let law =
                laws.xreadgroup_ok (consumer_name worker) count block s call.1 reply
                  (ap (λ t. (t, call.1)) o) in
              let split = Holds-take codec key count (view s).waiting q h in
              let read =
                decode_streams-replied codec key now (take count (view s).waiting) (take count q)
                  split.0 in
              let (same, after) =
                read_result jobs (take count q) r call.1 (rw (o, law.0, read) at e) in
              (same, rw (after, law.1) split.1)
        ]

    -- XREADGROUP answers the workers in the state `s`.
    abbrev pub Answers : String → R → Type 0
    Answers worker s =
        (count block : ℕ)
        → (reply : List (Wire × List Entry)) × ((redis.xreadgroup (group_key prefix queue)
              (consumer_name worker) key ">" count block s).0
            ≡ ok reply)

    -- Then `read_group` returns.
    read_group_returns :
        (now : DateTime) (worker : String) (count block : ℕ) (s : R)
        (q : List (String × String × Job))
        → Represents s q
        → Answers worker s
        → (read_group self now queue worker count block s).0 ≡ ok (take count q)
    unfolding read_group
    read_group_returns now worker count block s q h answers =
        let call =
          redis.xreadgroup (group_key prefix queue) (consumer_name worker) key ">" count block s in
        let (reply, o) = answers count block in
        let law =
          laws.xreadgroup_ok (consumer_name worker) count block s call.1 reply
            (ap (λ t. (t, call.1)) o) in
        let split = Holds-take codec key count (view s).waiting q h in
        let read =
          decode_streams-replied codec key now (take count (view s).waiting) (take count q)
            split.0 in
        rw (o, law.0, read)

    -- On a Redis with the laws of `IsStream`, a job that survives the stream (`IsWritable`), and that `xadd`
    -- has written where nothing else was undelivered and the bound left room, is what the next `read_group`
    -- returns, as the same job, for every worker whose XREADGROUP is answered and every limit from one on.
    pub read_group-xadd :
        (job : Job) (maxlen : ℕ) (approximate : Bool) (id : String) (now : DateTime)
        (worker : String) (count block : ℕ) (s r : R)
        → IsWritable codec job
        → length (view s).entries < suc maxlen
        → (view s).waiting ≡ []
        → xadd self queue job (suc maxlen) approximate s ≡ (ok id, r)
        → Answers worker r
        → (read_group self now queue worker (suc count) block r).0 ≡ ok ((key, id, job) ∷ [])
    read_group-xadd job maxlen approximate id now worker count block s r w room empty written
          answers =
        let held = xadd_refines job maxlen approximate id s r [] w room (rw empty tt) written in
        read_group_returns now worker (suc count) block r ((key, id, job) ∷ []) held answers
        ∙ ap (λ rest. ok ((key, id, job) ∷ rest)) (take-nil count)
