-- ===== src/Infrastructure/RedisStream/DeadLetters.antt =====
-- What `read_dlq_entry` of relayq/infrastructure/redis_stream.py finds of what `xadd_dlq` has written.
use relayq.Prelude.{
  ℕ, zero, suc, ◌<◌, length, take, false, inl, inr, String, ◌≡◌, refl, sym, ap, ◌∙◌, none, some,
  List, [], ◌∷◌, ◌++◌, arith, eq_refl,
}
use relayq.Effect.{Result, ok, Result-cases}
use relayq.Domain.Json.{str, obj, Fields, get}
use relayq.Domain.Job.{Codec, DateTime, Job, JobStatus, member, to_dict, from_document}
use relayq.Domain.Job.RoundTrip.{from_dict-to_dict}
use relayq.Infrastructure.Redis.{Redis, text, Entry}
use relayq.Infrastructure.Redis.Log.{on_wire}
use relayq.Infrastructure.RedisStream.{
  Transport, dlq_key, dlq_fields, xadd_dlq, find_job, read_dlq_entry,
}

-- Entries that do not have the id are passed over.
pub find_job-append :
    (codec : Codec) (job_id : String) (xs ys : List Entry)
    → find_job codec job_id xs ≡ ok none
    → find_job codec job_id (xs ++ ys) ≡ find_job codec job_id ys
unfolding find_job
find_job-append codec job_id [] ys h = refl
find_job-append codec job_id (x ∷ xs) ys h = ground (arith, find_job-append codec job_id xs ys)

to_dict-id :
    (codec : Codec) (job : Job) (d : Fields)
    → to_dict codec job ≡ ok d
    → get "id" d ≡ some (str job.id)
unfolding to_dict get
to_dict-id codec job d e = ground arith

-- The entry at the head of the list has the id.
find_job-head :
    (codec : Codec) (entry_id job_id body reason time : String) (d : Fields) (older : List Entry)
    → codec.loads body ≡ some (obj d)
    → get "id" d ≡ some (str job_id)
    → find_job codec job_id (
        record {
          entry_id = entry_id;
          fields =
              (text "job", text body)
              ∷ (text "reason", text reason)
              ∷ (text "dlqed_at", text time)
              ∷ [];
        }
        ∷ older)
      ≡ ok (some (record { entry_id = entry_id; job = obj d; reason = reason }))
unfolding find_job
find_job-head codec entry_id job_id body reason time d older json has_id =
    ground (arith, eq_refl job_id)

ok-injective :
    (a b : List (String × String)) → ◌≡◌ {A = Result (List (String × String))} (ok a) (ok b) → a ≡ b
ok-injective a b e = cc

module _ {R : Type 0} (self : Transport R) where
  open self use {codec}

  dlq_fields-ok :
      (job : Job) (reason : String) (d : Fields)
      → to_dict codec job ≡ ok d
      → dlq_fields self job reason
        ≡ ok (
            ("job", codec.dumps (obj d))
            ∷ ("reason", reason)
            ∷ ("dlqed_at", codec.dumps (str (codec.isoformat job.created_at)))
            ∷ [])
  unfolding dlq_fields
  dlq_fields-ok job reason d e = rw (e, dlq_fields)

  -- An entry with the fields that `xadd_dlq` writes, behind newer ones that do not have the id.
  find_job-dlq_fields :
      (job : Job) (d : Fields) (reason entry_id : String) (fields : List (String × String))
      (newer older : List Entry)
      → to_dict codec job ≡ ok d
      → codec.loads (codec.dumps (obj d)) ≡ some (obj d)
      → find_job codec job.id newer ≡ ok none
      → dlq_fields self job reason ≡ ok fields
      → find_job codec job.id
          (newer ++ record { entry_id = entry_id; fields = on_wire fields } ∷ older)
        ≡ ok (some (record { entry_id = entry_id; job = obj d; reason = reason }))
  find_job-dlq_fields job d reason entry_id fields newer older dict json absent encoded =
      let head =
        find_job-head codec entry_id job.id (codec.dumps (obj d)) reason
          (codec.dumps (str (codec.isoformat job.created_at))) d older json
          (to_dict-id codec job d dict) in
      let same = ok-injective fields _ (sym encoded ∙ dlq_fields-ok job reason d dict) in
      rw same (find_job-append codec job.id newer _ absent ∙ head)

-- What Redis documents of a stream that is written without a bound: an entry goes to its end, and XREVRANGE
-- from the end on gives as many entries as were asked for, newest first; so is `view`.
pub record IsDlq {R : Type 0} (redis : Redis R) (stream : String) (view : R → List Entry)
    : Type 0 where
  pub xadd_ok :
      (body : List (String × String)) (s r : R) (id : String)
      → redis.xadd stream body none false s ≡ (ok id, r)
      → view r ≡ record { entry_id = id; fields = on_wire body } ∷ view s
  pub xrevrange_ok :
      (count : ℕ) (s : R) (reply : List Entry)
      → (redis.xrevrange stream "+" "-" count s).0 ≡ ok reply
      → reply ≡ take count (view s)

take-append :
    (n : ℕ) (xs ys : List Entry) (y : Entry)
    → length xs < n
    → (zs : List Entry) × (take n (xs ++ y ∷ ys) ≡ xs ++ y ∷ zs)
take-append zero xs ys y h = absurd (omega (arith, h))
take-append (suc n) [] ys y h = (take n ys, refl)
take-append (suc n) (x ∷ xs) ys y h =
    let (zs, e) = take-append n xs ys y (omega (arith, h)) in (zs, ap (λ t. x ∷ t) e)

module _ {R : Type 0} (self : Transport R) (queue : String) (view : R → List Entry)
    (laws : IsDlq self.redis (dlq_key self.prefix queue) view) where
  open self use {codec, redis, prefix}

  xadd_dlq-sent :
      (job : Job) (reason id : String) (s r : R)
      → xadd_dlq self queue job reason s ≡ (ok id, r)
      → (fields : List (String × String)) × (dlq_fields self job reason ≡ ok fields)
        × (redis.xadd (dlq_key prefix queue) fields none false s ≡ (ok id, r))
  unfolding xadd_dlq
  xadd_dlq-sent job reason id s r e = elim (Result-cases (dlq_fields self job reason)) [
    | inl (fields, f) ↦ (fields, f, rw f at e)
    | inr (x, f) ↦ absurd (ground arith)
  ]

  -- On a Redis with the laws of `IsDlq`, which answers XREVRANGE, a job that `xadd_dlq` has written is found by
  -- `read_dlq_entry`, as long as the stream is as `xadd_dlq` left it but for fewer than 200 entries written
  -- after it, all of which the search passes over (none has the job's id, or makes it raise): with the
  -- entry's id, the reason, and a document that `Job.from_dict` reads as the same job. (The status is a
  -- member of `JobStatus`, and `json` and the ISO format give back the dictionary and the time.)
  pub read_dlq_entry-xadd_dlq :
      (job : Job) (status : JobStatus) (d : Fields) (now : DateTime) (reason id : String)
      (s r t : R) (newer : List Entry)
      → job.status ≡ member status
      → to_dict codec job ≡ ok d
      → codec.fromisoformat (codec.isoformat job.created_at) ≡ some job.created_at
      → codec.loads (codec.dumps (obj d)) ≡ some (obj d)
      → xadd_dlq self queue job reason s ≡ (ok id, r)
      → view t ≡ newer ++ view r
      → length newer < 200
      → find_job codec job.id newer ≡ ok none
      → ((count : ℕ)
          → (reply : List Entry) × ((redis.xrevrange (dlq_key prefix queue) "+" "-" count t).0
              ≡ ok reply))
      → ((read_dlq_entry self queue job.id t).0
          ≡ ok (some (record { entry_id = id; job = obj d; reason = reason })))
        × (from_document codec now (obj d) ≡ ok job)
  unfolding read_dlq_entry
  read_dlq_entry-xadd_dlq job status d now reason id s r t newer has_status dict iso json written
        later few absent answers =
      let (fields, encoded, sent) = xadd_dlq-sent job reason id s r written in
      let (reply, answered) = answers 200 in
      let entry : Entry = record { entry_id = id; fields = on_wire fields } in
      let whole : view t ≡ newer ++ entry ∷ view s =
        later ∙ ap (λ old. newer ++ old) (laws.xadd_ok fields s r id sent) in
      let (older, cut) = take-append 200 newer (view s) entry few in
      let same : reply ≡ newer ++ entry ∷ older =
        laws.xrevrange_ok 200 t reply answered ∙ ap (take 200) whole ∙ cut in
      let found =
        find_job-dlq_fields self job d reason id fields newer older dict json absent encoded in
      (
        rw (answered, same) found,
        unfold from_document in rw dict at (from_dict-to_dict codec now job status has_status iso),
      )
