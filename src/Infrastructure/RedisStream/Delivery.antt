-- ===== src/Infrastructure/RedisStream/Delivery.antt =====
-- What `read_group` of relayq/infrastructure/redis_stream.py makes of the entries of a reply.
use relayq.Prelude.{String, ◌≡◌, refl, ap, Option, none, some, List, [], ◌∷◌, ◌++◌, arith, inl, inr}
use relayq.Effect.{Result, ok, err, ◌>>=◌, Result-cases}
use relayq.Domain.Json.{obj, Fields}
use relayq.Domain.Job.{Codec, DateTime, Job, JobStatus, member, to_dict, from_dict, from_document}
use relayq.Domain.Job.RoundTrip.{from_dict-to_dict}
use relayq.Infrastructure.Redis.{Wire, text, Entry}
use relayq.Infrastructure.RedisStream.{
  Transport, load_job, decode_entry, decode_entries, job_body, prepend,
}

abbrev Jobs : Type 0
Jobs = List (String × String × Job)

prepend-append :
    (o : Option (String × String × Job)) (a b : Jobs) → prepend o (a ++ b) ≡ prepend o a ++ b
prepend-append none a b = refl
prepend-append (some j) a b = refl

prepend_both :
    (o : Option (String × String × Job)) (a b : Result Jobs)
    → ((a >>= λ first. b >>= λ second. ok (first ++ second)) >>= λ jobs. ok (prepend o jobs))
      ≡ ((a >>= λ jobs. ok (prepend o jobs)) >>= λ first. b >>= λ second. ok (first ++ second))
prepend_both o (ok first) (ok second) = ap ok (prepend-append o first second)
prepend_both o (ok first) (err e) = refl
prepend_both o (err e) b = refl

self_bind : (b : Result Jobs) → b ≡ (b >>= λ second. ok ([] ++ second))
self_bind (ok jobs) = refl
self_bind (err e) = refl

-- Reading a reply in two parts is reading each of them, and raises what the first of them raises.
pub decode_entries-append :
    (codec : Codec) (now : DateTime) (stream : Wire) (xs ys : List Entry)
    → decode_entries codec now stream (xs ++ ys) ≡ (do
      first ← decode_entries codec now stream xs
      second ← decode_entries codec now stream ys
      ok (first ++ second))
unfolding decode_entries
decode_entries-append codec now stream [] ys = self_bind (decode_entries codec now stream ys)
decode_entries-append codec now stream (x ∷ xs) ys =
    elim (Result-cases (decode_entry codec now stream x)) [
      | inr (e, o) ↦ rw o
      | inl (j, o) ↦
          rw (o, decode_entries-append codec now stream xs ys)
            (prepend_both j (decode_entries codec now stream xs)
              (decode_entries codec now stream ys))
    ]

module _ {R : Type 0} (self : Transport R) where
  open self use {codec}

  -- The body that `xadd` writes.
  job_body-ok :
      (job : Job) (d : Fields)
      → to_dict codec job ≡ ok d
      → job_body self job ≡ ok (codec.dumps (obj d))
  unfolding job_body
  job_body-ok job d e = rw (e, job_body)

  -- The body that `xadd` writes for a job is read back by `read_group` as the same job: its status is a
  -- member of `JobStatus`, and `json` and the ISO format give back the dictionary and the time.
  pub decode_entry-job_body :
      (job : Job) (s : JobStatus) (d : Fields) (now : DateTime) (stream entry_id : String)
      → job.status ≡ member s
      → to_dict codec job ≡ ok d
      → codec.fromisoformat (codec.isoformat job.created_at) ≡ some job.created_at
      → codec.loads (codec.dumps (obj d)) ≡ some (obj d)
      → (do
        body ← job_body self job
        decode_entry codec now
            (text stream)
            (record { entry_id = entry_id; fields = (text "job", text body) ∷ [] }))
        ≡ ok (some (stream, entry_id, job))
  unfolding decode_entry load_job from_document
  decode_entry-job_body job s d now stream entry_id status dict iso json =
      let back : from_dict codec now d ≡ ok job =
        rw dict at (from_dict-to_dict codec now job s status iso) in
      rw (job_body-ok job d dict) (ground (arith, back))
