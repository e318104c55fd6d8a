-- ===== src/Infrastructure/RedisStream/Poison.antt =====
-- An entry that `read_group` of relayq/infrastructure/redis_stream.py does not survive.
use relayq.Prelude.{ℕ, String, ◌≡◌, ◌∙◌, some, List, [], ◌∷◌, ◌++◌, take, arith}
use relayq.Effect.{Exception, ok, err, value_error}
use relayq.Domain.Json.{str, obj, Fields, get}
use relayq.Domain.Job.{Codec, DateTime, Job, parse_status, from_document, from_dict}
use relayq.Infrastructure.Redis.{Wire, text, Entry}
use relayq.Infrastructure.Redis.Log.{Log, IsStream, delivered, replied}
use relayq.Infrastructure.RedisStream.{
  Transport, stream_key, group_key, consumer_name, load_job, load_entry, decode_entry,
  decode_entries, decode_streams, read_group,
}
use relayq.Infrastructure.RedisStream.Delivery.{decode_entries-append}

-- A job's document, with an id and a kind, and with a status that is none of `JobStatus`.
pub record IsForeign (codec : Codec) (e : Entry) : Type 0 where
  pub body : String
  pub fields : Fields
  pub id : String
  pub kind : String
  pub status : String
  pub has_body : e.fields ≡ (text "job", text body) ∷ []
  pub json : codec.loads body ≡ some (obj fields)
  pub has_id : get "id" fields ≡ some (str id)
  pub has_kind : get "kind" fields ≡ some (str kind)
  pub has_status : get "status" fields ≡ some (str status)
  pub unknown : parse_status status ≡ err value_error

-- `JobStatus(…)` raises a `ValueError`, which the `except` of the loop lets through.
decode_entry-foreign :
    (codec : Codec) (now : DateTime) (stream : String) (e : Entry)
    → IsForeign codec e
    → decode_entry codec now (text stream) e ≡ err value_error
unfolding decode_entry load_entry load_job from_document from_dict
decode_entry-foreign codec now stream e f =
    rw f.has_body (ground (arith, f.json, f.has_id, f.has_kind, f.has_status, f.unknown))

decode_streams-replied_err :
    (codec : Codec) (now : DateTime) (stream : String) (es : List Entry) (x : Exception)
    → decode_entries codec now (text stream) es ≡ err x
    → decode_streams codec now (replied stream es) ≡ err x
unfolding decode_streams decode_entries
decode_streams-replied_err codec now stream [] x h = absurd (ground arith)
decode_streams-replied_err codec now stream (e ∷ es) x h = rw h

module _ {R : Type 0} (self : Transport R) (queue : String) (view : R → Log)
    (laws : IsStream self.redis
      (stream_key self.prefix queue)
      (group_key self.prefix queue)
      view) where
  open self use {codec, redis, prefix}

  -- On a Redis with the laws of `IsStream`, a job with an unknown status that a read of the stream comes to,
  -- behind entries that decode, makes the whole call of `read_group` raise a `ValueError`: where XREADGROUP
  -- is answered, the jobs before it and behind it are delivered to this consumer, and none is returned.
  pub read_group-foreign :
      (now : DateTime) (worker : String) (count block : ℕ) (s r : R) (xs ys : List Entry)
      (e : Entry) (jobs : List (String × String × Job)) (reply : List (Wire × List Entry))
      → take count (view s).waiting ≡ xs ++ e ∷ ys
      → decode_entries codec now (text (stream_key prefix queue)) xs ≡ ok jobs
      → IsForeign codec e
      → redis.xreadgroup
          (group_key prefix queue)
          (consumer_name worker)
          (stream_key prefix queue)
          ">"
          count
          block
          s
        ≡ (ok reply, r)
      → (read_group self now queue worker count block s ≡ (err value_error, r))
        × (view r ≡ delivered (consumer_name worker) count (view s))
  unfolding read_group
  read_group-foreign now worker count block s r xs ys e jobs reply next before foreign answered =
      let law = laws.xreadgroup_ok (consumer_name worker) count block s r reply answered in
      let bad = decode_entry-foreign codec now (stream_key prefix queue) e foreign in
      let raises : decode_entries codec now (text (stream_key prefix queue)) (xs ++ e ∷ ys)
          ≡ err value_error =
        decode_entries-append codec now (text (stream_key prefix queue)) xs (e ∷ ys)
        ∙ rw before (unfold decode_entries in rw bad) in
      let whole =
        decode_streams-replied_err codec now (stream_key prefix queue) _ value_error raises in
      (rw (answered, law.0, next, whole), law.1)
