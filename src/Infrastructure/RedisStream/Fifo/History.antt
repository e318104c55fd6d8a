-- ===== src/Infrastructure/RedisStream/Fifo/History.antt =====
-- The runs of a queue through the transport of relayq/infrastructure/redis_stream.py, whatever its calls
-- return or raise.
use mathlib.Core.List.{append_assoc}
use relayq.Prelude.{
  ℕ, zero, suc, ◌<◌, String, ◌≡◌, refl, ◌∙◌, sym, ap, inl, inr, Bool, false, none, List, [], ◌∷◌,
  ◌++◌, length, take, drop,
}
use relayq.Effect.{Exception, ok, err, Result-cases}
use relayq.Effect.Action.{continue-lift}
use relayq.Domain.Job.{DateTime, Job}
use relayq.Infrastructure.Redis.Log.{Log, IsStream, added, delivered}
use relayq.Infrastructure.RedisStream.Names.{stream_key-ne-dlq_key}
use relayq.Infrastructure.RedisStream.{
  Transport, stream_key, group_key, dlq_key, dlq_fields, consumer_name, job_body, claimed, xadd,
  read_group, stream_length, xack, autoclaim_stale, xadd_dlq,
}
use relayq.Infrastructure.RedisStream.Fifo.Contents.{Holds, Holds-take, Holds-unique}
use relayq.Infrastructure.RedisStream.Fifo.{
  IsWritable, key, Represents, added_refines, xadd_refines, read_group_refines,
}

take-drop : {A : Type 0} (n : ℕ) (xs : List A) → take n xs ++ drop n xs ≡ xs
take-drop zero xs = refl
take-drop (suc n) [] = refl
take-drop (suc n) (x ∷ xs) = ap (λ t. x ∷ t) (take-drop n xs)

abbrev pub Jobs : Type 0
Jobs = List (String × String × Job)

module _ {R : Type 0} (self : Transport R) (queue : String) (view : R → Log) where
  open self use {codec, prefix, redis}

  -- The calls of the transport that neither write jobs to the queue nor read them, returning or raising.
  pub data Passes (s : R) : R → Type 0 where
    measures : Passes s (stream_length self queue s).1
    acks : (id : String) → Passes s (xack self queue id s).1
    claims :
        (now : DateTime) (worker : String) (idle count : ℕ)
        → Passes s (autoclaim_stale self now queue worker idle count s).1
    buries :
        (dead_queue : String) (job : Job) (reason : String)
        → Passes s (xadd_dlq self dead_queue job reason s).1

  -- Any sequence of calls, returning or raising, in which the jobs written survive the stream and the stream
  -- has room for each.
  pub data Runs (start : R) : R → Type 0 where
    begins : Runs start start
    passes : {s r : R} → Runs start s → Passes s r → Runs start r
    writes :
        {s : R} (job : Job) (maxlen : ℕ) (approximate : Bool)
        → Runs start s
        → IsWritable codec job
        → length (view s).entries < suc maxlen
        → Runs start (xadd self queue job (suc maxlen) approximate s).1
    reads :
        {s : R} (now : DateTime) (worker : String) (count block : ℕ)
        → Runs start s
        → Runs start (read_group self now queue worker count block s).1

  -- What happened in a run: the jobs that came onto the stream, each with the id that Redis gave it, and the
  -- jobs that Redis delivered, in the order of the calls. A call that raised may have had its effect on the
  -- stream or not: `written_unknown` is a write, and `reply_lost` a read, that had it.
  pub data History (start : R) : Jobs → Jobs → R → Type 0 where
    begins : History start [] [] start
    passes :
        {sent got : Jobs} {s r : R}
        → History start sent got s
        → Passes s r
        → History start sent got r
    writes :
        {sent got : Jobs} {s r : R} (job : Job) (id : String) (maxlen : ℕ) (approximate : Bool)
        → History start sent got s
        → IsWritable codec job
        → length (view s).entries < suc maxlen
        → xadd self queue job (suc maxlen) approximate s ≡ (ok id, r)
        → History start (sent ++ (key self queue, id, job) ∷ []) got r
    written_unknown :
        {sent got : Jobs} {s r : R} (job : Job) (id body : String) (maxlen : ℕ) (approximate : Bool)
        (e : Exception)
        → History start sent got s
        → IsWritable codec job
        → xadd self queue job (suc maxlen) approximate s ≡ (err e, r)
        → job_body self job ≡ ok body
        → view r ≡ added id (("job", body) ∷ []) (view s)
        → History start (sent ++ (key self queue, id, job) ∷ []) got r
    not_written :
        {sent got : Jobs} {s r : R} (job : Job) (maxlen : ℕ) (approximate : Bool) (e : Exception)
        → History start sent got s
        → xadd self queue job (suc maxlen) approximate s ≡ (err e, r)
        → view r ≡ view s
        → History start sent got r
    reads :
        {sent got : Jobs} {s r : R} (now : DateTime) (worker : String) (count block : ℕ)
        (jobs : Jobs)
        → History start sent got s
        → read_group self now queue worker count block s ≡ (ok jobs, r)
        → History start sent (got ++ jobs) r
    reply_lost :
        {sent got : Jobs} {s r : R} (now : DateTime) (worker : String) (count block : ℕ)
        (e : Exception) (jobs : Jobs)
        → History start sent got s
        → read_group self now queue worker count block s ≡ (err e, r)
        → view r ≡ delivered (consumer_name worker) count (view s)
        → Holds codec (key self queue) (take count (view s).waiting) jobs
        → History start sent (got ++ jobs) r
    not_read :
        {sent got : Jobs} {s r : R} (now : DateTime) (worker : String) (count block : ℕ)
        (e : Exception)
        → History start sent got s
        → read_group self now queue worker count block s ≡ (err e, r)
        → view r ≡ view s
        → History start sent got r

  module _ (laws : IsStream redis (stream_key prefix queue) (group_key prefix queue) view) where
    Passes-waiting : {s r : R} → Passes s r → (view r).waiting ≡ (view s).waiting
    unfolding stream_length xack autoclaim_stale xadd_dlq
    Passes-waiting {s} measures = ap (λ log. log.waiting) (laws.xlen_view s)
    Passes-waiting {s} (acks id) = elim (laws.xack_view id s) [
      | inl e ↦ rw e refl
      | inr e ↦ rw e refl
    ]
    Passes-waiting {s} (claims now worker idle count) =
        rw (continue-lift _ (claimed self now (stream_key prefix queue)) _)
          (laws.xautoclaim_waiting (consumer_name worker) idle count "0-0" s)
    Passes-waiting {s} (buries dead_queue job reason) =
        elim (Result-cases (dlq_fields self job reason)) [
          | inl (fields, e) ↦
              rw
                (
                  e,
                  laws.xadd_other (dlq_key prefix dead_queue) fields none false s
                      (λ k. stream_key-ne-dlq_key prefix queue dead_queue (sym k)),
                )
                refl
          | inr (x, e) ↦ rw e refl
        ]

    -- A delivery takes from the head.
    take_head :
        (got rest jobs : Jobs) (count : ℕ)
        → jobs ≡ take count rest
        → got ++ rest ≡ (got ++ jobs) ++ drop count rest
    take_head got rest jobs count e =
        ap (λ js. got ++ js) (sym (ap (λ js. js ++ drop count rest) e ∙ take-drop count rest))
        ∙ sym (append_assoc got jobs (drop count rest))

    -- What waits at the end of a history.
    pub History-ordered :
        {start s : R} {sent got : Jobs}
        → (view start).waiting ≡ []
        → History start sent got s
        → (rest : Jobs) × (sent ≡ got ++ rest) × Represents self queue view laws s rest
    History-ordered empty begins = ([], refl, rw empty tt)
    History-ordered empty (passes before pass) =
        let (rest, same, h) = History-ordered empty before in
        (rest, same, rw (Passes-waiting pass) h)
    History-ordered empty (writes {got} {s} {r} job id maxlen approximate before w room e) =
        let (rest, same, h) = History-ordered empty before in
        (
          rest ++ (key self queue, id, job) ∷ [],
          ap (λ js. js ++ (key self queue, id, job) ∷ []) same
              ∙ append_assoc got rest ((key self queue, id, job) ∷ []),
          xadd_refines self queue view laws job maxlen approximate id s r rest w room h e,
        )
    History-ordered empty
          (written_unknown {got} {s} {r} job id body maxlen approximate e before w raised b seen) =
        let (rest, same, h) = History-ordered empty before in
        (
          rest ++ (key self queue, id, job) ∷ [],
          ap (λ js. js ++ (key self queue, id, job) ∷ []) same
              ∙ append_assoc got rest ((key self queue, id, job) ∷ []),
          added_refines self queue view laws job body id s r rest w b seen h,
        )
    History-ordered empty (not_written job maxlen approximate e before raised seen) =
        let (rest, same, h) = History-ordered empty before in (rest, same, rw seen h)
    History-ordered empty (reads {got} {s} {r} now worker count block jobs before e) =
        let (rest, same, h) = History-ordered empty before in
        let (taken, left) =
          read_group_refines self queue view laws now worker count block s r rest jobs h e in
        (drop count rest, same ∙ take_head got rest jobs count taken, left)
    History-ordered empty
          (reply_lost {got} {s} {r} now worker count block e jobs before raised seen held) =
        let (rest, same, h) = History-ordered empty before in
        let (first, left) = Holds-take codec (key self queue) count (view s).waiting rest h in
        let taken = Holds-unique codec (key self queue) 0 _ jobs (take count rest) held first in
        (drop count rest, same ∙ take_head got rest jobs count taken, rw seen left)
    History-ordered empty (not_read now worker count block e before raised seen) =
        let (rest, same, h) = History-ordered empty before in (rest, same, rw seen h)
