-- ===== src/Domain/Job/RoundTrip.antt =====
-- `Job.from_dict` against `Job.to_dict` of relayq/domain/job.py.
use relayq.Prelude.{String, ◌≡◌, refl, Option, none, some, arith}
use relayq.Effect.{ok, ◌>>=◌}
use relayq.Domain.Json.{str}
use relayq.Domain.Job.{
  Codec, DateTime, Job, JobStatus, pending, processing, completed, failed, dead, member, to_dict,
  from_dict, value, parse_status, key_or_none, optional_str, status_or_pending,
}

pub parse_status-value : (s : JobStatus) → parse_status (value s) ≡ ok s
unfolding parse_status value
parse_status-value pending = refl
parse_status-value processing = refl
parse_status-value completed = refl
parse_status-value failed = refl
parse_status-value dead = refl

pub key_or_none-optional_str : (o : Option String) → key_or_none (some (optional_str o)) ≡ ok o
unfolding key_or_none
key_or_none-optional_str none = refl
key_or_none-optional_str (some k) = refl

pub status_or_pending-value :
    (s : JobStatus) → status_or_pending (some (str (value s))) ≡ ok (member s)
unfolding status_or_pending
status_or_pending-value s = rw parse_status-value

-- A job whose status is a member of `JobStatus`, and whose creation time survives the ISO format,
-- has a dictionary, and `from_dict` reads the same job back from it, whatever the time.
pub from_dict-to_dict :
    (codec : Codec) (now : DateTime) (job : Job) (s : JobStatus)
    → job.status ≡ member s
    → codec.fromisoformat (codec.isoformat job.created_at) ≡ some job.created_at
    → (to_dict codec job >>= from_dict codec now) ≡ ok job
unfolding to_dict from_dict
from_dict-to_dict codec now job s member_status iso =
    ground (arith, status_or_pending-value s, key_or_none-optional_str job.idempotency_key)
