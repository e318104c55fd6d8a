-- ===== src/Tests/Letters.antt =====
-- Tests of the dead letters and of a poisoned stream, relayq/infrastructure/redis_stream.py.
use relayq.Prelude.{String, ◌≡◌, refl, some, List, [], ◌∷◌, take, arith, str_eq, if◌then◌else◌}
use relayq.Effect.{ok, err, value_error}
use relayq.Domain.Json.{Fields, obj, str, field, end, get}
use relayq.Domain.Job.{new, pending, to_dict, from_document, parse_status}
use relayq.Infrastructure.Redis.{Redis, Entry, text}
use relayq.Infrastructure.Redis.Log.{Log, on_wire, delivered}
use relayq.Infrastructure.RedisStream.{
  Transport, stream_key, dlq_key, consumer_name, xadd_dlq, find_job, read_dlq_entry, read_group,
  decode_entries,
}
use relayq.Infrastructure.RedisStream.DeadLetters.{IsDlq, read_dlq_entry-xadd_dlq}
use relayq.Infrastructure.RedisStream.Poison.{IsForeign, read_group-foreign}
use relayq.Tests.Server.{codec, job}
use relayq.Tests.Store.{job_fields}
use relayq.Tests.LogServer.{log_transport, empty_log}
use relayq.Tests.Queue.{reading_log-IsStream}

-- A Redis of one DLQ, newest letter first.
abbrev letters : Redis (List Entry)
letters = record {
  xlen = λ key s. (ok 0, s);
  xadd = λ key body maxlen approximate s.
      (ok "2-0", record { entry_id = "2-0"; fields = on_wire body } ∷ s);
  xack = λ stream group id s. (ok 1, s);
  xgroup_create = λ stream group id mkstream s. (ok tt, s);
  xreadgroup = λ group consumer stream id count block s. (ok [], s);
  xautoclaim = λ stream group consumer idle start count s. (ok (some []), s);
  xrevrange = λ key end start count s. (ok (take count s), s);
  xdel = λ key id s. (ok tt, s);
  scan = λ cursor pattern count s. (ok (0, []), s);
}

abbrev letter_transport : Transport (List Entry)
letter_transport = record {
  redis = letters;
  prefix = "relayq";
  codec = record codec {
    loads = λ t. if str_eq t "{}" then some (obj end) else some (obj job_fields);
  };
}

letters-IsDlq : (key : String) → IsDlq letters key (λ s. s)
letters-IsDlq key = record {
  xadd_ok = λ body s r id e. ground arith;
  xrevrange_ok = λ count s reply e. ground arith;
}

abbrev written : List Entry
written = (xadd_dlq letter_transport "default" job "boom" []).1

-- A newer letter, without an id.
abbrev newer_letter : Entry
newer_letter = record { entry_id = "3-0"; fields = (text "job", text "{}") ∷ [] }

read_dlq_entry-xadd_dlq_example :
    ((read_dlq_entry letter_transport "default" "job_1" (newer_letter ∷ written)).0
      ≡ ok (some (record { entry_id = "2-0"; job = obj job_fields; reason = "boom" })))
    × (from_document letter_transport.codec 8 (obj job_fields) ≡ ok job)
unfolding new to_dict xadd_dlq find_job
read_dlq_entry-xadd_dlq_example =
    read_dlq_entry-xadd_dlq letter_transport "default" (λ s. s)
      (letters-IsDlq (dlq_key "relayq" "default")) job pending job_fields 8 "boom" "2-0" [] written
      (newer_letter ∷ written) (newer_letter ∷ []) refl refl refl refl refl refl (omega arith) refl
      (λ count. (_, refl))

-- A stream with a job whose status only a later version has.
abbrev foreign_fields : Fields
foreign_fields =
    field "id" (str "job_2") (field "kind" (str "ping") (field "status" (str "paused") end))

abbrev foreign_entry : Entry
foreign_entry = record { entry_id = "4-0"; fields = (text "job", text "{paused}") ∷ [] }

abbrev foreign_log : Log
foreign_log = record empty_log { entries = foreign_entry ∷ []; waiting = foreign_entry ∷ [] }

abbrev foreign_transport : Transport Log
foreign_transport = record log_transport {
  codec = record codec { loads = λ t. some (obj foreign_fields) };
}

foreign : IsForeign foreign_transport.codec foreign_entry
unfolding get parse_status
foreign = record {
  body = "{paused}";
  fields = foreign_fields;
  id = "job_2";
  kind = "ping";
  status = "paused";
  has_body = refl;
  json = refl;
  has_id = refl;
  has_kind = refl;
  has_status = refl;
  unknown = refl;
}

abbrev delivered_log : Log
delivered_log = delivered (consumer_name "w1") 10 foreign_log

read_group-foreign_example :
    (read_group foreign_transport 8 "default" "w1" 10 0 foreign_log
      ≡ (err value_error, delivered_log))
    × (delivered_log ≡ delivered (consumer_name "w1") 10 foreign_log)
unfolding stream_key decode_entries
read_group-foreign_example =
    read_group-foreign foreign_transport "default" (λ s. s) reading_log-IsStream 8 "w1" 10 0
      foreign_log delivered_log [] [] foreign_entry [] _ refl refl foreign refl
