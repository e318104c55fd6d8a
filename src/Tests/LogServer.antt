-- ===== src/Tests/LogServer.antt =====
-- A Redis server that keeps one stream, and the laws that it obeys.
use relayq.Prelude.{
  ℕ, String, ◌≡◌, ◌≢◌, inr, refl, Bool, true, false, some, List, [], ◌∷◌, length, take, arith,
  str_eq, eq_iff,
}
use relayq.Effect.{Exception, Result, ok, err}
use relayq.Infrastructure.Redis.{Redis, Wire, Entry, text}
use relayq.Infrastructure.Redis.Log.{Log, IsStream, added, delivered, acknowledged, replied}
use relayq.Infrastructure.RedisStream.{Transport}
use relayq.Tests.Server.{codec}

abbrev pub stream : String
stream = "relayq:default:stream"

abbrev pub fresh_id : List Entry → String
fresh_id [] = "1-0"
fresh_id (e ∷ es) = "2-0"

abbrev pub put : Bool → List (String × String) → Log → Result String × Log
put true body s = (ok (fresh_id s.entries), added (fresh_id s.entries) body s)
put false body s = (ok "9-0", s)

abbrev pub log_server : Redis Log
log_server = record {
  xlen = λ key s. (ok (length s.entries), s);
  xadd = λ key body maxlen approximate s. put (str_eq key stream) body s;
  xack = λ key group id s. (ok 1, acknowledged id s);
  xgroup_create = λ key group id mkstream s. (ok tt, s);
  xreadgroup = λ group consumer key id count block s.
      (ok (replied key (take count s.waiting)), delivered consumer count s);
  xautoclaim = λ key group consumer idle start count s. (ok (some []), s);
  xrevrange = λ key end start count s. (ok [], s);
  xdel = λ key id s. (ok tt, s);
  scan = λ cursor pattern count s. (ok (0, text stream ∷ []), s);
}

put-added :
    (body : List (String × String)) (s r : Log) (id : String)
    → put true body s ≡ (ok id, r)
    → r ≡ added id body s
put-added body s r id e =
    let same : fresh_id s.entries ≡ id = cc in
    let after : r ≡ added (fresh_id s.entries) body s = cc in rw same at after

put_other :
    (key : String) (body : List (String × String)) (s : Log)
    → key ≢ stream
    → (put (str_eq key stream) body s).1 ≡ s
put_other key body s differ = ground (arith, eq_iff key stream)

xlen-ok :
    (s r : Log) (n : ℕ)
    → ◌≡◌ {A = Result ℕ × Log} (ok (length s.entries), s) (ok n, r)
    → n ≡ length s.entries
xlen-ok s r n e = cc

reply-ok :
    (reply asked : List (Wire × List Entry)) (s r : Log)
    → ◌≡◌ {A = Result (List (Wire × List Entry)) × Log} (ok asked, s) (ok reply, r)
    → (reply ≡ asked) × (r ≡ s)
reply-ok reply asked s r e = (cc, cc)

put_raised :
    {T : Type 0} (id : String) (e : Exception) {s r : Log}
    → ◌≡◌ {A = Result String × Log} (ok id, s) (err e, r)
    → T
put_raised id e h = absurd cc

pub log_server-IsStream : IsStream log_server stream "relayq:default:group" (λ s. s)
log_server-IsStream = record {
  xlen_view = λ s. refl;
  xlen_ok = xlen-ok;
  xadd_ok = λ body maxlen approximate s r id room e. put-added body s r id e;
  xadd_other = λ key body maxlen approximate s differ. put_other key body s differ;
  xack_view = λ id s. inr refl;
  xreadgroup_view = λ consumer count block s. inr refl;
  xreadgroup_ok = λ consumer count block s r reply e.
      reply-ok reply (replied stream (take count s.waiting)) (delivered consumer count s) r e;
  xadd_err = λ body maxlen approximate s r e room h. put_raised (fresh_id s.entries) e h;
  xautoclaim_waiting = λ consumer idle count start s. refl;
  xautoclaim_entries = λ consumer idle count start s. refl;
}

abbrev pub log_transport : Transport Log
log_transport = record { redis = log_server; prefix = "relayq"; codec = codec }

abbrev pub empty_log : Log
empty_log = record { entries = []; waiting = []; pending = [] }
