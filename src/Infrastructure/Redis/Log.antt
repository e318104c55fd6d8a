-- ===== src/Infrastructure/Redis/Log.antt =====
-- What Redis documents of a stream with a consumer group, as far as RelayQ relies on it.
use relayq.Prelude.{
  ℕ, ◌<◌, String, ◌≡◌, ◌≢◌, ◌⊎◌, Bool, false, ◌||◌, Option, some, List, [], ◌∷◌, ◌++◌, map, length,
  take, drop, str_eq, if◌then◌else◌,
}
use relayq.Effect.{Exception, ok, err}
use relayq.Infrastructure.Redis.{Redis, Wire, text, Entry}

-- The entries of a stream, oldest first; those that the group has not delivered; and those that it has
-- delivered to a consumer and that are not acknowledged.
pub record Log : Type 0 where
  pub entries : List Entry
  pub waiting : List Entry
  pub pending : List (String × Entry)

-- Fields as a client that decodes replies gets them.
abbrev pub on_wire : List (String × String) → List (Wire × Wire)
on_wire [] = []
on_wire ((name, value) ∷ rest) = (text name, text value) ∷ on_wire rest

abbrev pub added : String → List (String × String) → Log → Log
added id body log =
    let entry : Entry = record { entry_id = id; fields = on_wire body } in
    record log { entries = log.entries ++ entry ∷ []; waiting = log.waiting ++ entry ∷ [] }

abbrev pub delivered : String → ℕ → Log → Log
delivered consumer count log = record log {
  waiting = drop count log.waiting;
  pending = log.pending ++ map (λ e. (consumer, e)) (take count log.waiting);
}

unfoldable pub without : String → List (String × Entry) → List (String × Entry)
without id [] = []
without id ((consumer, e) ∷ rest) =
    if str_eq e.entry_id id then without id rest else (consumer, e) ∷ without id rest

abbrev pub acknowledged : String → Log → Log
acknowledged id log = record log { pending = without id log.pending }

unfoldable pub is_pending : String → List (String × Entry) → Bool
is_pending id [] = false
is_pending id ((consumer, e) ∷ rest) = str_eq e.entry_id id || is_pending id rest

-- The reply of XREADGROUP, which has no stream in it where there is nothing to deliver.
abbrev pub replied : String → List Entry → List (Wire × List Entry)
replied stream [] = []
replied stream (e ∷ es) = (text stream, e ∷ es) ∷ []

-- A command that returned has had its effect; one that raised may have had it or not.
pub record IsStream {R : Type 0} (redis : Redis R) (stream group : String) (view : R → Log)
    : Type 0 where
  pub xlen_view : (s : R) → view (redis.xlen stream s).1 ≡ view s
  pub xlen_ok : (s r : R) (n : ℕ) → redis.xlen stream s ≡ (ok n, r) → n ≡ length (view s).entries
  -- below the bound nothing is trimmed
  pub xadd_ok :
      (body : List (String × String)) (maxlen : ℕ) (approximate : Bool) (s r : R) (id : String)
      → length (view s).entries < maxlen
      → redis.xadd stream body (some maxlen) approximate s ≡ (ok id, r)
      → view r ≡ added id body (view s)
  pub xadd_err :
      (body : List (String × String)) (maxlen : ℕ) (approximate : Bool) (s r : R) (e : Exception)
      → length (view s).entries < maxlen
      → redis.xadd stream body (some maxlen) approximate s ≡ (err e, r)
      → (view r ≡ view s) ⊎ ((id : String) × (view r ≡ added id body (view s)))
  pub xadd_other :
      (key : String) (body : List (String × String)) (maxlen : Option ℕ) (approximate : Bool)
      (s : R)
      → key ≢ stream
      → view (redis.xadd key body maxlen approximate s).1 ≡ view s
  pub xack_view :
      (id : String) (s : R)
      → (view (redis.xack stream group id s).1 ≡ view s)
        ⊎ (view (redis.xack stream group id s).1 ≡ acknowledged id (view s))
  pub xreadgroup_view :
      (consumer : String) (count block : ℕ) (s : R)
      → (view (redis.xreadgroup group consumer stream ">" count block s).1 ≡ view s)
        ⊎ (view (redis.xreadgroup group consumer stream ">" count block s).1
            ≡ delivered consumer count (view s))
  pub xreadgroup_ok :
      (consumer : String) (count block : ℕ) (s r : R) (reply : List (Wire × List Entry))
      → redis.xreadgroup group consumer stream ">" count block s ≡ (ok reply, r)
      → (reply ≡ replied stream (take count (view s).waiting))
        × (view r ≡ delivered consumer count (view s))
  -- entries change their consumer only
  pub xautoclaim_entries :
      (consumer : String) (idle count : ℕ) (start : String) (s : R)
      → (view (redis.xautoclaim stream group consumer idle start count s).1).entries
        ≡ (view s).entries
  pub xautoclaim_waiting :
      (consumer : String) (idle count : ℕ) (start : String) (s : R)
      → (view (redis.xautoclaim stream group consumer idle start count s).1).waiting
        ≡ (view s).waiting
