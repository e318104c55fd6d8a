-- ===== src/Api/CircuitBreaker/Trip.antt =====
-- A breaker of api/main.py that has tripped.
use Prim.Native.String.{◌++◌}
use package.text.Mathlib.TextLemmas.{append_cancel_left}
use relayq.Prelude.{
  ℕ, ◌-◌, ◌≤◌, ◌<◌, String, ◌≡◌, ◌≢◌, refl, true, false, str_eq, Option, some, ltb, arith, eq_iff,
  if◌then◌else◌,
}
use relayq.Effect.{ok}
use relayq.Api.CircuitBreaker.{
  BreakerRedis, CircuitBreaker, state_key, last_failure_key, probe, is_open, maybe_trip,
}

-- What Redis documents of GET and SET: SET answers and stores its text, GET reads and changes nothing.
pub record IsStore {R : Type 0} (redis : BreakerRedis R) (read : R → String → Option String)
    (write : String → String → R → R) : Type 0 where
  pub get_read : (k : String) (s : R) → redis.get k s ≡ (ok (read s k), s)
  pub set_write : (k v : String) (s : R) → redis.set k v s ≡ (ok tt, write k v s)
  pub read_write : (k v : String) (s : R) → read (write k v s) k ≡ some v
  pub read_other : (k k' v : String) (s : R) → k ≢ k' → read (write k v s) k' ≡ read s k'

keys_differ : (key : String) → (key ++ ":last_failure") ≢ (key ++ ":state")
keys_differ key e =
    let suffix = append_cancel_left key ":last_failure" ":state" e in
    ground (arith, eq_iff ":last_failure" ":state")

blank : (text : String) → text ≢ "" → str_eq text "" ≡ false
blank text h = ground (arith, eq_iff text "")

module _ {R : Type 0} (self : CircuitBreaker R) (read : R → String → Option String)
    (write : String → String → R → R) (store : IsStore self.redis read write) where
  open self use {redis, key, failure_threshold, window, half_open_after, show_time, read_time}

  -- Redis after a trip at the time `now`.
  abbrev pub tripped : ℕ → R → R
  tripped now s = write (last_failure_key self) (show_time now) (write (state_key self) "OPEN" s)

  maybe_trip-tripped :
      (now count : ℕ) (s r : R)
      → redis.zcount key (now - window) now s ≡ (ok count, r)
      → failure_threshold ≤ count
      → maybe_trip self now s ≡ (ok true, tripped now r)
  unfolding maybe_trip
  maybe_trip-tripped now count s r counted enough =
      let state = store.set_write (state_key self) "OPEN" r in
      let last =
        store.set_write (last_failure_key self) (show_time now) (write (state_key self) "OPEN" r) in
      ground (arith, state, last)

  is_open-half_open :
      (t : ℕ) (s : R)
      → read s (state_key self) ≡ some "HALF_OPEN"
      → is_open self t s ≡ (ok false, s)
  unfolding is_open
  is_open-half_open t s half = rw (store.get_read (state_key self) s, half)

  probe_lem :
      (now t : ℕ) (s : R)
      → probe self t now s ≡ (
          if ltb half_open_after (t - now)
          then (ok false, write (state_key self) "HALF_OPEN" s)
          else (ok true, s))
  unfolding probe
  probe_lem now t s =
      let half = store.set_write (state_key self) "HALF_OPEN" s in ground (arith, half)

  is_open-tripped :
      (now t : ℕ) (r : R)
      → read_time (show_time now) ≡ some now
      → show_time now ≢ ""
      → is_open self t (tripped now r) ≡ (
          if ltb half_open_after (t - now)
          then (ok false, write (state_key self) "HALF_OPEN" (tripped now r))
          else (ok true, tripped now r))
  unfolding is_open
  is_open-tripped now t r shown given =
      let opened = write (state_key self) "OPEN" r in
      let state = store.get_read (state_key self) (tripped now r) in
      let same =
        store.read_other (last_failure_key self) (state_key self) (show_time now) opened
          (keys_differ key) in
      let is_opened = store.read_write (state_key self) "OPEN" r in
      let last = store.get_read (last_failure_key self) (tripped now r) in
      let failure = store.read_write (last_failure_key self) (show_time now) opened in
      rw (state, same, is_opened)
        (rw (last, failure, blank (show_time now) given, shown) (probe_lem now t (tripped now r)))

  -- With as many failures in the window as the threshold, `maybe_trip` opens the breaker: `is_open` answers
  -- true until `half_open_after` has passed since, whenever it is asked; after that it lets the call through,
  -- and every later call too, at any time. (GET and SET do
  -- what Redis documents, and the time of the trip survives `str` and `float` and is not empty.)
  pub maybe_trip-opens :
      (now count : ℕ) (s r : R)
      → redis.zcount key (now - window) now s ≡ (ok count, r)
      → failure_threshold ≤ count
      → read_time (show_time now) ≡ some now
      → show_time now ≢ ""
      → (early late later : ℕ) → early - now ≤ half_open_after
      → half_open_after < late - now
      → let (tripping, after) = maybe_trip self now s in
        let (probed, halved) = is_open self late after in
        (tripping ≡ ok true)
        × (is_open self early after ≡ (ok true, after))
        × (probed ≡ ok false)
        × (is_open self later halved ≡ (ok false, halved))
  maybe_trip-opens now count s r counted enough shown given early late later soon passed =
      let trip = maybe_trip-tripped now count s r counted enough in
      let first = is_open-tripped now early r shown given in
      let second = is_open-tripped now late r shown given in
      let halved = write (state_key self) "HALF_OPEN" (tripped now r) in
      let third =
        is_open-half_open later halved
          (store.read_write (state_key self) "HALF_OPEN" (tripped now r)) in
      rw trip (refl, ground (arith, first), ground (arith, second), ground (arith, second, third))
