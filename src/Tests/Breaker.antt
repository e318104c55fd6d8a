-- ===== src/Tests/Breaker.antt =====
-- Tests of the circuit breaker of api/main.py.
use relayq.Prelude.{
  String, ◌≡◌, ◌≢◌, refl, true, false, Option, none, some, str_eq, ◌==◌, if◌then◌else◌, arith,
  eq_iff, eq_refl,
}
use relayq.Effect.{ok}
use relayq.Api.CircuitBreaker.{BreakerRedis, CircuitBreaker, is_open, maybe_trip}
use relayq.Api.CircuitBreaker.Trip.{IsStore, maybe_trip-opens}

-- The texts that Redis holds, and a window of five failures.
abbrev Texts : Type 0
Texts = String → Option String

abbrev write : String → String → Texts → Texts
write k v s k' = if str_eq k k' then some v else s k'

abbrev redis : BreakerRedis Texts
redis = record {
  get = λ k s. (ok (s k), s);
  set = λ k v s. (ok tt, write k v s);
  zcount = λ k low high s. (ok 5, s);
  zadd_zremrangebyscore = λ k m score low s. (ok tt, s);
  delete = λ ks s. (ok tt, λ k. none);
}

redis-IsStore : IsStore redis (λ s k. s k) write
redis-IsStore = record {
  get_read = λ k s. refl;
  set_write = λ k v s. refl;
  read_write = λ k v s. rw (eq_refl k);
  read_other = λ k k' v s differ. ground (arith, eq_iff k k');
}

abbrev breaker : CircuitBreaker Texts
breaker = record {
  redis = redis;
  key = "circuitbreaker:mail";
  failure_threshold = 5;
  window = 60;
  half_open_after = 30;
  show_time = λ n. if n == 100 then "100" else "0";
  read_time = λ t. if str_eq t "100" then some 100 else some 0;
}

abbrev empty : Texts
empty k = none

abbrev hundred : String
hundred = "100"

hundred_given : hundred ≢ ""
hundred_given e = ground (arith, eq_iff hundred "")

maybe_trip-opens_example :
    let (tripping, after) = maybe_trip breaker 100 empty in
    let (probed, halved) = is_open breaker 131 after in
    (tripping ≡ ok true)
    × (is_open breaker 130 after ≡ (ok true, after))
    × (probed ≡ ok false)
    × (is_open breaker 105 halved ≡ (ok false, halved))
maybe_trip-opens_example =
    maybe_trip-opens breaker (λ s k. s k) write redis-IsStore 100 5 empty empty refl (omega arith)
      refl hundred_given 130 131 105 (omega arith) (omega arith)
