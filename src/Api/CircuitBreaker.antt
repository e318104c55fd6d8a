-- ===== src/Api/CircuitBreaker.antt =====
-- `CircuitBreaker` of api/main.py. Times are whole ticks, no earlier than the window's length; the commands
-- that it sends, and Python's `str` and `float` on times, are parameters.
pub mod Trip
use Prim.Native.String.{◌++◌}
use relayq.Prelude.{
  ℕ, ◌-◌, String, Bool, true, false, Option, none, some, List, [], ◌∷◌, ltb, leb, str_eq,
  if◌then◌else◌,
}
use relayq.Effect.{Result, ok, err, or_raise, value_error}
use relayq.Effect.Action.{Action, ◌>>=◌, ◌>>◌, pure, lift, skip}

pub record BreakerRedis (R : Type 0) : Type 0 where
  pub get : String → Action R (Option String)
  pub set : String → String → Action R (Unit {0})
  -- key, lowest and highest score
  pub zcount : String → ℕ → ℕ → Action R ℕ
  -- the pipeline: ZADD of a member with its score, ZREMRANGEBYSCORE up to a score
  pub zadd_zremrangebyscore : String → String → ℕ → ℕ → Action R (Unit {0})
  pub delete : List String → Action R (Unit {0})

pub record CircuitBreaker (R : Type 0) : Type 0 where
  pub redis : BreakerRedis R
  pub key : String
  pub failure_threshold : ℕ
  pub window : ℕ
  pub half_open_after : ℕ
  -- `str(now)`, and `float(text)`
  pub show_time : ℕ → String
  pub read_time : String → Option ℕ

module _ {R : Type 0} (self : CircuitBreaker R) where
  open self use {redis, key, failure_threshold, window, half_open_after, show_time, read_time}

  abbrev pub state_key : String
  state_key = key ++ ":state"

  abbrev pub last_failure_key : String
  last_failure_key = key ++ ":last_failure"

  unfoldable pub record_failure : ℕ → Action R (Unit {0})
  record_failure now = redis.zadd_zremrangebyscore key (show_time now) now (now - window)

  -- The state OPEN with a time of the last failure.
  unfoldable pub probe : ℕ → ℕ → Action R Bool
  probe now last_failure =
      if ltb half_open_after (now - last_failure)
      then (do redis.set state_key "HALF_OPEN"; pure false)
      else pure true

  -- `if last_failure:`, which no text and the empty text are not.
  unfoldable pub probe_if_given : ℕ → Option String → Action R Bool
  unfolding probe
  probe_if_given now none = pure true
  probe_if_given now (some text) =
      if str_eq text ""
      then pure true
      else (do last_failure ← lift (or_raise (read_time text) value_error); probe now last_failure)

  unfoldable pub open_in : ℕ → Option String → Action R Bool
  unfolding probe_if_given
  open_in now none = pure false
  open_in now (some state) =
      if str_eq state "CLOSED"
      then pure false
      else if str_eq state "HALF_OPEN"
      then pure false
      else (do last_failure ← redis.get last_failure_key; probe_if_given now last_failure)

  unfoldable pub is_open : ℕ → Action R Bool
  unfolding open_in
  is_open now = do state ← redis.get state_key; open_in now state

  unfoldable pub maybe_trip : ℕ → Action R Bool
  maybe_trip now = do
    count ← redis.zcount key (now - window) now
    if leb failure_threshold count
        then (do redis.set state_key "OPEN"; redis.set last_failure_key (show_time now); pure true)
        else pure false

  unfoldable pub reset_breaker : Action R (Unit {0})
  reset_breaker = redis.delete (key ∷ state_key ∷ last_failure_key ∷ [])
