-- ===== src/Api/RateLimit.antt =====
-- The token bucket of api/main.py: the Lua script that Redis runs as one step, on the hash of the
-- bucket. Rate, capacity, cost and times are whole numbers, on which Lua's doubles are exact.
pub mod Bound
pub mod Refused
use Prim.Native.Nat.{min}
use relayq.Prelude.{ℕ, ◌+◌, ◌-◌, ◌*◌, Bool, true, false, Option, none, some, leb, if◌then◌else◌}

-- `HMGET key tokens last_refill`; a field that is not set is nil.
pub record Bucket : Type 0 where
  pub tokens : Option ℕ
  pub last_refill : Option ℕ

pub record TokenBucketRateLimiter : Type 0 where
  pub rate : ℕ
  pub capacity : ℕ

-- `tonumber(x) or default`
abbrev pub number_or : Option ℕ → ℕ → ℕ
number_or none default = default
number_or (some n) default = n

-- The tokens after the refill: `math.max(0, now - last_refill)` is the subtraction on ℕ.
unfoldable pub refilled : TokenBucketRateLimiter → ℕ → Bucket → ℕ
refilled self now info =
    let tokens = number_or info.tokens self.capacity in
    let elapsed = now - number_or info.last_refill now in
    min self.capacity (tokens + elapsed * self.rate)

-- The script, as `allow(cost)` runs it at the time `now`: its answer and the new hash.
unfoldable pub allow : TokenBucketRateLimiter → ℕ → ℕ → Bucket → Bool × Bucket
unfolding refilled
allow self cost now info =
    let tokens = refilled self now info in
    if leb cost tokens
    then (true, record { tokens = some (tokens - cost); last_refill = some now })
    else (false, record { tokens = some tokens; last_refill = some now })
