-- ===== src/Domain/Retry.antt =====
-- relayq/domain/retry.py. Python's floats are scaled: a duration is a count of ticks, and `2**attempt`
-- multiplies it without rounding, as it does a float.
pub mod Bounds
use relayq.Prelude.{ℕ, zero, suc, ◌+◌, ◌*◌, ◌^◌, Bool, not, leb, if◌then◌else◌}
use Prim.Native.Nat.{min}

pub record RetryPolicy : Type 0 where
  pub base_seconds : ℕ
  pub cap_seconds : ℕ
  pub max_attempts : ℕ
  pub jitter : Bool

-- `min(self.base_seconds * (2**attempt), self.cap_seconds)`
unfoldable pub capped : RetryPolicy → ℕ → ℕ
capped self attempt = min (self.base_seconds * 2 ^ attempt) self.cap_seconds

-- `uniform a b` is the draw that `random.uniform(a, b)` makes at this call.
unfoldable pub delay : (ℕ → ℕ → ℕ) → RetryPolicy → ℕ → ℕ
unfolding capped
delay uniform self attempt =
    if leb self.max_attempts attempt
    then self.cap_seconds
    else if not self.jitter
    then capped self attempt
    else uniform 0 (capped self attempt)

-- The loop of `max_total_window`, with `rounds` left of `range(self.max_attempts)` from `i` on.
unfoldable pub add_windows : RetryPolicy → ℕ → ℕ → ℕ → ℕ
unfolding capped
add_windows self zero i total = total
add_windows self (suc rounds) i total = add_windows self rounds (suc i) (total + capped self i)

unfoldable pub max_total_window : RetryPolicy → ℕ
unfolding add_windows
max_total_window self = add_windows self self.max_attempts 0 0
