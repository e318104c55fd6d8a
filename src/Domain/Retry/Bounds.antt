-- ===== src/Domain/Retry/Bounds.antt =====
-- Bounds of the delays of relayq/domain/retry.py.
use relayq.Prelude.{ℕ, zero, suc, ◌+◌, ◌*◌, ◌^◌, ◌≤◌, ◌<◌, arith, leb, if◌then◌else◌}
use relayq.Domain.Retry.{RetryPolicy, capped, delay, add_windows, max_total_window}

-- What the program relies on of `random.uniform(0, b)`.
pub record IsUniform (uniform : ℕ → ℕ → ℕ) : Type 0 where
  pub below : (b : ℕ) → uniform 0 b ≤ b

-- Whatever `random.uniform` draws, no delay exceeds the cap, nor, before `max_attempts`, the
-- exponential.
pub delay-le-cap :
    (uniform : ℕ → ℕ → ℕ) (self : RetryPolicy) (attempt : ℕ)
    → IsUniform uniform
    → (delay uniform self attempt ≤ self.cap_seconds)
      × (delay uniform self attempt ≤ (
          if leb self.max_attempts attempt
          then self.cap_seconds
          else self.base_seconds * 2 ^ attempt))
unfolding delay
delay-le-cap uniform self attempt u = ground (arith, u.below (capped self attempt))

-- The delays of `rounds` attempts from `i` on, added up.
abbrev pub total_delay : (ℕ → ℕ → ℕ) → RetryPolicy → ℕ → ℕ → ℕ
total_delay uniform self zero i = 0
total_delay uniform self (suc rounds) i =
    delay uniform self i + total_delay uniform self rounds (suc i)

delay-le-capped :
    (uniform : ℕ → ℕ → ℕ) (self : RetryPolicy) (i : ℕ)
    → IsUniform uniform
    → i < self.max_attempts
    → delay uniform self i ≤ capped self i
unfolding delay
delay-le-capped uniform self i u h = ground (arith, u.below (capped self i))

capped-le-cap : (self : RetryPolicy) (i : ℕ) → capped self i ≤ self.cap_seconds
unfolding capped
capped-le-cap self i = omega arith

add_windows_bounds :
    (uniform : ℕ → ℕ → ℕ) (self : RetryPolicy) (rounds i total : ℕ)
    → IsUniform uniform
    → rounds + i ≤ self.max_attempts
    → (total + total_delay uniform self rounds i ≤ add_windows self rounds i total)
      × (add_windows self rounds i total ≤ total + rounds * self.cap_seconds)
unfolding add_windows
add_windows_bounds uniform self zero i total u h = omega arith
add_windows_bounds uniform self (suc rounds) i total u h =
    let rest =
      add_windows_bounds uniform self rounds (suc i) (total + capped self i) u (omega arith) in
    omega
      (arith, rest.0, rest.1, delay-le-capped uniform self i u (omega arith), capped-le-cap self i)

-- `max_total_window` bounds the sum of the delays of all attempts, whatever is drawn, and is itself
-- at most `max_attempts` times the cap.
max_total_window_bounds :
    (uniform : ℕ → ℕ → ℕ) (self : RetryPolicy)
    → IsUniform uniform
    → (total_delay uniform self self.max_attempts 0 ≤ max_total_window self)
      × (max_total_window self ≤ self.max_attempts * self.cap_seconds)
unfolding max_total_window
max_total_window_bounds uniform self u =
    let bounds = add_windows_bounds uniform self self.max_attempts 0 0 u (omega arith) in
    omega (arith, bounds.0, bounds.1)
