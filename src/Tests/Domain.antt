-- ===== src/Tests/Domain.antt =====
-- Tests of relayq/domain.
use relayq.Prelude.{ℕ, ◌*◌, ◌^◌, ◌≤◌, ◌≡◌, refl, false, arith}
use relayq.Effect.{err, value_error, key_error}
use relayq.Domain.Json.{str, end, field}
use relayq.Domain.Job.{from_dict}
use relayq.Domain.Retry.{RetryPolicy, delay, max_total_window}
use relayq.Domain.Retry.Bounds.{IsUniform, delay-le-cap}
use relayq.Tests.Server.{codec}

unknown_status :
    from_dict codec 0 (field "id" (str "a") (field "status" (str "lost") end)) ≡ err value_error
unfolding from_dict
unknown_status = refl

no_id : from_dict codec 0 (field "kind" (str "a") end) ≡ err (key_error "id")
unfolding from_dict
no_id = refl

-- The policy of the tests: 2 s, doubled up to 60 s.
abbrev policy : RetryPolicy
policy = record { base_seconds = 2; cap_seconds = 60; max_attempts = 10; jitter = false }

abbrev draw_least : ℕ → ℕ → ℕ
draw_least a b = a

draw_least-IsUniform : IsUniform draw_least
draw_least-IsUniform = record { below = λ b. omega arith }

capped_delay : delay draw_least policy 5 ≡ 60
unfolding delay
capped_delay = refl

window : max_total_window (record policy { max_attempts = 3 }) ≡ 14
unfolding max_total_window
window = refl

delay-le-cap_example : (delay draw_least policy 3 ≤ 60) × (delay draw_least policy 3 ≤ 2 * 2 ^ 3)
delay-le-cap_example = delay-le-cap draw_least policy 3 draw_least-IsUniform
