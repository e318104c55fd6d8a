-- ===== src/Infrastructure/Clock.antt =====
-- `FakeClock` of relayq/infrastructure/clock.py, with its times in seconds: `advance` takes whole numbers.
use relayq.Prelude.{ℕ, ◌+◌, ◌*◌, ◌≡◌, refl, List, [], ◌∷◌, arith}

pub record FakeClock : Type 0 where
  pub utcnow : ℕ
  pub monotonic : ℕ

-- `BASE_TIME`, 2025-01-01T00:00:00+00:00, since the epoch
abbrev pub base_time : ℕ
base_time = 1735689600

unfoldable pub new_fake_clock : FakeClock
new_fake_clock = record { utcnow = base_time; monotonic = 0 }

unfoldable pub advance : ℕ → ℕ → FakeClock → FakeClock
advance seconds minutes self = record {
  utcnow = self.utcnow + (seconds + minutes * 60);
  monotonic = self.monotonic + (seconds + minutes * 60);
}

-- Some calls of `advance`, in order.
unfoldable pub advance_all : List (ℕ × ℕ) → FakeClock → FakeClock
unfolding advance
advance_all [] self = self
advance_all ((seconds, minutes) ∷ later) self = advance_all later (advance seconds minutes self)

advance_all-apart :
    (calls : List (ℕ × ℕ)) (self : FakeClock)
    → self.utcnow ≡ base_time + self.monotonic
    → (advance_all calls self).utcnow ≡ base_time + (advance_all calls self).monotonic
unfolding advance_all advance
advance_all-apart [] self h = h
advance_all-apart ((seconds, minutes) ∷ later) self h =
    advance_all-apart later (advance seconds minutes self) (omega (arith, h))

-- However a new clock is advanced, its two readings stay together.
advance_all-together :
    (calls : List (ℕ × ℕ))
    → (advance_all calls new_fake_clock).utcnow
      ≡ base_time + (advance_all calls new_fake_clock).monotonic
unfolding new_fake_clock
advance_all-together calls = advance_all-apart calls new_fake_clock refl
