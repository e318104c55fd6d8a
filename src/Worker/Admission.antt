-- ===== src/Worker/Admission.antt =====
-- relayq/worker/admission.py. `max_oldest` is stored and never read.
use relayq.Prelude.{ℕ, String, Bool, true, false, leb, if◌then◌else◌}
use relayq.Effect.{Result, ok, err, admission_blocked}
use relayq.Effect.Action.{Action, ◌>>=◌, raise, skip}
use relayq.Infrastructure.RedisStream.{Transport, stream_length}

pub record AdmissionController (R : Type 0) : Type 0 where
  pub transport : Transport R
  pub max_depth : ℕ
  pub max_oldest : ℕ

module _ {R : Type 0} (self : AdmissionController R) where
  unfoldable pub check : String → Action R (Unit {0})
  check queue = do
    depth ← stream_length self.transport queue
    if leb self.max_depth depth then raise (admission_blocked queue depth self.max_depth) else skip

  -- Only `AdmissionBlocked` is caught.
  abbrev pub blocked_is_false : Result (Unit {0}) → Result Bool
  blocked_is_false (ok _) = ok true
  blocked_is_false (err (admission_blocked queue depth limit)) = ok false
  blocked_is_false (err e) = err e

  unfoldable pub is_healthy : String → Action R Bool
  unfolding check
  is_healthy queue s = let (r, s') = check queue s in (blocked_is_false r, s')
