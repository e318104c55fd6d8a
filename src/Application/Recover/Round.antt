-- ===== src/Application/Recover/Round.antt =====
-- A round of relayq/application/recover.py tries every queue.
use relayq.Prelude.{String, Bool, true, false, ◌≡◌, refl, List, [], ◌∷◌, arith, inl, inr}
use relayq.Effect.{NotCancelled, Result, ok, err, cancelled_error, Result-cases}
use relayq.Effect.Action.{try_except}
use relayq.Domain.Job.{DateTime}
use relayq.Infrastructure.RedisStream.{autoclaim_stale}
use relayq.Application.Recover.{
  RecoveryWorker, claim_stale, stop, recover_round, loop_while, recover_loop,
}

module _ {R : Type 0} (self : RecoveryWorker R) (now : DateTime) where
  open self use {transport, worker_id, min_idle_ms, claim_batch}

  -- Redis after one XAUTOCLAIM for each queue, in order.
  abbrev pub claimed_all : List String → R → R
  claimed_all [] r = r
  claimed_all (queue ∷ queues) r =
      claimed_all queues (autoclaim_stale transport now queue worker_id min_idle_ms claim_batch r).1

  -- Redis after a round for each of the list, up to the first in which `stop` is called.
  abbrev pub claimed_rounds : List Bool → List String → R → R
  claimed_rounds [] queues r = r
  claimed_rounds (true ∷ later) queues r = claimed_all queues r
  claimed_rounds (false ∷ later) queues r = claimed_rounds later queues (claimed_all queues r)

  -- No command of the loop is cancelled.
  abbrev pub Uncancelled : Type 0
  Uncancelled =
      (queue : String) (r : R)
      → NotCancelled (autoclaim_stale transport now queue worker_id min_idle_ms claim_batch r).0

  claim_caught :
      (queue : String) (r : R)
      → Uncancelled
      → try_except (claim_stale self now queue) (λ _ t. (ok tt, t)) r
        ≡ (ok tt, (autoclaim_stale transport now queue worker_id min_idle_ms claim_batch r).1)
  unfolding claim_stale try_except
  claim_caught queue r u =
      let fine = u queue r in
      elim (Result-cases
        (autoclaim_stale transport now queue worker_id min_idle_ms claim_batch r).0) [
          | inl (jobs, e) ↦ ground arith
          | inr (x, e) ↦ ground arith
        ]

  -- A round returns, and has sent XAUTOCLAIM for every queue, also where it failed for some of them.
  recover_round_lem :
      (queues : List String) (r : R)
      → Uncancelled
      → recover_round self now queues r ≡ (ok tt, claimed_all queues r)
  unfolding recover_round
  recover_round_lem [] r u = refl
  recover_round_lem (queue ∷ queues) r u =
      let rest =
        recover_round_lem queues
          (autoclaim_stale transport now queue worker_id min_idle_ms claim_batch r).1 u in
      ground (arith, claim_caught queue r u, rest)

  -- The loop returns only after `stop`; the cancellation of its task it lets through.
  abbrev pub ended : List Bool → Result (Unit {0})
  ended [] = err cancelled_error
  ended (true ∷ later) = ok tt
  ended (false ∷ later) = ended later

  -- If no command is cancelled, the
  -- loop returns after the round in which `stop` was called, and raises `CancelledError` where its task is
  -- cancelled before that; it has sent one XAUTOCLAIM for every queue in every round until then, in order,
  -- whichever of them failed.
  pub recover_loop_lem :
      (stops : List Bool) (queues : List String) (r : R)
      → Uncancelled
      → recover_loop self now stops queues r ≡ (ended stops, claimed_rounds stops queues r)
  unfolding recover_loop loop_while stop
  recover_loop_lem [] queues r u = refl
  recover_loop_lem (true ∷ later) queues r u = rw (recover_round_lem queues r u) refl
  recover_loop_lem (false ∷ later) queues r u =
      rw (recover_round_lem queues r u) (recover_loop_lem later queues (claimed_all queues r) u)
