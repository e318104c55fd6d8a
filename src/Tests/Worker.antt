-- ===== src/Tests/Worker.antt =====
-- Tests of the life of a worker (relayq/worker/runner.py and shutdown.py).
use relayq.Prelude.{
  ℕ, ◌+◌, ◌≤◌, ◌≡◌, ◌⊎◌, refl, Bool, true, false, ◌&&◌, List, [], ◌∷◌, arith, ◌==◌, if◌then◌else◌,
}
use relayq.Effect.{ok}
use relayq.Worker.Runner.{Delivery, Pool, new_pool, receive, spawn}
use relayq.Worker.Runner.Bulkhead.{Reach, starts, receives, spawns}
use relayq.Worker.Runner.Progress.{Leads, Reach-progress}
use relayq.Worker.Runner.Lifecycle.{
  Worker, new_worker, start, begin_pass, end_poll, request_shutdown,
}
use relayq.Worker.Runner.Lifecycle.Stop.{
  Next, begins, polls, Lives, here, next, IsSound, reads, reading, shutdown_ends_reads,
  Lives-IsSound,
}
use relayq.Worker.Shutdown.{EventLoop, new_shutdown, is_set, drain}
use relayq.Worker.Shutdown.Drain.{member, IsLoop, drain_settles}
use relayq.Tests.Server.{job}

abbrev three_jobs : List Delivery
three_jobs = ("s", "1-0", job) ∷ ("s", "2-0", job) ∷ ("s", "3-0", job) ∷ []

-- A pool of one permit, which the first job has.
abbrev busy_pool : Pool
busy_pool = spawn "default" (receive three_jobs (new_pool 1))

busy_pool-Reach : Reach "default" 1 three_jobs busy_pool
unfolding new_pool
busy_pool-Reach = spawns (receives three_jobs starts refl)

Reach-progress_example :
    (q : Pool) × Leads "default" busy_pool q × (q.batch ≡ []) × (q.started ≡ three_jobs)
Reach-progress_example = Reach-progress (omega arith) busy_pool-Reach

-- A worker that is asked to shut down while it reads.
abbrev asked : Worker
asked = request_shutdown (begin_pass (start true (new_worker 2)))

abbrev after_read : Worker
after_read = end_poll three_jobs asked

reads_once : Lives "default" asked three_jobs after_read
unfolding new_worker start begin_pass request_shutdown is_set
reads_once = next here (polls three_jobs refl)

shutdown_ends_reads_example :
    (is_set after_read.shutdown ≡ true) × (reads reads_once + reading after_read ≤ reading asked)
unfolding is_set request_shutdown
shutdown_ends_reads_example = shutdown_ends_reads reads_once refl

one_pass : Lives "default" (new_worker 2) [] (begin_pass (start true (new_worker 2)))
one_pass = next (next here (Next.starts true)) begins

Lives-IsSound_example : IsSound 2 [] (begin_pass (start true (new_worker 2)))
Lives-IsSound_example = Lives-IsSound one_pass

-- An event loop whose task 0 ends in the first wait, and no other task.
pub record Tasks : Type 0 where
  pub waited : Bool
  pub cancelled : List ℕ

abbrev ended : Tasks → ℕ → Bool
ended s t = s.waited && t == 0

abbrev cancelling : Tasks → ℕ → Bool
cancelling s t = member t s.cancelled

unfoldable firsts : List ℕ → List ℕ
firsts [] = []
firsts (t ∷ ts) = if t == 0 then t ∷ firsts ts else firsts ts

unfoldable others : List ℕ → List ℕ
others [] = []
others (t ∷ ts) = if t == 0 then others ts else t ∷ others ts

abbrev loop : EventLoop Tasks
loop = record {
  wait = λ ts timeout s. (ok (firsts ts, others ts), record s { waited = true });
  cancel = λ t s. record s { cancelled = t ∷ s.cancelled };
}

others-splits :
    (ts : List ℕ) (x : ℕ) → member x ts ≡ true → (member x (others ts) ≡ true) ⊎ ((x == 0) ≡ true)
unfolding member others
others-splits [] x h = absurd (ground arith)
others-splits (t ∷ ts) x h = ground (arith, others-splits ts x)

others-left : (ts : List ℕ) (x : ℕ) → member x (others ts) ≡ true → (x == 0) ≡ false
unfolding member others
others-left [] x h = absurd (ground arith)
others-left (t ∷ ts) x h = ground (arith, others-left ts x)

loop-IsLoop : IsLoop loop ended cancelling
unfolding member
loop-IsLoop = record {
  finished = λ s ts timeout. firsts ts;
  unfinished = λ s ts timeout. others ts;
  wait_returns = λ t ts timeout s. refl;
  wait_splits = λ ts timeout s x h. others-splits ts x h;
  wait_unfinished = λ ts timeout s x h. others-left ts x h;
  wait_asked = λ ts timeout s x. refl;
  wait_done = λ ts timeout s x h. ground arith;
  cancel_asked = λ t s x. refl;
  cancel_done = λ t s x. refl;
}

abbrev before : Tasks
before = record { waited = false; cancelled = [] }

drain_settles_example :
    let waited = (loop.wait (0 ∷ 7 ∷ []) 30 before).1 in
    let (r, after) = drain loop (new_shutdown 30) (0 ∷ 7 ∷ []) before in
    (r ≡ ok tt)
    × ((member 7 (0 ∷ 7 ∷ []) ≡ false)
        ⊎ ((ended waited 7 ≡ true)
            × (ended after 7 ≡ true)
            × (cancelling after 7 ≡ cancelling before 7))
        ⊎ ((ended waited 7 ≡ false) × (cancelling after 7 ≡ true)))
drain_settles_example =
    drain_settles loop (new_shutdown 30) ended cancelling loop-IsLoop (0 ∷ 7 ∷ []) before 7
