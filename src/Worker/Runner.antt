-- ===== src/Worker/Runner.antt =====
-- relayq/worker/runner.py: one pass of the loop of `run`, and the tasks that it starts under the
-- semaphore. The loop's sleeps and log lines are left out.
pub mod Bulkhead
pub mod Passes
pub mod Progress
pub mod Lifecycle
pub mod Starved
use relayq.Prelude.{
  ℕ, zero, suc, ◌+◌, String, Bool, true, false, Option, none, some, List, [], ◌∷◌, ◌++◌, length,
  ◌==◌, if◌then◌else◌,
}
use relayq.Effect.{Result, ok, err, is_exception}
use relayq.Effect.Action.{Action, ◌>>=◌, ◌>>◌, pure, skip, try_except}
use relayq.Domain.Job.{DateTime, Job}
use relayq.Infrastructure.RedisStream.{Transport, read_group}
use relayq.System.{System, emit}
use relayq.Telemetry.{MetricCall, observe_worker_inflight}
use relayq.Application.Execute.{Executor, Handler, execute}
use relayq.Worker.Admission.{AdmissionController, check}

-- `(stream, entry_id, job)`
abbrev pub Delivery : Type 0
Delivery = String × String × Job

pub record WorkerRunner (R : Type 0) : Type 0 where
  pub transport : Transport R
  pub executor : Executor R
  pub worker_id : String
  pub queue : String
  pub handler : Handler R
  pub admission : Option (AdmissionController R)
  pub poll_timeout : ℕ
  pub poll_batch : ℕ

-- How a pass comes to its `for` loop: not at all, after `sleep(1)` and `continue`, or with the jobs read.
pub data Poll : Type 0 where
  paused : Poll
  delivered : List Delivery → Poll

module _ {R : Type 0} (self : WorkerRunner R) where
  -- `jobs = await self.transport.read_group(…)`
  unfoldable pub read_jobs : DateTime → Action R Poll
  read_jobs now = do
    jobs ← read_group self.transport now self.queue self.worker_id self.poll_batch self.poll_timeout
    pure (delivered jobs)

  abbrev pub admitted : Option (AdmissionController R) → DateTime → Action R Poll
  admitted none now = try_except (read_jobs now) (λ _. pure paused)
  admitted (some admission) now =
      try_except (check admission self.queue >> pure true) (λ _. pure false) >>= λ open_for_work.
      if open_for_work then try_except (read_jobs now) (λ _. pure paused) else pure paused

  -- One pass of `while not self.shutdown.is_set()`, up to its `for` loop.
  unfoldable pub poll : DateTime → Action R Poll
  poll now = admitted self.admission now

  abbrev logged : Result Job → Result (Unit {0})
  logged (ok job) = ok tt
  logged (err e) = if is_exception e then ok tt else err e

  -- `_process_job`, with the size of `_inflight` that its `finally` observes; the permit is released there.
  unfoldable pub process_job : Delivery → ℕ → Action (System R) (Unit {0})
  process_job (stream, entry_id, job) inflight s =
      let (r, s') = execute self.executor self.queue entry_id self.handler job s in
      (logged r, (emit (observe_worker_inflight self.queue inflight) s').1)

-- The semaphore and the tasks. A task that has released its permit stays in `_inflight` until its done
-- callback runs; `batch` holds the jobs of the `for` loop that are still to be started.
pub record Pool : Type 0 where
  pub permits : ℕ
  pub batch : List Delivery
  pub running : List ℕ
  pub finished : List ℕ
  pub next_task : ℕ
  pub started : List Delivery
  pub observed : List MetricCall

unfoldable pub new_pool : ℕ → Pool
new_pool max_concurrency = record {
  permits = max_concurrency;
  batch = [];
  running = [];
  finished = [];
  next_task = 0;
  started = [];
  observed = [];
}

-- `len(self._inflight)`
abbrev pub inflight : Pool → ℕ
inflight p = length p.running + length p.finished

-- The jobs of a poll, for the `for` loop.
unfoldable pub receive : List Delivery → Pool → Pool
receive jobs p = record p { batch = p.batch ++ jobs }

-- `semaphore.acquire()`, `create_task`, `_inflight.add` and the gauge, for a loop that has the permit.
unfoldable pub start_task : String → ℕ → Delivery → List Delivery → Pool → Pool
start_task queue left job rest p = record p {
  permits = left;
  batch = rest;
  running = p.next_task ∷ p.running;
  next_task = p.next_task + 1;
  started = p.started ++ job ∷ [];
  observed = observe_worker_inflight queue (inflight p + 1) ∷ p.observed;
}

-- Without a permit the loop waits.
unfoldable pub acquire : String → ℕ → List Delivery → Pool → Pool
unfolding start_task
acquire queue (suc left) (job ∷ rest) p = start_task queue left job rest p
acquire queue zero (job ∷ rest) p = p
acquire queue permits [] p = p

unfoldable pub spawn : String → Pool → Pool
unfolding acquire
spawn queue p = acquire queue p.permits p.batch p

unfoldable pub remove : ℕ → List ℕ → List ℕ
remove task [] = []
remove task (t ∷ ts) = if t == task then ts else t ∷ remove task ts

unfoldable pub contains : ℕ → List ℕ → Bool
contains task [] = false
contains task (t ∷ ts) = let rest = contains task ts in if t == task then true else rest

-- The `finally` of `_process_job` in a running task.
unfoldable pub release : ℕ → Pool → Pool
unfolding remove contains
release task p =
    if contains task p.running
    then record p {
      permits = p.permits + 1;
      running = remove task p.running;
      finished = task ∷ p.finished;
    }
    else p

-- `_inflight.discard`, the done callback.
unfoldable pub discard : ℕ → Pool → Pool
unfolding remove
discard task p = record p { finished = remove task p.finished }
