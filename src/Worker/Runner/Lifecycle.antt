-- ===== src/Worker/Runner/Lifecycle.antt =====
-- The life of `run` (relayq/worker/runner.py): its start, its loop, and its end. Each function is what the
-- coroutine does from one wait to the next; the tasks go on in between.
pub mod Stop
use relayq.Prelude.{ℕ, ◌+◌, String, Bool, true, false, List, [], ◌∷◌, ◌++◌, length, if◌then◌else◌}
use relayq.Worker.Shutdown.{GracefulShutdown, new_shutdown, is_set, request}
use relayq.Worker.Runner.{Delivery, Pool, new_pool, receive, spawn}

-- `created` is before `run`; `polling` waits for the admission check and the read; `looping` is elsewhere in
-- the `try` block; `draining` is in its `finally`.
pub data Phase : Type 0 where
  created looping polling draining stopped : Phase

-- `recovering` says that the recovery task runs; `passes` counts the passes of the loop that have begun;
-- `dropped` has the jobs that were read and not started when the worker was cancelled.
pub record Worker : Type 0 where
  pub phase : Phase
  pub shutdown : GracefulShutdown
  pub recovering : Bool
  pub pool : Pool
  pub passes : ℕ
  pub dropped : List Delivery

unfoldable pub new_worker : ℕ → Worker
unfolding new_pool
new_worker max_concurrency = record {
  phase = created;
  shutdown = new_shutdown 30;
  recovering = false;
  pool = new_pool max_concurrency;
  passes = 0;
  dropped = [];
}

abbrev started_from : Phase → Bool → Worker → Worker
started_from created recovery w = record w { phase = looping; recovering = recovery }
started_from _ recovery w = w

-- `ensure_group` has returned; the recovery task starts if the worker has a recovery.
unfoldable pub start : Bool → Worker → Worker
start recovery w = started_from w.phase recovery w

-- The `finally` block up to the drain: the recovery task is cancelled.
abbrev leave : Worker → Worker
leave w = record w { phase = draining; recovering = false }

abbrev begun_from : Phase → List Delivery → Worker → Worker
begun_from looping [] w =
    if is_set w.shutdown then leave w else record w { phase = polling; passes = w.passes + 1 }
begun_from _ batch w = w

-- `while not self.shutdown.is_set()`, once the batch is started.
unfoldable pub begin_pass : Worker → Worker
unfolding is_set
begin_pass w = begun_from w.phase w.pool.batch w

abbrev polled_from : Phase → List Delivery → Worker → Worker
polled_from polling jobs w = record w { phase = looping; pool = receive jobs w.pool }
polled_from _ jobs w = w

-- The jobs of the read; none after a pause, a failed read, or a timeout.
unfoldable pub end_poll : List Delivery → Worker → Worker
unfolding receive
end_poll jobs w = polled_from w.phase jobs w

abbrev spawned_from : Phase → String → Worker → Worker
spawned_from looping queue w = record w { pool = spawn queue w.pool }
spawned_from _ queue w = w

unfoldable pub start_next : String → Worker → Worker
start_next queue w = spawned_from w.phase queue w

abbrev drop_batch : Worker → Worker
drop_batch w = record (leave w) {
  pool = record w.pool { batch = [] };
  dropped = w.dropped ++ w.pool.batch;
}

abbrev cancelled_from : Phase → Worker → Worker
cancelled_from looping w = drop_batch w
cancelled_from polling w = drop_batch w
cancelled_from _ w = w

-- `except asyncio.CancelledError`
unfoldable pub cancel : Worker → Worker
cancel w = cancelled_from w.phase w

abbrev drained_from : Phase → Worker → Worker
drained_from draining w = record w { phase = stopped }
drained_from _ w = w

-- `drain` has returned.
unfoldable pub end_drain : Worker → Worker
end_drain w = drained_from w.phase w

unfoldable pub request_shutdown : Worker → Worker
unfolding request
request_shutdown w = record w { shutdown = request w.shutdown }
