-- ===== src/Worker/Runner/Lifecycle/Stop.antt =====
-- How a worker of relayq/worker/runner.py stops.
use mathlib.Core.List.{append_assoc, append-nil}
use relayq.Prelude.{
  ℕ, ◌+◌, ◌≤◌, String, ◌≡◌, ◌⊎◌, refl, ◌∙◌, sym, ap, Bool, true, false, List, [], ◌++◌, arith,
  length,
}
use relayq.Worker.Shutdown.{is_set}
use relayq.Worker.Runner.{Delivery, receive, spawn, release, discard}
use relayq.Worker.Runner.Bulkhead.{acquire-Balanced, release-Balanced, acquire-Ordered}
use relayq.Worker.Runner.Lifecycle.{
  Phase, looping, polling, draining, stopped, Worker, new_worker, start, begin_pass, end_poll,
  start_next, cancel, end_drain, request_shutdown,
}

-- What may happen to a worker next: a step of `run`, the end of a task or its callback, a request to shut
-- down, a cancellation. The list has the jobs that a poll brings.
pub data Next (queue : String) (w : Worker) : List Delivery → Worker → Type 0 where
  starts : (recovery : Bool) → Next queue w [] (start recovery w)
  begins : Next queue w [] (begin_pass w)
  polls : (jobs : List Delivery) → w.phase ≡ polling → Next queue w jobs (end_poll jobs w)
  spawns : Next queue w [] (start_next queue w)
  releases : (task : ℕ) → Next queue w [] (record w { pool = release task w.pool })
  discards : (task : ℕ) → Next queue w [] (record w { pool = discard task w.pool })
  requests : Next queue w [] (request_shutdown w)
  cancels : Next queue w [] (cancel w)
  ends : Next queue w [] (end_drain w)

pub data Lives (queue : String) (start_of : Worker) : List Delivery → Worker → Type 0 where
  here : Lives queue start_of [] start_of
  next :
      {polled jobs : List Delivery} {w w' : Worker}
      → Lives queue start_of polled w
      → Next queue w jobs w'
      → Lives queue start_of (polled ++ jobs) w'

-- The reads of a step, and of a life.
reads_of :
    {queue : String} {w : Worker} {jobs : List Delivery} {w' : Worker} → Next queue w jobs w' → ℕ
reads_of (polls jobs e) = 1
reads_of _ = 0

unfoldable pub reads :
    {queue : String} {w : Worker} {jobs : List Delivery} {w' : Worker} → Lives queue w jobs w' → ℕ
unfolding reads_of
reads here = 0
reads (next before step) = reads before + reads_of step

-- A read is out.
abbrev pub reading : Worker → ℕ
reading w = elim w.phase [ polling ↦ 1 | _ ↦ 0 ]

Next-reads :
    {queue : String} {w : Worker} {jobs : List Delivery} {w' : Worker} (step : Next queue w jobs w')
    → is_set w.shutdown ≡ true
    → (is_set w'.shutdown ≡ true) × (reads_of step + reading w' ≤ reading w)
unfolding reads_of start begin_pass end_poll start_next cancel end_drain request_shutdown is_set
Next-reads (starts recovery) h = ground arith
Next-reads begins h = ground arith
Next-reads (polls jobs e) h = ground arith
Next-reads spawns h = ground arith
Next-reads (releases task) h = ground arith
Next-reads (discards task) h = ground arith
Next-reads requests h = ground arith
Next-reads cancels h = ground arith
Next-reads ends h = ground arith

-- Once shutdown has been requested, it stays so, and in every life of the worker from then on at most one
-- read of the queue ends, which is the one that was out at the request, if one was; and none is begun.
pub shutdown_ends_reads :
    {queue : String} {w : Worker} {jobs : List Delivery} {w' : Worker}
    (life : Lives queue w jobs w')
    → is_set w.shutdown ≡ true
    → (is_set w'.shutdown ≡ true) × (reads life + reading w' ≤ reading w)
unfolding reads
shutdown_ends_reads here h = (h, omega arith)
shutdown_ends_reads (next before step) h =
    let (set, few) = shutdown_ends_reads before h in
    let (set', fewer) = Next-reads step set in (set', omega (arith, few, fewer))

abbrev pub has_ended : Phase → Bool
has_ended draining = true
has_ended stopped = true
has_ended _ = false

-- The permits and the running tasks add up; each job polled has been started, waits in the batch, or was
-- dropped by a cancellation, in order; only in the loop does a job wait; and a worker whose loop has ended
-- recovers nothing, while before that nothing was dropped.
pub record IsSound (max_concurrency : ℕ) (polled : List Delivery) (w : Worker) : Type 0 where
  pub balanced : w.pool.permits + length w.pool.running ≡ max_concurrency
  pub ordered : (w.pool.started ++ w.pool.batch) ++ w.dropped ≡ polled
  pub waits : (w.phase ≡ looping) ⊎ (w.pool.batch ≡ [])
  pub over :
      ((has_ended w.phase ≡ true) × (w.recovering ≡ false))
      ⊎ ((has_ended w.phase ≡ false) × (w.dropped ≡ []))

poll_order :
    (a b d p jobs : List Delivery)
    → d ≡ []
    → (a ++ b) ++ d ≡ p
    → (a ++ (b ++ jobs)) ++ d ≡ p ++ jobs
poll_order a b d p jobs e h =
    let whole : a ++ b ≡ p = sym (append-nil (a ++ b)) ∙ ap (λ t. (a ++ b) ++ t) (sym e) ∙ h in
    rw (e, append-nil) (sym (append_assoc a b jobs) ∙ ap (λ t. t ++ jobs) whole)

cancel_order : (a b d p : List Delivery) → d ≡ [] → (a ++ b) ++ d ≡ p → (a ++ []) ++ (d ++ b) ≡ p
cancel_order a b d p e h =
    rw (e, append-nil) (sym (append-nil (a ++ b)) ∙ ap (λ t. (a ++ b) ++ t) (sym e) ∙ h)

module _ {max_concurrency : ℕ} {polled : List Delivery} (w : Worker)
    (v : IsSound max_concurrency polled w) where
  start-IsSound : (recovery : Bool) → IsSound max_concurrency polled (start recovery w)
  unfolding start
  start-IsSound recovery = ground arith

  begin_pass-IsSound : IsSound max_concurrency polled (begin_pass w)
  unfolding begin_pass
  begin_pass-IsSound = ground arith

  end_poll-IsSound :
      (jobs : List Delivery)
      → w.phase ≡ polling
      → IsSound max_concurrency (polled ++ jobs) (end_poll jobs w)
  unfolding end_poll receive
  end_poll-IsSound jobs e =
      ground (arith, e, poll_order w.pool.started w.pool.batch w.dropped polled jobs)

  start_next-IsSound : (queue : String) → IsSound max_concurrency polled (start_next queue w)
  unfolding start_next spawn
  start_next-IsSound queue =
      let p = w.pool in
      ground (
        arith,
        acquire-Balanced queue p.permits p.batch max_concurrency p refl v.balanced,
        acquire-Ordered queue p.permits p.batch (p.started ++ p.batch) p refl refl,
      )

  request_shutdown-IsSound : IsSound max_concurrency polled (request_shutdown w)
  unfolding request_shutdown
  request_shutdown-IsSound = ground arith

  cancel-IsSound : IsSound max_concurrency polled (cancel w)
  unfolding cancel
  cancel-IsSound = ground (arith, cancel_order w.pool.started w.pool.batch w.dropped polled)

  end_drain-IsSound : IsSound max_concurrency polled (end_drain w)
  unfolding end_drain
  end_drain-IsSound = ground arith

  -- The ends of tasks.
  task-IsSound :
      (task : ℕ)
      → IsSound max_concurrency polled (record w { pool = release task w.pool })
        × IsSound max_concurrency polled (record w { pool = discard task w.pool })
  unfolding release discard
  task-IsSound task =
      let p = w.pool in
      let permits = release-Balanced task max_concurrency p v.balanced in
      (ground (arith, permits), ground arith)

Next-IsSound :
    {queue : String} {max_concurrency : ℕ} {polled : List Delivery} {w : Worker}
    {jobs : List Delivery} {w' : Worker}
    → Next queue w jobs w'
    → IsSound max_concurrency polled w
    → IsSound max_concurrency (polled ++ jobs) w'
Next-IsSound {w} (starts recovery) v = rw append-nil (start-IsSound w v recovery)
Next-IsSound {w} begins v = rw append-nil (begin_pass-IsSound w v)
Next-IsSound {w} (polls jobs e) v = end_poll-IsSound w v jobs e
Next-IsSound {queue} {w} spawns v = rw append-nil (start_next-IsSound w v queue)
Next-IsSound {w} (releases task) v = rw append-nil (task-IsSound w v task).0
Next-IsSound {w} (discards task) v = rw append-nil (task-IsSound w v task).1
Next-IsSound {w} requests v = rw append-nil (request_shutdown-IsSound w v)
Next-IsSound {w} cancels v = rw append-nil (cancel-IsSound w v)
Next-IsSound {w} ends v = rw append-nil (end_drain-IsSound w v)

-- Through its whole life, in every order of events, a worker is sound: permits and running tasks are
-- together max_concurrency; every job polled has been started, waits in the batch, or was dropped by a
-- cancellation, in order; jobs wait in the loop only; a worker past its loop recovers nothing, and one
-- before its end has dropped nothing.
pub Lives-IsSound :
    {queue : String} {max_concurrency : ℕ} {polled : List Delivery} {w : Worker}
    → Lives queue (new_worker max_concurrency) polled w
    → IsSound max_concurrency polled w
unfolding new_worker
Lives-IsSound here = ground arith
Lives-IsSound (next before step) = Next-IsSound step (Lives-IsSound before)
