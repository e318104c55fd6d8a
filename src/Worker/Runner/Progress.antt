-- ===== src/Worker/Runner/Progress.antt =====
-- The semaphore of relayq/worker/runner.py does not deadlock.
use relayq.Prelude.{
  ℕ, zero, suc, ◌+◌, ◌<◌, String, ◌≡◌, refl, ◌∙◌, sym, ap, true, List, [], ◌∷◌, ◌++◌, arith, ◌==◌,
}
use mathlib.Core.List.{append-nil}
use relayq.Worker.Runner.{Delivery, Pool, acquire, spawn, release, contains}
use relayq.Worker.Runner.Bulkhead.{Reach, releases, Reach-bounded}

acquire-batch :
    (queue : String) (left : ℕ) (job : Delivery) (rest : List Delivery) (p : Pool)
    → (acquire queue (suc left) (job ∷ rest) p).batch ≡ rest
unfolding acquire
acquire-batch queue left job rest p = refl

-- A pool with a permit takes the next job of its batch.
spawn-batch :
    (queue : String) (left : ℕ) (job : Delivery) (rest : List Delivery) (p : Pool)
    → p.permits ≡ suc left
    → p.batch ≡ job ∷ rest
    → (spawn queue p).batch ≡ rest
unfolding spawn
spawn-batch queue left job rest p e b = rw (e, b) (acquire-batch queue left job rest p)

same_task : (t : ℕ) → (t == t) ≡ true
same_task t = ground arith

-- A running task that ends frees a permit.
release-permits :
    (t : ℕ) (ts : List ℕ) (p : Pool)
    → p.running ≡ t ∷ ts
    → ((release t p).permits ≡ p.permits + 1) × ((release t p).batch ≡ p.batch)
unfolding release contains
release-permits t ts p e = ground (arith, same_task t)

-- What a pool leads to without a new poll: the loop takes jobs of its batch, and running tasks end.
pub data Leads (queue : String) (p : Pool) : Pool → Type 0 where
  here : Leads queue p p
  spawns : {q : Pool} → Leads queue p q → Leads queue p (spawn queue q)
  ends :
      {q : Pool} (task : ℕ)
      → Leads queue p q
      → contains task q.running ≡ true
      → Leads queue p (release task q)

Leads-Reach :
    {queue : String} {max_concurrency : ℕ} {polled : List Delivery} {p q : Pool}
    → Leads queue p q
    → Reach queue max_concurrency polled p
    → Reach queue max_concurrency polled q
Leads-Reach here reached = reached
Leads-Reach (spawns before) reached = Reach.spawns (Leads-Reach before reached)
Leads-Reach (ends task before runs) reached = releases task (Leads-Reach before reached)

head_runs : (t : ℕ) (ts running : List ℕ) → running ≡ t ∷ ts → contains t running ≡ true
unfolding contains
head_runs t ts running e = ground (arith, same_task t)

-- With a permit, or with a running task that ends and frees one, the next job is started.
starts_with :
    {queue : String} {max_concurrency : ℕ} {polled : List Delivery} (permits : ℕ) (running : List ℕ)
    (job : Delivery) (rest : List Delivery) {start p : Pool}
    → p.permits ≡ permits
    → p.running ≡ running
    → p.batch ≡ job ∷ rest
    → 0 < max_concurrency
    → Reach queue max_concurrency polled p
    → Leads queue start p
    → (q : Pool) × Leads queue start q × Reach queue max_concurrency polled q × (q.batch ≡ rest)
starts_with {queue} (suc left) running job rest {p} e r b pos reached led =
    (spawn queue p, spawns led, Reach.spawns reached, spawn-batch queue left job rest p e b)
starts_with {queue} zero (t ∷ ts) job rest {p} e r b pos reached led =
    let freed = release-permits t ts p r in
    (
      spawn queue (release t p),
      spawns (ends t led (head_runs t ts p.running r)),
      Reach.spawns (releases t reached),
      spawn-batch queue 0 job rest (release t p) (freed.0 ∙ ap (λ (n : ℕ). n + 1) e) (freed.1 ∙ b),
    )
starts_with zero [] job rest e r b pos reached led =
    let bounded = Reach-bounded reached in absurd (ground (arith, bounded.0))

-- So is every job of the batch.
starts_batch :
    {queue : String} {max_concurrency : ℕ} {polled : List Delivery} (batch : List Delivery)
    {start p : Pool}
    → 0 < max_concurrency
    → p.batch ≡ batch
    → Reach queue max_concurrency polled p
    → Leads queue start p
    → (q : Pool) × Leads queue start q × (q.batch ≡ [])
starts_batch [] {p = p} pos e reached led = (p, led, e)
starts_batch (job ∷ rest) {p = p} pos e reached led =
    let (q, led', next, left) =
      starts_with p.permits p.running job rest refl refl e pos reached led in
    starts_batch rest pos left next led'

-- With permits for one task at least, no pool that the loop can come to is stuck: from this pool on, running
-- tasks that end, and the loop that takes the permits they free, are enough to come to a pool in which every
-- job polled has been started, in order.
pub Reach-progress :
    {queue : String} {max_concurrency : ℕ} {polled : List Delivery} {p : Pool}
    → 0 < max_concurrency
    → Reach queue max_concurrency polled p
    → (q : Pool) × Leads queue p q × (q.batch ≡ []) × (q.started ≡ polled)
Reach-progress {p = p} pos reached =
    let (q, led, empty) = starts_batch p.batch pos refl reached here in
    let bounded = Reach-bounded (Leads-Reach led reached) in
    (q, led, empty, sym (append-nil q.started) ∙ ap (λ b. q.started ++ b) (sym empty) ∙ bounded.1)
