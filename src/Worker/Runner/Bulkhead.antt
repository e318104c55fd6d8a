-- ===== src/Worker/Runner/Bulkhead.antt =====
-- The bulkhead of relayq/worker/runner.py: what holds however the loop and its tasks are interleaved.
use relayq.Prelude.{
  ℕ, zero, suc, ◌+◌, String, ◌≡◌, refl, ◌∙◌, ap, sym, true, List, [], ◌∷◌, ◌++◌, arith, length,
  Bool-cases, inl, inr,
}
use mathlib.Core.List.{append_assoc}
use relayq.Worker.Runner.{
  Delivery, Pool, new_pool, receive, acquire, spawn, remove, contains, release, discard,
}

-- The pools that the event loop can come to, with the jobs that the polls have brought: a poll, once all
-- jobs of the last are started; the loop getting on with its batch; a task's end; a done callback.
pub data Reach (queue : String) (max_concurrency : ℕ) : List Delivery → Pool → Type 0 where
  starts : Reach queue max_concurrency [] (new_pool max_concurrency)
  receives :
      {polled : List Delivery} {p : Pool} (jobs : List Delivery)
      → Reach queue max_concurrency polled p
      → p.batch ≡ []
      → Reach queue max_concurrency (polled ++ jobs) (receive jobs p)
  spawns :
      {polled : List Delivery} {p : Pool}
      → Reach queue max_concurrency polled p
      → Reach queue max_concurrency polled (spawn queue p)
  releases :
      {polled : List Delivery} {p : Pool} (task : ℕ)
      → Reach queue max_concurrency polled p
      → Reach queue max_concurrency polled (release task p)
  discards :
      {polled : List Delivery} {p : Pool} (task : ℕ)
      → Reach queue max_concurrency polled p
      → Reach queue max_concurrency polled (discard task p)

length-remove :
    (task : ℕ) (ts : List ℕ) → contains task ts ≡ true → length (remove task ts) + 1 ≡ length ts
unfolding remove contains
length-remove task [] h = cc
length-remove task (t ∷ ts) h = ground (arith, length-remove task ts)

-- Permits and running tasks add up.
abbrev pub Balanced : ℕ → Pool → Type 0
Balanced n p = p.permits + length p.running ≡ n

pub acquire-Balanced :
    (queue : String) (permits : ℕ) (batch : List Delivery) (n : ℕ) (p : Pool)
    → p.permits ≡ permits
    → Balanced n p
    → Balanced n (acquire queue permits batch p)
unfolding acquire
acquire-Balanced queue (suc left) (job ∷ rest) n p e b = omega arith
acquire-Balanced queue zero (job ∷ rest) n p e b = b
acquire-Balanced queue zero [] n p e b = b
acquire-Balanced queue (suc left) [] n p e b = b

pub release-Balanced : (task : ℕ) (n : ℕ) (p : Pool) → Balanced n p → Balanced n (release task p)
unfolding release
release-Balanced task n p b = elim (Bool-cases (contains task p.running)) [
  | inl e ↦ ground (arith, length-remove task p.running)
  | inr e ↦ rw e b
]

-- Each job polled has been started or waits in the batch, in the order of delivery.
abbrev pub Ordered : List Delivery → Pool → Type 0
Ordered polled p = p.started ++ p.batch ≡ polled

pub acquire-Ordered :
    (queue : String) (permits : ℕ) (batch : List Delivery) (polled : List Delivery) (p : Pool)
    → p.batch ≡ batch
    → Ordered polled p
    → Ordered polled (acquire queue permits batch p)
unfolding acquire
acquire-Ordered queue (suc left) (job ∷ rest) polled p e b =
    append_assoc p.started (job ∷ []) rest ∙ ap (λ b. p.started ++ b) (sym e) ∙ b
acquire-Ordered queue zero (job ∷ rest) polled p e b = b
acquire-Ordered queue zero [] polled p e b = b
acquire-Ordered queue (suc left) [] polled p e b = b

pub release-Ordered :
    (task : ℕ) (polled : List Delivery) (p : Pool)
    → Ordered polled p
    → Ordered polled (release task p)
unfolding release
release-Ordered task polled p b = elim (Bool-cases (contains task p.running)) [
  | inl e ↦ rw e b
  | inr e ↦ rw e b
]

-- However the loop and its tasks are interleaved, the permits left and the tasks running are together
-- max_concurrency (so that no more run at once), and the jobs started, with those of the batch that wait
-- for a permit, are the jobs polled, each once and in order.
pub Reach-bounded :
    {queue : String} {max_concurrency : ℕ} {polled : List Delivery} {p : Pool}
    → Reach queue max_concurrency polled p
    → (p.permits + length p.running ≡ max_concurrency) × (p.started ++ p.batch ≡ polled)
unfolding receive spawn discard new_pool
Reach-bounded starts = (omega arith, refl)
Reach-bounded (receives {polled} {p} jobs r idle) =
    let (b, o) = Reach-bounded r in
    (b, sym (append_assoc p.started p.batch jobs) ∙ ap (λ js. js ++ jobs) o)
Reach-bounded {queue} {max_concurrency} {polled} (spawns {p} r) =
    let (b, o) = Reach-bounded r in
    (
      acquire-Balanced queue p.permits p.batch max_concurrency p refl b,
      acquire-Ordered queue p.permits p.batch polled p refl o,
    )
Reach-bounded {queue} {max_concurrency} {polled} (releases {p} task r) =
    let (b, o) = Reach-bounded r in
    (release-Balanced task max_concurrency p b, release-Ordered task polled p o)
Reach-bounded (discards task r) = Reach-bounded r
