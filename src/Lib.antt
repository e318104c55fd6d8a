-- ===== src/Lib.antt =====
-- RelayQ: a job queue on Redis streams, with an SQLite outbox, workers and an HTTP API.
--
-- The program's parts, and the files that model them:
--   relayq/domain/job.py            Domain/Job, with Domain/Json for the values of the json module
--   relayq/domain/retry.py          Domain/Retry
--   relayq/domain/errors.py         Effect, and Effect/Action for code with effects
--   relayq/infrastructure/redis_stream.py
--                                   Infrastructure/RedisStream: Keys (key helpers), Decode (the loops
--                                   over the entries of a reply), and the operations themselves
--   relayq/infrastructure/sqlite_store.py
--                                   Infrastructure/SqliteStore
--   relayq/infrastructure/clock.py  the fields monotonic and utcnow of System; Infrastructure/Clock for
--                                   FakeClock
--   relayq/telemetry/metrics.py     Telemetry
--   relayq/application/enqueue.py   Application/Enqueue
--   relayq/application/execute.py   Application/Execute
--   relayq/application/recover.py   Application/Recover
--   relayq/worker/admission.py      Worker/Admission
--   relayq/worker/runner.py         Worker/Runner, and Worker/Runner/Lifecycle for the start and the end
--                                   of `run`
--   relayq/worker/shutdown.py       Worker/Shutdown
--   api/main.py                     Api/RateLimit, Api/CircuitBreaker, Api/Request, Api/Endpoints,
--                                   Api/Middleware, Api/Lifespan
--   cli.py                          Cli/Url, Cli/Api (its requests and output), Cli/Command, Cli/Main
--   run_worker.py                   RunWorker
-- The modules below a component's module hold its theorems and are named for what these are about. Tests
-- has runs of the model on small Redis servers. Prelude has the names and lemmas that all share.
--
-- How they interact. A client's request is read by Api/Request, and its job handed to `enqueue`, which
-- measures the queue, checks the idempotency key against the outbox, writes the job to the outbox in one
-- transaction and then to the queue's stream. A worker's loop asks Worker/Admission, reads jobs from the
-- stream as a consumer of the queue's group, and runs each in a task under a semaphore: `execute` calls the
-- job's handler, and then acknowledges the entry, leaves it pending, or moves the job to the dead-letter
-- stream. When the worker is asked to shut down, its loop ends with the pass that it is in, and Worker/Shutdown
-- waits for the tasks in flight and cancels those that are late. Every request to the API passes the rate
-- limiter, the log and the request id of Api/Middleware; Api/Lifespan and RunWorker wire the parts together;
-- Cli is a client of the API. Application/Recover claims entries that others left pending. The functions of the source keep
-- their names here; the leading underscore of a private one is dropped.
--
-- State. The program's objects are shared by reference; the model passes a System, which has the state of
-- the Redis service, the process's connection to the outbox, the calls made on the metrics, and the two
-- clocks. An operation is an action: from a state to a result (a value or an exception) and a new state, so
-- that what was written before a raise stays written. A job that the code changes in place is returned as
-- the call leaves it. The interleavings of a worker's tasks are a relation on the pool of Worker/Runner.
--
-- Parameters, for code that is not in the repository: the Redis server and its client (the record Redis,
-- over any type of states; a command may answer anything and raise anything; BreakerRedis for the commands
-- of the circuit breaker), the json module and the ISO
-- format of datetime (Codec), random.uniform, the handler of a job under asyncio.timeout (Handler), the
-- text of an exception, asyncio.wait and Task.cancel (EventLoop), the clock and the uuids of the middleware
-- (Sources), and what cli.py uses of Python's library and of the network (Library). Where a theorem relies
-- on what Redis does with a stream and its consumer group, it takes a Redis with the documented laws of
-- Infrastructure/Redis/Log (IsStream), which say nothing of which commands fail; IsDlq in
-- Infrastructure/RedisStream/DeadLetters has those of the stream of dead letters, and IsLoop in
-- Worker/Shutdown/Drain those of asyncio. Tests has a server and an event loop that obey them. SQLite and Python's sqlite3 are modelled as far as the store uses them: one
-- connection, its implicit transactions, the primary key and the unique index, and a write lock that
-- another connection may hold.
--
-- Numbers. Counts are natural numbers, as Python's are unbounded; durations of the retry policy are
-- counts of ticks, on which the doubling is exact; the token bucket's rate and times are whole numbers. A
-- JSON field with a type that RelayQ never writes is the exception untyped_field, of which nothing is said.
-- Every loop is a recursion on a list or a count, but two: recover_loop, which runs until stop is called or
-- its task is cancelled, is given a list that says of each round whether stop is called in it, and that ends
-- where the task is cancelled in its sleep; and list_queues, which scans until Redis
-- returns the cursor 0, is given a bound on its rounds, of which one for each page of the scan is enough.
--
-- Not modelled: log lines, but those of the API's requests; sleeps; the loading of the Lua script; the names, help
-- texts and buckets of the metrics; wait_for_shutdown, which only waits and has no caller; the HTTP layers
-- of FastAPI and urllib.
pub mod Prelude
pub mod Effect
pub mod Domain
pub mod Infrastructure
pub mod Telemetry
pub mod System
pub mod Application
pub mod Worker
pub mod Api
pub mod Cli
pub mod RunWorker
pub mod Tests
