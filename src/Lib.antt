-- ===== src/Lib.antt =====
-- A distributed delayed-job and notification queue: an API that stores jobs in PostgreSQL,
-- schedulers that promote due jobs into Redis, and workers that claim and deliver them.
--
-- The parts. `Schema` has the tables of migrations/001_initial.sql and the operations on their rows
-- (`Schema.Table`). `Statements` has one function for each SQL statement of the program, named
-- after its constant, from the tables and the clock of the transaction to its rows and the new
-- tables. `Redis` is the interface of the Redis server, whose source is not here: sorted sets, SET
-- NX locks and counters, with the laws that the program relies on; `Redis.Memory` shows that the
-- laws can hold. A coroutine of the program is a tree of commands (`Effects`), one for each `await`
-- of the source on a server, the clock, `random` or the HTTP client. `Effects.Run` says what a
-- command does, what can fail, and how a coroutine runs on its own; `System` interleaves any
-- coroutines command by command.
--
-- The files and the code, by paths from the root of the repository:
--   Settings                 src/notify_queue/config.py
--   Models                   src/notify_queue/models.py, `JobCreate` with its validators
--   Ratelimit and below      src/notify_queue/ratelimit.py; `Calendar` stands for `strftime`
--   Webhooks                 src/notify_queue/webhooks.py, `fire_webhook`
--   Dlq, Statements.Audit    src/notify_queue/dlq.py, `dead_letter`
--   Worker.Claim             src/notify_queue/worker/claim.py, `claim_next_job`
--   Worker.Heartbeat         src/notify_queue/worker/heartbeat.py, `heartbeat_loop`
--   Worker.Outcome           src/notify_queue/worker/delivery.py, the `handle_` functions, `defer_job`
--   Worker.Delivery          src/notify_queue/worker/delivery.py, `execute_delivery`
--   Worker.Process           src/notify_queue/worker/delivery.py, `process_job`
--   Worker.Process.Delivers  `process_job` and a delivery that runs alone, side by side
--   Worker.Loop              src/notify_queue/worker/__main__.py, `worker_loop`
--   Worker.Pool              src/notify_queue/worker/__main__.py, the ids that `main` gives its workers
--   Statements.Worker        the statements of those three files
--   Scheduler                src/notify_queue/scheduler/scheduler.py, and the loop of __main__.py
--   Statements.Scheduler     the statements of scheduler.py
--   Api, Statements.Api      src/notify_queue/api/routes.py, all handlers but the mock of a webhook
--   Logs                     src/notify_queue/log.py, `setup_logging`
--   Startup                  `main` of worker/__main__.py, scheduler/__main__.py and scripts/seed.py,
--                            `lifespan` in api/app.py, db.py and redis_client.py, in src/notify_queue
--   Simulation               scripts/simulate.py, a client of the API's handlers
--   Seeding                  scripts/seed.py, the rows of its `Seeder` and its option --wipe
--   Lifecycle                the abstract view of a job: its request, and which status may follow which
--   Lifecycle.Outcomes       a job's row after each step of its life, column by column
--   System.Evolution         that view along the steps of the system
--   System.Once              how often a job is marked as sent, along the steps of the system
--   System.Journey           one job through promotion, claim and delivery
--   Consistency              well-formed tables, and what each statement does to that
--   Tests                    concrete rows, servers and systems, and the theorems at them
--
-- How it is modelled. Instants count microseconds from 0001-01-01T00:00Z and have no upper end, as
-- integers have none. A delivery's draw is k for k / 2^53. Scores and the shares of scripts/seed.py
-- are the source's floats, by `Base.Float`, in units of 2^-52; a float below 1 is rounded to these. UUIDs and worker ids are only compared and are numbers; `Worker.Pool` has the texts
-- of the latter. The order in which the server scans a table is the order of its list, which no
-- statement fixes. A statement is atomic, and so is a transaction: its first statement locks the
-- row that it changes, and a violated key rolls it back. A command may fail before or after the
-- server has done it, by the faults of `Moment`; a process may die between any two commands. A
-- POST answers what the moment says, an error that `fire_webhook` does not catch included.
-- Theorems on runs say which commands must not fail: `AllFine` none, `IsClean` none with every
-- POST answered or failed by an HTTP error, `BeatsFine` no heartbeat. The loops without an end
-- (`heartbeat_loop`, `scheduler_loop`, `worker_loop`) take the rounds in which `stop` is not set,
-- and a sleep stands for each of their waits on it. The `while` of `watch_until_drained` takes a
-- count of rounds, with an outcome of its own for a count that is too small: a count above that of
-- the rounds before the deadline is enough. All other loops are over lists or ranges and need no
-- fuel. `process_job` runs a delivery and its heartbeat in turns, by a list that says which of the
-- two is next. `Startup` runs the main functions: what the environment, asyncpg and redis answer
-- is in `Outside`, an interruption comes after a number of commands that is given, and the tasks
-- of `gather` take turns by a list.
--
-- Not modelled: what `create_app` tells FastAPI, and the JSONB codec of a connection; how the API
-- parses and prints JSON; what a log handler writes; the web page and the tests of the repository.
pub mod Base
pub mod Schema
pub mod Redis
pub mod Statements
pub mod Settings
pub mod Ratelimit
pub mod Effects
pub mod Webhooks
pub mod Dlq
pub mod Worker
pub mod Scheduler
pub mod Models
pub mod Api
pub mod Consistency
pub mod Lifecycle
pub mod Logs
pub mod System
pub mod Startup
pub mod Simulation
pub mod Seeding
pub mod Tests
