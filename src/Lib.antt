-- ===== src/Lib.antt =====
-- The job service: an HTTP API that registers jobs, an outbox in PostgreSQL, a poller that moves the
-- outbox's events to a task queue, and a worker that posts each job to its webhook.
--
-- A request passes the check of its token (middleware/jwt_auth.go) and reaches a handler
-- (handler/routes.go), which calls the store (db/store.go). Creating a job writes the job, its
-- idempotency key and an event of the outbox in one transaction. `pollOnce`
-- (service/outbox_poller.go) marks unpublished events as published and enqueues a task for each.
-- `ProcessJobTask` (service/processor.go) takes a task, counts the attempt, calls the webhook and
-- stores how the job ended, or writes another event for a retry.
--
-- Files, and the code that they model:
--   Base, Base/*: numbers, lists, results, UTF-8 bytes.
--   Json: the part of encoding/json that writes strings, integers and objects. Json/Strings,
--     Json/Integers, Json/Members: how it is read. Base/Strconv: `strconv.Atoi`.
--   Db/Rows: the structs of db/store.go and the tables of migrations/*.up.sql.
--   Db/Session: calls of the store. `Env` is what PostgreSQL and the driver decide: how the call with
--     a number ends (done, failed, or done with its answer lost), what other sessions have committed
--     before it, the rows that they hold locked, generated ids, the clock, and the text forms of uuid,
--     jsonb and text. `World` is the number of calls, the committed tables, and those of the open
--     transaction. Db/Session/Rules: how each call can end.
--     Db/Session/Keeping: claims about the tables along a program.
--   Db/Sql: WHERE, SET, DELETE, ORDER BY, LIMIT and OFFSET over lists of rows. Db/Sql/Laws: their
--     laws.
--   Db/Users, Db/Jobs, Db/Outbox: the methods of `Store` on these tables. A method is an action on
--     the session, and its statement a function of the tables with the constraints of the migrations.
--   Db/Keys, Db/Idempotency: `CreateJobWithIdempotency`. `after_lookup` is what follows the look-up of
--     the key, `reuse_job` the path of a known request, `register_job` that of a new one.
--   Service/JobPayload, Service/Task, Service/Token: service/job_payload.go, service/task.go,
--     service/token.go with service/auth.go.
--   Service/Idempotency: service/idempotency.go. A value is a tree, `canonical` is `CanonicalJSON`.
--   Service/Poller: `pollOnce`. `claim` is its transaction, `dispatch_all` the loop after it.
--     Service/Poller/Loop: `StartOutboxPollers` by whole rounds. Service/Poller/Interleaved: the same
--     by single statements, with the locks of the rows as a part of the state.
--   Service/Processor: `ProcessJobTask` and `executeJobWebhook`. `start_job` is the first transaction,
--     `record_failure` the second, `complete_job` the last call.
--   Handler/Http, Handler/Users, Handler/Jobs: the requests, answers and handlers of
--     handler/routes.go, and `NewJWTAuth`. `with_user` is the check that opens each handler of jobs.
--   Db/Valid: the invariant of the tables, and that every statement and every program over the session
--     keeps it. System: requests, rounds of the poller and tasks as the steps of one session, and what
--     any number of them leaves.
--   Handler/Logging: middleware/logging.go. Handler/Routes: `RegisterRoutes` and the routes of
--     cmd/main.go; `serve` takes a request through the middleware to its handler.
--   Programs: db/open.go, db/migrate.go and the programs under cmd/, as the events of a run.
--   The other children of these modules hold the proofs, and Tests the concrete inputs.
--
-- Bounds: every loop is over a list of rows, events or turns, so no fuel is used; only `digits` has
-- fuel, the number plus one, and a number has no more digits than that. An `int` column refuses
-- what does not fit in 32 bits; the product of page and page size wraps around in 64 bits. JSON
-- text of a `json.RawMessage`, the reading of request bodies and of task payloads, SHA-256,
-- golang-jwt, bcrypt, go-chi and asynq are parameters, with their documented behaviour as named
-- hypotheses (`MakesUuids`, `PrintsUuids`, `VerifiesSigned`, `RefusesExpired`, `Signs`,
-- `ChecksHashed`, `FindsRegistered`). The order of rows that tie in ORDER BY is that of the table.
--
-- Not modelled: the log lines of the handlers and the services, the router, which is a parameter,
-- and the generated API documentation (docs/docs.go). `New` of handler/routes.go and `NewStore` of
-- db/store.go only wrap their argument. In `Db/Session` other sessions act through `peers` and
-- `locked` of the environment, in front of a statement on the pool and of the begin of a
-- transaction: nothing of theirs happens inside an open transaction, whose commit replaces the
-- tables, and a round of a poller in a turn is one step. Statements of two transactions interleave
-- in Service/Poller/Interleaved only, for the goroutines of the pollers; the races of other
-- transactions under READ COMMITTED are not modelled. A text that the server refuses, one with a
-- NUL character, is refused where it is stored; a look-up by such a text finds no row here and is
-- an error there, and the handlers answer both alike.
mod Base
mod Json
mod Db
mod Service
mod Handler
mod System
mod Programs
mod Tests
