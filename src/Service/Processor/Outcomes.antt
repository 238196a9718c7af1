-- ===== src/Service/Processor/Outcomes.antt =====
-- How a task ends: `ProcessJobTask` from the task to the tables that it leaves.
use digital_ocean_assignment.Base.{
  ℕ, suc, ◌≡◌, refl, ap, String, true, false, Option, none, some, ◌∷◌, ◌||◌, if◌then◌else◌, ok,
  invalid_json, arith, any,
}
use digital_ocean_assignment.Base.Int.{ℤ, leb_ℤ, fits_int4}
use digital_ocean_assignment.Base.Utf8.{Bytes, bytes}
use digital_ocean_assignment.Db.Rows.{StoreJob, Database}
use digital_ocean_assignment.Db.Session.{Env, World}
use digital_ocean_assignment.Db.Session.Rules.{world}
use digital_ocean_assignment.Db.Sql.{find}
use digital_ocean_assignment.Db.Sql.Laws.{update-update}
use digital_ocean_assignment.Db.Jobs.{has_id, set_state}
use digital_ocean_assignment.Db.Outbox.{is_event, new_event}
use digital_ocean_assignment.Db.Idempotency.{event_payload}
use digital_ocean_assignment.Db.Idempotency.Replay.{AllDone, Alone}
use digital_ocean_assignment.Service.Task.{Task, parse_job_process_payload}
use digital_ocean_assignment.Service.Processor.{
  Outside, failure, body, execute_job_webhook, webhook_error, store_error, run_job, complete_job,
  finish_job, process_job_task,
}
use digital_ocean_assignment.Service.Processor.Start.{running, next_attempt, start_job-done}
use digital_ocean_assignment.Service.Processor.Finish.{
  with_state, retry_event, complete_job-done, complete_job-refused, record_failure-last,
  record_failure-retry,
}

-- A later state overwrites an earlier one of the same job.
pub with_state-with_state :
    (id s s' : String) (e e' r r' : Option Bytes) (n n' : ℤ) (t t' : ℕ) (db : Database)
    → with_state id s' e' r' n' t' (with_state id s e r n t db) ≡ with_state id s' e' r' n' t' db
with_state-with_state id s s' e e' r r' n n' t t' db =
    ap (λ jobs. record db { jobs = jobs })
      (update-update (has_id id) (set_state s e r n t) (set_state s' e' r' n' t') db.jobs
        (λ x. refl) (λ x. refl))

-- A task that names a stored job, at a worker whose calls succeed.
pub record IsReady (env : Env) (out : Outside) (task : Task) (w : World) (job : StoreJob)
    : Type 0 where
  pub all_done : AllDone env
  pub alone : Alone env
  pub outbox_id : String
  pub parsed : out.unmarshal task.payload ≡ some (record { job_id = job.id; outbox_id = outbox_id })
  pub found : find (has_id job.id) w.db.jobs ≡ some job
  pub printed : env.uuid_in job.id ≡ some job.id
  pub fits : fits_int4 (next_attempt job) ≡ true

module _ (env : Env) (out : Outside) (task : Task) (w : World) (job : StoreJob)
    (ready : IsReady env out task w job) where
  -- The session after the first transaction.
  abbrev pub started : World
  started =
      world (suc (suc (suc (suc (suc w.calls)))))
        (running job.id (next_attempt job) (env.now (suc (suc (suc w.calls)))) w.db) none

  pub process_job_task-eq :
      process_job_task env out task w ≡ run_job env out (ok (job, next_attempt job)) started
  unfolding process_job_task parse_job_process_payload
  process_job_task-eq = ground (
    arith,
    ready.parsed,
    start_job-done env ready.all_done ready.alone w ready.found ready.printed ready.fits,
  )

  -- A task that is cut short by the cancelled context or by the injected failure leaves its job
  -- marked as running at the new attempt, and adds no event to the outbox; only the injected
  -- failure is reported to the queue.
  pub process_job-cut_short :
      (out.cancelled || out.injected) ≡ true
      → ((process_job_task env out task w).0 ≡ (
          if out.cancelled
          then none
          else some (webhook_error 500 (bytes "simulated random failure"))))
        × ((process_job_task env out task w).1.db
            ≡ running job.id (next_attempt job) (env.now (suc (suc (suc w.calls)))) w.db)
  unfolding run_job
  process_job-cut_short cut = ground (arith, process_job_task-eq)

  module _ (not_cancelled : out.cancelled ≡ false) (not_injected : out.injected ≡ false) where
    -- A webhook that answers with a status from 200 to 299 and a body that is JSON completes its
    -- job: the attempt is counted, the result stored, the error cleared, and nothing else changes.
    pub process_job-completed :
        {result value : Bytes}
        → execute_job_webhook out job ≡ body result
        → env.json_in result ≡ some value
        → ((process_job_task env out task w).0 ≡ none)
          × (now : ℕ) × ((process_job_task env out task w).1.db
              ≡ with_state job.id "completed" none (some value) (next_attempt job) now w.db)
    unfolding run_job finish_job
    process_job-completed {result} {value} answered read = (
      ground (arith, process_job_task-eq, done),
      env.now started.calls,
      ground (arith, process_job_task-eq, done, over),
    )
      where
        now : ℕ
        now = env.now (suc (suc (suc w.calls)))

        done : complete_job env job result (next_attempt job) started ≡ (
          none,
          world
              (suc started.calls)
              (with_state job.id "completed" none
                (some value)
                (next_attempt job)
                (env.now started.calls)
                started.db)
              none,
        )
        done =
            complete_job-done env ready.all_done ready.alone started job (next_attempt job)
              ready.printed ready.fits result read

        over :
            with_state job.id "completed" none
              (some value)
              (next_attempt job)
              (env.now started.calls)
              started.db
            ≡ with_state job.id "completed" none
                (some value)
                (next_attempt job)
                (env.now started.calls)
                w.db
        over =
            with_state-with_state job.id "running" "completed" none none none (some value)
              (next_attempt job) (next_attempt job) now (env.now started.calls) w.db

    -- A webhook that answers with a status from 200 to 299 and a body that the server does not
    -- accept as JSON leaves its job marked as running, although it has succeeded: no state follows,
    -- no event is added to the outbox, and the queue is told of the refused statement.
    pub process_job-unreadable :
        {result : Bytes}
        → execute_job_webhook out job ≡ body result
        → env.json_in result ≡ none
        → ((process_job_task env out task w).0 ≡ some (store_error invalid_json))
          × ((process_job_task env out task w).1.db
              ≡ running job.id (next_attempt job) (env.now (suc (suc (suc w.calls)))) w.db)
    unfolding run_job finish_job
    process_job-unreadable {result} answered bad =
        let refused =
          complete_job-refused env ready.all_done ready.alone started job (next_attempt job)
            ready.printed ready.fits result bad in
        (ground (arith, process_job_task-eq, refused), ground (arith, process_job_task-eq, refused))

    -- A webhook that fails on the last attempt marks its job as failed with the webhook's error,
    -- and adds no event to the outbox.
    pub process_job-failed :
        {message text : Bytes}
        → execute_job_webhook out job ≡ failure message
        → env.text_in message ≡ some text
        → leb_ℤ job.max_retries (next_attempt job) ≡ true
        → ((process_job_task env out task w).0 ≡ none)
          × (now : ℕ) × ((process_job_task env out task w).1.db
              ≡ with_state job.id "failed" (some text) none (next_attempt job) now w.db)
    unfolding run_job finish_job
    process_job-failed {message} {text} answered read last = (
      ground (arith, process_job_task-eq),
      env.now (suc started.calls),
      ground (
        arith,
        process_job_task-eq,
        record_failure-last env ready.all_done ready.alone started job (next_attempt job)
            ready.printed ready.fits message read last,
        with_state-with_state job.id "running" "failed" none (some text) none none
            (next_attempt job) (next_attempt job) (env.now (suc (suc (suc w.calls))))
            (env.now (suc started.calls)) w.db,
      ),
    )

    -- A webhook that fails on an earlier attempt puts its job back as queued with the webhook's
    -- error, and adds exactly one event to the outbox: an unpublished `job_retry` for the job.
    pub process_job-retried :
        {message text payload stored : Bytes}
        → execute_job_webhook out job ≡ failure message
        → env.text_in message ≡ some text
        → leb_ℤ job.max_retries (next_attempt job) ≡ false
        → event_payload env job.id job.type job.name job.webhook_url job.payload ≡ ok payload
        → env.json_in payload ≡ some stored
        → any (is_event (env.fresh_id (suc (suc started.calls)))) w.db.outbox ≡ false
        → ((process_job_task env out task w).0 ≡ none)
          × (now later : ℕ) × (id : String) × ((process_job_task env out task w).1.db
              ≡ record (with_state job.id "queued" (some text) none (next_attempt job) now w.db) {
                outbox = new_event (retry_event job payload) id job.id stored later ∷ w.db.outbox;
              })
    unfolding run_job finish_job
    process_job-retried {message} {text} {payload} {stored} answered read again encoded valid
          fresh =
        (
          ground (arith, process_job_task-eq),
          env.now (suc started.calls),
          env.now (suc (suc started.calls)),
          env.fresh_id (suc (suc started.calls)),
          ground (
            arith,
            process_job_task-eq,
            record_failure-retry env ready.all_done ready.alone started job (next_attempt job)
                ready.printed ready.fits message read again encoded valid fresh,
            with_state-with_state job.id "running" "queued" none (some text) none none
                (next_attempt job) (next_attempt job) (env.now (suc (suc (suc w.calls))))
                (env.now (suc started.calls)) w.db,
          ),
        )
