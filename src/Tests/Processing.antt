-- ===== src/Tests/Processing.antt =====
-- The processing of tasks, at concrete inputs.
use digital_ocean_assignment.Base.{
  Option, sym, ap, ◌≡◌, refl, Bool, true, false, some, none, [], ◌∷◌, ok, err, String, invalid_json,
  ℕ,
}
use digital_ocean_assignment.Base.Int.{pos}
use digital_ocean_assignment.Base.Utf8.{Bytes, bytes}
use digital_ocean_assignment.Db.Rows.{StoreJob}
use digital_ocean_assignment.Db.Session.{Env, World}
use digital_ocean_assignment.Db.Sql.{find}
use digital_ocean_assignment.Db.Outbox.{new_event}
use digital_ocean_assignment.Db.Idempotency.{event_payload}
use digital_ocean_assignment.Service.Task.{
  Task, JobProcessPayload, marshal_task_payload, parse_job_process_payload,
}
use digital_ocean_assignment.Service.Processor.{
  Outside, Reply, response, execute_job_webhook, webhook_error, store_error, process_job_task,
}
use digital_ocean_assignment.Service.Processor.Confined.{elsewhere}
use digital_ocean_assignment.Service.Processor.Confined.Runs.{process_job_task_spares}
use digital_ocean_assignment.Service.Processor.Start.{running}
use digital_ocean_assignment.Service.Processor.Finish.{with_state, retry_event}
use digital_ocean_assignment.Service.Processor.Outcomes.{
  IsReady, process_job-cut_short, process_job-completed, process_job-unreadable, process_job-failed,
  process_job-retried,
}
use digital_ocean_assignment.Tests.Fixtures.{calm, job_one, tables, start}

abbrev pub task_one : Task
task_one = record {
  type = "job:process";
  payload = marshal_task_payload (record { job_id = "one"; outbox_id = "event" });
}

-- A worker whose webhook gives this answer.
abbrev pub worker : Bool → Bool → Reply → Outside
worker cancelled injected reply = record {
  unmarshal = λ b. some (record { job_id = "one"; outbox_id = "event" });
  cancelled = cancelled;
  injected = injected;
  post = λ seconds url sent. reply;
}

-- The job before its last attempt.
abbrev tried : StoreJob
tried = record job_one { attempts = pos 1 }

abbrev tried_start : World
tried_start = record start { db = record tables { jobs = tried ∷ [] } }

-- A server that does not accept the empty text as JSON.
abbrev strict : Env
strict = record calm { json_in = λ s. elim s [ [] ↦ none | c ∷ cs ↦ some (c ∷ cs) ] }

IsReady-one :
    (cancelled injected : Bool) (reply : Reply)
    → IsReady calm (worker cancelled injected reply) task_one start job_one
unfolding find
IsReady-one cancelled injected reply = record {
  all_done = λ n. refl;
  alone = λ n db. refl;
  outbox_id = "event";
  parsed = refl;
  found = refl;
  printed = refl;
  fits = refl;
}

IsReady-tried : (reply : Reply) → IsReady calm (worker false false reply) task_one tried_start tried
unfolding find
IsReady-tried reply = record {
  all_done = λ n. refl;
  alone = λ n db. refl;
  outbox_id = "event";
  parsed = refl;
  found = refl;
  printed = refl;
  fits = refl;
}

IsReady-strict : (reply : Reply) → IsReady strict (worker false false reply) task_one start job_one
unfolding find
IsReady-strict reply = record {
  all_done = λ n. refl;
  alone = λ n db. refl;
  outbox_id = "event";
  parsed = refl;
  found = refl;
  printed = refl;
  fits = refl;
}

process_job-cut_short_example :
    let (answer, w) =
      process_job_task calm (worker false true (response 200 (bytes "{}"))) task_one start in
    (answer ≡ some (webhook_error 500 (bytes "simulated random failure")))
    × (w.db ≡ running "one" (pos 1) 3 tables)
process_job-cut_short_example =
    process_job-cut_short calm (worker false true (response 200 (bytes "{}"))) task_one start
      job_one (IsReady-one false true (response 200 (bytes "{}"))) refl

process_job-completed_example :
    let (answer, w) =
      process_job_task calm (worker false false (response 204 (bytes "{}"))) task_one start in
    (answer ≡ none)
    × (now : ℕ) × (w.db ≡ with_state "one" "completed" none (some (bytes "{}")) (pos 1) now tables)
unfolding execute_job_webhook
process_job-completed_example =
    process_job-completed calm (worker false false (response 204 (bytes "{}"))) task_one start
      job_one (IsReady-one false false (response 204 (bytes "{}"))) refl refl {result = bytes "{}"}
      {value = bytes "{}"} refl refl

process_job-unreadable_example :
    let (answer, w) =
      process_job_task strict (worker false false (response 204 [])) task_one start in
    (answer ≡ some (store_error invalid_json)) × (w.db ≡ running "one" (pos 1) 3 tables)
unfolding execute_job_webhook
process_job-unreadable_example =
    process_job-unreadable strict (worker false false (response 204 [])) task_one start job_one
      (IsReady-strict (response 204 [])) refl refl {result = []} refl refl

process_job-failed_example :
    let (answer, w) =
      process_job_task calm
        (worker false false (response 503 (bytes "busy")))
        task_one
        tried_start in
    (answer ≡ none)
    × (now : ℕ) × (w.db
        ≡ with_state "one" "failed" (some (bytes "busy")) none (pos 2) now tried_start.db)
unfolding execute_job_webhook
process_job-failed_example =
    process_job-failed calm (worker false false (response 503 (bytes "busy"))) task_one tried_start
      tried (IsReady-tried (response 503 (bytes "busy"))) refl refl {message = bytes "busy"}
      {text = bytes "busy"} refl refl refl

-- The payload of the event that puts the job back.
abbrev retried : Bytes
retried =
    elim (event_payload calm "one" "email" "welcome" "http://webhook:9000/echo" (bytes "{}")) [
      | err _ ↦ []
      | ok payload ↦ payload
    ]

retried-eq :
    event_payload calm "one" "email" "welcome" "http://webhook:9000/echo" (bytes "{}") ≡ ok retried
unfolding event_payload
retried-eq = refl

process_job-retried_example :
    let (answer, w) =
      process_job_task calm (worker false false (response 503 (bytes "busy"))) task_one start in
    (answer ≡ none)
    × (now later : ℕ) × (id : String) × (w.db
        ≡ record (with_state "one" "queued" (some (bytes "busy")) none (pos 1) now tables) {
          outbox = new_event (retry_event job_one retried) id "one" retried later ∷ tables.outbox;
        })
unfolding execute_job_webhook
process_job-retried_example =
    process_job-retried calm (worker false false (response 503 (bytes "busy"))) task_one start
      job_one (IsReady-one false false (response 503 (bytes "busy"))) refl refl
      {message = bytes "busy"} {text = bytes "busy"} {payload = retried} {stored = retried} refl
      refl refl retried-eq refl refl

abbrev job_named : Option JobProcessPayload → Option String
job_named none = none
job_named (some payload) = some payload.job_id

process_job_task_spares_example :
    elsewhere "one"
      (process_job_task calm (worker false false (response 500 (bytes "down"))) task_one start).1.db
    ≡ elsewhere "one" tables
unfolding parse_job_process_payload
process_job_task_spares_example =
    process_job_task_spares calm (worker false false (response 500 (bytes "down"))) task_one "one"
      start (λ n db. refl) refl (λ payload e. sym (ap job_named e)) refl
