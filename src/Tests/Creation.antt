-- ===== src/Tests/Creation.antt =====
-- The creation of jobs, at concrete inputs.
use digital_ocean_assignment.Base.{◌≡◌, refl, true, false, ok}
use digital_ocean_assignment.Base.Utf8.{bytes}
use digital_ocean_assignment.Db.Rows.{StoreJob}
use digital_ocean_assignment.Db.Session.{
  World, ◌>>=◌, on_tx, begin_tx, commit, query_row, defer_rollback,
}
use digital_ocean_assignment.Db.Sql.{takes_text, find}
use digital_ocean_assignment.Db.Jobs.{select_job}
use digital_ocean_assignment.Db.Keys.{new_job, select_key, insert_job, insert_key}
use digital_ocean_assignment.Db.Outbox.{insert_event}
use digital_ocean_assignment.Db.Idempotency.{
  with_defaults, event_payload, after_lookup, create_job_with_idempotency,
}
use digital_ocean_assignment.Db.Idempotency.Atomic.{Creates, create_job-Creates}
use digital_ocean_assignment.Db.Idempotency.Registry.{Refines, create_job-Refines}
use digital_ocean_assignment.Db.Idempotency.Replay.{create_job_twice}
use digital_ocean_assignment.Tests.Fixtures.{calm, id_of, tables, start, params_two}

abbrev first_call : World
first_call = (create_job_with_idempotency calm "ada" "hash" "POST" "/jobs" params_two start).1

abbrev job_two : StoreJob
job_two = new_job (with_defaults params_two) (id_of 2) "ada" (bytes "{}") 2

first_call_creates :
    (create_job_with_idempotency calm "ada" "hash" "POST" "/jobs" params_two start).0
    ≡ ok (job_two, false)
unfolding create_job_with_idempotency after_lookup ◌>>=◌ on_tx begin_tx commit query_row
    defer_rollback find select_job select_key insert_job insert_key insert_event event_payload bytes
    takes_text
first_call_creates = refl

create_job_twice_example :
    let (again, second) =
      create_job_with_idempotency calm "ada" "hash" "PUT" "/" params_two first_call in
    (again ≡ ok (job_two, true)) × (second.db ≡ first_call.db)
create_job_twice_example =
    create_job_twice calm "ada" "hash" "POST" "/jobs" "PUT" "/" params_two params_two start job_two
      false (λ n. refl) (λ n db. refl) (λ n. refl) refl tt first_call_creates

create_job-Creates_example :
    let (result, w) =
      create_job_with_idempotency calm "ada" "hash" "POST" "/jobs" params_two start in
    Creates calm "ada" "hash" params_two tables result w.db
create_job-Creates_example =
    create_job-Creates calm "ada" "hash" "POST" "/jobs" params_two start (λ n. refl) refl tt

create_job-Refines_example :
    let (result, w) =
      create_job_with_idempotency calm "ada" "hash" "POST" "/jobs" params_two start in
    Refines "ada" "hash" tables result w.db
create_job-Refines_example =
    create_job-Refines calm "ada" "hash" "POST" "/jobs" params_two start (λ n. refl) refl tt
