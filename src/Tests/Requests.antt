-- ===== src/Tests/Requests.antt =====
-- Requests that follow one another, at concrete inputs.
use digital_ocean_assignment.Base.{
  ◌≡◌, ◌≢◌, String, ◌≤◌, ℕ, All, length, map, refl, none, some, true,
}
use digital_ocean_assignment.Base.Int.{pos, wrap64}
use digital_ocean_assignment.Base.Utf8.{bytes}
use digital_ocean_assignment.Db.Rows.{StoreJob}
use digital_ocean_assignment.Db.Session.{◌>>=◌, on_tx, begin_tx, commit, query_row, defer_rollback}
use digital_ocean_assignment.Db.Sql.{find, takes_text}
use digital_ocean_assignment.Db.Jobs.{select_job}
use digital_ocean_assignment.Db.Keys.{select_key, insert_job, insert_key}
use digital_ocean_assignment.Db.Outbox.{insert_event}
use digital_ocean_assignment.Db.Idempotency.{
  event_payload, after_lookup, create_job_with_idempotency,
}
use digital_ocean_assignment.Service.JobPayload.{new_job_payload}
use digital_ocean_assignment.Handler.Http.{RegisterJobRequest, job_state, empty}
use digital_ocean_assignment.Handler.Jobs.{
  create_job, create_job_handler, get_job_handler, delete_job_handler, with_user,
}
use digital_ocean_assignment.Handler.Jobs.Repeats.{already, create_job_handler_twice}
use digital_ocean_assignment.Handler.Jobs.Deletion.{without, delete_job_handler_lem}
use digital_ocean_assignment.Db.Sql.Order.{Ordered}
use digital_ocean_assignment.Db.Jobs.{newest_first}
use digital_ocean_assignment.Handler.Http.{write_json, Response, job_views, view}
use digital_ocean_assignment.Handler.Jobs.{list_jobs_handler}
use digital_ocean_assignment.Handler.Jobs.Spared.{belongs_to}
use digital_ocean_assignment.Handler.Jobs.Listing.{user_page, list_jobs_handler_lem}
use digital_ocean_assignment.Db.Jobs.{has_id}
use digital_ocean_assignment.Handler.Http.{UpdateJobRequest}
use digital_ocean_assignment.Handler.Jobs.{update_job_handler}
use digital_ocean_assignment.Handler.Jobs.Updates.{update_job_handler_lem}
use digital_ocean_assignment.Tests.Fixtures.{calm, job_one, tables, start}
use digital_ocean_assignment.Tests.Access.{ada_claims, is_user}
use digital_ocean_assignment.Tests.Steps.{IsValid-tables}

abbrev pub reminder : RegisterJobRequest
reminder = record {
  type = "sms";
  name = "reminder";
  webhook_url = "http://webhook:9000/echo";
  version = none;
  max_retries = none;
  timeout_seconds = none;
}

accepted_first :
    (create_job_handler calm (λ b. "hash") (some ada_claims) (some reminder) start).0.status ≡ 202
unfolding create_job_handler create_job with_user create_job_with_idempotency after_lookup ◌>>=◌
    on_tx begin_tx commit query_row defer_rollback find select_job select_key insert_job insert_key
    insert_event event_payload bytes new_job_payload takes_text
accepted_first = refl

create_job_handler_twice_example :
    let (first, w') =
      create_job_handler calm (λ b. "hash") (some ada_claims) (some reminder) start in
    let (second, w'') =
      create_job_handler calm (λ b. "hash") (some ada_claims) (some reminder) w' in
    (job : StoreJob) × (first.content ≡ job_state job.id job.state)
    × (second ≡ already job)
    × (w''.db ≡ w'.db)
create_job_handler_twice_example =
    create_job_handler_twice calm (λ b. "hash") (some ada_claims) reminder start (λ n. refl)
      (λ n db. refl) (λ n. refl) refl tt accepted_first

abbrev renamed : UpdateJobRequest
renamed = record {
  name = some "goodbye";
  webhook_url = none;
  version = some (pos 2);
  max_retries = some (pos 0);
  timeout_seconds = none;
}

delete_job_handler_lem_example :
    let (answer, w') = delete_job_handler calm (some ada_claims) "one" start in
    let missing : Response = record { status = 404; message = "job not found"; content = empty } in
    (answer ≡ record { status = 200; message = "job deleted"; content = empty })
    × (w'.db ≡ without "one" "ada" tables)
    × ((get_job_handler calm (some ada_claims) "one" w').0 ≡ missing)
    × ((get_job_handler calm (some ada_claims) "one" w').1.db ≡ w'.db)
    × ((update_job_handler calm (some ada_claims) "one" (some renamed) w').0 ≡ missing)
    × ((update_job_handler calm (some ada_claims) "one" (some renamed) w').1.db ≡ w'.db)
    × ((delete_job_handler calm (some ada_claims) "one" w').0 ≡ missing)
    × ((delete_job_handler calm (some ada_claims) "one" w').1.db ≡ w'.db)
unfolding find
delete_job_handler_lem_example =
    delete_job_handler_lem calm (some ada_claims) "one" "one" job_one renamed start (λ n. refl)
      (λ n db. refl) is_user refl refl IsValid-tables refl refl refl

list_jobs_handler_lem_example :
    (list_jobs_handler calm (some ada_claims) (pos 1) (pos 5) start
      ≡ write_json 200 "jobs listed"
          (job_views (map view (user_page "ada" 5 0 tables)))
          (record start { calls = 1 }))
    × ((skipped : ℕ)
        → All (λ job. belongs_to "ada" job ≡ true) (user_page "ada" 5 skipped tables)
          × Ordered newest_first (user_page "ada" 5 skipped tables)
          × (length (user_page "ada" 5 skipped tables) ≤ 5))
unfolding wrap64
list_jobs_handler_lem_example =
    list_jobs_handler_lem calm (some ada_claims) (pos 1) (pos 5) 4 start (λ n. refl) is_user refl
      refl

update_job_handler_lem_example :
    let (answer, w') = update_job_handler calm (some ada_claims) "one" (some renamed) start in
    (answer ≡ record { status = 200; message = "job updated"; content = empty })
    × ((now : ℕ) × (find (has_id "one") w'.db.jobs
          ≡ some (record job_one { name = "goodbye"; version = pos 2; updated_at = now })))
    × ((other : String)
        → other ≢ "one"
        → find (has_id other) w'.db.jobs ≡ find (has_id other) tables.jobs)
    × (w'.db ≡ record tables { jobs = w'.db.jobs })
unfolding find takes_text
update_job_handler_lem_example =
    update_job_handler_lem calm (some ada_claims) "one" renamed job_one start (λ n. refl)
      (λ n db. refl) (λ s u read. refl) is_user refl refl refl refl refl
      (refl, refl, refl, refl, refl)
