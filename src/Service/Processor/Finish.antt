-- ===== src/Service/Processor/Finish.antt =====
-- What `ProcessJobTask` stores after the webhook: the completion, the retry or the failure.
use digital_ocean_assignment.Base.{
  ℕ, suc, ◌+◌, ◌≡◌, String, true, false, Option, none, some, ◌∷◌, ok, invalid_json, arith, any,
}
use digital_ocean_assignment.Base.Int.{ℤ, leb_ℤ, fits_int4}
use digital_ocean_assignment.Base.Utf8.{Bytes}
use digital_ocean_assignment.Db.Rows.{StoreJob, StoreCreateOutboxEventParams, Database}
use digital_ocean_assignment.Db.Session.{
  Env, World, on_tx, on_pool, begin_tx, commit, defer_rollback, ◌>>=◌,
}
use digital_ocean_assignment.Db.Session.Rules.{world}
use digital_ocean_assignment.Db.Sql.{update}
use digital_ocean_assignment.Db.Jobs.{
  has_id, set_state, update_state, update_job_state_tx, update_job_state,
}
use digital_ocean_assignment.Db.Outbox.{is_event, new_event, insert_event, create_outbox_event_tx}
use digital_ocean_assignment.Db.Idempotency.{event_payload}
use digital_ocean_assignment.Db.Idempotency.Replay.{AllDone, Alone}
use digital_ocean_assignment.Service.Processor.{
  store_error, queue_retry, record_failure, complete_job,
}

-- The tables with the state of the job of this id set.
abbrev pub with_state : String → String → Option Bytes → Option Bytes → ℤ → ℕ → Database → Database
with_state id state last_error result attempts now db = record db {
  jobs = update (has_id id) (set_state state last_error result attempts now) db.jobs;
}

abbrev pub retry_event : StoreJob → Bytes → StoreCreateOutboxEventParams
retry_event job payload = record {
  aggregate_type = "job";
  aggregate_id = job.id;
  event_type = "job_retry";
  payload = payload;
  published = false;
}

module _ (env : Env) (all_done : AllDone env) (alone : Alone env) (w : World) (job : StoreJob)
    (attempts : ℤ) (printed : env.uuid_in job.id ≡ some job.id)
    (fits : fits_int4 attempts ≡ true) where
  pub complete_job-done :
      (result : Bytes) {value : Bytes}
      → env.json_in result ≡ some value
      → complete_job env job result attempts w ≡ (
        none,
        world
            (suc w.calls)
            (with_state job.id "completed" none (some value) attempts (env.now w.calls) w.db)
            w.tx,
      )
  unfolding complete_job update_job_state on_pool update_state
  complete_job-done result read = ground (arith, all_done w.calls, alone w.calls w.db)

  -- The server refuses a result that is no JSON, and the error is passed on.
  pub complete_job-refused :
      (result : Bytes)
      → env.json_in result ≡ none
      → complete_job env job result attempts w
        ≡ (some (store_error invalid_json), world (suc w.calls) w.db w.tx)
  unfolding complete_job update_job_state on_pool update_state
  complete_job-refused result bad = ground (arith, all_done w.calls, alone w.calls w.db)

  module _ (message : Bytes) {text : Bytes} (read : env.text_in message ≡ some text) where
    pub record_failure-last :
        leb_ℤ job.max_retries attempts ≡ true
        → (record_failure env job message attempts w).1.db
          ≡ with_state job.id "failed" (some text) none attempts (env.now (suc w.calls)) w.db
    unfolding record_failure update_job_state_tx on_tx begin_tx commit defer_rollback ◌>>=◌
        update_state
    record_failure-last last = ground (
      arith,
      all_done w.calls,
      all_done (suc w.calls),
      all_done (suc (suc w.calls)),
      alone w.calls w.db,
    )

    pub record_failure-retry :
        {payload stored : Bytes}
        → leb_ℤ job.max_retries attempts ≡ false
        → event_payload env job.id job.type job.name job.webhook_url job.payload ≡ ok payload
        → env.json_in payload ≡ some stored
        → any (is_event (env.fresh_id (suc (suc w.calls)))) w.db.outbox ≡ false
        → (record_failure env job message attempts w).1.db
          ≡ record (with_state job.id "queued"
              (some text)
              none
              attempts
              (env.now (suc w.calls))
              w.db) {
                outbox =
                    new_event
                      (retry_event job payload)
                      (env.fresh_id (suc (suc w.calls)))
                      job.id
                      stored
                      (env.now (suc (suc w.calls)))
                    ∷ w.db.outbox;
              }
    unfolding record_failure queue_retry update_job_state_tx create_outbox_event_tx on_tx begin_tx
        commit defer_rollback ◌>>=◌ update_state insert_event
    record_failure-retry again encoded valid fresh = ground (
      arith,
      all_done w.calls,
      all_done (suc w.calls),
      all_done (suc (suc w.calls)),
      all_done (suc (suc (suc w.calls))),
      alone w.calls w.db,
    )

    -- The calls of the second transaction.
    pub record_failure-retry_calls :
        {payload stored : Bytes}
        → leb_ℤ job.max_retries attempts ≡ false
        → event_payload env job.id job.type job.name job.webhook_url job.payload ≡ ok payload
        → env.json_in payload ≡ some stored
        → any (is_event (env.fresh_id (suc (suc w.calls)))) w.db.outbox ≡ false
        → (record_failure env job message attempts w).1.calls ≡ 4 + w.calls
    unfolding record_failure queue_retry update_job_state_tx create_outbox_event_tx on_tx begin_tx
        commit defer_rollback ◌>>=◌ update_state insert_event
    record_failure-retry_calls again encoded valid fresh = ground (
      arith,
      all_done w.calls,
      all_done (suc w.calls),
      all_done (suc (suc w.calls)),
      all_done (suc (suc (suc w.calls))),
      alone w.calls w.db,
    )
